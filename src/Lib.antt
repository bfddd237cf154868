-- ===== src/Lib.antt =====
-- TLMBoy, a Game Boy emulator in C++ on SystemC and TLM: its CPU and the modules around it.
--
-- The program is a set of SystemC modules that GbTop (src/gb_top.cpp) binds to one bus. The CPU
-- reads and writes through the bus, which passes a transaction on to the one slave whose address
-- range holds the address; the interrupt registers are shared bytes that the devices set and the
-- CPU polls. A transaction is a command, an address and a data byte, and leaves a response status.
--
-- Files and code:
--   Base         casts to u8 and u16, IsBitSet and SetBit of src/utils.h, lemmas on bit operations
--   Tlm          the commands and the response statuses of a transaction
--   Cpu.RegFile  src/reg_file.h: the twelve bytes, with the 16-bit registers as views (Views)
--   Cpu.State    src/cpu.h, src/cpu.cpp: the CPU, WriteBus, ReadBus and the instruction fetches
--   Cpu.Flags    SetFlagC, GetFlagC and so on, of src/cpu.cpp
--   Cpu.Add, Sub, Logic, Inc, Rotate, RotateAddr, BitOps, Load, Jump
--                src/cpu_ops.cpp, a function instr_x for each InstrX; a function x_value is what the
--                forms with a byte from memory and from the instruction have in common
--   Cpu.Control  HALT, DI, EI and the semihosting instruction of src/cpu_ops.cpp, and
--                HandleInterrupts of src/cpu.cpp
--   Cpu.Instr, Decode, Execute
--                src/cpu_jumptable.cpp: the calls, the two switches as tables (Decode.Main,
--                Decode.Cb), and a round of DoMachineCycle
--   Cpu.Alu, Cpu.Ram
--                the form of the arithmetic results; what ordinary memory behind the bus promises
--   Timer, Joypad, Serial
--                src/timer.cpp, src/joypad.cpp, src/serial.cpp: the state as a record, a function
--                for each handler and for a round of each loop
--   Bus          src/bus.cpp (Bus/Direct: debug access and DMI) and the AddBusSlave calls of
--                src/gb_top.cpp
--   Memory       src/generic_memory.cpp (Memory/File: loading, debug access, DMI), and the work
--                RAM with its echo of src/gb_top.cpp
--   Cartridge    src/cartridge.cpp: BankSwitchedMem, and the controllers Rom (from its constructor
--                to UnmapBootRom, on a file's size and bytes), Mbc1, with its
--                constructor and its save file in Start, Mbc3 and Mbc5,
--                with their constructors in Cartridge.Start
--   Io           src/io_registers.cpp: the registers at 0xFF10, the requests on the signals, and the
--                DMA transfer over the bus
--   Apu          src/apu.h, src/apu.cpp: the channels, DecrementLengths and DoSweep; Notes has the
--                envelopes, reloads, triggers and the audio loop's round, Stream what the audio
--                callback reads and the shift register
--   Ppu          src/ppu.h, src/ppu.cpp: the lines of the background and the window; Sprites has
--                the sprites of a line, Render the render loop, cut at its waits,
--                Screenshot the file that DummyWindow::SaveScreenshot writes
--   SymfileTracer
--                src/symfile_tracer.cpp: the accesses to the ROM and the ranges that are printed
--   Gdb          src/gdb_server.cpp: Text has the numbers, the check sum and the frame, Split the
--                regular expression, Server and Dispatch a function for each command, Receive the
--                reception of messages and the start of a round of DoMachineCycle; Cpu.Debug the
--                debug accesses of src/cpu.cpp
--   GameInfo     src/game_info.h, src/game_info.cpp: the tables and the decoding of the header, and
--                the choice of the controller in src/cartridge.cpp
--   Examples     the theorems at concrete states
--
-- How state and errors are modelled: an operation of the CPU is a function from the CPU to a result,
-- which is a value and the CPU afterwards, or a fault (an exception, or exit). The rest of the system
-- is a type W behind the record Socket of Cpu.State, with the reads, writes, DMI pointers and waits
-- that the CPU uses; nothing is assumed of it but where a theorem takes the interface Ram. A device's
-- b_transport returns the response with the data byte, and the device; a failed assert is a
-- response of its own, and so is a transaction that leaves the status as it was.
--
-- Numbers are natural numbers; every cast to 8 or 16 bits is written out, and so is the promotion of
-- signed bytes to 32 bits. Loops over time are functions for one round. HALT, which waits until an
-- interrupt is pending, has a bound on its rounds; a bound above the number of rounds without an
-- interrupt is enough, and a smaller one ends in the fault still_waiting.
--
-- The debugger's socket is the list of the bytes that have arrived and the list of the texts sent. A
-- read beyond the bytes that have arrived waits in the code; the model stops there with the fault
-- blocked, which is no end of the code's function, and a theorem that something ends excludes it.
-- The loop over the pending messages has a bound on its rounds; as many rounds as whole messages have
-- arrived are enough. The field interrupt_event of the serial port is the delay with which the event
-- was notified; that the time passes is the scheduler's.
--
-- The render loop of the PPU is a function from the place after a wait to the place after the next,
-- with the clock cycles in between; a failed assertion is none. Positions on the screen that are
-- ints below zero in the code are compared with the same number added on both sides.
--
-- Not modelled: SystemC's scheduler, the host's clock, SDL and the floating-point samples of the
-- channels, the windows, which are a parameter of the render loop, the sockets of the TCP server, the
-- options, and opening and writing files, which are the host's.
pub mod Base
pub mod Tlm
pub mod Cpu
pub mod Timer
pub mod Joypad
pub mod Bus
pub mod Memory
pub mod Serial
pub mod Cartridge
pub mod Gdb
pub mod GameInfo
pub mod Io
pub mod Apu
pub mod Ppu
pub mod SymfileTracer
pub mod Examples
