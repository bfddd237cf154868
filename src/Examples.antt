-- ===== src/Examples.antt =====
-- A plain memory behind the CPU's socket and small states, at which the theorems are applied.
mod Arithmetic
mod Stacks
mod Devices
mod Cartridges
mod Registers
mod Sound
mod Screen
mod Tracing
mod Debugger
mod Games
use tlmboy.Base.{
  ℕ, ◌≡◌, ◌≢◌, ◌<◌, arith, Bool, true, false, some, none, ◌&&◌, u8, leb, ltb, ◌==◌, if◌then◌else◌,
}
use tlmboy.Cpu.RegFile.{RegFile}
use tlmboy.Cpu.State.{Cpu, Socket, nominal}
use tlmboy.Cpu.Ram.{Ram}
use tlmboy.Cartridge.{update}

-- Memory alone; the interrupt registers are the cells 0xFFFF and 0xFF0F. Waiting moves the cell
-- 0xFF05 to the pending interrupts, and puts the timer's bit there.
abbrev pub plain : Socket (ℕ → ℕ)
plain = record {
  read = λ w at cmd. some (u8 (w at), w);
  write = λ w at v. update at v w;
  rom_bank_0 = λ w. none;
  intr_enable = λ w. w 0xFFFF;
  intr_pending = λ w. w 0xFF0F;
  set_intr_pending = λ w v. update 0xFF0F v w;
  wait = λ n w. update 0xFF0F (w 0xFF05) (update 0xFF05 4 w);
}

-- A memory of the byte 18 at every address, which only the addresses of the work RAM show.
abbrev pub bytes : ℕ → ℕ
bytes at = 18

abbrev pub regs : RegFile
regs = record {
  a = 0x45;
  f = 0x10;
  b = 0x38;
  c = 0x0F;
  d = 1;
  e = 2;
  h = 0xC0;
  l = 0;
  sp_msb = 0xDF;
  sp_lsb = 0xFE;
  pc_msb = 0x12;
  pc_lsb = 0x34;
}

abbrev pub cpu_with : (ℕ → ℕ) → Cpu (ℕ → ℕ)
cpu_with w = record {
  reg_file = regs;
  intr_master_enable = true;
  wait_ns = 0;
  cpu_state = nominal;
  stopped = false;
  world = w;
}

abbrev pub cpu : Cpu (ℕ → ℕ)
cpu = cpu_with bytes
