-- ===== src/Cpu/State.antt =====
-- src/cpu.h, src/cpu.cpp and src/common.h: the state of the CPU, its access to the bus, and its
-- instruction fetch. What the CPU reaches through its socket and its DMI pointers is `Socket`.
use tlmboy.Base.{ℕ, ◌+◌, ◌*◌, Bool, Option, none, some, u8, u16, bit_or, leb, if◌then◌else◌}
use tlmboy.Cpu.RegFile.{RegFile, Reg8, Reg16, pc, get8, set8, get16, set16}

-- `GbCommand::Cmd`.
pub data GbCommand : Type 0 where
  read_inst read_data write_data : GbCommand

-- Ways in which the code gives up: a `runtime_error`, or `exit(EXIT_FAILURE)`.
pub data Fault : Type 0 where
  response_error : ℕ → Fault
  not_implemented : ℕ → Fault
  unknown_instruction : ℕ → Fault
  unknown_cb_instruction : ℕ → Fault
  -- The bound on the rounds of a waiting loop was reached.
  still_waiting : Fault

pub data Result (A : Type 0) : Type 0 where
  ok : A → Result A
  err : Fault → Result A

-- `init_socket`, the DMI pointers and `wait`, over the state `W` of all that is not the CPU.
pub record Socket (W : Type 0) : Type 0 where
  -- `b_transport` with a read command; `none` is an error response.
  pub read : W → ℕ → GbCommand → Option (ℕ × W)
  -- `b_transport` with a write command; the CPU does not look at the response.
  pub write : W → ℕ → ℕ → W
  -- The memory behind `rom_bank_0_`, `none` for the null pointer.
  pub rom_bank_0 : W → Option (ℕ → ℕ)
  -- The bytes behind `reg_intr_enable_dmi` and `reg_intr_pending_dmi`.
  pub intr_enable : W → ℕ
  pub intr_pending : W → ℕ
  pub set_intr_pending : W → ℕ → W
  -- What the other modules do while the CPU waits for so many nanoseconds.
  pub wait : ℕ → W → W

-- `Cpu::CpuState`.
pub data CpuState : Type 0 where
  nominal test_passed test_failed : CpuState

pub record Cpu (W : Type 0) : Type 0 where
  pub reg_file : RegFile
  pub intr_master_enable : Bool
  pub wait_ns : ℕ
  pub cpu_state : CpuState
  -- Set by `sc_stop()`.
  pub stopped : Bool
  pub world : W

abbrev pub ns_per_clk_cycle : ℕ
ns_per_clk_cycle = 238

abbrev pub M : Type 0 → Type 0 → Type 0
M W A = Cpu W → Result (A × Cpu W)

module _ {W : Type 0} where
  abbrev pub pure : {A : Type 0} → A → M W A
  pure x s = ok (x, s)

  abbrev pub fail : {A : Type 0} → Fault → M W A
  fail e s = err e

  infixl 5 ◌>>=◌ ◌>>◌
  abbrev pub ◌>>=◌ : {A B : Type 0} → M W A → (A → M W B) → M W B
  ◌>>=◌ m k s = elim (m s) [ ok (x, s') ↦ k x s' | err e ↦ err e ]

  abbrev pub ◌>>◌ : {B : Type 0} → M W (Unit {0}) → M W B → M W B
  m >> k = m >>= λ _. k

  abbrev pub gets : {A : Type 0} → (Cpu W → A) → M W A
  gets g s = ok (g s, s)

  abbrev pub modify : (Cpu W → Cpu W) → M W (Unit {0})
  modify g s = ok (tt, g s)

  -- A change of the register file, and `wait_ns_ = n * kNsPerClkCycle`.
  abbrev pub on_regs : (RegFile → RegFile) → Cpu W → Cpu W
  on_regs g s = record s { reg_file = g s.reg_file }

  abbrev pub wait_cycles : ℕ → Cpu W → Cpu W
  wait_cycles n s = record s { wait_ns = n * ns_per_clk_cycle }

  -- Reading and assigning a register.
  abbrev pub reg : Reg8 → Cpu W → ℕ
  reg r s = get8 r s.reg_file

  abbrev pub set_reg : Reg8 → ℕ → Cpu W → Cpu W
  set_reg r v = on_regs (set8 r v)

  abbrev pub reg16 : Reg16 → Cpu W → ℕ
  reg16 r s = get16 r s.reg_file

  abbrev pub set_reg16 : Reg16 → ℕ → Cpu W → Cpu W
  set_reg16 r v = on_regs (set16 r v)

  -- `++reg` and `--reg` of a `Reg<u16>`.
  abbrev pub inc16 : Reg16 → Cpu W → Cpu W
  inc16 r s = set_reg16 r (reg16 r s + 1) s

  abbrev pub dec16 : Reg16 → Cpu W → Cpu W
  dec16 r s = set_reg16 r (reg16 r s + 65535) s

module _ {W : Type 0} (bus : Socket W) where
  -- `Cpu::WriteBus`.
  unfoldable pub write_bus : ℕ → ℕ → M W (Unit {0})
  write_bus addr dat s = ok (tt, record s { world = bus.write s.world (u16 addr) (u8 dat) })

  -- `Cpu::ReadBus` past the shortcut through the DMI pointer.
  unfoldable pub read_socket : ℕ → GbCommand → M W ℕ
  read_socket addr cmd s = elim (bus.read s.world addr cmd) [
    | none ↦ err (response_error addr)
    | some (v, w) ↦ ok (u8 v, record s { world = w })
  ]

  -- `Cpu::ReadBus`.
  unfoldable pub read_bus : ℕ → GbCommand → M W ℕ
  unfolding read_socket
  read_bus addr cmd s = elim (bus.rom_bank_0 s.world) [
    | none ↦ read_socket (u16 addr) cmd s
    | some mem ↦
        if leb (u16 addr) 0x3FFF then ok (u8 (mem (u16 addr)), s) else read_socket (u16 addr) cmd s
  ]

  -- `Cpu::FetchNextInstrByte` and `Cpu::FetchNext2InstrBytes`.
  unfoldable pub fetch_next_instr_byte : M W ℕ
  fetch_next_instr_byte = do
    val ← gets (reg16 pc) >>= λ at. read_bus at read_inst
    modify (inc16 pc)
    pure val

  unfoldable pub fetch_next2_instr_bytes : M W ℕ
  fetch_next2_instr_bytes = do
    lsb ← gets (reg16 pc) >>= λ at. read_bus at read_inst
    modify (inc16 pc)
    msb ← gets (reg16 pc) >>= λ at. read_bus at read_inst
    modify (inc16 pc)
    pure (bit_or (u16 (msb * 256)) lsb)

  -- `ReadBus(addr_reg, GbCommand::kGbReadData)`.
  abbrev pub read_at : Reg16 → M W ℕ
  read_at r = gets (reg16 r) >>= λ at. read_bus at read_data

  -- `WriteBus(addr_reg, dat)`.
  abbrev pub write_at : Reg16 → ℕ → M W (Unit {0})
  write_at r dat = gets (reg16 r) >>= λ at. write_bus at dat
