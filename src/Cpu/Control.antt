-- ===== src/Cpu/Control.antt =====
-- src/cpu_ops.cpp and src/cpu.cpp: NOP, HALT, DI, EI, the semihosting instruction, and interrupts.
pub mod Interrupts
use tlmboy.Base.{ℕ, zero, suc, ◌-◌, ◌*◌, true, false, not, bit_and, to_bool, ◌==◌, if◌then◌else◌}
use tlmboy.Cpu.RegFile.{Reg8, pc}
use tlmboy.Cpu.State.{
  Cpu, Socket, M, ok, err, ◌>>=◌, modify, wait_cycles, reg, set_reg16, test_passed, test_failed,
  ns_per_clk_cycle, still_waiting,
}
use tlmboy.Cpu.Jump.{instr_push}

module _ {W : Type 0} where
  -- `InstrNop`.
  unfoldable pub instr_nop : Cpu W → Cpu W
  instr_nop s = wait_cycles 4 s

  -- `InstrDI` and `InstrEI`.
  unfoldable pub instr_di : Cpu W → Cpu W
  instr_di s = wait_cycles 4 (record s { intr_master_enable = false })

  unfoldable pub instr_ei : Cpu W → Cpu W
  instr_ei s = wait_cycles 4 (record s { intr_master_enable = true })

  -- `InstrEmu`.
  unfoldable pub instr_emu : Cpu W → Cpu W
  instr_emu s =
      if reg Reg8.b s == 0
      then record s { cpu_state = test_passed }
      else if reg Reg8.b s == 1
      then record s { cpu_state = test_failed }
      else if reg Reg8.b s == 2
      then record s { stopped = true }
      else s

-- The interrupts, as bits of the two registers.
abbrev pub v_blank_if : ℕ
v_blank_if = 0b00001

abbrev pub lcdc_if : ℕ
lcdc_if = 0b00010

abbrev pub timer_of_if : ℕ
timer_of_if = 0b00100

abbrev pub serial_io_if : ℕ
serial_io_if = 0b01000

abbrev pub joypad_if : ℕ
joypad_if = 0b10000

module _ {W : Type 0} (bus : Socket W) where
  -- `*reg_intr_enable_dmi & *reg_intr_pending_dmi`.
  unfoldable pub requested : W → ℕ
  requested w = bit_and (bus.intr_enable w) (bus.intr_pending w)

  -- `InstrHalt`, with a bound on the rounds of its loop.
  unfoldable pub instr_halt : ℕ → M W (Unit {0})
  instr_halt zero s = err still_waiting
  instr_halt (suc rounds) s =
      let s' = record s { world = bus.wait (4 * ns_per_clk_cycle) s.world } in
      elim (requested s'.world == 0) [ true ↦ instr_halt rounds s' | false ↦ ok (tt, s') ]

  -- `reg_file.PC = vector; *reg_intr_pending_dmi &= ~mask`.
  unfoldable pub enter : ℕ → ℕ → Cpu W → Cpu W
  enter vector mask s =
      let s1 = set_reg16 pc vector s in
      record s1 {
        world = bus.set_intr_pending s1.world (bit_and (bus.intr_pending s1.world) (255 - mask));
      }

  -- The chain of tests in `HandleInterrupts`, on the value that was read before the push.
  unfoldable pub dispatch_interrupt : ℕ → Cpu W → Cpu W
  dispatch_interrupt intr s =
      if to_bool (bit_and intr v_blank_if)
      then enter 0x40 v_blank_if s
      else if to_bool (bit_and intr lcdc_if)
      then enter 0x48 lcdc_if s
      else if to_bool (bit_and intr timer_of_if)
      then enter 0x50 timer_of_if s
      else if to_bool (bit_and intr serial_io_if)
      then enter 0x58 serial_io_if s
      else if to_bool (bit_and intr joypad_if)
      then enter 0x60 joypad_if s
      else s

  -- `HandleInterrupts`.
  unfoldable pub handle_interrupts : M W (Unit {0})
  handle_interrupts s =
      let intr = requested s.world in
      let service = instr_push bus pc >>= λ _. modify (dispatch_interrupt intr) in
      if not s.intr_master_enable
      then ok (tt, s)
      else if to_bool intr
      then service (record s { intr_master_enable = false })
      else ok (tt, s)
