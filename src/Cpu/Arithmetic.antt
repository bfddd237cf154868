-- ===== src/Cpu/Arithmetic.antt =====
-- src/cpu_ops.cpp: the five arithmetic instructions with a register, side by side.
use tlmboy.Base.{◌+◌, ◌-◌, ◌%◌, ◌<◌, ◌≡◌, true, false, of_bool, ltb, ◌==◌}
use tlmboy.Cpu.RegFile.{Reg8}
use tlmboy.Cpu.State.{Cpu, reg}
use tlmboy.Cpu.Flags.{carry, get_flag}
use tlmboy.Cpu.Alu.{IsOperand, with_a, with_flags}
use tlmboy.Cpu.Add.{instr_add_a, instr_add_a_carry}
use tlmboy.Cpu.Add.Sum.{instr_add_a_lem, instr_add_a_carry_lem}
use tlmboy.Cpu.Sub.{instr_sub, instr_sub_carry, instr_comp}
use tlmboy.Cpu.Sub.Difference.{instr_sub_lem, instr_sub_carry_lem, instr_comp_lem}

-- ADD, ADC, SUB, SBC and CP with a register other than F, A itself among them, on bytes: A is
-- the sum or the difference modulo 256, with the carry for ADC and SBC, and is kept by CP; Z, H
-- and C tell of zero and of the carries or borrows out of the nibble and the byte, N tells the
-- two kinds apart, and the wait is 4 cycles.
pub arithmetic_lem :
    {W : Type 0} (r : Reg8) (s : Cpu W)
    → IsOperand r
    → reg Reg8.a s < 256
    → reg r s < 256
    → let a = reg Reg8.a s in
      let v = reg r s in
      let c = of_bool (get_flag carry s) in
      (instr_add_a r s
        ≡ with_a
            ((a + v) % 256)
            ((a + v) % 256 == 0)
            false
            (ltb 15 (a % 16 + v % 16))
            (ltb 255 (a + v))
            4
            s)
      × (instr_add_a_carry r s
          ≡ with_a
              ((a + v + c) % 256)
              ((a + v + c) % 256 == 0)
              false
              (ltb 15 (a % 16 + v % 16 + c))
              (ltb 255 (a + v + c))
              4
              s)
      × (instr_sub r s
          ≡ with_a
              ((a + 256 - v) % 256)
              ((a + 256 - v) % 256 == 0)
              true
              (ltb (a % 16) (v % 16))
              (ltb a v)
              4
              s)
      × (instr_sub_carry r s
          ≡ with_a
              ((a + 512 - v - c) % 256)
              ((a + 512 - v - c) % 256 == 0)
              true
              (ltb (a % 16) (v % 16 + c))
              (ltb a (v + c))
              4
              s)
      × (instr_comp r s ≡ with_flags (a == v) true (ltb (a % 16) (v % 16)) (ltb a v) 4 s)
arithmetic_lem r s h ha hr = (
  instr_add_a_lem r s h ha hr,
  instr_add_a_carry_lem r s h ha hr,
  instr_sub_lem r s h ha hr,
  instr_sub_carry_lem r s h ha hr,
  instr_comp_lem r s h ha hr,
)
