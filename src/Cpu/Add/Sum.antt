-- ===== src/Cpu/Add/Sum.antt =====
-- src/cpu_ops.cpp: what the additions compute, register, flags and time.
use tlmboy.Base.{
  ℕ, ◌+◌, ◌%◌, ◌<◌, ◌≡◌, arith, Bool, true, false, ◌||◌, ◌&&◌, ltb, ◌==◌, u8, of_bool,
}
use tlmboy.Base.Bits.{bit_and-15}
use tlmboy.Cpu.RegFile.{Reg8, get8, set8}
use tlmboy.Cpu.State.{Cpu, reg}
use tlmboy.Cpu.Flags.{carry, get_flag, flag_laws}
use tlmboy.Cpu.Alu.{IsOperand, with_a}
use tlmboy.Cpu.Add.{instr_add_a, add_a_value, instr_add_a_carry, add_a_carry_value}

-- The carry that the code finds by comparing the wrapped sum with an operand.
wrapped-lt : (a v : ℕ) → a < 256 → v < 256 → ltb (u8 (a + v)) v ≡ ltb 255 (a + v)
wrapped-lt a v ha hv = ground arith

sum_with_carry : (a v : ℕ) (c : Bool) → u8 (a + u8 (v + of_bool c)) ≡ (a + v + of_bool c) % 256
sum_with_carry a v c = omega arith

wrapped-lt_carry :
    (a v : ℕ) (c : Bool)
    → a < 256
    → v < 256
    → (ltb ((a + v + of_bool c) % 256) a || (((a + v + of_bool c) % 256 == a) && (of_bool c == 1)))
      ≡ ltb 255 (a + v + of_bool c)
wrapped-lt_carry a v true ha hv = ground arith
wrapped-lt_carry a v false ha hv = ground arith

module _ {W : Type 0} where
  -- ADD with a byte from memory or from the instruction.
  pub add_a_value_lem :
      (v : ℕ) (s : Cpu W)
      → reg Reg8.a s < 256
      → v < 256
      → let t = reg Reg8.a s + v in
        add_a_value v s
        ≡ with_a
            (t % 256)
            (t % 256 == 0)
            false
            (ltb 15 (reg Reg8.a s % 16 + v % 16))
            (ltb 255 t)
            8
            s
  unfolding add_a_value get8 set8
  add_a_value_lem v s ha hv = simp (flag_laws, bit_and-15, wrapped-lt _ _ ha hv)

  -- ADD with a register other than F, A itself among them, on bytes: A is the sum modulo 256,
  -- Z, H and C tell of zero and of the carries out of the nibble and the byte, N is clear, and
  -- the wait is 4 cycles.
  pub instr_add_a_lem :
      (r : Reg8) (s : Cpu W)
      → IsOperand r
      → reg Reg8.a s < 256
      → reg r s < 256
      → let t = reg Reg8.a s + reg r s in
        instr_add_a r s
        ≡ with_a
            (t % 256)
            (t % 256 == 0)
            false
            (ltb 15 (reg Reg8.a s % 16 + reg r s % 16))
            (ltb 255 t)
            4
            s
  unfolding instr_add_a get8 set8
  instr_add_a_lem Reg8.f s h ha hr = absurd h
  instr_add_a_lem Reg8.a s h ha hr = simp (flag_laws, bit_and-15, wrapped-lt _ _ ha hr)
  instr_add_a_lem _ s h ha hr = simp (flag_laws, bit_and-15, wrapped-lt _ _ ha hr)

  -- ADC with a byte from memory or from the instruction: A is the sum with the carry modulo
  -- 256, Z, H and C tell of zero and of the carries out of the nibble and the byte, N is clear,
  -- and the wait is 8 cycles.
  pub add_a_carry_value_lem :
      (v : ℕ) (s : Cpu W)
      → reg Reg8.a s < 256
      → v < 256
      → let c = of_bool (get_flag carry s) in
        let t = reg Reg8.a s + v + c in
        add_a_carry_value v s
        ≡ with_a
            (t % 256)
            (t % 256 == 0)
            false
            (ltb 15 (reg Reg8.a s % 16 + v % 16 + c))
            (ltb 255 t)
            8
            s
  unfolding add_a_carry_value get8 set8
  add_a_carry_value_lem v s ha hv =
      simp (flag_laws, bit_and-15, sum_with_carry, wrapped-lt_carry _ _ _ ha hv)

  -- ADC with a register other than F, A itself among them, on bytes: A is the sum with the
  -- carry modulo 256, Z, H and C tell of zero and of the carries out of the nibble and the
  -- byte, N is clear, and the wait is 4 cycles.
  pub instr_add_a_carry_lem :
      (r : Reg8) (s : Cpu W)
      → IsOperand r
      → reg Reg8.a s < 256
      → reg r s < 256
      → let c = of_bool (get_flag carry s) in
        let t = reg Reg8.a s + reg r s + c in
        instr_add_a_carry r s
        ≡ with_a
            (t % 256)
            (t % 256 == 0)
            false
            (ltb 15 (reg Reg8.a s % 16 + reg r s % 16 + c))
            (ltb 255 t)
            4
            s
  unfolding instr_add_a_carry get8 set8
  instr_add_a_carry_lem Reg8.f s h ha hr = absurd h
  instr_add_a_carry_lem Reg8.a s h ha hr =
      simp (flag_laws, bit_and-15, sum_with_carry, wrapped-lt_carry _ _ _ ha hr)
  instr_add_a_carry_lem _ s h ha hr =
      simp (flag_laws, bit_and-15, sum_with_carry, wrapped-lt_carry _ _ _ ha hr)
