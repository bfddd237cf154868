-- ===== src/Cpu/Sub/Difference.antt =====
-- src/cpu_ops.cpp: what the subtractions and comparisons compute, register, flags and time.
use tlmboy.Base.{
  ℕ, ◌+◌, ◌-◌, ◌%◌, ◌<◌, ◌≡◌, arith, Bool, true, false, ◌||◌, ◌&&◌, ltb, ◌==◌, u8, of_bool,
}
use tlmboy.Base.Bits.{bit_and-15}
use tlmboy.Cpu.RegFile.{Reg8, get8, set8}
use tlmboy.Cpu.State.{Cpu, reg}
use tlmboy.Cpu.Flags.{carry, get_flag, flag_laws}
use tlmboy.Cpu.Alu.{IsOperand, with_a, with_flags}
use tlmboy.Cpu.Sub.{instr_sub, sub_value, instr_sub_carry, sub_carry_value, instr_comp, comp_value}

-- The borrow that the code finds by comparing the wrapped difference with A.
lt-wrapped : (a v : ℕ) → a < 256 → v < 256 → ltb a (u8 (a + 256 - v)) ≡ ltb a v
lt-wrapped a v ha hv = ground arith

difference_with_carry :
    (a v : ℕ) (c : Bool)
    → a < 256
    → v < 256
    → u8 (a + 256 - u8 (v + of_bool c)) ≡ (a + 512 - v - of_bool c) % 256
difference_with_carry a v true ha hv = omega arith
difference_with_carry a v false ha hv = omega arith

lt-wrapped_carry :
    (a v : ℕ) (c : Bool)
    → a < 256
    → v < 256
    → (ltb a ((a + 512 - v - of_bool c) % 256)
        || (((a + 512 - v - of_bool c) % 256 == a) && (of_bool c == 1)))
      ≡ ltb a (v + of_bool c)
lt-wrapped_carry a v true ha hv = ground arith
lt-wrapped_carry a v false ha hv = ground arith

zero_difference : (a v : ℕ) → a < 256 → v < 256 → (u8 (a + 256 - v) == 0) ≡ (a == v)
zero_difference a v ha hv = ground arith

-- SBC A,A reads A again for the half carry, after the subtraction: the nibble of the difference
-- gives the same borrow as the nibble of A.
changed_nibble :
    (a : ℕ) (c : Bool)
    → ltb (a % 16) ((a + 512 - a - of_bool c) % 256 % 16 + of_bool c)
      ≡ ltb (a % 16) (a % 16 + of_bool c)
changed_nibble a true = ground arith
changed_nibble a false = ground arith

module _ {W : Type 0} where
  -- SUB with a byte from memory or from the instruction.
  pub sub_value_lem :
      (v : ℕ) (s : Cpu W)
      → reg Reg8.a s < 256
      → v < 256
      → let t = (reg Reg8.a s + 256 - v) % 256 in
        sub_value v s
        ≡ with_a t (t == 0) true (ltb (reg Reg8.a s % 16) (v % 16)) (ltb (reg Reg8.a s) v) 8 s
  unfolding sub_value get8 set8
  sub_value_lem v s ha hv = simp (flag_laws, bit_and-15, lt-wrapped _ _ ha hv)

  -- SUB with a register other than F, A itself among them, on bytes: A is the difference modulo
  -- 256, Z, H and C tell of zero and of the borrows out of the nibble and the byte, N is set,
  -- and the wait is 4 cycles.
  pub instr_sub_lem :
      (r : Reg8) (s : Cpu W)
      → IsOperand r
      → reg Reg8.a s < 256
      → reg r s < 256
      → let t = (reg Reg8.a s + 256 - reg r s) % 256 in
        instr_sub r s
        ≡ with_a t
            (t == 0)
            true
            (ltb (reg Reg8.a s % 16) (reg r s % 16))
            (ltb (reg Reg8.a s) (reg r s))
            4
            s
  unfolding instr_sub get8 set8
  instr_sub_lem Reg8.f s h ha hr = absurd h
  instr_sub_lem Reg8.a s h ha hr = simp (flag_laws, bit_and-15, lt-wrapped _ _ ha hr)
  instr_sub_lem _ s h ha hr = simp (flag_laws, bit_and-15, lt-wrapped _ _ ha hr)

  -- SBC with a byte from memory or from the instruction: A is the difference with the borrow
  -- modulo 256, Z, H and C tell of zero and of the borrows out of the nibble and the byte, N is
  -- set, and the wait is 8 cycles.
  pub sub_carry_value_lem :
      (v : ℕ) (s : Cpu W)
      → reg Reg8.a s < 256
      → v < 256
      → let c = of_bool (get_flag carry s) in
        let t = (reg Reg8.a s + 512 - v - c) % 256 in
        sub_carry_value v s
        ≡ with_a t
            (t == 0)
            true
            (ltb (reg Reg8.a s % 16) (v % 16 + c))
            (ltb (reg Reg8.a s) (v + c))
            8
            s
  unfolding sub_carry_value get8 set8
  sub_carry_value_lem v s ha hv =
      simp (flag_laws, bit_and-15, difference_with_carry _ _ _ ha hv, lt-wrapped_carry _ _ _ ha hv)

  -- SBC with a register other than F, A itself among them, on bytes: A is the difference with
  -- the borrow modulo 256, Z, H and C tell of zero and of the borrows out of the nibble and the
  -- byte, N is set, and the wait is 4 cycles.
  pub instr_sub_carry_lem :
      (r : Reg8) (s : Cpu W)
      → IsOperand r
      → reg Reg8.a s < 256
      → reg r s < 256
      → let c = of_bool (get_flag carry s) in
        let t = (reg Reg8.a s + 512 - reg r s - c) % 256 in
        instr_sub_carry r s
        ≡ with_a t
            (t == 0)
            true
            (ltb (reg Reg8.a s % 16) (reg r s % 16 + c))
            (ltb (reg Reg8.a s) (reg r s + c))
            4
            s
  unfolding instr_sub_carry get8 set8
  instr_sub_carry_lem Reg8.f s h ha hr = absurd h
  instr_sub_carry_lem Reg8.a s h ha hr = simp (
    flag_laws,
    bit_and-15,
    difference_with_carry _ _ _ ha hr,
    lt-wrapped_carry _ _ _ ha hr,
    changed_nibble _ (get_flag carry s),
  )
  instr_sub_carry_lem _ s h ha hr =
      simp (flag_laws, bit_and-15, difference_with_carry _ _ _ ha hr, lt-wrapped_carry _ _ _ ha hr)

  -- CP with a byte from memory or from the instruction.
  pub comp_value_lem :
      (v : ℕ) (s : Cpu W)
      → reg Reg8.a s < 256
      → v < 256
      → comp_value v s
        ≡ with_flags
            (reg Reg8.a s == v)
            true
            (ltb (reg Reg8.a s % 16) (v % 16))
            (ltb (reg Reg8.a s) v)
            8
            s
  unfolding comp_value get8 set8
  comp_value_lem v s ha hv =
      simp (flag_laws, bit_and-15, lt-wrapped _ _ ha hv, zero_difference _ _ ha hv)

  -- CP with a register other than F, A itself among them, on bytes: Z tells of equality, H and
  -- C of the borrows out of the nibble and the byte, N is set, A is kept, and the wait is 4
  -- cycles.
  pub instr_comp_lem :
      (r : Reg8) (s : Cpu W)
      → IsOperand r
      → reg Reg8.a s < 256
      → reg r s < 256
      → instr_comp r s
        ≡ with_flags
            (reg Reg8.a s == reg r s)
            true
            (ltb (reg Reg8.a s % 16) (reg r s % 16))
            (ltb (reg Reg8.a s) (reg r s))
            4
            s
  unfolding instr_comp get8 set8
  instr_comp_lem Reg8.f s h ha hr = absurd h
  instr_comp_lem Reg8.a s h ha hr =
      simp (flag_laws, bit_and-15, lt-wrapped _ _ ha hr, zero_difference _ _ ha hr)
  instr_comp_lem _ s h ha hr =
      simp (flag_laws, bit_and-15, lt-wrapped _ _ ha hr, zero_difference _ _ ha hr)
