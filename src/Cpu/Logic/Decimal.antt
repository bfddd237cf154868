-- ===== src/Cpu/Logic/Decimal.antt =====
-- src/cpu_ops.cpp: DAA after an addition or a subtraction is decimal arithmetic on two digits.
use tlmboy.Base.{
  ℕ, ◌+◌, ◌-◌, ◌*◌, ◌/◌, ◌%◌, ◌<◌, ◌≡◌, refl, arith, Bool, true, false, not, ◌||◌, ◌&&◌, ltb, ◌==◌,
  u8, of_bool, bit_and, if◌then◌else◌, ◌∙◌, ap, bit_or, Bool-cases, inl, inr,
}
use mathlib.Core.Path.{ap₂}
use tlmboy.Base.Bits.{bit_and-15}
use tlmboy.Cpu.RegFile.{Reg8, get8, set8}
use tlmboy.Cpu.State.{Cpu, reg}
use tlmboy.Cpu.Flags.{carry, get_flag, flag_laws}
use tlmboy.Cpu.Alu.{with_a}
use tlmboy.Cpu.Add.{add_a_carry_value}
use tlmboy.Cpu.Add.Sum.{add_a_carry_value_lem}
use tlmboy.Cpu.Sub.{sub_carry_value}
use tlmboy.Cpu.Sub.Difference.{sub_carry_value_lem}
use tlmboy.Cpu.Logic.{instr_daa, daa_correction}

-- Two decimal digits in one byte.
abbrev pub bcd : ℕ → ℕ
bcd n = n / 10 * 16 + n % 10

-- The correction from the flags N, H and C and the value of A.
abbrev fix : (n h c : Bool) → ℕ → ℕ
fix n h c a =
    (if h || (not n && ltb 9 (a % 16)) then 0x06 else 0)
    + (if c || (not n && ltb 0x99 a) then 0x60 else 0)

abbrev adjusted : (n h c : Bool) → ℕ → ℕ
adjusted n h c a = if n then u8 (a + 256 - fix n h c a) else u8 (a + fix n h c a)

-- The two `|=` of the code add, since the second repeats the initial value.
or_is_sum :
    (c p q : Bool)
    → (if c || q
        then bit_or
            (if p then bit_or (if c then 0x60 else 0) 0x06 else (if c then 0x60 else 0))
            0x60
        else (if p then bit_or (if c then 0x60 else 0) 0x06 else (if c then 0x60 else 0)))
      ≡ (if p then 0x06 else 0) + (if c || q then 0x60 else 0)
or_is_sum true true q = refl
or_is_sum true false q = refl
or_is_sum false true true = refl
or_is_sum false true false = refl
or_is_sum false false true = refl
or_is_sum false false false = refl

-- `((correction << 2) & 0x100) != 0` tells whether 0x60 was added.
top_bit :
    (p q : Bool)
    → not (bit_and (((if p then 0x06 else 0) + (if q then 0x60 else 0)) * 4) 0x100 == 0) ≡ q
top_bit true true = refl
top_bit true false = refl
top_bit false true = refl
top_bit false false = refl

pick_u8 : (n : Bool) (x y : ℕ) → u8 (if n then u8 x else u8 y) ≡ (if n then u8 x else u8 y)
pick_u8 true x y = omega arith
pick_u8 false x y = omega arith

-- The decimal sum, digit by digit.
decimal_sum :
    (x y : ℕ) (k : Bool)
    → x < 100
    → y < 100
    → let t = bcd x + bcd y + of_bool k in
      adjusted false (ltb 15 (bcd x % 16 + bcd y % 16 + of_bool k)) (ltb 255 t) (t % 256)
      ≡ bcd ((x + y + of_bool k) % 100)
decimal_sum x y true hx hy = ground arith
decimal_sum x y false hx hy = ground arith

decimal_carry :
    (x y : ℕ) (k : Bool)
    → x < 100
    → y < 100
    → let t = bcd x + bcd y + of_bool k in
      (ltb 255 t || ltb 0x99 (t % 256)) ≡ ltb 99 (x + y + of_bool k)
decimal_carry x y true hx hy = ground arith
decimal_carry x y false hx hy = ground arith

decimal_difference :
    (x y : ℕ) (k : Bool)
    → x < 100
    → y < 100
    → adjusted true
        (ltb (bcd x % 16) (bcd y % 16 + of_bool k))
        (ltb (bcd x) (bcd y + of_bool k))
        ((bcd x + 512 - bcd y - of_bool k) % 256)
      ≡ bcd ((x + 200 - y - of_bool k) % 100)
decimal_difference x y true hx hy = ground arith
decimal_difference x y false hx hy = ground arith

decimal_borrow :
    (x y : ℕ) (k : Bool)
    → x < 100
    → y < 100
    → (ltb (bcd x) (bcd y + of_bool k) || false) ≡ ltb x (y + of_bool k)
decimal_borrow x y true hx hy = ground arith
decimal_borrow x y false hx hy = ground arith

bcd_zero : (n : ℕ) → n < 100 → (bcd n == 0) ≡ (n == 0)
bcd_zero n h = ground arith

module _ {W : Type 0} where
  correction_lem :
      (a cycles : ℕ) (z n h c : Bool) (s : Cpu W)
      → daa_correction (with_a a z n h c cycles s) ≡ fix n h c a
  unfolding daa_correction get8
  correction_lem a cycles z n h c s = simp (flag_laws, bit_and-15) (or_is_sum c _ _)

  daa_lem :
      (a cycles : ℕ) (z n h c : Bool) (s : Cpu W)
      → let r = adjusted n h c a in
        instr_daa (with_a a z n h c cycles s)
        ≡ with_a r (r == 0) n false (c || (not n && ltb 0x99 a)) 4 s
  unfolding instr_daa get8 set8
  daa_lem a cycles z n h true s =
      simp (correction_lem a cycles z n h true s, flag_laws, top_bit, pick_u8)
  daa_lem a cycles z n h false s = elim (Bool-cases (not n && ltb 0x99 a)) [
    | inl e ↦ simp (correction_lem a cycles z n h false s, flag_laws, top_bit, pick_u8, e)
    | inr e ↦ simp (correction_lem a cycles z n h false s, flag_laws, top_bit, pick_u8, e)
  ]

  -- ADC (ADD, where the carry is clear) of two-digit decimal numbers and then DAA: A holds the
  -- last two digits of the decimal sum, C the hundred, Z whether those digits are zero; N and H
  -- are clear.
  pub instr_daa-add_a_carry_value :
      (x y : ℕ) (s : Cpu W)
      → x < 100
      → y < 100
      → reg Reg8.a s ≡ bcd x
      → let t = x + y + of_bool (get_flag carry s) in
        instr_daa (add_a_carry_value (bcd y) s)
        ≡ with_a (bcd (t % 100)) (t % 100 == 0) false false (ltb 99 t) 4 s
  instr_daa-add_a_carry_value x y s hx hy e =
      let k = get_flag carry s in
      ap instr_daa (add_a_carry_value_lem (bcd y) s (omega arith) (omega arith))
      ∙ daa_lem _ 8 _ false _ _ s
      ∙ simp e (
          ap₂ (λ r c. with_a r (r == 0) false false c 4 s) (decimal_sum x y k hx hy)
            (decimal_carry x y k hx hy)
          ∙ simp (bcd_zero ((x + y + of_bool k) % 100) (omega arith)))

  -- SBC (SUB, where the carry is clear) of two-digit decimal numbers and then DAA: A holds the
  -- decimal difference modulo 100, C whether it was negative, Z whether A is zero; N is set and
  -- H clear.
  pub instr_daa-sub_carry_value :
      (x y : ℕ) (s : Cpu W)
      → x < 100
      → y < 100
      → reg Reg8.a s ≡ bcd x
      → let k = of_bool (get_flag carry s) in
        let t = (x + 200 - y - k) % 100 in
        instr_daa (sub_carry_value (bcd y) s)
        ≡ with_a (bcd t) (t == 0) true false (ltb x (y + k)) 4 s
  instr_daa-sub_carry_value x y s hx hy e =
      let k = get_flag carry s in
      ap instr_daa (sub_carry_value_lem (bcd y) s (omega arith) (omega arith))
      ∙ daa_lem _ 8 _ true _ _ s
      ∙ simp e (
          ap₂ (λ r c. with_a r (r == 0) true false c 4 s) (decimal_difference x y k hx hy)
            (decimal_borrow x y k hx hy)
          ∙ simp (bcd_zero ((x + 200 - y - of_bool k) % 100) (omega arith)))
