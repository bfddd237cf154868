-- ===== src/Cpu/Decode/Encoding.antt =====
-- The encoding of the SM83 instructions by the fields of the byte, and the switches of
-- src/cpu_jumptable.cpp against it.
use tlmboy.Base.{Bool}
use tlmboy.Base.{
  Bool, ℕ, ◌/◌, ◌%◌, ◌<◌, ◌≤◌, ◌≡◌, refl, arith, List, [], ◌∷◌, get_or, tabulate, eq_of_tabulate,
  true, false, ◌||◌, ◌==◌, if◌then◌else◌,
}
use tlmboy.Cpu.RegFile.{Reg8, Reg16, hl}
use tlmboy.Cpu.Instr.{
  Instr, unknown, halt, mov, load, store, rlc, rrc, rot_left, rot_right, sla, sra, swap,
  shift_right, rlc_addr, rrc_addr, rot_left_addr, rot_right_addr, sla_addr, sra_addr, swap_addr,
  shift_right_addr, bit_n, bit_n_addr, reset_bit, reset_bit_addr, set_bit_n, set_bit_n_addr, add_a,
  add_a_addr, add_a_carry, add_a_carry_addr, sub, sub_addr, sub_carry, sub_carry_addr, and_a,
  and_a_addr, xor_a, xor_a_addr, or_a, or_a_addr, comp, comp_addr,
}
use tlmboy.Cpu.Decode.{decode, decode_cb}

-- The operand that a field of three bits names: a register, or the byte at HL.
pub data Operand : Type 0 where
  in_reg : Reg8 → Operand
  at_hl : Operand

abbrev pub operands : List Operand
operands =
    in_reg Reg8.b
    ∷ in_reg Reg8.c
    ∷ in_reg Reg8.d
    ∷ in_reg Reg8.e
    ∷ in_reg Reg8.h
    ∷ in_reg Reg8.l
    ∷ at_hl
    ∷ in_reg Reg8.a
    ∷ []

abbrev pub operand : ℕ → Operand
operand k = get_or operands (k % 8) at_hl

-- An instruction in its two forms.
abbrev pub on : (Reg8 → Instr) → (Reg16 → Instr) → Operand → Instr
on by_reg by_addr (in_reg r) = by_reg r
on by_reg by_addr at_hl = by_addr hl

abbrev pub shifts : List (Operand → Instr)
shifts =
    on rlc rlc_addr
    ∷ on rrc rrc_addr
    ∷ on rot_left rot_left_addr
    ∷ on rot_right rot_right_addr
    ∷ on sla sla_addr
    ∷ on sra sra_addr
    ∷ on swap swap_addr
    ∷ on shift_right shift_right_addr
    ∷ []

abbrev pub arithmetic : List (Operand → Instr)
arithmetic =
    on add_a add_a_addr
    ∷ on add_a_carry add_a_carry_addr
    ∷ on sub sub_addr
    ∷ on sub_carry sub_carry_addr
    ∷ on and_a and_a_addr
    ∷ on xor_a xor_a_addr
    ∷ on or_a or_a_addr
    ∷ on comp comp_addr
    ∷ []

abbrev pub pick : List (Operand → Instr) → ℕ → Operand → Instr
pick xs k = get_or xs (k % 8) (λ _. unknown)

-- The byte behind the prefix: two bits for the group, three for the shift or the bit, three for
-- the operand.
abbrev pub prefixed : ℕ → Instr
prefixed op =
    let x = operand op in
    let y = op / 8 % 8 in
    if op / 64 == 0
    then pick shifts y x
    else if op / 64 == 1
    then on (bit_n y) (bit_n_addr y) x
    else if op / 64 == 2
    then on (reset_bit y) (reset_bit_addr y) x
    else on (set_bit_n y) (set_bit_n_addr y) x

-- Transfers between two operands.
abbrev pub transfer : Operand → Operand → Instr
transfer (in_reg to) (in_reg from) = mov to from
transfer (in_reg to) at_hl = load to hl
transfer at_hl (in_reg from) = store hl from
transfer at_hl at_hl = halt

-- The bytes 0x40 to 0xBF: transfers, then the arithmetic on A.
abbrev pub regular : ℕ → Instr
regular op =
    if op / 64 == 1
    then transfer (operand (op / 8)) (operand op)
    else pick arithmetic (op / 8) (operand op)

cb_table : tabulate decode_cb 0 256 ≡ tabulate prefixed 0 256
unfolding decode_cb
cb_table = refl

-- Behind the prefix 0xCB, every one of the 256 bytes makes the call that its fields name: the
-- shift, or the bit test, reset or set with its bit number, on the operand that the low three
-- bits name.
pub decode_cb-prefixed : (op : ℕ) → op < 256 → decode_cb op ≡ prefixed op
decode_cb-prefixed op h =
    eq_of_tabulate decode_cb prefixed 0 256 op cb_table (omega arith) (omega arith)

regular_table : tabulate decode 64 128 ≡ tabulate regular 64 128
unfolding decode
regular_table = refl

-- From 0x40 to 0xBF, every byte makes the call that its fields name: a transfer between the two
-- operands (HALT where both are the byte at HL), or the arithmetic that bits 3 to 5 name.
pub decode-regular : (op : ℕ) → 0x40 ≤ op → op < 0xC0 → decode op ≡ regular op
decode-regular op lo hi = eq_of_tabulate decode regular 64 128 op regular_table lo hi

-- Bytes that the processor has no instruction for.
abbrev pub is_hole : ℕ → Bool
is_hole op =
    op == 0xDB
    || op == 0xDD
    || op == 0xE3
    || op == 0xE4
    || op == 0xEB
    || op == 0xEC
    || op == 0xED
    || op == 0xF4
    || op == 0xFC
    || op == 0xFD

abbrev pub is_unknown : Instr → Bool
is_unknown unknown = true
is_unknown _ = false

hole_table : tabulate (λ op. is_unknown (decode op)) 0 256 ≡ tabulate is_hole 0 256
unfolding decode
hole_table = refl

-- The bytes with no case are exactly the ten that the processor has no instruction for, besides
-- 0xD3, which the code gives to its own semihosting instruction.
pub is_unknown-decode : (op : ℕ) → op < 256 → is_unknown (decode op) ≡ is_hole op
is_unknown-decode op h =
    eq_of_tabulate (λ op. is_unknown (decode op)) is_hole 0 256 op hole_table (omega arith)
      (omega arith)
