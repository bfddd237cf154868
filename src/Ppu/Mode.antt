-- ===== src/Ppu/Mode.antt =====
-- src/ppu.cpp: the mode bits of STAT after each of the loop's updates.
use tlmboy.Base.{
  ℕ, ◌+◌, ◌-◌, ◌*◌, ◌/◌, ◌%◌, ◌^◌, ◌<◌, ◌≡◌, refl, ap, ◌∙◌, arith, Bool, true, false, ◌&&◌, u8,
  of_bool, set_bit, bit_and, bit_or, ◌==◌, all_below, all_below_sound, ==→eq,
}

mode_table :
    all_below 256 (λ s.
      set_bit (set_bit s false 0) true 1 % 4 == 2
      && set_bit (set_bit s false 0) false 1 % 4 == 0
      && set_bit s true 0 % 4 == s / 2 % 2 * 2 + 1
      && set_bit s true 2 % 4 == s % 4
      && set_bit s false 2 % 4 == s % 4)
    ≡ true
unfolding all_below set_bit
mode_table = refl

-- The mode bits after each of the updates, whatever the register holds.
unfoldable pub ModeBits : ℕ → Type 0
ModeBits s =
    (set_bit (set_bit s false 0) true 1 % 4 ≡ 2)
    × (set_bit (set_bit s false 0) false 1 % 4 ≡ 0)
    × (set_bit s true 0 % 4 ≡ s / 2 % 2 * 2 + 1)
    × (set_bit s true 2 % 4 ≡ s % 4)
    × (set_bit s false 2 % 4 ≡ s % 4)

and_parts : (a b : Bool) → (a && b) ≡ true → (a ≡ true) × (b ≡ true)
and_parts true true h = (refl, refl)
and_parts true false h = ground arith
and_parts false b h = ground arith

set_bit-u8 : (s k : ℕ) (b : Bool) → set_bit s b k ≡ set_bit (u8 s) b k
unfolding set_bit
set_bit-u8 s k b = ap (λ t. bit_or (bit_and t (255 - 2 ^ k)) (of_bool b * 2 ^ k)) (omega arith)

byte_modes : (s : ℕ) → s < 256 → ModeBits s
unfolding ModeBits
byte_modes s h =
    let row = all_below_sound 256 _ s mode_table h in
    let r1 = and_parts _ _ row in
    let r2 = and_parts _ _ r1.0 in
    let r3 = and_parts _ _ r2.0 in
    let r4 = and_parts _ _ r3.0 in
    (==→eq _ _ r4.0, ==→eq _ _ r4.1, ==→eq _ _ r3.1, ==→eq _ _ r2.1, ==→eq _ _ r1.1)

pub modes : (s : ℕ) → ModeBits s
unfolding ModeBits
modes s =
    let m = byte_modes (u8 s) (omega arith) in
    (
      ap (λ t. set_bit t true 1 % 4) (set_bit-u8 s 0 false) ∙ m.0,
      ap (λ t. set_bit t false 1 % 4) (set_bit-u8 s 0 false) ∙ m.1,
      ap (λ t. t % 4) (set_bit-u8 s 0 true) ∙ m.2 ∙ omega arith,
      ap (λ t. t % 4) (set_bit-u8 s 2 true) ∙ m.3 ∙ omega arith,
      ap (λ t. t % 4) (set_bit-u8 s 2 false) ∙ m.4 ∙ omega arith,
    )
