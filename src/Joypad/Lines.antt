-- ===== src/Joypad/Lines.antt =====
-- src/joypad.cpp: the two groups of assignments of ReadReg, as arithmetic on P1.
use tlmboy.Base.{
  ℕ, ◌+◌, ◌*◌, ◌/◌, ◌%◌, ◌<◌, ◌≡◌, refl, arith, Bool, true, false, not, of_bool, is_bit_set,
  set_bit, ◌==◌, if◌then◌else◌, all_below, all_below_sound, ==→eq, ◌&&◌,
}
use tlmboy.Joypad.{JoyPad, select_directions, select_buttons}

-- Four buttons as the low nibble shows them: 0 for pressed.
abbrev pub lines : (b0 b1 b2 b3 : Bool) → ℕ
lines b0 b1 b2 b3 =
    of_bool (not b0) + of_bool (not b1) * 2 + of_bool (not b2) * 4 + of_bool (not b3) * 8

nibble_table :
    (b0 b1 b2 b3 : Bool)
    → all_below 256 (λ p1.
      set_bit (set_bit (set_bit (set_bit p1 (not b0) 0) (not b1) 1) (not b2) 2) (not b3) 3
      == p1 / 16 * 16 + lines b0 b1 b2 b3)
      ≡ true
unfolding all_below set_bit
nibble_table true true true true = refl
nibble_table true true true false = refl
nibble_table true true false true = refl
nibble_table true true false false = refl
nibble_table true false true true = refl
nibble_table true false true false = refl
nibble_table true false false true = refl
nibble_table true false false false = refl
nibble_table false true true true = refl
nibble_table false true true false = refl
nibble_table false true false true = refl
nibble_table false true false false = refl
nibble_table false false true true = refl
nibble_table false false true false = refl
nibble_table false false false true = refl
nibble_table false false false false = refl

set_nibble :
    (b0 b1 b2 b3 : Bool) (p1 : ℕ)
    → p1 < 256
    → set_bit (set_bit (set_bit (set_bit p1 (not b0) 0) (not b1) 1) (not b2) 2) (not b3) 3
      ≡ p1 / 16 * 16 + lines b0 b1 b2 b3
set_nibble b0 b1 b2 b3 p1 h = ==→eq _ _ (
    all_below_sound 256
      (λ p1.
        set_bit (set_bit (set_bit (set_bit p1 (not b0) 0) (not b1) 1) (not b2) 2) (not b3) 3
        == p1 / 16 * 16 + lines b0 b1 b2 b3)
      p1 (nibble_table b0 b1 b2 b3) h)

select_table :
    all_below 256
      (λ p1. of_bool (is_bit_set p1 4) == p1 / 16 % 2 && of_bool (is_bit_set p1 5) == p1 / 32 % 2)
    ≡ true
unfolding all_below is_bit_set
select_table = refl

&&-parts : (a b : Bool) → (a && b) ≡ true → (a ≡ true) × (b ≡ true)
&&-parts true true h = (refl, refl)
&&-parts true false h = ground arith
&&-parts false b h = ground arith

of_bool-is_bit_set :
    (p1 : ℕ)
    → p1 < 256
    → (of_bool (is_bit_set p1 4) ≡ p1 / 16 % 2) × (of_bool (is_bit_set p1 5) ≡ p1 / 32 % 2)
of_bool-is_bit_set p1 h =
    let both =
      all_below_sound 256
        (λ p1. of_bool (is_bit_set p1 4) == p1 / 16 % 2 && of_bool (is_bit_set p1 5) == p1 / 32 % 2)
        p1 select_table h in
    (==→eq _ _ ((&&-parts _ _ both).0), ==→eq _ _ ((&&-parts _ _ both).1))

pub lines-lt : (b0 b1 b2 b3 : Bool) → lines b0 b1 b2 b3 < 16
lines-lt b0 b1 b2 b3 = ground arith

pub select_directions_lem :
    (p : JoyPad) (p1 : ℕ)
    → p1 < 256
    → select_directions p p1 ≡ (
        if p1 / 16 % 2 == 0
        then p1 / 16 * 16 + lines p.but_right p.but_left p.but_up p.but_down
        else p1)
unfolding select_directions
select_directions_lem p p1 h =
    let bits = of_bool-is_bit_set p1 h in
    let nibble = set_nibble p.but_right p.but_left p.but_up p.but_down p1 h in ground arith

pub select_buttons_lem :
    (p : JoyPad) (p1 : ℕ)
    → p1 < 256
    → select_buttons p p1 ≡ (
        if p1 / 32 % 2 == 0
        then p1 / 16 * 16 + lines p.but_a p.but_b p.but_select p.but_start
        else p1)
unfolding select_buttons
select_buttons_lem p p1 h =
    let bits = of_bool-is_bit_set p1 h in
    let nibble = set_nibble p.but_a p.but_b p.but_select p.but_start p1 h in ground arith
