-- ===== src/Apu/Lengths.antt =====
-- src/apu.cpp: how long a channel sounds.
use tlmboy.Base.{
  ℕ, zero, suc, ◌+◌, ◌-◌, ◌*◌, ◌/◌, ◌%◌, ◌<◌, ◌≡◌, ◌≢◌, inl, inr, refl, sym, ap, ◌∙◌, arith, Bool,
  true, ◌&&◌, to_bool, bit_and, leb, ◌==◌, if◌then◌else◌, all_below, all_below_sound, ==→eq,
  Bool-cases,
}
use native.Mathlib.Nat.{mul_assoc}
use tlmboy.Apu.{nr14, nr24, nr34, nr44, nr52, Channel, Apu, decrement, enabled, decrement_lengths}

-- The status bits of the four channels in the byte of NR52.
abbrev pub Lit : ℕ → ℕ → ℕ → ℕ → ℕ → Type 0
Lit s b0 b1 b2 b3 =
    (s < 256) × (s % 2 ≡ b0) × (s / 2 % 2 ≡ b1) × (s / 4 % 2 ≡ b2) × (s / 8 % 2 ≡ b3)

cleared : ℕ → ℕ → Bool
cleared m s = bit_and s (255 - m) + s / m % 2 * m == s

cleared_table :
    (all_below 256 (cleared 1) ≡ true)
    × (all_below 256 (cleared 2) ≡ true)
    × (all_below 256 (cleared 4) ≡ true)
    × (all_below 256 (cleared 8) ≡ true)
unfolding all_below cleared
cleared_table = (refl, refl, refl, refl)

-- What is left of a status bit: nothing when the length runs out.
abbrev keep : Channel → ℕ
keep c = if c.length_enable && c.length_load == 1 then 0 else 1

cleared-eq :
    (m s : ℕ) → all_below 256 (cleared m) ≡ true → s < 256 → bit_and s (255 - m) + s / m % 2 * m ≡ s
unfolding cleared
cleared-eq m s t h = ==→eq _ _ (all_below_sound 256 (cleared m) s t h)

decrement-Lit1 :
    (c : Channel) (s b0 b1 b2 b3 : ℕ)
    → Lit s b0 b1 b2 b3
    → Lit (decrement 1 c s).1 (b0 * keep c) b1 b2 b3
decrement-Lit1 c s b0 b1 b2 b3 (h, h0, h1, h2, h3) =
    let e = cleared-eq 1 s cleared_table.0 h in ground arith

decrement-Lit2 :
    (c : Channel) (s b0 b1 b2 b3 : ℕ)
    → Lit s b0 b1 b2 b3
    → Lit (decrement 2 c s).1 b0 (b1 * keep c) b2 b3
decrement-Lit2 c s b0 b1 b2 b3 (h, h0, h1, h2, h3) =
    let e = cleared-eq 2 s cleared_table.1 h in ground arith

decrement-Lit4 :
    (c : Channel) (s b0 b1 b2 b3 : ℕ)
    → Lit s b0 b1 b2 b3
    → Lit (decrement 4 c s).1 b0 b1 (b2 * keep c) b3
decrement-Lit4 c s b0 b1 b2 b3 (h, h0, h1, h2, h3) =
    let e = cleared-eq 4 s cleared_table.2 h in ground arith

decrement-Lit8 :
    (c : Channel) (s b0 b1 b2 b3 : ℕ)
    → Lit s b0 b1 b2 b3
    → Lit (decrement 8 c s).1 b0 b1 b2 (b3 * keep c)
decrement-Lit8 c s b0 b1 b2 b3 (h, h0, h1, h2, h3) =
    let e = cleared-eq 8 s cleared_table.3 h in ground arith

abbrev pub times : ℕ → Apu → Apu
times zero a = a
times (suc n) a = decrement_lengths (times n a)

-- The length after `n` steps.
abbrev pub left : ℕ → Channel → ℕ → ℕ
left control c n = if to_bool (bit_and control 0b01000000) then c.length_load - n else c.length_load

-- Whether the channel sounds after `n` steps: not when its length has run out in them.
abbrev pub sounds : ℕ → Channel → ℕ → ℕ
sounds control c n =
    if to_bool (bit_and control 0b01000000) && leb 1 c.length_load && leb c.length_load n
    then 0
    else 1

-- One step of a channel whose length is known.
decrement_lem :
    (m : ℕ) (control control' n s : ℕ) (c d : Channel)
    → control' ≡ control
    → d.length_load ≡ left control c n
    → ((decrement m (enabled control' d) s).0.length_load ≡ left control c (suc n))
      × (sounds control c n * keep (enabled control' d) ≡ sounds control c (suc n))
decrement_lem m control control' n s c d same e =
    elim (Bool-cases (to_bool (bit_and control 0b01000000))) [
      | inl on ↦ ground arith
      | inr off ↦ ground arith
    ]

product : (b x k y : ℕ) → x * k ≡ y → b * x * k ≡ b * y
product b x k y e = mul_assoc b x k ∙ ap (λ t. b * t) e

-- After `n` steps.
pub record Counted (a : Apu) (b0 b1 b2 b3 n : ℕ) (b : Apu) : Type 0 where
  pub lit :
      Lit
        (b.cells nr52)
        (b0 * sounds (a.cells nr14) a.square1.channel n)
        (b1 * sounds (a.cells nr24) a.square2.channel n)
        (b2 * sounds (a.cells nr34) a.wave.channel n)
        (b3 * sounds (a.cells nr44) a.noise.channel n)
  pub square1_left : b.square1.channel.length_load ≡ left (a.cells nr14) a.square1.channel n
  pub square2_left : b.square2.channel.length_load ≡ left (a.cells nr24) a.square2.channel n
  pub wave_left : b.wave.channel.length_load ≡ left (a.cells nr34) a.wave.channel n
  pub noise_left : b.noise.channel.length_load ≡ left (a.cells nr44) a.noise.channel n
  pub others : (j : ℕ) → j ≢ nr52 → b.cells j ≡ a.cells j

same_cells :
    (a b : Apu) (j : ℕ)
    → ((j : ℕ) → j ≢ nr52 → b.cells j ≡ a.cells j)
    → j ≢ nr52
    → (decrement_lengths b).cells j ≡ a.cells j
unfolding decrement_lengths
same_cells a b j h ne = let e = h j ne in ground arith

decrement-Counted :
    (a b : Apu) (b0 b1 b2 b3 n : ℕ)
    → Counted a b0 b1 b2 b3 n b
    → Counted a b0 b1 b2 b3 (suc n) (decrement_lengths b)
unfolding decrement_lengths
decrement-Counted a b b0 b1 b2 b3 n k =
    let s1 = decrement 1 (enabled (b.cells nr14) b.square1.channel) (b.cells nr52) in
    let s2 = decrement 2 (enabled (b.cells nr24) b.square2.channel) s1.1 in
    let w = decrement 4 (enabled (b.cells nr34) b.wave.channel) s2.1 in
    let c1 = k.others nr14 (ground arith) in
    let c2 = k.others nr24 (ground arith) in
    let c3 = k.others nr34 (ground arith) in
    let c4 = k.others nr44 (ground arith) in
    let p1 =
      decrement_lem 1 _ _ n (b.cells nr52) a.square1.channel b.square1.channel c1 k.square1_left in
    let p2 = decrement_lem 2 _ _ n s1.1 a.square2.channel b.square2.channel c2 k.square2_left in
    let p3 = decrement_lem 4 _ _ n s2.1 a.wave.channel b.wave.channel c3 k.wave_left in
    let p4 = decrement_lem 8 _ _ n w.1 a.noise.channel b.noise.channel c4 k.noise_left in
    let l1 = decrement-Lit1 (enabled (b.cells nr14) b.square1.channel) _ _ _ _ _ k.lit in
    let l2 = decrement-Lit2 (enabled (b.cells nr24) b.square2.channel) _ _ _ _ _ l1 in
    let l3 = decrement-Lit4 (enabled (b.cells nr34) b.wave.channel) _ _ _ _ _ l2 in
    let l4 = decrement-Lit8 (enabled (b.cells nr44) b.noise.channel) _ _ _ _ _ l3 in
    record {
      lit = (
        l4.0,
        l4.1 ∙ product b0 _ _ _ p1.1,
        l4.2 ∙ product b1 _ _ _ p2.1,
        l4.3 ∙ product b2 _ _ _ p3.1,
        l4.4 ∙ product b3 _ _ _ p4.1,
      );
      square1_left = p1.0;
      square2_left = p2.0;
      wave_left = p3.0;
      noise_left = p4.0;
      others = λ j ne. same_cells a b j k.others ne;
    }

none_yet : (control b : ℕ) (c : Channel) → b * sounds control c 0 ≡ b
none_yet control b c = ground arith

-- Where NR52 is a byte, after n calls of DecrementLengths each channel with its length enabled
-- has n less of its length, down to 0, and its status bit is cleared exactly if its length was
-- not 0 at first and at most n; a channel without keeps both, and no other register changes.
pub times-Counted :
    (a : Apu) (n : ℕ)
    → a.cells nr52 < 256
    → Counted a
        (a.cells nr52 % 2)
        (a.cells nr52 / 2 % 2)
        (a.cells nr52 / 4 % 2)
        (a.cells nr52 / 8 % 2)
        n
        (times n a)
times-Counted a zero h = record {
  lit = (
    h,
    sym (none_yet (a.cells nr14) _ a.square1.channel),
    sym (none_yet (a.cells nr24) _ a.square2.channel),
    sym (none_yet (a.cells nr34) _ a.wave.channel),
    sym (none_yet (a.cells nr44) _ a.noise.channel),
  );
  square1_left = ground arith;
  square2_left = ground arith;
  wave_left = ground arith;
  noise_left = ground arith;
  others = λ j ne. refl;
}
times-Counted a (suc n) h = decrement-Counted a (times n a) _ _ _ _ n (times-Counted a n h)
