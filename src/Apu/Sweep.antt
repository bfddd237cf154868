-- ===== src/Apu/Sweep.antt =====
-- src/apu.cpp: the frequency sweep of the first square channel.
use tlmboy.Base.{
  ℕ, zero, suc, ◌+◌, ◌/◌, ◌%◌, ◌^◌, ◌≤◌, ◌<◌, ◌≡◌, inl, inr, refl, ap, ◌∙◌, arith, Bool, true,
  false, not, ◌&&◌, ◌||◌, to_bool, bit_and, ltb, leb, ◌==◌, if◌then◌else◌, all_below,
  all_below_sound, ==→eq, Bool-cases,
}
use native.Mathlib.Nat.{div-le_self}
use tlmboy.Base.Bits.{bit_and-7, bit_and-255}
use tlmboy.Apu.Ranges.{IsValid}
use tlmboy.Apu.{nr10, nr13, nr14, nr52, Apu, swept, sweep_to, read_sweep, do_sweep}

-- The frequency that a sweep goes to, as the code computes it: downwards, the product is an
-- unsigned number, so that every other frequency than zero overflows, but for the step zero.
abbrev pub goal : Bool → ℕ → ℕ → ℕ
goal true step f = if step == 0 || f == 0 then 0 else 2048
goal false step f = f + f / 2 ^ step

-- At most the largest frequency.
abbrev pub capped : ℕ → ℕ
capped f = if ltb f 2047 then f else 2047

swept_down :
    (step f : ℕ)
    → step < 8
    → f ≤ 2047
    → (capped (swept true step f) ≡ capped (goal true step f))
      × (ltb 2047 (swept true step f) ≡ ltb 2047 (goal true step f))
swept_down (zero) f h k = ground arith
swept_down (suc zero) f h k = ground arith
swept_down (suc (suc zero)) f h k = ground arith
swept_down (suc (suc (suc zero))) f h k = ground arith
swept_down (suc (suc (suc (suc zero)))) f h k = ground arith
swept_down (suc (suc (suc (suc (suc zero))))) f h k = ground arith
swept_down (suc (suc (suc (suc (suc (suc zero)))))) f h k = ground arith
swept_down (suc (suc (suc (suc (suc (suc (suc zero))))))) f h k = ground arith
swept_down (suc (suc (suc (suc (suc (suc (suc (suc step)))))))) f h k = absurd (omega arith)

-- Whether the sweep changes the frequency now.
abbrev pub fires : Apu → Bool
fires a =
    let period = a.cells nr10 / 16 % 8 in not (period == 0) && leb period a.square1.sweep_counter

swept_lem :
    (down : Bool) (step f : ℕ)
    → step < 8
    → f ≤ 2047
    → (capped (swept down step f) ≡ capped (goal down step f))
      × (ltb 2047 (swept down step f) ≡ ltb 2047 (goal down step f))
swept_lem true step f h k = swept_down step f h k
swept_lem false step f h k = let l = div-le_self f (2 ^ step) in (ground arith, ground arith)

high_table : all_below 2048 (λ f. bit_and f 0x700 / 2 ^ 8 == f / 256) ≡ true
unfolding all_below
high_table = refl

high_bits : (f : ℕ) → f ≤ 2047 → bit_and f 0x700 / 2 ^ 8 ≡ f / 256
high_bits f h =
    ==→eq _ _
      (all_below_sound 2048 (λ f. bit_and f 0x700 / 2 ^ 8 == f / 256) f high_table (omega arith))

sweep_to_lem :
    (f g : ℕ) (a : Apu)
    → capped f ≡ capped g
    → ltb 2047 f ≡ ltb 2047 g
    → ((sweep_to f a).square1.frequency ≡ capped g)
      × ((sweep_to f a).cells nr13 ≡ capped g % 256)
      × ((sweep_to f a).cells nr14 ≡ capped g / 256)
      × ((sweep_to f a).cells nr52
          ≡ (if ltb 2047 g then bit_and (a.cells nr52) 254 else a.cells nr52))
sweep_to_lem f g a e o =
    let low = bit_and-255 (capped f) in
    let high = high_bits (capped f) (ground arith) in (e, ground arith, ground arith, ground arith)

-- What one call of `DoSweep` leaves behind.
pub record Swept (a b : Apu) : Type 0 where
  pub new_frequency : b.square1.frequency ≡ (
      if fires a
      then capped (goal (to_bool (bit_and (a.cells nr10) 8)) (a.cells nr10 % 8) a.square1.frequency)
      else a.square1.frequency)
  pub low_bits : b.cells nr13 ≡ (if fires a then b.square1.frequency % 256 else a.cells nr13)
  pub high_bits : b.cells nr14 ≡ (if fires a then b.square1.frequency / 256 else a.cells nr14)
  pub status : b.cells nr52 ≡ (
      if fires a
        && ltb 2047
            (goal (to_bool (bit_and (a.cells nr10) 8)) (a.cells nr10 % 8) a.square1.frequency)
      then bit_and (a.cells nr52) 254
      else a.cells nr52)
  pub counter : b.square1.sweep_counter ≡ (
      if a.cells nr10 / 16 % 8 == 0
      then a.square1.sweep_counter
      else if fires a
      then 0
      else (a.square1.sweep_counter + 1) % 2 ^ 32)

-- On a valid state, DoSweep changes the frequency exactly if the period is not 0 and the
-- counter has reached it: upwards to the frequency and its part by the step, at most 2047;
-- downwards to 0 for the step 0 or the frequency 0, and to 2047 in every other case. It writes
-- the frequency to NR13 and NR14, clears the channel's status bit on an overflow, and restarts
-- the counter; else the counter goes up by one, or stays for the period 0.
pub do_sweep-Swept : (a : Apu) → IsValid a → Swept a (do_sweep a)
unfolding do_sweep
do_sweep-Swept a v =
    let f = a.square1.frequency in
    let down = to_bool (bit_and (a.cells nr10) 8) in
    let step = bit_and-7 (a.cells nr10) in
    let period = bit_and-7 (a.cells nr10 / 2 ^ 4) in
    let lem = swept_lem down (bit_and (a.cells nr10) 7) f (omega arith) v.frequency1 in
    let same : goal down (bit_and (a.cells nr10) 7) f ≡ goal down (a.cells nr10 % 8) f =
      ap (λ s. goal down s f) step in
    let t = swept down (bit_and (a.cells nr10) 7) f in
    let new =
      sweep_to_lem t (goal down (a.cells nr10 % 8) f) (read_sweep a) (lem.0 ∙ ap capped same)
        (lem.1 ∙ ap (ltb 2047) same) in
    elim (Bool-cases (bit_and (a.cells nr10 / 2 ^ 4) 7 == 0)) [
      | inl off ↦ record {
        new_frequency = ground arith;
        low_bits = ground arith;
        high_bits = ground arith;
        status = ground arith;
        counter = ground arith;
      }
      | inr on ↦
          elim (Bool-cases (leb (bit_and (a.cells nr10 / 2 ^ 4) 7) a.square1.sweep_counter)) [
            | inl now ↦ record {
              new_frequency = ground arith;
              low_bits = ground arith;
              high_bits = ground arith;
              status = ground arith;
              counter = ground arith;
            }
            | inr later ↦ record {
              new_frequency = ground arith;
              low_bits = ground arith;
              high_bits = ground arith;
              status = ground arith;
              counter = ground arith;
            }
          ]
    ]
