-- ===== src/Apu/Envelopes.antt =====
-- src/apu.cpp: the volume after a number of envelope updates.
use tlmboy.Base.{
  ℕ, zero, suc, ◌+◌, ◌-◌, ◌/◌, ◌%◌, ◌^◌, ◌≤◌, ◌<◌, ◌≡◌, refl, ap, ◌∙◌, arith, Bool, to_bool,
  bit_and, ltb, ◌==◌, if◌then◌else◌,
}
use tlmboy.Base.Bits.{bit_and-7}
use tlmboy.Apu.{nr12, nr22, nr42, Apu}
use tlmboy.Apu.Ranges.{IsValid}
use tlmboy.Apu.Notes.{envelope, update_envelopes}

-- How many of the numbers from `i` to `i + n - 1` the period divides.
abbrev pub beats : ℕ → ℕ → ℕ → ℕ
beats period i n = (i + n + (period - 1)) / period - (i + (period - 1)) / period

beats-suc :
    (p i n : ℕ)
    → 0 < p
    → p < 8
    → beats p i (n + 1) ≡ beats p i n + (if (i + n) % p == 0 then 1 else 0)
beats-suc zero i n h k = absurd (omega arith)
beats-suc (suc zero) i n h k = ground arith
beats-suc (suc (suc zero)) i n h k = ground arith
beats-suc (suc (suc (suc zero))) i n h k = ground arith
beats-suc (suc (suc (suc (suc zero)))) i n h k = ground arith
beats-suc (suc (suc (suc (suc (suc zero))))) i n h k = ground arith
beats-suc (suc (suc (suc (suc (suc (suc zero)))))) i n h k = ground arith
beats-suc (suc (suc (suc (suc (suc (suc (suc zero))))))) i n h k = ground arith
beats-suc (suc (suc (suc (suc (suc (suc (suc (suc p)))))))) i n h k = absurd (omega arith)

-- The volume after `n` updates.
abbrev pub after : Bool → ℕ → ℕ → ℕ → ℕ → ℕ
after up period i n volume =
    if period == 0
    then volume
    else if up
    then (if ltb (volume + beats period i n) 15 then volume + beats period i n else 15)
    else volume - beats period i n

envelope-after :
    (up : Bool) (p i n v : ℕ)
    → p < 8
    → v ≤ 15
    → envelope up p (i + n) (after up p i n v) ≡ after up p i (n + 1) v
envelope-after up zero i n v h k = ground arith
envelope-after up (suc p) i n v h k = let e = beats-suc (suc p) i n (omega arith) h in ground arith

abbrev pub updates : ℕ → Apu → Apu
updates zero a = a
updates (suc n) a = update_envelopes (updates n a)

-- Bit 3 of the control register is the direction, and the lower bits are the period.
abbrev pub volume_after : ℕ → ℕ → ℕ → ℕ → ℕ
volume_after control i n v = after (to_bool (bit_and control 0b1000)) (bit_and control 0b111) i n v

volume-suc :
    (control i j n v w : ℕ)
    → v ≤ 15
    → j ≡ i + n
    → w ≡ volume_after control i n v
    → envelope (to_bool (bit_and control 0b1000)) (bit_and control 0b111) j w
      ≡ volume_after control i (suc n) v
volume-suc control i j n v w hv ej ew =
    let up = to_bool (bit_and control 0b1000) in
    let p = bit_and control 0b111 in
    let small = bit_and-7 control in
    ap (λ t. envelope up p t w) ej
    ∙ ap (λ t. envelope up p (i + n) t) ew
    ∙ envelope-after up p i n v (omega arith) hv
    ∙ ap (λ t. after up p i t v) (omega arith)

pub record Faded (a : Apu) (n : ℕ) (b : Apu) : Type 0 where
  pub square1_volume :
      b.square1.channel.volume
      ≡ volume_after (a.cells nr12) a.envelope_counter n a.square1.channel.volume
  pub square2_volume :
      b.square2.channel.volume
      ≡ volume_after (a.cells nr22) a.envelope_counter n a.square2.channel.volume
  pub noise_volume :
      b.noise.channel.volume
      ≡ volume_after (a.cells nr42) a.envelope_counter n a.noise.channel.volume
  pub same_cells : b.cells ≡ a.cells
  pub counter : b.envelope_counter ≡ a.envelope_counter + n

pub updates-Faded :
    (a : Apu) (n : ℕ) → IsValid a → a.envelope_counter + n < 2 ^ 32 → Faded a n (updates n a)
unfolding update_envelopes
updates-Faded a zero v h =
    let v1 = v.square1_range.volume_range in
    let v2 = v.square2_range.volume_range in
    let v4 = v.noise_range.volume_range in
    record {
      square1_volume = ground arith;
      square2_volume = ground arith;
      noise_volume = ground arith;
      same_cells = refl;
      counter = omega arith;
    }
updates-Faded a (suc n) v h =
    let k = updates-Faded a n v (omega arith) in
    let b = updates n a in
    record {
      square1_volume =
          ap
            (λ c.
              envelope (to_bool (bit_and (c nr12) 8)) (bit_and (c nr12) 7) b.envelope_counter
                b.square1.channel.volume)
            k.same_cells
          ∙ volume-suc (a.cells nr12) a.envelope_counter _ n _ _ v.square1_range.volume_range
              k.counter k.square1_volume;
      square2_volume =
          ap
            (λ c.
              envelope (to_bool (bit_and (c nr22) 8)) (bit_and (c nr22) 7) b.envelope_counter
                b.square2.channel.volume)
            k.same_cells
          ∙ volume-suc (a.cells nr22) a.envelope_counter _ n _ _ v.square2_range.volume_range
              k.counter k.square2_volume;
      noise_volume =
          ap
            (λ c.
              envelope (to_bool (bit_and (c nr42) 8)) (bit_and (c nr42) 7) b.envelope_counter
                b.noise.channel.volume)
            k.same_cells
          ∙ volume-suc (a.cells nr42) a.envelope_counter _ n _ _ v.noise_range.volume_range
              k.counter k.noise_volume;
      same_cells = k.same_cells;
      counter = (let e = k.counter in omega arith);
    }
