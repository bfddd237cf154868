-- ===== src/Apu/Lfsr.antt =====
-- src/apu.cpp: the noise channel's shift register and its clock.
use tlmboy.Base.{
  ℕ, zero, suc, ◌+◌, ◌-◌, ◌*◌, ◌/◌, ◌%◌, ◌^◌, ◌≤◌, ◌<◌, ◌≡◌, ◌≢◌, ◌⊎◌, inl, inr, refl, sym, ap, ◌∙◌,
  arith, Bool, true, not, ◌&&◌, List, [], ◌∷◌, ◌==◌, if◌then◌else◌, all_below, all_below_sound,
  ==→eq,
}
use native.Mathlib.Nat.{mul_comm, add-mul, mod-lt, zero-add, suc-add}
use native.Mathlib.Omega.{div_any}
use tlmboy.Apu.{Noise}
use tlmboy.Apu.Stream.{lfsr_tick, lfsr_ticks, noise_samples, sample_length}

-- The register after `n` ticks.
abbrev pub ticked : ℕ → ℕ → ℕ → ℕ
ticked width n bits = (lfsr_ticks width n (bits, 0)).0

-- A tick as an arithmetic step: shift to the right, and a new highest bit.
abbrev pub shifted : ℕ → ℕ → ℕ
shifted width bits = bits / 2 + (if bits % 2 == bits / 2 % 2 then 2 ^ (width - 1) else 0)

short_table : all_below 128 (λ bits. lfsr_tick 7 bits == shifted 7 bits) ≡ true
unfolding all_below lfsr_tick
short_table = refl

long_table : all_below 32768 (λ bits. lfsr_tick 15 bits == shifted 15 bits) ≡ true
unfolding all_below lfsr_tick
long_table = refl

-- None of the next `n` states is the first one.
abbrev comes_back : ℕ → ℕ → ℕ → Bool
comes_back zero first bits = true
comes_back (suc n) first bits =
    let next = lfsr_tick 7 bits in not (next == first) && comes_back n first next

cycle_table : all_below 127 (λ bits. ticked 7 127 bits == bits && comes_back 126 bits bits) ≡ true
unfolding all_below lfsr_ticks lfsr_tick
cycle_table = refl

ticks-sum :
    (width n bits s t : ℕ) → (lfsr_ticks width n (bits, s)).0 ≡ (lfsr_ticks width n (bits, t)).0
unfolding lfsr_ticks
ticks-sum width zero bits s t = refl
ticks-sum width (suc n) bits s t = ticks-sum width n (lfsr_tick width bits) _ _

and_left : (a b : Bool) → (a && b) ≡ true → a ≡ true
and_left a b h = ground arith

and_right : (a b : Bool) → (a && b) ≡ true → b ≡ true
and_right a b h = ground arith

comes_back_sound :
    (n m first bits : ℕ) → comes_back n first bits ≡ true → 0 < m → m ≤ n → ticked 7 m bits ≢ first
unfolding lfsr_ticks
comes_back_sound zero m first bits h lo hi = absurd (omega arith)
comes_back_sound (suc n) zero first bits h lo hi = absurd (omega arith)
comes_back_sound (suc n) (suc zero) first bits h lo hi = λ e. ground arith
comes_back_sound (suc n) (suc (suc m)) first bits h lo hi = λ e.
    comes_back_sound n (suc m) first (lfsr_tick 7 bits)
      (and_right (not (lfsr_tick 7 bits == first)) _ h) (omega arith) (omega arith)
      (ticks-sum 7 (suc m) (lfsr_tick 7 bits) 0 _ ∙ e)

-- In the mode of seven bits, from every state below 127 the shift register comes back to it
-- after 127 ticks, and not before.
pub lfsr-period :
    (bits m : ℕ)
    → bits < 127
    → 0 < m
    → m < 127
    → (ticked 7 127 bits ≡ bits) × (ticked 7 m bits ≢ bits)
lfsr-period bits m h lo hi =
    let row =
      all_below_sound 127 (λ bits. ticked 7 127 bits == bits && comes_back 126 bits bits) bits
        cycle_table h in
    (
      ==→eq _ _ (and_left (ticked 7 127 bits == bits) _ row),
      comes_back_sound 126 m bits bits (and_right (ticked 7 127 bits == bits) _ row) lo
          (omega arith),
    )

-- One step of the clock division.
pub divided : (t c : ℕ) → 0 < c → (t / c * c + (t - t / c * c) ≡ t) × (t - t / c * c < c)
divided t c h =
    let e = div_any t c in let l = mod-lt t h in let k = mul_comm (t / c) c in omega (arith)

ticks-add : (width m n bits : ℕ) → ticked width (m + n) bits ≡ ticked width n (ticked width m bits)
unfolding lfsr_ticks
ticks-add width zero n bits = ap (λ k. ticked width k bits) (zero-add n)
ticks-add width (suc m) n bits =
    let next = lfsr_tick width bits in
    ap (λ k. ticked width k bits) (suc-add m n)
    ∙ ticks-sum width (m + n) next _ 0
    ∙ ticks-add width m n next
    ∙ ap (λ b. ticked width n b) (ticks-sum width m next 0 _)

abbrev pub total : List ℕ → ℕ
total [] = 0
total (t ∷ rest) = t + total rest

-- Where the ticks per step of the register are above 0 and they and the counter at most 112 * 2
-- ^ 15, n samples make as many steps as fit into the clock cycles of the counter and of the n
-- samples, and leave the rest in the counter: no cycle is lost; the register has made all these
-- steps.
pub noise_samples_lem :
    (n : ℕ) (s : Noise)
    → 0 < s.cpu_ticks_per_lfsr_sample
    → s.cpu_ticks_per_lfsr_sample ≤ 112 * 2 ^ 15
    → s.tick_cntr ≤ 112 * 2 ^ 15
    → (total (noise_samples n s).0 * s.cpu_ticks_per_lfsr_sample + (noise_samples n s).1.tick_cntr
        ≡ s.tick_cntr + sample_length * n)
      × ((n ≡ 0) ⊎ ((noise_samples n s).1.tick_cntr < s.cpu_ticks_per_lfsr_sample))
      × ((noise_samples n s).1.lfsr_bits
          ≡ ticked s.lfsr_width (total (noise_samples n s).0) s.lfsr_bits)
unfolding noise_samples lfsr_ticks
noise_samples_lem zero s h1 h2 h3 = (omega arith, inl refl, refl)
noise_samples_lem (suc n) s h1 h2 h3 =
    let c = s.cpu_ticks_per_lfsr_sample in
    let t = (s.tick_cntr + sample_length) % 2 ^ 32 in
    let bits = ticked s.lfsr_width (t / c) s.lfsr_bits in
    let here = divided t c h1 in
    let s' = record s { tick_cntr = t - t / c * c; lfsr_bits = bits } in
    let later = noise_samples_lem n s' h1 h2 (omega arith) in
    let sum = total (noise_samples n s').0 in
    (
      (let e = add-mul (t / c) sum c in omega arith),
      inr (elim later.1 [
        | inl z ↦ (let e = ap (λ k. (noise_samples k s').1.tick_cntr) z in omega arith)
        | inr lt ↦ lt
      ]),
      later.2 ∙ sym (ticks-add s.lfsr_width (t / c) sum s.lfsr_bits),
    )
