-- ===== src/Apu/Ranges.antt =====
-- src/apu.cpp: the ranges of the channels' members, and the audio loop.
use tlmboy.Base.{
  ℕ, ◌+◌, ◌-◌, ◌/◌, ◌%◌, ◌^◌, ◌≤◌, ◌<◌, ◌≡◌, refl, arith, Bool, true, false, ◌&&◌, bit_and, bit_or,
  ltb, leb, ◌==◌, if◌then◌else◌, all_below, all_below_sound,
}
use tlmboy.Base.{ltb→lt}
use tlmboy.Base.Bits.{bit_and-255}
use tlmboy.Apu.{
  Channel, Square, Apu, put, decrement, enabled, decrement_lengths, swept, sweep_to, read_sweep,
  do_sweep, nr14, nr24, nr34, nr44, nr52,
}
use tlmboy.Apu.Notes.{update_envelopes}

-- The volume has four bits, and the length is at most `longest`.
pub record InRange (c : Channel) (loudest longest : ℕ) : Type 0 where
  pub volume_range : c.volume ≤ loudest
  pub length_range : c.length_load ≤ longest

pub record IsValid (a : Apu) : Type 0 where
  pub bytes : (j : ℕ) → a.cells j < 256
  pub square1_range : InRange a.square1.channel 15 64
  pub square2_range : InRange a.square2.channel 15 64
  pub wave_range : InRange a.wave.channel 3 256
  pub noise_range : InRange a.noise.channel 15 64
  pub frequency1 : a.square1.frequency ≤ 2047
  pub frequency2 : a.square2.frequency ≤ 2047

pub put-byte :
    (adr v : ℕ) (cells : ℕ → ℕ)
    → v < 256
    → ((j : ℕ) → cells j < 256)
    → (j : ℕ) → put adr v cells j < 256
put-byte adr v cells hv h j = let e = h j in ground arith

mask_table :
    all_below 256 (λ s.
      ltb (bit_and s 254) 256
      && ltb (bit_and s 253) 256
      && ltb (bit_and s 251) 256
      && ltb (bit_and s 247) 256
      && ltb (bit_or s 1) 256
      && ltb (bit_or s 2) 256
      && ltb (bit_or s 4) 256
      && ltb (bit_or s 8) 256)
    ≡ true
unfolding all_below
mask_table = refl

unfoldable pub Masked : ℕ → Type 0
Masked s =
    (bit_and s 254 < 256)
    × (bit_and s 253 < 256)
    × (bit_and s 251 < 256)
    × (bit_and s 247 < 256)
    × (bit_or s 1 < 256)
    × (bit_or s 2 < 256)
    × (bit_or s 4 < 256)
    × (bit_or s 8 < 256)

pub masked : (s : ℕ) → s < 256 → Masked s
unfolding Masked
masked s h = let row = all_below_sound 256 _ s mask_table h in ground arith

high_table : all_below 2048 (λ f. ltb (bit_and f 0x700 / 2 ^ 8) 256) ≡ true
unfolding all_below
high_table = refl

high_bits : (f : ℕ) → f ≤ 2047 → bit_and f 0x700 / 2 ^ 8 < 256
high_bits f h =
    ltb→lt _ _
      (all_below_sound 2048 (λ f. ltb (bit_and f 0x700 / 2 ^ 8) 256) f high_table (omega arith))

decrement-range :
    (m : ℕ) (control s loudest longest : ℕ) (c : Channel)
    → InRange c loudest longest
    → InRange (decrement m (enabled control c) s).0 loudest longest
decrement-range m control s loudest longest c r =
    let v = r.volume_range in
    let l = r.length_range in record { volume_range = ground arith; length_range = ground arith }

decrement-byte :
    (m : ℕ) (s : ℕ) (c : Channel) → s < 256 → bit_and s (255 - m) < 256 → (decrement m c s).1 < 256
decrement-byte m s c h k = ground arith

pub decrement_lengths-IsValid : (a : Apu) → IsValid a → IsValid (decrement_lengths a)
unfolding decrement_lengths Masked
decrement_lengths-IsValid a v =
    let h0 = v.bytes nr52 in
    let c1 = enabled (a.cells nr14) a.square1.channel in
    let c2 = enabled (a.cells nr24) a.square2.channel in
    let c3 = enabled (a.cells nr34) a.wave.channel in
    let c4 = enabled (a.cells nr44) a.noise.channel in
    let s1 = decrement 1 c1 (a.cells nr52) in
    let h1 = decrement-byte 1 (a.cells nr52) c1 h0 (masked (a.cells nr52) h0).0 in
    let s2 = decrement 2 c2 s1.1 in
    let h2 = decrement-byte 2 s1.1 c2 h1 (masked s1.1 h1).1 in
    let s3 = decrement 4 c3 s2.1 in
    let h3 = decrement-byte 4 s2.1 c3 h2 (masked s2.1 h2).2 in
    let s4 = decrement 8 c4 s3.1 in
    let h4 = decrement-byte 8 s3.1 c4 h3 (masked s3.1 h3).3 in
    record {
      bytes = put-byte nr52 s4.1 a.cells h4 v.bytes;
      square1_range =
          decrement-range 1 (a.cells nr14) (a.cells nr52) 15 64 a.square1.channel v.square1_range;
      square2_range = decrement-range 2 (a.cells nr24) s1.1 15 64 a.square2.channel v.square2_range;
      wave_range = decrement-range 4 (a.cells nr34) s2.1 3 256 a.wave.channel v.wave_range;
      noise_range = decrement-range 8 (a.cells nr44) s3.1 15 64 a.noise.channel v.noise_range;
      frequency1 = v.frequency1;
      frequency2 = v.frequency2;
    }

sweep_to-IsValid : (f : ℕ) (a : Apu) → IsValid a → IsValid (sweep_to f a)
unfolding Masked
sweep_to-IsValid f a v =
    let f' = if ltb f 2047 then f else 2047 in
    let low = bit_and-255 f' in
    let high = high_bits f' (ground arith) in
    let m = (masked (a.cells nr52) (v.bytes nr52)).0 in
    record {
      bytes = λ j. (let e = v.bytes j in ground arith);
      square1_range = record {
        volume_range = v.square1_range.volume_range;
        length_range = v.square1_range.length_range;
      };
      square2_range = v.square2_range;
      wave_range = v.wave_range;
      noise_range = v.noise_range;
      frequency1 = ground arith;
      frequency2 = v.frequency2;
    }

pub either : (t : Bool) (a b : Apu) → IsValid a → IsValid b → IsValid (if t then a else b)
either true a b va vb = va
either false a b va vb = vb

-- Another state of the first square channel.
pub with_square-IsValid :
    (a : Apu) (s : Square)
    → IsValid a
    → InRange s.channel 15 64
    → s.frequency ≤ 2047
    → IsValid (record a { square1 = s })
with_square-IsValid a s v r f = record {
  bytes = v.bytes;
  square1_range = r;
  square2_range = v.square2_range;
  wave_range = v.wave_range;
  noise_range = v.noise_range;
  frequency1 = f;
  frequency2 = v.frequency2;
}

read_sweep-IsValid : (a : Apu) → IsValid a → IsValid (read_sweep a)
read_sweep-IsValid a v = with_square-IsValid a (read_sweep a).square1 v v.square1_range v.frequency1

pub do_sweep-IsValid : (a : Apu) → IsValid a → IsValid (do_sweep a)
unfolding do_sweep
do_sweep-IsValid a v =
    let b = read_sweep a in
    let s = b.square1 in
    let vb = read_sweep-IsValid a v in
    either (s.sweep_period == 0) b
      (if leb s.sweep_period s.sweep_counter
        then sweep_to (swept s.sweep_direction s.sweep_step s.frequency) b
        else record b { square1 = record s { sweep_counter = (s.sweep_counter + 1) % 2 ^ 32 } })
      vb
      (either (leb s.sweep_period s.sweep_counter)
        (sweep_to (swept s.sweep_direction s.sweep_step s.frequency) b)
        (record b { square1 = record s { sweep_counter = (s.sweep_counter + 1) % 2 ^ 32 } })
        (sweep_to-IsValid (swept s.sweep_direction s.sweep_step s.frequency) b vb)
        (with_square-IsValid b (record s { sweep_counter = (s.sweep_counter + 1) % 2 ^ 32 }) vb
          vb.square1_range vb.frequency1))

pub update_envelopes-IsValid : (a : Apu) → IsValid a → IsValid (update_envelopes a)
unfolding update_envelopes
update_envelopes-IsValid a v =
    let v1 = v.square1_range.volume_range in
    let v2 = v.square2_range.volume_range in
    let v4 = v.noise_range.volume_range in
    record {
      bytes = v.bytes;
      square1_range = record {
        volume_range = ground arith;
        length_range = v.square1_range.length_range;
      };
      square2_range = record {
        volume_range = ground arith;
        length_range = v.square2_range.length_range;
      };
      wave_range = v.wave_range;
      noise_range = record {
        volume_range = ground arith;
        length_range = v.noise_range.length_range;
      };
      frequency1 = v.frequency1;
      frequency2 = v.frequency2;
    }
