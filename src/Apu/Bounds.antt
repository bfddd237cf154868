-- ===== src/Apu/Bounds.antt =====
-- src/apu.cpp: the ranges of the channels' members.
use tlmboy.Base.{
  ℕ, ◌-◌, ◌/◌, ◌^◌, ◌≤◌, ◌<◌, arith, Bool, true, false, not, List, [], ◌∷◌, bit_and, bit_or, ◌==◌,
  if◌then◌else◌,
}
use tlmboy.Base.Bits.{bit_and-3, bit_and-7, bit_or-shift}
use tlmboy.Apu.{
  Channel, Noise, Apu, nr11, nr12, nr13, nr14, nr21, nr22, nr23, nr24, nr31, nr32, nr41, nr42, nr52,
}
use tlmboy.Apu.Notes.{
  loaded, at_volume, turned_on, with_square1, with_square2, with_wave, reload_length_square1,
  reload_length_square2, reload_length_wave, reload_length_noise, trigger_event_square1,
  trigger_event_square2, trigger_event_wave, trigger_event_noise, run_step, Step, lengths, sweep,
  envelopes, wait_for,
}
use tlmboy.Apu.Stream.{
  read_registers, frequency_of, read_noise, read_wave, read_square1, read_square2,
}
use tlmboy.Apu.Ranges.{
  InRange, IsValid, put-byte, Masked, masked, decrement_lengths-IsValid, either,
  with_square-IsValid, do_sweep-IsValid, update_envelopes-IsValid,
}

-- The operations of the APU.
pub data Operation : Type 0 where
  step : Step → Operation
  reload1 reload2 reload3 reload4 trigger1 trigger2 trigger3 trigger4 callback : Operation

abbrev pub apply : Operation → Apu → Apu
apply (step s) a = run_step s a
apply reload1 a = reload_length_square1 a
apply reload2 a = reload_length_square2 a
apply reload3 a = reload_length_wave a
apply reload4 a = reload_length_noise a
apply trigger1 a = trigger_event_square1 a
apply trigger2 a = trigger_event_square2 a
apply trigger3 a = trigger_event_wave a
apply trigger4 a = trigger_event_noise a
apply callback a = read_registers a

with_square1-IsValid :
    (a : Apu) (c : Channel) → IsValid a → InRange c 15 64 → IsValid (with_square1 c a)
with_square1-IsValid a c v r =
    with_square-IsValid a (record a.square1 { channel = c }) v r v.frequency1

with_square2-IsValid :
    (a : Apu) (c : Channel) → IsValid a → InRange c 15 64 → IsValid (with_square2 c a)
with_square2-IsValid a c v r = record {
  bytes = v.bytes;
  square1_range = v.square1_range;
  square2_range = r;
  wave_range = v.wave_range;
  noise_range = v.noise_range;
  frequency1 = v.frequency1;
  frequency2 = v.frequency2;
}

with_wave-IsValid : (a : Apu) (c : Channel) → IsValid a → InRange c 3 256 → IsValid (with_wave c a)
with_wave-IsValid a c v r = record {
  bytes = v.bytes;
  square1_range = v.square1_range;
  square2_range = v.square2_range;
  wave_range = r;
  noise_range = v.noise_range;
  frequency1 = v.frequency1;
  frequency2 = v.frequency2;
}

noise-IsValid :
    (a : Apu) (n : Noise) → IsValid a → InRange n.channel 15 64 → IsValid (record a { noise = n })
noise-IsValid a n v r = record {
  bytes = v.bytes;
  square1_range = v.square1_range;
  square2_range = v.square2_range;
  wave_range = v.wave_range;
  noise_range = r;
  frequency1 = v.frequency1;
  frequency2 = v.frequency2;
}

turned_on-IsValid :
    (on : Bool) (mask : ℕ) (a : Apu)
    → IsValid a
    → bit_or (a.cells nr52) mask < 256
    → IsValid (turned_on on mask a)
turned_on-IsValid false mask a v h = v
turned_on-IsValid true mask a v h = record {
  bytes = put-byte nr52 (bit_or (a.cells nr52) mask) a.cells h v.bytes;
  square1_range = v.square1_range;
  square2_range = v.square2_range;
  wave_range = v.wave_range;
  noise_range = v.noise_range;
  frequency1 = v.frequency1;
  frequency2 = v.frequency2;
}

loaded-range :
    (l : ℕ) (c : Channel) (loudest longest : ℕ)
    → l ≤ longest
    → InRange c loudest longest
    → InRange (loaded l c) loudest longest
loaded-range l c loudest longest h r = record { volume_range = r.volume_range; length_range = h }

at_volume-range :
    (x : ℕ) (c : Channel) (loudest longest : ℕ)
    → x ≤ loudest
    → InRange c loudest longest
    → InRange (at_volume x c) loudest longest
at_volume-range x c loudest longest h r = record { volume_range = h; length_range = r.length_range }

reload_length_square1-IsValid : (a : Apu) → IsValid a → IsValid (reload_length_square1 a)
reload_length_square1-IsValid a v = with_square1-IsValid a _ v (
    loaded-range (64 - bit_and (a.cells nr11) 63) a.square1.channel 15 64 (omega arith)
      v.square1_range)

reload_length_square2-IsValid : (a : Apu) → IsValid a → IsValid (reload_length_square2 a)
reload_length_square2-IsValid a v = with_square2-IsValid a _ v (
    loaded-range (64 - bit_and (a.cells nr21) 63) a.square2.channel 15 64 (omega arith)
      v.square2_range)

reload_length_wave-IsValid : (a : Apu) → IsValid a → IsValid (reload_length_wave a)
reload_length_wave-IsValid a v =
    with_wave-IsValid a _ v
      (loaded-range (256 - a.cells nr31) a.wave.channel 3 256 (omega arith) v.wave_range)

reload_length_noise-IsValid : (a : Apu) → IsValid a → IsValid (reload_length_noise a)
reload_length_noise-IsValid a v = noise-IsValid a _ v (
    loaded-range (64 - bit_and (a.cells nr41) 63) a.noise.channel 15 64 (omega arith) v.noise_range)

trigger_event_square1-IsValid : (a : Apu) → IsValid a → IsValid (trigger_event_square1 a)
unfolding trigger_event_square1 Masked
trigger_event_square1-IsValid a v =
    let b = if a.square1.channel.length_load == 0 then reload_length_square1 a else a in
    let vb =
      either (a.square1.channel.length_load == 0) (reload_length_square1 a) a
        (reload_length_square1-IsValid a v) v in
    let byte = vb.bytes nr12 in
    let c = with_square1 (at_volume (b.cells nr12 / 2 ^ 4) b.square1.channel) b in
    let vc = with_square1-IsValid b _ vb (
      at_volume-range (b.cells nr12 / 2 ^ 4) b.square1.channel 15 64 (omega arith)
        vb.square1_range) in
    turned_on-IsValid (not (bit_and (c.cells nr12) 0xF8 == 0)) 1 c vc
      (masked (c.cells nr52) (vc.bytes nr52)).4

trigger_event_square2-IsValid : (a : Apu) → IsValid a → IsValid (trigger_event_square2 a)
unfolding trigger_event_square2 Masked
trigger_event_square2-IsValid a v =
    let b = if a.square2.channel.length_load == 0 then reload_length_square2 a else a in
    let vb =
      either (a.square2.channel.length_load == 0) (reload_length_square2 a) a
        (reload_length_square2-IsValid a v) v in
    let byte = vb.bytes nr22 in
    let c = with_square2 (at_volume (b.cells nr22 / 2 ^ 4) b.square2.channel) b in
    let vc = with_square2-IsValid b _ vb (
      at_volume-range (b.cells nr22 / 2 ^ 4) b.square2.channel 15 64 (omega arith)
        vb.square2_range) in
    turned_on-IsValid (not (bit_and (c.cells nr22) 0xF8 == 0)) 2 c vc
      (masked (c.cells nr52) (vc.bytes nr52)).5

trigger_event_wave-IsValid : (a : Apu) → IsValid a → IsValid (trigger_event_wave a)
unfolding trigger_event_wave Masked
trigger_event_wave-IsValid a v =
    let b = if a.wave.channel.length_load == 0 then reload_length_wave a else a in
    let vb =
      either (a.wave.channel.length_load == 0) (reload_length_wave a) a
        (reload_length_wave-IsValid a v) v in
    let low = bit_and-3 (b.cells nr32 / 2 ^ 5) in
    let x = bit_and (b.cells nr32 / 2 ^ 5) 0b11 in
    let c = with_wave (at_volume x b.wave.channel) b in
    let vc =
      with_wave-IsValid b _ vb
        (at_volume-range x b.wave.channel 3 256 (omega arith) vb.wave_range) in
    turned_on-IsValid true 4 c vc (masked (c.cells nr52) (vc.bytes nr52)).6

trigger_event_noise-IsValid : (a : Apu) → IsValid a → IsValid (trigger_event_noise a)
unfolding trigger_event_noise Masked
trigger_event_noise-IsValid a v =
    let b = if a.noise.channel.length_load == 0 then reload_length_noise a else a in
    let vb =
      either (a.noise.channel.length_load == 0) (reload_length_noise a) a
        (reload_length_noise-IsValid a v) v in
    let byte = vb.bytes nr42 in
    let n = record b.noise {
      channel = at_volume (b.cells nr42 / 2 ^ 4) b.noise.channel;
      lfsr_bits = 0;
    } in
    let c = record b { noise = n } in
    let vc =
      noise-IsValid b n vb (
        at_volume-range (b.cells nr42 / 2 ^ 4) b.noise.channel 15 64 (omega arith)
          vb.noise_range) in
    turned_on-IsValid (not (bit_and (b.cells nr42) 0xF8 == 0)) 8 c vc
      (masked (c.cells nr52) (vc.bytes nr52)).7

frequency-range : (msb lsb : ℕ) → lsb < 256 → frequency_of msb lsb ≤ 2047
frequency-range msb lsb h =
    let m = bit_and-7 msb in let e = bit_or-shift 8 (bit_and msb 7) lsb h in omega (arith)

read_registers-IsValid : (a : Apu) → IsValid a → IsValid (read_registers a)
unfolding read_registers
read_registers-IsValid a v =
    either (a.cells nr52 / 2 ^ 7 == 0) a (read_noise (read_wave (read_square2 (read_square1 a)))) v
      (record {
        bytes = v.bytes;
        square1_range = v.square1_range;
        square2_range = v.square2_range;
        wave_range = record {
          volume_range = (let e = bit_and-3 (a.cells nr32 / 2 ^ 5) in omega (arith));
          length_range = v.wave_range.length_range;
        };
        noise_range = record {
          volume_range = v.noise_range.volume_range;
          length_range = v.noise_range.length_range;
        };
        frequency1 = frequency-range (a.cells nr14) (a.cells nr13) (v.bytes nr13);
        frequency2 = frequency-range (a.cells nr24) (a.cells nr23) (v.bytes nr23);
      })

-- Whatever the audio loop, the signals and the audio callback do next.
pub apply-IsValid : (o : Operation) (a : Apu) → IsValid a → IsValid (apply o a)
apply-IsValid (step lengths) a v = decrement_lengths-IsValid a v
apply-IsValid (step sweep) a v = do_sweep-IsValid a v
apply-IsValid (step envelopes) a v = update_envelopes-IsValid a v
apply-IsValid (step (wait_for n)) a v = v
apply-IsValid reload1 a v = reload_length_square1-IsValid a v
apply-IsValid reload2 a v = reload_length_square2-IsValid a v
apply-IsValid reload3 a v = reload_length_wave-IsValid a v
apply-IsValid reload4 a v = reload_length_noise-IsValid a v
apply-IsValid trigger1 a v = trigger_event_square1-IsValid a v
apply-IsValid trigger2 a v = trigger_event_square2-IsValid a v
apply-IsValid trigger3 a v = trigger_event_wave-IsValid a v
apply-IsValid trigger4 a v = trigger_event_noise-IsValid a v
apply-IsValid callback a v = read_registers-IsValid a v

-- The operations one after the other.
abbrev pub apply_all : List Operation → Apu → Apu
apply_all [] a = a
apply_all (o ∷ rest) a = apply_all rest (apply o a)

-- Any sequence of the steps of the audio loop, the reloads, the triggers and what the audio
-- callback reads keeps the registers bytes, the volumes at most 15, the wave's at most 3, the
-- lengths at most 64, the wave's at most 256, and the frequencies of the square channels at
-- most 2047.
pub apply_all-IsValid : (os : List Operation) (a : Apu) → IsValid a → IsValid (apply_all os a)
apply_all-IsValid [] a v = v
apply_all-IsValid (o ∷ rest) a v = apply_all-IsValid rest (apply o a) (apply-IsValid o a v)
