-- ===== src/Apu/Notes.antt =====
-- src/apu.cpp: envelopes, length reloads, triggers, and the round of the audio loop.
use tlmboy.Base.{
  ℕ, ◌+◌, ◌-◌, ◌/◌, ◌%◌, ◌^◌, Bool, true, not, ◌&&◌, List, [], ◌∷◌, to_bool, bit_and, bit_or, ltb,
  ◌==◌, if◌then◌else◌,
}
use tlmboy.Apu.{
  nr11, nr12, nr21, nr22, nr31, nr32, nr41, nr42, nr52, Channel, Square, Noise, Apu, put,
  decrement_lengths, do_sweep,
}

-- The volume after an update of an envelope: `std::min(volume + 1, 15)` or `std::max(volume - 1, 0)`.
abbrev pub envelope : Bool → ℕ → ℕ → ℕ → ℕ
envelope up period i volume =
    if to_bool period && not (to_bool (i % period))
    then (if up then (if ltb (volume + 1) 15 then volume + 1 else 15) else volume - 1)
    else volume

abbrev pub square_envelope : ℕ → ℕ → Square → Square
square_envelope control i s =
    let up = to_bool (bit_and control 0b1000) in
    let period = bit_and control 0b111 in
    record s {
      envelope_mode = up;
      period = period;
      channel = record s.channel { volume = envelope up period i s.channel.volume };
    }

abbrev pub noise_envelope : ℕ → ℕ → Noise → Noise
noise_envelope control i s =
    let up = to_bool (bit_and control 0b1000) in
    let period = bit_and control 0b111 in
    record s {
      envelope_mode = up;
      period = period;
      channel = record s.channel { volume = envelope up period i s.channel.volume };
    }

unfoldable pub update_envelopes : Apu → Apu
update_envelopes a = record a {
  square1 = square_envelope (a.cells nr12) a.envelope_counter a.square1;
  square2 = square_envelope (a.cells nr22) a.envelope_counter a.square2;
  noise = noise_envelope (a.cells nr42) a.envelope_counter a.noise;
  envelope_counter = (a.envelope_counter + 1) % 2 ^ 32;
}

abbrev pub with_square1 : Channel → Apu → Apu
with_square1 c a = record a { square1 = record a.square1 { channel = c } }

abbrev pub with_square2 : Channel → Apu → Apu
with_square2 c a = record a { square2 = record a.square2 { channel = c } }

abbrev pub with_wave : Channel → Apu → Apu
with_wave c a = record a { wave = record a.wave { channel = c } }

abbrev pub with_noise : Channel → Apu → Apu
with_noise c a = record a { noise = record a.noise { channel = c } }

abbrev pub loaded : ℕ → Channel → Channel
loaded l c = record c { length_load = l }

abbrev pub reload_length_square1 : Apu → Apu
reload_length_square1 a =
    with_square1 (loaded (64 - bit_and (a.cells nr11) 0b111111) a.square1.channel) a

abbrev pub reload_length_square2 : Apu → Apu
reload_length_square2 a =
    with_square2 (loaded (64 - bit_and (a.cells nr21) 0b111111) a.square2.channel) a

-- The register is a byte, so that the subtraction does not wrap around.
abbrev pub reload_length_wave : Apu → Apu
reload_length_wave a = with_wave (loaded (256 - a.cells nr31) a.wave.channel) a

abbrev pub reload_length_noise : Apu → Apu
reload_length_noise a = with_noise (loaded (64 - bit_and (a.cells nr41) 0b111111) a.noise.channel) a

abbrev pub at_volume : ℕ → Channel → Channel
at_volume v c = record c { volume = v }

-- `*reg_nr52 |= mask` if `on` holds.
abbrev pub turned_on : Bool → ℕ → Apu → Apu
turned_on on mask a =
    if on then record a { cells = put nr52 (bit_or (a.cells nr52) mask) a.cells } else a

unfoldable pub trigger_event_square1 : Apu → Apu
trigger_event_square1 a =
    let b = if a.square1.channel.length_load == 0 then reload_length_square1 a else a in
    let c = with_square1 (at_volume (b.cells nr12 / 2 ^ 4) b.square1.channel) b in
    turned_on (not (bit_and (c.cells nr12) 0xF8 == 0)) 1 c

unfoldable pub trigger_event_square2 : Apu → Apu
trigger_event_square2 a =
    let b = if a.square2.channel.length_load == 0 then reload_length_square2 a else a in
    let c = with_square2 (at_volume (b.cells nr22 / 2 ^ 4) b.square2.channel) b in
    turned_on (not (bit_and (c.cells nr22) 0xF8 == 0)) 2 c

unfoldable pub trigger_event_wave : Apu → Apu
trigger_event_wave a =
    let b = if a.wave.channel.length_load == 0 then reload_length_wave a else a in
    turned_on true 4 (with_wave (at_volume (bit_and (b.cells nr32 / 2 ^ 5) 0b11) b.wave.channel) b)

unfoldable pub trigger_event_noise : Apu → Apu
trigger_event_noise a =
    let b = if a.noise.channel.length_load == 0 then reload_length_noise a else a in
    let n = record b.noise {
      channel = at_volume (b.cells nr42 / 2 ^ 4) b.noise.channel;
      lfsr_bits = 0;
    } in
    turned_on (not (bit_and (b.cells nr42) 0xF8 == 0)) 8 (record b { noise = n })

-- The statements of the audio loop.
pub data Step : Type 0 where
  lengths sweep envelopes : Step
  -- `wait`, in clock cycles.
  wait_for : ℕ → Step

-- A round of the audio loop.
abbrev pub audio_round : List Step
audio_round =
    lengths
    ∷ wait_for 16384
    ∷ lengths
    ∷ sweep
    ∷ wait_for 16384
    ∷ lengths
    ∷ wait_for 16384
    ∷ lengths
    ∷ sweep
    ∷ wait_for 8192
    ∷ envelopes
    ∷ wait_for 8192
    ∷ []

abbrev pub run_step : Step → Apu → Apu
run_step lengths a = decrement_lengths a
run_step sweep a = do_sweep a
run_step envelopes a = update_envelopes a
run_step (wait_for cycles) a = a

unfoldable pub run_steps : List Step → Apu → Apu
run_steps [] a = a
run_steps (s ∷ rest) a = run_steps rest (run_step s a)
