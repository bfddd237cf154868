-- ===== src/Examples/Sound.antt =====
-- The APU at a concrete state.
use tlmboy.Base.{ℕ, ◌<◌, arith, true, false, [], ◌∷◌, ◌==◌, if◌then◌else◌}
use tlmboy.Apu.{nr10, do_sweep, Channel, Square, Wave, Noise, Apu}
use tlmboy.Apu.Notes.{lengths, sweep, envelopes}
use tlmboy.Apu.Lengths.{Counted, times, times-Counted}
use tlmboy.Apu.Ranges.{IsValid}
use tlmboy.Apu.Bounds.{step, trigger1, reload3, callback, apply_all, apply_all-IsValid}
use tlmboy.Apu.Sweep.{Swept, do_sweep-Swept}
use tlmboy.Apu.Envelopes.{Faded, updates, updates-Faded}

abbrev channel : ℕ → Channel
channel volume = record { length_enable = false; volume = volume; length_load = 2 }

abbrev square : Square
square = record {
  channel = channel 9;
  envelope_mode = false;
  sweep_direction = false;
  duty = 2;
  frequency = 1500;
  period = 0;
  sweep_counter = 3;
  sweep_step = 0;
  sweep_period = 0;
}

abbrev wave : Wave
wave = record { channel = channel 2; dac_enable = true; period = 300; sample_index = 0 }

abbrev noise : Noise
noise = record {
  channel = channel 15;
  envelope_mode = false;
  divisor = 8;
  lfsr_bits = 5;
  lfsr_width = 7;
  period = 0;
  shift = 2;
  cpu_ticks_per_lfsr_sample = 32;
  tick_cntr = 10;
}

-- Every control byte enables the length, and the sweep and the envelopes are on.
abbrev apu : Apu
apu = record {
  cells = λ j. if j == nr10 then 0x21 else 0xFF;
  square1 = square;
  square2 = square;
  wave = wave;
  noise = noise;
  envelope_counter = 0;
}

apu_bytes : (j : ℕ) → apu.cells j < 256
apu_bytes j = ground arith

apu-IsValid : IsValid apu
apu-IsValid = record {
  bytes = apu_bytes;
  square1_range = record { volume_range = omega arith; length_range = omega arith };
  square2_range = record { volume_range = omega arith; length_range = omega arith };
  wave_range = record { volume_range = omega arith; length_range = omega arith };
  noise_range = record { volume_range = omega arith; length_range = omega arith };
  frequency1 = omega arith;
  frequency2 = omega arith;
}

times-Counted_example : Counted apu 1 1 1 1 2 (times 2 apu)
times-Counted_example = times-Counted apu 2 (omega arith)

apply_all-IsValid_example : IsValid (
    apply_all (step sweep ∷ trigger1 ∷ step lengths ∷ reload3 ∷ callback ∷ step envelopes ∷ []) apu)
apply_all-IsValid_example =
    apply_all-IsValid
      (step sweep ∷ trigger1 ∷ step lengths ∷ reload3 ∷ callback ∷ step envelopes ∷ []) apu
      apu-IsValid

do_sweep-Swept_example : Swept apu (do_sweep apu)
do_sweep-Swept_example = do_sweep-Swept apu apu-IsValid

updates-Faded_example : Faded apu 8 (updates 8 apu)
updates-Faded_example = updates-Faded apu 8 apu-IsValid (omega arith)
