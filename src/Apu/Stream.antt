-- ===== src/Apu/Stream.antt =====
-- src/apu.cpp: what the audio callback reads from the registers, and its integer arithmetic.
use tlmboy.Base.{
  ℕ, zero, suc, ◌+◌, ◌-◌, ◌*◌, ◌/◌, ◌%◌, ◌^◌, List, [], ◌∷◌, of_bool, to_bool, bit_and, bit_or,
  bit_xor, ltb, ◌==◌, if◌then◌else◌, get_or,
}
use tlmboy.Apu.{nr11, nr13, nr14, nr21, nr23, nr24, nr30, nr32, nr33, nr34, nr43, nr52, Noise, Apu}

-- `frequency_msb << 8 | frequency_lsb`, with the upper bits of the control register masked.
abbrev pub frequency_of : ℕ → ℕ → ℕ
frequency_of msb lsb = bit_or (bit_and msb 0b111 * 2 ^ 8) lsb

abbrev pub read_square1 : Apu → Apu
read_square1 a = record a {
  square1 = record a.square1 {
    duty = a.cells nr11 / 2 ^ 6;
    frequency = frequency_of (a.cells nr14) (a.cells nr13);
  };
}

abbrev pub read_square2 : Apu → Apu
read_square2 a = record a {
  square2 = record a.square2 {
    duty = a.cells nr21 / 2 ^ 6;
    frequency = frequency_of (a.cells nr24) (a.cells nr23);
  };
}

abbrev pub read_wave : Apu → Apu
read_wave a = record a {
  wave = record a.wave {
    dac_enable = to_bool (bit_and (a.cells nr30) 0x80);
    channel = record a.wave.channel { volume = bit_and (a.cells nr32 / 2 ^ 5) 0b11 };
    period = frequency_of (a.cells nr34) (a.cells nr33);
  };
}

abbrev pub divisor_table : List ℕ
divisor_table = 8 ∷ 16 ∷ 32 ∷ 48 ∷ 64 ∷ 80 ∷ 96 ∷ 112 ∷ []

abbrev pub read_noise : Apu → Apu
read_noise a =
    let divisor = get_or divisor_table (bit_and (a.cells nr43) 0b111) 0 in
    let shift = a.cells nr43 / 2 ^ 4 in
    record a {
      noise = record a.noise {
        divisor = divisor;
        lfsr_width = if to_bool (bit_and (a.cells nr43 / 2 ^ 3) 1) then 7 else 15;
        shift = shift;
        cpu_ticks_per_lfsr_sample = divisor * 2 ^ shift % 2 ^ 32;
      };
    }

-- What the callback reads from the registers, while the APU is turned on.
unfoldable pub read_registers : Apu → Apu
read_registers a =
    if a.cells nr52 / 2 ^ 7 == 0 then a else read_noise (read_wave (read_square2 (read_square1 a)))

-- The body of the loop of `DoLfsrTicks`.
unfoldable pub lfsr_tick : ℕ → ℕ → ℕ
lfsr_tick width bits =
    let val = of_bool (bit_xor (bit_and bits 1) (bit_and (bits / 2) 1) == 0) in
    bit_or bits (val * 2 ^ width % 2 ^ 32) / 2

-- The loop of `DoLfsrTicks`: the register, and the sum of its lowest bits.
unfoldable pub lfsr_ticks : ℕ → ℕ → ℕ × ℕ → ℕ × ℕ
lfsr_ticks width zero s = s
lfsr_ticks width (suc n) (bits, sum) =
    let next = lfsr_tick width bits in lfsr_ticks width n (next, sum + bit_and next 1)

-- `stream_sample_length`.
abbrev pub sample_length : ℕ
sample_length = 4194304 / 44000

-- The integer part of the loop of `Noise::WriteDataIntoStream`; the list has the ticks per sample.
unfoldable pub noise_samples : ℕ → Noise → List ℕ × Noise
noise_samples zero s = ([], s)
noise_samples (suc n) s =
    let cntr = (s.tick_cntr + sample_length) % 2 ^ 32 in
    let ticks = cntr / s.cpu_ticks_per_lfsr_sample in
    let left = cntr - ticks * s.cpu_ticks_per_lfsr_sample in
    let bits = (lfsr_ticks s.lfsr_width ticks (s.lfsr_bits, 0)).0 in
    let rest = noise_samples n (record s { tick_cntr = left; lfsr_bits = bits }) in
    (ticks ∷ rest.0, rest.1)

-- The next index of the wave table's nibbles.
abbrev pub next_index : ℕ → ℕ
next_index i = if ltb 31 (i + 1) then 0 else i + 1

-- `sample` in `Wave::WriteDataIntoStream`.
unfoldable pub wave_sample : (ℕ → ℕ) → ℕ → ℕ
wave_sample wave_table i =
    let byte = wave_table (i / 2) in
    if to_bool (i % 2) then bit_and byte 0xF else bit_and byte 0xF0 / 2 ^ 4
