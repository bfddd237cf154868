-- ===== src/Apu.antt =====
-- src/apu.h and src/apu.cpp: the channels, the registers they read, and the frame sequencer.
pub mod Notes
pub mod Stream
pub mod Lengths
pub mod Ranges
pub mod Bounds
pub mod Sweep
pub mod Envelopes
pub mod Lfsr
use tlmboy.Base.{
  ℕ, zero, suc, ◌+◌, ◌-◌, ◌*◌, ◌/◌, ◌%◌, ◌^◌, ◌≤◌, ◌<◌, ◌≡◌, ◌≢◌, ◌⊎◌, ◌↔◌, inl, inr, refl, sym, ap,
  ◌∙◌, arith, Bool, true, false, not, ◌&&◌, ◌||◌, Option, none, some, List, [], ◌∷◌, ◌++◌, map, u8,
  u16, of_bool, to_bool, is_bit_set, set_bit, bit_and, bit_or, bit_xor, ltb, leb, ◌==◌,
  if◌then◌else◌, all_below, all_below_sound, ==→eq, Bool-cases, length, get_or, tabulate,
}

-- Where the register pointers point, as distances from 0xFF10.
abbrev pub nr10 : ℕ
nr10 = 0x00

abbrev pub nr11 : ℕ
nr11 = 0x01

abbrev pub nr12 : ℕ
nr12 = 0x02

abbrev pub nr13 : ℕ
nr13 = 0x03

abbrev pub nr14 : ℕ
nr14 = 0x04

abbrev pub nr21 : ℕ
nr21 = 0x06

abbrev pub nr22 : ℕ
nr22 = 0x07

abbrev pub nr23 : ℕ
nr23 = 0x08

abbrev pub nr24 : ℕ
nr24 = 0x09

abbrev pub nr30 : ℕ
nr30 = 0x0A

abbrev pub nr31 : ℕ
nr31 = 0x0B

abbrev pub nr32 : ℕ
nr32 = 0x0C

abbrev pub nr33 : ℕ
nr33 = 0x0D

abbrev pub nr34 : ℕ
nr34 = 0x0E

abbrev pub nr41 : ℕ
nr41 = 0x10

abbrev pub nr42 : ℕ
nr42 = 0x11

abbrev pub nr43 : ℕ
nr43 = 0x12

abbrev pub nr44 : ℕ
nr44 = 0x13

abbrev pub nr52 : ℕ
nr52 = 0x16

-- `Channel`. The volume is an `int` that no operation takes below zero.
pub record Channel : Type 0 where
  pub length_enable : Bool
  pub volume : ℕ
  pub length_load : ℕ

-- `Square`, without the two floating-point members.
pub record Square : Type 0 where
  pub channel : Channel
  pub envelope_mode : Bool
  pub sweep_direction : Bool
  pub duty : ℕ
  pub frequency : ℕ
  pub period : ℕ
  pub sweep_counter : ℕ
  pub sweep_step : ℕ
  pub sweep_period : ℕ

-- `Wave`, without the floating-point member.
pub record Wave : Type 0 where
  pub channel : Channel
  pub dac_enable : Bool
  pub period : ℕ
  pub sample_index : ℕ

-- `Noise`, without the floating-point member and the two members that nothing uses.
pub record Noise : Type 0 where
  pub channel : Channel
  pub envelope_mode : Bool
  pub divisor : ℕ
  pub lfsr_bits : ℕ
  pub lfsr_width : ℕ
  pub period : ℕ
  pub shift : ℕ
  pub cpu_ticks_per_lfsr_sample : ℕ
  pub tick_cntr : ℕ

pub record Apu : Type 0 where
  -- The I/O registers behind the pointers.
  pub cells : ℕ → ℕ
  pub square1 : Square
  pub square2 : Square
  pub wave : Wave
  pub noise : Noise
  -- The static counter of `UpdateEnvelopes`.
  pub envelope_counter : ℕ

abbrev pub put : ℕ → ℕ → (ℕ → ℕ) → ℕ → ℕ
put adr v cells = λ j. if j == adr then v else cells j

-- One of the four parts of `DecrementLengths`: the channel and the byte of NR52 after it.
abbrev pub decrement : ℕ → Channel → ℕ → Channel × ℕ
decrement mask c status =
    if c.length_enable && leb 1 c.length_load
    then (
      record c { length_load = c.length_load - 1 },
      if c.length_load - 1 == 0 then bit_and status (255 - mask) else status,
    )
    else (c, status)

-- The channel with its length enable bit read again.
abbrev pub enabled : ℕ → Channel → Channel
enabled control c = record c { length_enable = to_bool (bit_and control 0b01000000) }

unfoldable pub decrement_lengths : Apu → Apu
decrement_lengths a =
    let s1 = decrement 1 (enabled (a.cells nr14) a.square1.channel) (a.cells nr52) in
    let s2 = decrement 2 (enabled (a.cells nr24) a.square2.channel) s1.1 in
    let w = decrement 4 (enabled (a.cells nr34) a.wave.channel) s2.1 in
    let n = decrement 8 (enabled (a.cells nr44) a.noise.channel) w.1 in
    record a {
      cells = put nr52 n.1 a.cells;
      square1 = record a.square1 { channel = s1.0 };
      square2 = record a.square2 { channel = s2.0 };
      wave = record a.wave { channel = w.0 };
      noise = record a.noise { channel = n.0 };
    }

-- `frequency + dir * frequency / (1u << sweep_step)`, in 32-bit unsigned arithmetic.
abbrev pub swept : Bool → ℕ → ℕ → ℕ
swept down step f =
    let product = if down then (2 ^ 32 - f % 2 ^ 32) % 2 ^ 32 else f in
    (f + product / 2 ^ step) % 2 ^ 32

-- The branch of `DoSweep` that changes the frequency.
abbrev pub sweep_to : ℕ → Apu → Apu
sweep_to f a =
    let cells = if ltb 2047 f then put nr52 (bit_and (a.cells nr52) 254) a.cells else a.cells in
    let f' = if ltb f 2047 then f else 2047 in
    record a {
      cells = put nr14 (bit_and f' 0x700 / 2 ^ 8) (put nr13 (bit_and f' 0xFF) cells);
      square1 = record a.square1 { frequency = f'; sweep_counter = 0 };
    }

-- The first three lines of `DoSweep`.
abbrev pub read_sweep : Apu → Apu
read_sweep a = record a {
  square1 = record a.square1 {
    sweep_step = bit_and (a.cells nr10) 0b111;
    sweep_direction = to_bool (bit_and (a.cells nr10) 0b1000);
    sweep_period = bit_and (a.cells nr10 / 2 ^ 4) 0b111;
  };
}

unfoldable pub do_sweep : Apu → Apu
do_sweep a =
    let b = read_sweep a in
    let s = b.square1 in
    if s.sweep_period == 0
    then b
    else if leb s.sweep_period s.sweep_counter
    then sweep_to (swept s.sweep_direction s.sweep_step s.frequency) b
    else record b { square1 = record s { sweep_counter = (s.sweep_counter + 1) % 2 ^ 32 } }
