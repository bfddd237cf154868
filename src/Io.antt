-- ===== src/Io.antt =====
-- src/io_registers.h and src/io_registers.cpp: the registers at 0xFF10 to 0xFF7F.
pub mod Dma
pub mod Power
pub mod Requests
pub mod Readback
use tlmboy.Base.{
  ℕ, zero, suc, ◌+◌, ◌-◌, ◌*◌, ◌/◌, ◌%◌, ◌^◌, ◌≤◌, ◌<◌, ◌≡◌, ◌≢◌, ◌⊎◌, ◌↔◌, inl, inr, refl, sym, ap,
  ◌∙◌, arith, Bool, true, false, not, ◌&&◌, ◌||◌, Option, none, some, List, [], ◌∷◌, ◌++◌, map, u8,
  u16, of_bool, to_bool, is_bit_set, set_bit, bit_and, bit_or, bit_xor, ltb, leb, ◌==◌,
  if◌then◌else◌, all_below, all_below_sound, ==→eq, Bool-cases, length, get_or, tabulate,
}
use tlmboy.Tlm.{
  Command, Response, read, write, ignore, ok_response, command_error, address_error, unanswered,
  assertion,
}
use tlmboy.Bus.{Target}

-- The output signals.
pub data Signal : Type 0 where
  unmap_rom reload_length_square1 reload_length_square2 reload_length_wave : Signal
  reload_length_noise trigger_square1 trigger_square2 trigger_wave trigger_noise : Signal

pub record IoRegisters : Type 0 where
  -- The bytes behind `data_`.
  pub cells : ℕ → ℕ
  -- What `read()` returns on each signal.
  pub levels : Signal → Bool
  -- The calls of `write` on the signals, the last one first.
  pub requests : List (Signal × Bool)

abbrev pub store : ℕ → ℕ → IoRegisters → IoRegisters
store adr v r = record r { cells = λ j. if j == adr then v else r.cells j }

abbrev pub request : Signal → Bool → IoRegisters → IoRegisters
request s v r = record r { requests = (s, v) ∷ r.requests }

-- `sig.write(!sig.read())`.
abbrev pub toggle : Signal → IoRegisters → IoRegisters
toggle s r = request s (not (r.levels s)) r

-- What the cases of the read switch assign to the data byte.
pub data Shown : Type 0 where
  masked : ℕ → Shown
  all_ones whole : Shown

abbrev pub read_cases : List (ℕ × Shown)
read_cases =
    (0x00, masked 0x80)
    ∷ (0x01, masked 0x3F)
    ∷ (0x03, all_ones)
    ∷ (0x04, masked 0xBF)
    ∷ (0x05, all_ones)
    ∷ (0x06, masked 0x3F)
    ∷ (0x08, all_ones)
    ∷ (0x09, masked 0xBF)
    ∷ (0x0A, masked 0x7F)
    ∷ (0x0B, all_ones)
    ∷ (0x0C, masked 0x9F)
    ∷ (0x0D, all_ones)
    ∷ (0x0E, masked 0xBF)
    ∷ (0x0F, all_ones)
    ∷ (0x10, all_ones)
    ∷ (0x13, masked 0xBF)
    ∷ (0x16, masked 0x70)
    ∷ (0x17, all_ones)
    ∷ (0x18, all_ones)
    ∷ (0x19, all_ones)
    ∷ (0x1A, all_ones)
    ∷ (0x1B, all_ones)
    ∷ (0x1C, all_ones)
    ∷ (0x1D, all_ones)
    ∷ (0x1E, all_ones)
    ∷ (0x1F, all_ones)
    ∷ []

abbrev pub case_of : List (ℕ × Shown) → ℕ → Shown
case_of [] adr = whole
case_of ((at, shown) ∷ rest) adr =
    let later = case_of rest adr in if adr == at then shown else later

abbrev pub show : Shown → ℕ → ℕ
show (masked m) cell = bit_or m cell
show all_ones cell = 0xFF
show whole cell = cell

-- The read switch.
unfoldable pub read_value : ℕ → IoRegisters → ℕ
read_value adr r = show (case_of read_cases adr) (r.cells adr)

-- A write to 0xFF26 that turns the APU off.
unfoldable pub power_off : ℕ → ℕ → IoRegisters → IoRegisters
power_off adr dat r =
    if adr == 0x16 && bit_and dat 0b10000000 == 0
    then record r {
      cells = λ j. if j == 0xA then r.cells 0xA else if ltb j 0x20 then 0 else r.cells j;
    }
    else r

-- A write to the APU while it is turned off.
unfoldable pub is_ignored : ℕ → IoRegisters → Bool
is_ignored adr r = ltb adr 0x20 && not (adr == 0x16) && bit_and (r.cells 0x16) 0b10000000 == 0

-- A store, and a toggle if the trigger bit is set.
abbrev pub trigger : Signal → ℕ → ℕ → IoRegisters → IoRegisters
trigger s adr dat r =
    if to_bool (bit_and dat 0b10000000) then toggle s (store adr dat r) else store adr dat r

-- The write switch, without the case of the DMA transfer.
unfoldable pub write_register : ℕ → ℕ → IoRegisters → IoRegisters
write_register adr dat r =
    if adr == 0x00
    then toggle reload_length_square1 (store adr dat r)
    else if adr == 0x04
    then trigger trigger_square1 adr dat r
    else if adr == 0x06
    then toggle reload_length_square2 (store adr dat r)
    else if adr == 0x09
    then trigger trigger_square2 adr dat r
    else if adr == 0x0B
    then store adr dat (request reload_length_wave true r)
    else if adr == 0x10
    then store adr dat (request reload_length_noise true r)
    else if adr == 0x13
    then trigger trigger_noise adr dat r
    else if adr == 0x16
    then store adr (bit_and dat 0b10000000) r
    else if adr == 0x31
    then store adr (bit_or (bit_and dat 0x78) (bit_and (r.cells adr) 0x07)) r
    else if adr == 0x40
    then (if dat == 1 then request unmap_rom true r else r)
    else if adr == 0x7F
    then r
    else store adr dat r

-- What a read leaves behind the data pointer; `none` is a failed assertion in the slave.
abbrev pub byte_after : Response → ℕ → Option ℕ
byte_after (ok_response v) dat = some v
byte_after (unanswered v) dat = some v
byte_after command_error dat = some dat
byte_after address_error dat = some dat
byte_after assertion dat = none

module _ {W : Type 0} (bus : Target W) where
  -- One round of the loop: a read and a write through the bus.
  unfoldable pub dma_round : ℕ → ℕ → ℕ → W → Option (ℕ × W)
  dma_round start_address i read_data w =
      let got = bus read (u16 (start_address + i)) read_data w in
      elim (byte_after got.0 read_data) [
        | none ↦ none
        | some v ↦
            let put = bus write (0xFE00 + i) v got.1 in
            elim (byte_after put.0 v) [ none ↦ none | some _ ↦ some (v, put.1) ]
      ]

  -- `n` rounds from `i` on.
  unfoldable pub dma_rounds : ℕ → ℕ → ℕ → ℕ → W → Option W
  unfolding dma_round
  dma_rounds start_address zero i read_data w = some w
  dma_rounds start_address (suc n) i read_data w = elim (dma_round start_address i read_data w) [
    | none ↦ none
    | some (v, w') ↦ dma_rounds start_address n (suc i) v w'
  ]

  -- `DmaTransfer`; `read_data` is what the uninitialised variable holds.
  unfoldable pub dma_transfer : ℕ → ℕ → W → Option W
  unfolding dma_rounds
  dma_transfer read_data byte w = dma_rounds (u16 (byte * 0x100)) 0xA0 0 read_data w

-- The registers within a system, which the DMA transfer reaches through the bus.
module _ {W : Type 0} (regs : W → IoRegisters) (with_regs : IoRegisters → W → W) (bus : Target W)
    (read_data : ℕ) where
  -- The DMA transfer, or the other cases of the write switch.
  abbrev write_switch : ℕ → ℕ → W → Response × W
  write_switch adr dat w =
      if adr == 0x36
      then (elim (dma_transfer bus read_data dat w) [
        | none ↦ (assertion, w)
        | some w' ↦ (ok_response dat, w')
      ])
      else (ok_response dat, with_regs (write_register adr dat (regs w)) w)

  abbrev answer : Target W
  answer read adr dat w = (ok_response (read_value adr (regs w)), w)
  answer write adr dat w =
      let r = power_off adr dat (regs w) in
      let w' = with_regs r w in
      if is_ignored adr r then (ok_response dat, w') else write_switch adr dat w'
  answer ignore adr dat w = (command_error, w)

  -- `b_transport`.
  unfoldable pub b_transport : Target W
  b_transport cmd addr dat w = answer cmd (u16 addr) dat w
