-- ===== src/Cartridge/Mbc3.antt =====
-- src/cartridge.cpp: the memory bank controller MBC3 with its real-time clock. Tracing the symbol
-- file is left out; what `std::time` returns is an argument.
pub mod Clock
pub mod Banks
use tlmboy.Base.{
  ℕ, ◌+◌, ◌-◌, ◌*◌, ◌/◌, ◌%◌, Bool, true, false, Option, none, some, u8, u16, of_bool, bit_and,
  bit_or, ltb, leb, ◌==◌, if◌then◌else◌,
}
use tlmboy.Tlm.{Command, Response, read, write, ignore, ok_response, assertion, unanswered}
use tlmboy.Cartridge.{BankSwitchedMem, do_bank_switch, b_transport}

-- `Cartridge::Mbc3`, with the `MemoryBankCtrler` it extends.
pub record Mbc3 : Type 0 where
  pub rom_low : ℕ → ℕ
  pub rom_high : BankSwitchedMem
  pub ext_ram : BankSwitchedMem
  pub ram_ind : ℕ
  pub rom_ind : ℕ
  pub rtc_reg : ℕ
  pub ram_rtc_enabled : Bool
  pub rtc_mapped : Bool
  pub rtc_halted : Bool

-- The register that a write to the ROM assigns; the last range is the latch that the code leaves open.
unfoldable pub assign : ℕ → ℕ → Mbc3 → Mbc3
assign adr dat m =
    if leb adr 0x1FFF
    then record m { ram_rtc_enabled = bit_and dat 0xA == 0xA }
    else if leb adr 0x3FFF
    then record m { rom_ind = bit_and 0b01111111 dat }
    else if leb adr 0x5FFF
    then (if ltb dat 8
        then record m { ram_ind = dat; rtc_mapped = false }
        else if ltb dat 13
        then record m { rtc_reg = dat - 8; rtc_mapped = true }
        else m)
    else m

abbrev switch_banks : Mbc3 → Option Mbc3
switch_banks m = elim (do_bank_switch (m.rom_ind - 1) m.rom_high) [
  | none ↦ none
  | some high ↦ elim (do_bank_switch m.ram_ind m.ext_ram) [
    | none ↦ none
    | some ram ↦ some (record m { rom_high = high; ext_ram = ram })
  ]
]

-- The rest of a write: bank 0 becomes 1, the assertion, and the switches.
unfoldable pub select : Mbc3 → Option Mbc3
select m =
    let m' = record m { rom_ind = if m.rom_ind == 0 then 1 else m.rom_ind } in
    if ltb m'.rom_ind 128 then switch_banks m' else none

abbrev write_rom : ℕ → ℕ → Mbc3 → Response × Mbc3
write_rom adr dat m = elim (select (assign adr dat m)) [
  | none ↦ (assertion, assign adr dat m)
  | some m' ↦ (unanswered dat, m')
]

abbrev read_rom : ℕ → ℕ → Mbc3 → Response × Mbc3
read_rom adr dat m =
    if leb adr 0x3FFF
    then (ok_response (m.rom_low adr), m)
    else (let done = b_transport read (adr - 0x4000) dat m.rom_high in
        (done.0, record m { rom_high = done.1 }))

abbrev at_rom : Command → ℕ → ℕ → Mbc3 → Response × Mbc3
at_rom write adr dat m = write_rom adr dat m
at_rom read adr dat m = read_rom adr dat m
at_rom ignore adr dat m = (unanswered dat, m)

-- `Mbc3::b_transport_rom`.
unfoldable pub b_transport_rom : Command → ℕ → ℕ → Mbc3 → Response × Mbc3
b_transport_rom cmd addr dat m =
    if ltb (u16 addr) 0x8000 then at_rom cmd (u16 addr) dat m else (assertion, m)

-- The value of a clock register at the time `t`, in seconds.
unfoldable pub rtc_value : ℕ → ℕ → Bool → ℕ
rtc_value t reg halted =
    let days = t / (60 * 60 * 24) % 512 in
    u8 (
      if reg == 0
      then t % 60
      else if reg == 1
      then t / 60 % 60
      else if reg == 2
      then t / (60 * 60) % 60
      else if reg == 3
      then days % 256
      else if reg == 4
      then bit_or (days / 256) (of_bool halted * 64)
      else 0)

-- A transaction on the clock: a write is not implemented, and leaves everything as it is.
abbrev at_rtc : ℕ → Command → ℕ → Mbc3 → Response
at_rtc t write dat m = ok_response dat
at_rtc t _ dat m = ok_response (rtc_value t m.rtc_reg m.rtc_halted)

-- `Mbc3::b_transport_ram`.
unfoldable pub b_transport_ram : ℕ → Command → ℕ → ℕ → Mbc3 → Response × Mbc3
b_transport_ram t cmd addr dat m =
    if leb (u16 addr) 0x1FFF
    then (if m.ram_rtc_enabled
        then (if m.rtc_mapped
            then (at_rtc t cmd dat m, m)
            else (let done = b_transport cmd addr dat m.ext_ram in
                (done.0, record m { ext_ram = done.1 })))
        else (unanswered dat, m))
    else (assertion, m)
