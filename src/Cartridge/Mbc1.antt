-- ===== src/Cartridge/Mbc1.antt =====
-- src/cartridge.cpp: the memory bank controller MBC1. The file that holds the game is behind
-- `rom_low` (its first 16 KiB) and `rom_high` (the rest); tracing the symbol file is left out.
pub mod Banks
pub mod Start
pub mod Runs
pub mod Save
use tlmboy.Base.{
  ℕ, ◌+◌, ◌-◌, ◌*◌, Bool, true, false, Option, none, some, ◌||◌, ◌&&◌, u8, u16, to_bool, bit_and,
  bit_or, ltb, leb, ◌==◌, if◌then◌else◌,
}
use tlmboy.Tlm.{Command, Response, read, write, ignore, ok_response, assertion, unanswered}
use tlmboy.Cartridge.{BankSwitchedMem, do_bank_switch, b_transport}

-- `Cartridge::Mbc1`, with the `MemoryBankCtrler` it extends.
pub record Mbc1 : Type 0 where
  pub rom_low : ℕ → ℕ
  pub rom_high : BankSwitchedMem
  pub ext_ram : BankSwitchedMem
  pub ram_ind : ℕ
  pub rom_ind : ℕ
  pub rom_bank_low_bits : ℕ
  pub the_two_bits : ℕ
  pub more_ram_mode : Bool
  pub ram_enabled : Bool

-- The register that a write to the ROM assigns.
unfoldable pub assign : ℕ → ℕ → Mbc1 → Mbc1
assign adr dat m =
    if leb adr 0x1FFF
    then record m { ram_enabled = bit_and dat 0xA == 0xA }
    else if leb adr 0x3FFF
    then record m { rom_bank_low_bits = bit_and 0b00011111 dat }
    else if leb adr 0x5FFF
    then record m { the_two_bits = bit_and dat 0b00000011 }
    else record m { more_ram_mode = to_bool (bit_and dat 0b0000001) }

-- `rom_ind_` from the registers, before and after the correction of four values.
unfoldable pub raw_rom_ind : Mbc1 → ℕ
raw_rom_ind m = u8 (bit_or m.rom_bank_low_bits (if m.more_ram_mode then 0 else m.the_two_bits * 32))

abbrev pub corrected : ℕ → ℕ
corrected i = if i == 0 || (i == 0x20 || (i == 0x40 || i == 0x60)) then u8 (i + 1) else i

abbrev pub ram_ind_of : Mbc1 → ℕ
ram_ind_of m = if m.more_ram_mode then m.the_two_bits else 0

-- The two calls of `DoBankSwitch`.
abbrev switch_banks : Mbc1 → Option Mbc1
switch_banks m = elim (do_bank_switch (m.rom_ind - 1) m.rom_high) [
  | none ↦ none
  | some high ↦ elim (do_bank_switch m.ram_ind m.ext_ram) [
    | none ↦ none
    | some ram ↦ some (record m { rom_high = high; ext_ram = ram })
  ]
]

-- The rest of a write: the two indices, the assertions on them, and the switches.
unfoldable pub select : Mbc1 → Option Mbc1
select m =
    let m' = record m { rom_ind = corrected (raw_rom_ind m); ram_ind = ram_ind_of m } in
    if ltb 0 m'.rom_ind && ltb m'.rom_ind 128
    then (if m'.more_ram_mode || m'.ram_ind == 0 then switch_banks m' else none)
    else none

abbrev write_rom : ℕ → ℕ → Mbc1 → Response × Mbc1
write_rom adr dat m = elim (select (assign adr dat m)) [
  | none ↦ (assertion, assign adr dat m)
  | some m' ↦ (unanswered dat, m')
]

abbrev read_rom : ℕ → ℕ → Mbc1 → Response × Mbc1
read_rom adr dat m =
    if leb adr 0x3FFF
    then (ok_response (m.rom_low adr), m)
    else (let done = b_transport read (adr - 0x4000) dat m.rom_high in
        (done.0, record m { rom_high = done.1 }))

-- The two commands that `b_transport_rom` looks for.
abbrev at_rom : Command → ℕ → ℕ → Mbc1 → Response × Mbc1
at_rom write adr dat m = write_rom adr dat m
at_rom read adr dat m = read_rom adr dat m
at_rom ignore adr dat m = (unanswered dat, m)

-- `Mbc1::b_transport_rom`.
unfoldable pub b_transport_rom : Command → ℕ → ℕ → Mbc1 → Response × Mbc1
b_transport_rom cmd addr dat m =
    if ltb (u16 addr) 0x8000 then at_rom cmd (u16 addr) dat m else (assertion, m)

-- `Mbc1::b_transport_ram`.
unfoldable pub b_transport_ram : Command → ℕ → ℕ → Mbc1 → Response × Mbc1
b_transport_ram cmd addr dat m =
    if leb (u16 addr) 0x1FFF
    then (if m.ram_enabled
        then (let done = b_transport cmd addr dat m.ext_ram in
            (done.0, record m { ext_ram = done.1 }))
        else (unanswered dat, m))
    else (assertion, m)
