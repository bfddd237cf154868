-- ===== src/Cartridge/Mbc5.antt =====
-- src/cartridge.cpp: the memory bank controller MBC5.
pub mod Banks
use tlmboy.Base.{
  ℕ, ◌+◌, ◌-◌, ◌*◌, Bool, true, false, Option, none, some, u8, u16, bit_and, bit_or, ltb, leb, ◌==◌,
  if◌then◌else◌,
}
use tlmboy.Tlm.{Command, Response, read, write, ignore, ok_response, assertion, unanswered}
use tlmboy.Cartridge.{BankSwitchedMem, do_bank_switch, b_transport}

-- `Cartridge::Mbc5`, with the `MemoryBankCtrler` it extends.
pub record Mbc5 : Type 0 where
  pub rom_low : ℕ → ℕ
  pub rom_high : BankSwitchedMem
  pub ext_ram : BankSwitchedMem
  pub ram_ind : ℕ
  pub rom_ind : ℕ
  pub ram_bits : ℕ
  pub rom_bank_low_bits : ℕ
  pub rom_bank_high_bits : ℕ
  pub ram_enabled : Bool

-- The register that a write to the ROM assigns.
unfoldable pub assign : ℕ → ℕ → Mbc5 → Mbc5
assign adr dat m =
    if leb adr 0x1FFF
    then record m { ram_enabled = bit_and dat 0xA == 0xA }
    else if leb adr 0x2FFF
    then record m { rom_bank_low_bits = dat }
    else if leb adr 0x3FFF
    then record m { rom_bank_high_bits = bit_and dat 1 }
    else if leb adr 0x5FFF
    then record m { ram_bits = bit_and dat 0x0F }
    else m

abbrev switch_banks : Mbc5 → Option Mbc5
switch_banks m = elim (do_bank_switch m.rom_ind m.rom_high) [
  | none ↦ none
  | some high ↦ elim (do_bank_switch m.ram_ind m.ext_ram) [
    | none ↦ none
    | some ram ↦ some (record m { rom_high = high; ext_ram = ram })
  ]
]

-- The rest of a write: the two indices, which are bytes, and the switches.
unfoldable pub select : Mbc5 → Option Mbc5
select m =
    let m' = record m {
      ram_ind = u8 (if m.ram_enabled then m.ram_bits else 0);
      rom_ind = u8 (bit_or (m.rom_bank_high_bits * 256) m.rom_bank_low_bits);
    } in
    switch_banks m'

abbrev write_rom : ℕ → ℕ → Mbc5 → Response × Mbc5
write_rom adr dat m = elim (select (assign adr dat m)) [
  | none ↦ (assertion, assign adr dat m)
  | some m' ↦ (unanswered dat, m')
]

abbrev read_rom : ℕ → ℕ → Mbc5 → Response × Mbc5
read_rom adr dat m =
    if leb adr 0x3FFF
    then (ok_response (m.rom_low adr), m)
    else (let done = b_transport read (adr - 0x4000) dat m.rom_high in
        (done.0, record m { rom_high = done.1 }))

abbrev at_rom : Command → ℕ → ℕ → Mbc5 → Response × Mbc5
at_rom write adr dat m = write_rom adr dat m
at_rom read adr dat m = read_rom adr dat m
at_rom ignore adr dat m = (unanswered dat, m)

-- `Mbc5::b_transport_rom`.
unfoldable pub b_transport_rom : Command → ℕ → ℕ → Mbc5 → Response × Mbc5
b_transport_rom cmd addr dat m =
    if ltb (u16 addr) 0x8000 then at_rom cmd (u16 addr) dat m else (assertion, m)

-- `Mbc5::b_transport_ram`.
unfoldable pub b_transport_ram : Command → ℕ → ℕ → Mbc5 → Response × Mbc5
b_transport_ram cmd addr dat m =
    if leb (u16 addr) 0x1FFF
    then (if m.ram_enabled
        then (let done = b_transport cmd addr dat m.ext_ram in
            (done.0, record m { ext_ram = done.1 }))
        else (assertion, m))
    else (assertion, m)

-- `Mbc5::transport_dbg_ram`, which ignores whether the RAM is enabled.
unfoldable pub transport_dbg_ram : Command → ℕ → ℕ → Mbc5 → Response × Mbc5
unfolding b_transport
transport_dbg_ram cmd addr dat m =
    if leb (u16 addr) 0x1FFF
    then (let done = b_transport cmd addr dat m.ext_ram in (done.0, record m { ext_ram = done.1 }))
    else (assertion, m)
