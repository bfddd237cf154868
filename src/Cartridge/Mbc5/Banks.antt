-- ===== src/Cartridge/Mbc5/Banks.antt =====
-- src/cartridge.cpp: the banks of MBC5.
use tlmboy.Base.{ℕ, ◌+◌, ◌*◌, ◌<◌, ◌≡◌, ap, ◌∙◌, arith, some, bit_or, if◌then◌else◌, u8}
use tlmboy.Base.Bits.{bit_and-1, bit_and-15, bit_or-shift}
use tlmboy.Tlm.{read, write, ok_response, unanswered}
use tlmboy.Cartridge.{do_bank_switch, b_transport}
use tlmboy.Cartridge.Mbc5.{Mbc5, assign, select, b_transport_rom}

-- The registers hold what their masks and widths let through, and the memories have the sizes that the
-- constructor of MBC5 gives them.
pub record IsMbc5 (m : Mbc5) : Type 0 where
  pub low_bits : m.rom_bank_low_bits < 256
  pub high_bit : m.rom_bank_high_bits < 2
  pub ram_bits_small : m.ram_bits < 16
  pub rom_banks : m.rom_high.num_banks ≡ 512
  pub rom_size : m.rom_high.bank_size ≡ 0x4000
  pub ram_banks : m.ext_ram.num_banks ≡ 16
  pub ram_size : m.ext_ram.bank_size ≡ 0x2000

abbrev pub ram_bank : Mbc5 → ℕ
ram_bank m = if m.ram_enabled then m.ram_bits else 0

-- The controller showing the banks of its registers: the low byte alone chooses the bank.
abbrev pub showing : Mbc5 → Mbc5
showing m = record m {
  rom_ind = m.rom_bank_low_bits;
  ram_ind = ram_bank m;
  rom_high = record m.rom_high {
    bank_data = m.rom_bank_low_bits * 0x4000;
    current_bank_ind = m.rom_bank_low_bits;
  };
  ext_ram = record m.ext_ram { bank_data = ram_bank m * 0x2000; current_bank_ind = ram_bank m };
}

low_byte : (high low : ℕ) → low < 256 → u8 (bit_or (high * 256) low) ≡ low
low_byte high low h = let parts = bit_or-shift 8 high low h in omega arith

select_lem : (m : Mbc5) → IsMbc5 m → select m ≡ some (showing m)
unfolding select do_bank_switch
select_lem m v =
    let low = low_byte m.rom_bank_high_bits m.rom_bank_low_bits v.low_bits in ground arith

assign-IsMbc5 : (adr dat : ℕ) (m : Mbc5) → dat < 256 → IsMbc5 m → IsMbc5 (assign adr dat m)
unfolding assign
assign-IsMbc5 adr dat m h v = ground (arith, bit_and-1 dat, bit_and-15 dat)

-- With the sizes and the masked registers of MBC5, a write of a byte to any ROM address passes
-- every assertion, shows the ROM bank of the low register, whatever the high bit is, and the
-- RAM bank of its register, bank 0 when the RAM is disabled, and keeps the sizes and the masks.
pub b_transport_rom-low_byte :
    (adr dat : ℕ) (m : Mbc5)
    → adr < 0x8000
    → dat < 256
    → IsMbc5 m
    → (b_transport_rom write adr dat m ≡ (unanswered dat, showing (assign adr dat m)))
      × IsMbc5 (showing (assign adr dat m))
unfolding b_transport_rom
b_transport_rom-low_byte adr dat m ha hd v =
    let v' = assign-IsMbc5 adr dat m hd v in
    let chosen = select_lem (assign adr dat m) v' in (ground arith, ground arith)

bank_offset : (b offset : ℕ) → 0x4000 + (b * 0x4000 + offset) ≡ (b + 1) * 0x4000 + offset
bank_offset b offset = omega arith

-- When the banks of the registers are shown and `rom_high` holds a game file from its byte
-- 0x4000 on, a read at 0x4000 + offset gives the byte of the file's bank after the one that the
-- low register names, and changes nothing.
pub b_transport_rom-next_bank :
    (f : ℕ → ℕ) (offset dat : ℕ) (m : Mbc5)
    → offset < 0x4000
    → IsMbc5 m
    → ((j : ℕ) → m.rom_high.cells j ≡ f (0x4000 + j))
    → b_transport_rom read (0x4000 + offset) dat (showing m)
      ≡ (ok_response (f ((m.rom_bank_low_bits + 1) * 0x4000 + offset)), showing m)
unfolding b_transport_rom b_transport
b_transport_rom-next_bank f offset dat m h v file =
    let at = bank_offset m.rom_bank_low_bits offset in
    let cell = file (m.rom_bank_low_bits * 0x4000 + offset) ∙ ap f at in ground arith
