-- ===== src/Cartridge/Mbc3/Banks.antt =====
-- src/cartridge.cpp: the banks of MBC3.
use tlmboy.Base.{
  ℕ, ◌+◌, ◌-◌, ◌*◌, ◌%◌, ◌≤◌, ◌<◌, ◌≡◌, ◌⊎◌, refl, ap, ◌∙◌, arith, Bool, true, false, some, none,
  bit_and, ltb, leb, ◌==◌, ◌&&◌, if◌then◌else◌, all_below, all_below_sound, ==→eq, Bool-cases, inl,
  inr,
}
use tlmboy.Tlm.{read, write, ok_response, unanswered, assertion}
use tlmboy.Cartridge.{do_bank_switch, b_transport}
use tlmboy.Cartridge.Mbc3.{Mbc3, assign, select, b_transport_rom}

-- The bank indices in the range of their masks and of the RAM, and the sizes that the constructor of MBC3
-- gives the memories.
pub record IsMbc3 (m : Mbc3) : Type 0 where
  pub rom_index : m.rom_ind < 128
  pub ram_index : m.ram_ind < 4
  pub rom_banks : m.rom_high.num_banks ≡ 128
  pub rom_size : m.rom_high.bank_size ≡ 0x4000
  pub ram_banks : m.ext_ram.num_banks ≡ 4
  pub ram_size : m.ext_ram.bank_size ≡ 0x2000

abbrev pub bank : Mbc3 → ℕ
bank m = if m.rom_ind == 0 then 1 else m.rom_ind

-- The controller showing the banks of its indices.
abbrev pub showing : Mbc3 → Mbc3
showing m = record m {
  rom_ind = bank m;
  rom_high = record m.rom_high { bank_data = (bank m - 1) * 0x4000; current_bank_ind = bank m - 1 };
  ext_ram = record m.ext_ram { bank_data = m.ram_ind * 0x2000; current_bank_ind = m.ram_ind };
}

low_table : all_below 256 (λ d. bit_and 0b01111111 d == d % 128) ≡ true
unfolding all_below
low_table = refl

select_lem : (m : Mbc3) → IsMbc3 m → select m ≡ some (showing m)
unfolding select do_bank_switch
select_lem m v = ground arith

-- A write to the range of the RAM bank register selects one of the four banks that the code names
-- 4 to 7, for which the RAM has no memory.
abbrev pub missing_bank : ℕ → ℕ → Bool
missing_bank adr dat = leb 0x4000 adr && leb adr 0x5FFF && leb 4 dat && ltb dat 8

assign-IsMbc3 :
    (adr dat : ℕ) (m : Mbc3)
    → dat < 256
    → missing_bank adr dat ≡ false
    → IsMbc3 m
    → IsMbc3 (assign adr dat m)
unfolding assign
assign-IsMbc3 adr dat m h fits v =
    let low =
      ==→eq _ _ (all_below_sound 256 (λ d. bit_and 0b01111111 d == d % 128) dat low_table h) in
    ground arith

select_missing :
    (dat : ℕ) (m : Mbc3)
    → 4 ≤ dat
    → dat < 8
    → IsMbc3 m
    → select (record m { ram_ind = dat; rtc_mapped = false }) ≡ none
unfolding select do_bank_switch
select_missing dat m h4 h8 v = ground arith

assign_missing :
    (adr dat : ℕ) (m : Mbc3)
    → missing_bank adr dat ≡ true
    → (assign adr dat m ≡ record m { ram_ind = dat; rtc_mapped = false }) × (4 ≤ dat) × (dat < 8)
unfolding assign
assign_missing adr dat m h = ground arith

-- With the sizes of MBC3 and indices in range, a write of a byte to any ROM address either
-- passes every assertion, shows the banks that the registers then choose, and keeps all this,
-- or it selects one of the RAM banks 4 to 7, and an assertion fails.
pub b_transport_rom-write_or_assert :
    (adr dat : ℕ) (m : Mbc3)
    → adr < 0x8000
    → dat < 256
    → IsMbc3 m
    → ((missing_bank adr dat ≡ false)
        × (b_transport_rom write adr dat m ≡ (unanswered dat, showing (assign adr dat m)))
        × IsMbc3 (showing (assign adr dat m)))
      ⊎ ((missing_bank adr dat ≡ true) × ((b_transport_rom write adr dat m).0 ≡ assertion))
unfolding b_transport_rom
b_transport_rom-write_or_assert adr dat m ha hd v = elim (Bool-cases (missing_bank adr dat)) [
  | inl miss ↦
      let named = assign_missing adr dat m miss in
      let gone = ap select named.0 ∙ select_missing dat m named.1 named.2 v in
      inr (miss, (ground arith))
  | inr fits ↦
      let v' = assign-IsMbc3 adr dat m hd fits v in
      let chosen = select_lem (assign adr dat m) v' in inl (fits, (ground arith), (ground arith))
]

bank_offset : (b offset : ℕ) → 0 < b → 0x4000 + ((b - 1) * 0x4000 + offset) ≡ b * 0x4000 + offset
bank_offset b offset h = omega arith

-- When the banks of the registers are shown and `rom_high` holds a game file from its byte 0x4000
-- on, a read at 0x4000 + offset gives the byte of the chosen bank in the file, and changes nothing.
pub b_transport_rom-game :
    (f : ℕ → ℕ) (offset dat : ℕ) (m : Mbc3)
    → offset < 0x4000
    → IsMbc3 m
    → ((j : ℕ) → m.rom_high.cells j ≡ f (0x4000 + j))
    → b_transport_rom read (0x4000 + offset) dat (showing m)
      ≡ (ok_response (f (bank m * 0x4000 + offset)), showing m)
unfolding b_transport_rom b_transport
b_transport_rom-game f offset dat m h v file =
    let at = bank_offset (bank m) offset (ground arith) in
    let cell = file ((bank m - 1) * 0x4000 + offset) ∙ ap f at in ground arith
