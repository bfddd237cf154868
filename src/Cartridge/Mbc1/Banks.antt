-- ===== src/Cartridge/Mbc1/Banks.antt =====
-- src/cartridge.cpp: the banks that MBC1 shows, and its RAM.
use tlmboy.Base.{
  ltb, leb, ℕ, ◌+◌, ◌-◌, ◌*◌, ◌%◌, ◌<◌, ◌≡◌, refl, ◌∙◌, ap, true, false, some, arith, bit_and,
  bit_or, of_bool, ◌/◌, ◌&&◌, u8, if◌then◌else◌, ◌==◌, all_below, all_below_sound, ==→eq,
}
use mathlib.Core.Path.{subst}
use tlmboy.Base.Bits.{bit_and-1, bit_and-3}
use tlmboy.Tlm.{read, write, ok_response, unanswered}
use tlmboy.Cartridge.{do_bank_switch, b_transport}
use tlmboy.Cartridge.Mbc1.{
  Mbc1, assign, raw_rom_ind, corrected, ram_ind_of, select, b_transport_rom, b_transport_ram,
}

-- The registers hold what their masks let through, and the memories have the sizes that the
-- constructor of MBC1 gives them.
pub record IsMbc1 (m : Mbc1) : Type 0 where
  pub low_bits : m.rom_bank_low_bits < 32
  pub two_bits : m.the_two_bits < 4
  pub rom_banks : m.rom_high.num_banks ≡ 128
  pub rom_size : m.rom_high.bank_size ≡ 0x4000
  pub ram_banks : m.ext_ram.num_banks ≡ 4
  pub ram_size : m.ext_ram.bank_size ≡ 0x2000

-- The ROM bank of the registers: the two bits stand above the five, and no bank whose low five bits
-- are zero can be chosen.
abbrev pub high_bits : Mbc1 → ℕ
high_bits m = if m.more_ram_mode then 0 else m.the_two_bits

abbrev pub bank : Mbc1 → ℕ
bank m = high_bits m * 32 + (if m.rom_bank_low_bits == 0 then 1 else m.rom_bank_low_bits)

-- The controller with its registers, showing the banks that they choose.
abbrev pub showing : Mbc1 → Mbc1
showing m = record m {
  rom_ind = bank m;
  ram_ind = ram_ind_of m;
  rom_high = record m.rom_high { bank_data = (bank m - 1) * 0x4000; current_bank_ind = bank m - 1 };
  ext_ram = record m.ext_ram { bank_data = ram_ind_of m * 0x2000; current_bank_ind = ram_ind_of m };
}

low_table : all_below 256 (λ d. bit_and 0b00011111 d == d % 32) ≡ true
unfolding all_below
low_table = refl

bank_table :
    all_below 4 (λ t.
      all_below 32 (λ l. corrected (u8 (bit_or l (t * 32))) == t * 32 + (if l == 0 then 1 else l)))
    ≡ true
unfolding all_below
bank_table = refl

bank_at :
    (t l : ℕ)
    → t < 4
    → l < 32
    → corrected (u8 (bit_or l (t * 32))) ≡ t * 32 + (if l == 0 then 1 else l)
bank_at t l ht hl =
    let row =
      all_below_sound 4
        (λ t.
          all_below 32
            (λ l. corrected (u8 (bit_or l (t * 32))) == t * 32 + (if l == 0 then 1 else l)))
        t bank_table ht in
    ==→eq _ _ (
      all_below_sound 32
        (λ l. corrected (u8 (bit_or l (t * 32))) == t * 32 + (if l == 0 then 1 else l)) l row hl)

corrected-raw_rom_ind : (m : Mbc1) → IsMbc1 m → corrected (raw_rom_ind m) ≡ bank m
unfolding raw_rom_ind
corrected-raw_rom_ind m v =
    elim m.more_ram_mode
      as (λ b.
        corrected (u8 (bit_or m.rom_bank_low_bits (if b then 0 else m.the_two_bits * 32)))
        ≡ (if b then 0 else m.the_two_bits) * 32
          + (if m.rom_bank_low_bits == 0 then 1 else m.rom_bank_low_bits)) [
            | true ↦ bank_at 0 m.rom_bank_low_bits (omega arith) v.low_bits
            | false ↦ bank_at m.the_two_bits m.rom_bank_low_bits v.two_bits v.low_bits
          ]

bank-lt : (m : Mbc1) → IsMbc1 m → (0 < bank m) × (bank m < 128)
bank-lt m v = ground arith

select_lem : (m : Mbc1) → IsMbc1 m → select m ≡ some (showing m)
unfolding select do_bank_switch
select_lem m v = let e = corrected-raw_rom_ind m v in let range = bank-lt m v in ground arith

pub assign-IsMbc1 : (adr dat : ℕ) (m : Mbc1) → dat < 256 → IsMbc1 m → IsMbc1 (assign adr dat m)
unfolding assign
assign-IsMbc1 adr dat m h v = ground (
  arith,
  bit_and-3 dat,
  ==→eq _ _ (all_below_sound 256 (λ d. bit_and 0b00011111 d == d % 32) dat low_table h),
)

showing-IsMbc1 : (m : Mbc1) → IsMbc1 m → IsMbc1 (showing m)
showing-IsMbc1 m v = ground arith

-- The registers after a write of a byte, in the words of the ranges and the digits: the RAM is
-- enabled by bits 1 and 3 below 0x2000, then follow the five bits, the two bits and the mode.
abbrev pub assigned : ℕ → ℕ → Mbc1 → Mbc1
assigned adr dat m = record m {
  ram_enabled = if ltb adr 0x2000 then dat / 2 % 2 == 1 && dat / 8 % 2 == 1 else m.ram_enabled;
  rom_bank_low_bits = if leb 0x2000 adr && ltb adr 0x4000 then dat % 32 else m.rom_bank_low_bits;
  the_two_bits = if leb 0x4000 adr && ltb adr 0x6000 then dat % 4 else m.the_two_bits;
  more_ram_mode = if leb 0x6000 adr then dat % 2 == 1 else m.more_ram_mode;
}

gate_table : all_below 256 (λ d. of_bool (bit_and d 0xA == 0xA) == d / 2 % 2 * (d / 8 % 2)) ≡ true
unfolding all_below
gate_table = refl

gate : (d : ℕ) → d < 256 → (bit_and d 0xA == 0xA) ≡ (d / 2 % 2 == 1 && d / 8 % 2 == 1)
gate d h =
    let entry = ==→eq _ _ (
      all_below_sound 256 (λ d. of_bool (bit_and d 0xA == 0xA) == d / 2 % 2 * (d / 8 % 2)) d
        gate_table h) in
    ground arith

pub assign-assigned :
    (adr dat : ℕ) (m : Mbc1) → adr < 0x8000 → dat < 256 → assign adr dat m ≡ assigned adr dat m
unfolding assign
assign-assigned adr dat m ha hd = ground (
  arith,
  gate dat hd,
  bit_and-1 dat,
  bit_and-3 dat,
  ==→eq _ _ (all_below_sound 256 (λ d. bit_and 0b00011111 d == d % 32) dat low_table hd),
)

-- A write passes every assertion.
pub b_transport_rom-assign :
    (adr dat : ℕ) (m : Mbc1)
    → adr < 0x8000
    → dat < 256
    → IsMbc1 m
    → (b_transport_rom write adr dat m ≡ (unanswered dat, showing (assign adr dat m)))
      × IsMbc1 (showing (assign adr dat m))
unfolding b_transport_rom
b_transport_rom-assign adr dat m ha hd v =
    let v' = assign-IsMbc1 adr dat m hd v in
    let chosen = select_lem (assign adr dat m) v' in (ground arith, showing-IsMbc1 _ v')

-- With the sizes and the masked registers of MBC1, a write of a byte to any ROM address passes
-- every assertion. Below 0x2000 it enables the RAM exactly if bits 1 and 3 of the byte are set,
-- below 0x4000 it assigns its low five bits, below 0x6000 its low two, from there on the mode
-- by bit 0, and no other register; then the banks that the registers choose are shown, and the
-- sizes and masks are kept.
pub b_transport_rom-write :
    (adr dat : ℕ) (m : Mbc1)
    → adr < 0x8000
    → dat < 256
    → IsMbc1 m
    → (b_transport_rom write adr dat m ≡ (unanswered dat, showing (assigned adr dat m)))
      × IsMbc1 (showing (assigned adr dat m))
b_transport_rom-write adr dat m ha hd v =
    let (done, valid) = b_transport_rom-assign adr dat m ha hd v in
    let same = assign-assigned adr dat m ha hd in
    (done ∙ ap (λ q. (unanswered dat, showing q)) same, subst (λ q. IsMbc1 (showing q)) same valid)

bank_offset : (b offset : ℕ) → 0 < b → 0x4000 + ((b - 1) * 0x4000 + offset) ≡ b * 0x4000 + offset
bank_offset b offset h = omega arith

-- When the banks of the registers are shown and `rom_high` holds a game file from its byte
-- 0x4000 on, a read at 0x4000 + offset gives the byte of the chosen bank in the file, and
-- changes nothing.
pub b_transport_rom-bank :
    (f : ℕ → ℕ) (offset dat : ℕ) (m : Mbc1)
    → offset < 0x4000
    → IsMbc1 m
    → ((j : ℕ) → m.rom_high.cells j ≡ f (0x4000 + j))
    → b_transport_rom read (0x4000 + offset) dat (showing m)
      ≡ (ok_response (f (bank m * 0x4000 + offset)), showing m)
unfolding b_transport_rom b_transport
b_transport_rom-bank f offset dat m h v file =
    let at = bank_offset (bank m) offset (bank-lt m v).0 in
    let cell = file ((bank m - 1) * 0x4000 + offset) ∙ ap f at in ground arith

-- In enabled RAM with banks of 0x2000 bytes, a byte that is written is read back at its
-- address, and every other address of the bank reads as before.
pub b_transport_ram-write :
    (adr other v d : ℕ) (m : Mbc1)
    → m.ram_enabled ≡ true
    → adr < 0x2000
    → other < 0x2000
    → m.ext_ram.bank_size ≡ 0x2000
    → (b_transport_ram read other d (b_transport_ram write adr v m).1).0
      ≡ (if other == adr then ok_response v else (b_transport_ram read other d m).0)
unfolding b_transport_ram b_transport
b_transport_ram-write adr other v d m on ha ho size = ground arith

-- With the sizes and the masked registers of MBC1, after a byte is written below 0x2000, a read
-- of the RAM gives the byte of the bank in use if bits 1 and 3 of the written byte are set;
-- otherwise it is left unanswered, with its data byte as it was.
pub b_transport_ram-gate :
    (adr at dat d : ℕ) (m : Mbc1)
    → adr < 0x2000
    → at < 0x2000
    → dat < 256
    → IsMbc1 m
    → (b_transport_ram read at d (b_transport_rom write adr dat m).1).0 ≡ (
        if dat / 2 % 2 == 1 && dat / 8 % 2 == 1
        then ok_response (m.ext_ram.cells (ram_ind_of m * 0x2000 + at))
        else unanswered d)
unfolding b_transport_ram b_transport assign
b_transport_ram-gate adr at dat d m ha hat hd v =
    let entry = ==→eq _ _ (
      all_below_sound 256 (λ d. of_bool (bit_and d 0xA == 0xA) == d / 2 % 2 * (d / 8 % 2)) dat
        gate_table hd) in
    let done = (b_transport_rom-assign adr dat m (omega arith) hd v).0 in ground arith
