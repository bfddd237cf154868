-- ===== src/Examples/Cartridges.antt =====
-- The bank controllers at concrete cartridges.
use tlmboy.Base.{
  ◌-◌, none, some, List, [], ◌∷◌, ℕ, ◌+◌, ◌*◌, ◌/◌, ◌%◌, ◌≡◌, ◌⊎◌, refl, arith, true, false,
}
use tlmboy.Tlm.{read, write, ok_response, unanswered, assertion}
use tlmboy.Cartridge.{BankSwitchedMem}
use tlmboy.Memory.File.{DataFile}
use tlmboy.Cartridge.Rom as RomOnly
use tlmboy.Cartridge.Rom.{Rom, new_rom, unmap_boot_rom}
use tlmboy.Cartridge.Rom.Boot.{Access, run, b_transport_rom-unmap_boot_rom}
use tlmboy.Cartridge.Mbc1
use tlmboy.Cartridge.Mbc1.{Mbc1}
use tlmboy.Cartridge.Mbc1.Banks.{
  IsMbc1, b_transport_rom-write, b_transport_ram-write, b_transport_ram-gate,
}
use tlmboy.Cartridge.Mbc1.Banks as Mbc1Banks
use tlmboy.Cartridge.Mbc1.Start.{new_mbc1, saved}
use tlmboy.Cartridge.Mbc1.Runs as Mbc1Runs
use tlmboy.Cartridge.Mbc1.Runs.{new_mbc1-run}
use tlmboy.Cartridge.Mbc1.Save.{pick, new_mbc1-saved}
use tlmboy.Cartridge.Mbc3
use tlmboy.Cartridge.Mbc3.{Mbc3, rtc_value}
use tlmboy.Cartridge.Mbc3.Banks as Mbc3Banks
use tlmboy.Cartridge.Mbc3.Banks.{IsMbc3, missing_bank, b_transport_rom-write_or_assert}
use tlmboy.Cartridge.Mbc5.{Mbc5}
use tlmboy.Cartridge.Mbc5.Banks.{IsMbc5}

-- A game file whose bytes repeat.
abbrev game : ℕ → ℕ
game j = (j + j / 0x4000) % 256

abbrev rom : ℕ → BankSwitchedMem
rom n = record {
  cells = λ j. game (0x4000 + j);
  num_banks = n;
  bank_size = 0x4000;
  bank_data = 0;
  current_bank_ind = 0;
}

abbrev ram : ℕ → BankSwitchedMem
ram n = record {
  cells = λ j. j % 256;
  num_banks = n;
  bank_size = 0x2000;
  bank_data = 0;
  current_bank_ind = 0;
}

abbrev mbc1 : Mbc1
mbc1 = record {
  rom_low = game;
  rom_high = rom 128;
  ext_ram = ram 4;
  ram_ind = 0;
  rom_ind = 0;
  rom_bank_low_bits = 0;
  the_two_bits = 1;
  more_ram_mode = false;
  ram_enabled = true;
}

mbc1-IsMbc1 : IsMbc1 mbc1
mbc1-IsMbc1 = ground arith

b_transport_rom-write_example :
    (Mbc1.b_transport_rom write 0x2000 5 mbc1
      ≡ (unanswered 5, Mbc1Banks.showing (Mbc1Banks.assigned 0x2000 5 mbc1)))
    × IsMbc1 (Mbc1Banks.showing (Mbc1Banks.assigned 0x2000 5 mbc1))
b_transport_rom-write_example =
    b_transport_rom-write 0x2000 5 mbc1 (omega arith) (omega arith) mbc1-IsMbc1

abbrev mbc3 : Mbc3
mbc3 = record {
  rom_low = game;
  rom_high = rom 128;
  ext_ram = ram 4;
  ram_ind = 0;
  rom_ind = 1;
  rtc_reg = 0;
  ram_rtc_enabled = false;
  rtc_mapped = false;
  rtc_halted = false;
}

mbc3-IsMbc3 : IsMbc3 mbc3
mbc3-IsMbc3 = ground arith

b_transport_rom-write_or_assert_example :
    ((missing_bank 0x4000 5 ≡ false)
      × (Mbc3.b_transport_rom write 0x4000 5 mbc3
          ≡ (unanswered 5, Mbc3Banks.showing (Mbc3.assign 0x4000 5 mbc3)))
      × IsMbc3 (Mbc3Banks.showing (Mbc3.assign 0x4000 5 mbc3)))
    ⊎ ((missing_bank 0x4000 5 ≡ true) × ((Mbc3.b_transport_rom write 0x4000 5 mbc3).0 ≡ assertion))
b_transport_rom-write_or_assert_example =
    b_transport_rom-write_or_assert 0x4000 5 mbc3 (omega arith) (omega arith) mbc3-IsMbc3

abbrev mbc5 : Mbc5
mbc5 = record {
  rom_low = game;
  rom_high = rom 512;
  ext_ram = ram 16;
  ram_ind = 0;
  rom_ind = 0;
  ram_bits = 3;
  rom_bank_low_bits = 2;
  rom_bank_high_bits = 1;
  ram_enabled = true;
}

mbc5-IsMbc5 : IsMbc5 mbc5
mbc5-IsMbc5 = ground arith

-- A game of 32 KiB, and a boot ROM of 256 bytes.
abbrev game_file : DataFile
game_file = record { size = 0x8000; byte = game }

abbrev boot_file : DataFile
boot_file = record { size = 0x100; byte = λ j. 255 - j % 256 }

abbrev accesses : List Access
accesses =
    record { is_data = true; cmd = write; addr = 0x2000; dat = 5 }
    ∷ record { is_data = false; cmd = read; addr = 0x4001; dat = 0 }
    ∷ []

b_transport_rom-unmap_boot_rom_example :
    (r : Rom) × (r' : Rom) × (new_rom game_file boot_file none ≡ some r)
    × (unmap_boot_rom (run accesses r) ≡ some r')
    × ((RomOnly.b_transport_rom false read 0x10 0 (run accesses r)).0 ≡ ok_response 0xEF)
    × ((RomOnly.b_transport_rom false read 0x10 0 (run accesses r')).0 ≡ ok_response 0x10)
b_transport_rom-unmap_boot_rom_example =
    b_transport_rom-unmap_boot_rom game_file boot_file none accesses accesses false 0x10 0 refl
      (omega arith)

-- A game of 64 KiB for MBC1, and some transactions of it.
abbrev large_file : DataFile
large_file = record { size = 0x10000; byte = game }

abbrev mbc1_accesses : List Mbc1Runs.Access
mbc1_accesses =
    Mbc1Runs.to_rom write 0x0000 0x0A
    ∷ Mbc1Runs.to_ram write 0x0010 77
    ∷ Mbc1Runs.to_rom write 0x2000 2
    ∷ []

new_mbc1-run_example :
    (m : Mbc1) × (new_mbc1 large_file boot_file none ≡ some m)
    × ((Mbc1.b_transport_rom read 0x4005 0
          (Mbc1.b_transport_rom write 0x2000 3 (Mbc1Runs.run mbc1_accesses m)).1).0
        ≡ ok_response (
            Mbc1Runs.byte_of large_file (
              Mbc1Banks.bank (Mbc1Banks.assigned 0x2000 3 (Mbc1Runs.run mbc1_accesses m)) * 0x4000
              + 5)))
new_mbc1-run_example =
    new_mbc1-run large_file boot_file none mbc1_accesses 0x2000 3 5 0 (omega arith) (omega arith)
      (omega arith) (omega arith) (omega arith)

new_mbc1-saved_example :
    (m' : Mbc1) × (new_mbc1 large_file boot_file
        (some (saved (Mbc1.b_transport_ram write 0x10 77 (Mbc1Runs.run (pick 2) mbc1)).1))
      ≡ some m')
    × ((Mbc1.b_transport_ram read 0x10 0 (Mbc1Runs.run (pick 2) m')).0 ≡ ok_response 77)
new_mbc1-saved_example =
    new_mbc1-saved large_file boot_file mbc1 2 0x10 0x10 77 0 (omega arith) (omega arith)
      mbc1-IsMbc1 (omega arith) (omega arith) (omega arith)
