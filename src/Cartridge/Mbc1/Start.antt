-- ===== src/Cartridge/Mbc1/Start.antt =====
-- src/cartridge.cpp: how MBC1 is constructed from the files of the game, the boot ROM and the saved
-- RAM, how it unmaps the boot ROM, and what it saves.
use tlmboy.Base.{ℕ, false, Option, none, some}
use tlmboy.Memory.File.{DataFile, load_from_file, load_from_data}
use tlmboy.Cartridge.Rom.{zeros, new_mem}
use tlmboy.Cartridge.Mbc1.{Mbc1}

-- The constructor; `save` is the save file, if there is one. `none` is a failed assertion or an
-- exception.
abbrev with_ram : (ℕ → ℕ) → (ℕ → ℕ) → Option (ℕ → ℕ) → Option Mbc1
with_ram low high none = none
with_ram low high (some ram) = some (record {
  rom_low = low;
  rom_high = record (new_mem 128 0x4000) { cells = high };
  ext_ram = record (new_mem 4 0x2000) { cells = ram };
  ram_ind = 0;
  rom_ind = 0;
  rom_bank_low_bits = 0;
  the_two_bits = 0;
  more_ram_mode = false;
  ram_enabled = false;
})

-- The RAM, from the save file if it exists.
abbrev pub saved_ram : Option DataFile → Option (ℕ → ℕ)
saved_ram none = some zeros
saved_ram (some file) = load_from_file file 0 0x8000 zeros

abbrev with_high : Option DataFile → (ℕ → ℕ) → Option (ℕ → ℕ) → Option Mbc1
with_high save low none = none
with_high save low (some high) = with_ram low high (saved_ram save)

abbrev with_low : DataFile → DataFile → Option DataFile → Option (ℕ → ℕ) → Option Mbc1
with_low game boot save none = none
with_low game boot save (some low) =
    with_high save (load_from_data boot 0x4000 low) (load_from_file game 0x4000 0x200000 zeros)

unfoldable pub new_mbc1 : DataFile → DataFile → Option DataFile → Option Mbc1
unfolding new_mem load_from_file load_from_data
new_mbc1 game boot save = with_low game boot save (load_from_file game 0 0x4000 zeros)

-- `UnmapBootRom`.
unfoldable pub unmap_boot_rom : DataFile → Mbc1 → Option Mbc1
unfolding load_from_file
unmap_boot_rom game m = elim (load_from_file game 0 0x4000 m.rom_low) [
  | none ↦ none
  | some low ↦ some (record m { rom_low = low })
]

-- What the destructor saves: `SaveToFile` of the RAM.
unfoldable pub saved : Mbc1 → DataFile
saved m = record { size = 0x8000; byte = m.ext_ram.cells }
