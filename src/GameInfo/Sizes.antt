-- ===== src/GameInfo/Sizes.antt =====
-- src/game_info.h: the cartridge types, the sizes and the regions.
use Prim.Native.String.{String}
use tlmboy.Base.{ℕ, List, [], ◌∷◌}

-- `cartridge_type_map`.
abbrev pub cartridge_types : List (ℕ × String)
cartridge_types =
    (0x00, "ROM ONLY")
    ∷ (0x01, "MBC1")
    ∷ (0x02, "MBC1+RAM")
    ∷ (0x03, "MBC1+BAT+RAM")
    ∷ (0x05, "MBC2")
    ∷ (0x06, "MBC2+BAT")
    ∷ (0x08, "ROM+RAM")
    ∷ (0x09, "ROM+BAT+RAM")
    ∷ (0x0B, "MMM01")
    ∷ (0x0C, "MMM01+RAM")
    ∷ (0x0D, "MMM01+BAT+RAM")
    ∷ (0x0F, "MBC3+BAT+TIM")
    ∷ (0x10, "MBC3+BAT+RAM+TIM")
    ∷ (0x11, "MBC3")
    ∷ (0x12, "MBC3+RAM")
    ∷ (0x13, "MBC3+BAT+RAM")
    ∷ (0x19, "MBC5")
    ∷ (0x1A, "MBC5+RAM")
    ∷ (0x1B, "MBC5+BAT+RAM")
    ∷ (0x1C, "MBC5+RUM")
    ∷ (0x1D, "MBC5+RAM+RUM")
    ∷ (0x1E, "MBC5+BAT+RAM+RUM")
    ∷ (0x20, "MBC6")
    ∷ (0x22, "MBC7+BAT+RAM+RUM+SEN")
    ∷ (0xFC, "POCKET CAM")
    ∷ (0xFD, "BANDAI TAMA5")
    ∷ (0xFE, "HuC3")
    ∷ (0xFF, "HuC1+RAM+BAT")
    ∷ []

-- `rom_size_map`: the text and the number of banks.
abbrev pub rom_sizes : List (ℕ × (String × ℕ))
rom_sizes =
    (0x00, ("32 KiB", 0))
    ∷ (0x01, ("64 KiB (4 banks)", 4))
    ∷ (0x02, ("128 KiB (8 banks)", 8))
    ∷ (0x03, ("256 KiB (16 banks)", 16))
    ∷ (0x04, ("512 KiB (32 banks)", 32))
    ∷ (0x05, ("1 MiB (64 banks)", 64))
    ∷ (0x06, ("2 MiB (128 banks)", 128))
    ∷ (0x07, ("4 MiB (256 banks)", 256))
    ∷ (0x08, ("8 MiB (512 banks)", 512))
    ∷ (0x52, ("1.1 MiB (72 banks)", 72))
    ∷ (0x53, ("1.2 MiB (80 banks)", 80))
    ∷ (0x54, ("1.5 MiB (96 banks)", 96))
    ∷ []

-- `ram_size_map`: the text and the size in kiB.
abbrev pub ram_sizes : List (ℕ × (String × ℕ))
ram_sizes =
    (0x00, ("None", 0))
    ∷ (0x01, ("2 KiB", 2))
    ∷ (0x02, ("8 KiB", 8))
    ∷ (0x03, ("32 KiB", 32))
    ∷ (0x04, ("128 KiB", 128))
    ∷ (0x05, ("64 KiB", 64))
    ∷ []

-- `region_map`.
abbrev pub regions : List (ℕ × String)
regions = (0x00, "Japanese") ∷ (0x01, "Non-Japanese") ∷ []
