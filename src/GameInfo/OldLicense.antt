-- ===== src/GameInfo/OldLicense.antt =====
-- src/game_info.h: the old license codes.
use Prim.Native.String.{String}
use tlmboy.Base.{ℕ, List, [], ◌∷◌}

-- The first half of `old_license_code_map`, in the order of the source.
abbrev pub low_license_codes : List (ℕ × String)
low_license_codes =
    (0x00, "none")
    ∷ (0x01, "nintendo")
    ∷ (0x08, "Capcom")
    ∷ (0x09, "hot-b")
    ∷ (0x0A, "jaleco")
    ∷ (0x0B, "coconuts")
    ∷ (0x0C, "elite systems")
    ∷ (0x13, "Electronic Arts")
    ∷ (0x18, "Hudon Soft")
    ∷ (0x19, "itc entertainment")
    ∷ (0x1A, "yanoman")
    ∷ (0x1D, "clary")
    ∷ (0x1F, "virgin")
    ∷ (0x20, "KSS")
    ∷ (0x24, "PCM Complete")
    ∷ (0x25, "san-x")
    ∷ (0x28, "kotobuki systems")
    ∷ (0x29, "seta")
    ∷ (0x30, "infogrames")
    ∷ (0x31, "Nintendo")
    ∷ (0x32, "Bandai")
    ∷ (0x33, "GBC")
    ∷ (0x34, "Konami")
    ∷ (0x35, "Hector")
    ∷ (0x38, "Capcom")
    ∷ (0x39, "Banpresto")
    ∷ (0x3C, "entertainment i")
    ∷ (0x3E, "gremlin")
    ∷ (0x41, "Ubisoft")
    ∷ (0x42, "Atlus")
    ∷ (0x44, "Malibu")
    ∷ (0x46, "angel")
    ∷ (0x47, "spectrum holobody")
    ∷ (0x49, "irem")
    ∷ (0x4A, "virgin")
    ∷ (0x4D, "Malibu")
    ∷ (0x4f, "U.S. Gold")
    ∷ (0x50, "Absolute")
    ∷ (0x51, "Acclaim")
    ∷ (0x52, "Activision")
    ∷ (0x53, "American sammy")
    ∷ (0x54, "Gametek")
    ∷ (0x55, "park place")
    ∷ (0x56, "LJN")
    ∷ (0x57, "Matchbox")
    ∷ (0x59, "Milton Bradley")
    ∷ (0x5A, "mindscape")
    ∷ (0x5B, "romstar")
    ∷ (0x5C, "naxat soft")
    ∷ (0x5D, "tradewest")
    ∷ (0x60, "titus")
    ∷ (0x61, "Virgin")
    ∷ (0x67, "Ocean")
    ∷ (0x69, "Electronic Arts")
    ∷ (0x6E, "Elite Systems")
    ∷ (0x6F, "Electro Brain")
    ∷ (0x70, "Infogrammes")
    ∷ (0x71, "Interplay")
    ∷ (0x72, "Broderbund")
    ∷ (0x73, "sculptured")
    ∷ (0x75, "the sales curve")
    ∷ (0x78, "THQ")
    ∷ (0x79, "Accolade")
    ∷ (0x7A, "triffix entertainment")
    ∷ (0x7C, "micropose")
    ∷ (0x7F, "kemco")
    ∷ (0x80, "misawa")
    ∷ (0x83, "lozc")
    ∷ (0x86, "tokuma shoten")
    ∷ (0x8B, "bullet-proof software")
    ∷ (0x8c, "vic tokai")
    ∷ (0x8E, "ape")
    ∷ (0x8F, "i'max")
    ∷ (0x91, "chun soft")
    ∷ []

-- The second half of `old_license_code_map`, in the order of the source.
abbrev pub high_license_codes : List (ℕ × String)
high_license_codes =
    (0x92, "video systen")
    ∷ (0x93, "tsuburava")
    ∷ (0x95, "varie")
    ∷ (0x96, "yonezawa/s'pal")
    ∷ (0x97, "kaneko")
    ∷ (0x99, "arc")
    ∷ (0x9A, "nihon bussan")
    ∷ (0x9B, "Tecmo")
    ∷ (0x9C, "imagineer")
    ∷ (0x9D, "Banpresto")
    ∷ (0x9F, "nova")
    ∷ (0xA1, "Hori electric")
    ∷ (0xA2, "Bandai")
    ∷ (0xA4, "Konami")
    ∷ (0xA6, "kawada")
    ∷ (0xA7, "takara")
    ∷ (0xA9, "technos japan")
    ∷ (0xAA, "broderbund")
    ∷ (0xAC, "Toei animation")
    ∷ (0xAD, "toho")
    ∷ (0xAF, "Namco")
    ∷ (0xB0, "Acclaim")
    ∷ (0xB1, "ascii or nexoft")
    ∷ (0xB2, "Bandai")
    ∷ (0xB4, "Enix")
    ∷ (0xB6, "HAL")
    ∷ (0xB7, "SNK")
    ∷ (0xB9, "pony canyon")
    ∷ (0xBA, "*culture brain o")
    ∷ (0xBB, "Sunsoft")
    ∷ (0xBD, "Sony imagesoft")
    ∷ (0xBF, "sammy")
    ∷ (0xC0, "Taito")
    ∷ (0xC2, "Kemco")
    ∷ (0xC3, "Squaresoft")
    ∷ (0xC4, "tokuma shoten")
    ∷ (0xC5, "data east")
    ∷ (0xC6, "tonkin house")
    ∷ (0xC8, "koei")
    ∷ (0xC9, "ufl")
    ∷ (0xCA, "ultra")
    ∷ (0xCB, "vap")
    ∷ (0xCC, "use")
    ∷ (0xCD, "meldac")
    ∷ (0xCE, "pony canyon")
    ∷ (0xCF, "angel")
    ∷ (0xD0, "Taito")
    ∷ (0xD1, "sofel")
    ∷ (0xD2, "quest")
    ∷ (0xD3, "sigma enterprises")
    ∷ (0xD4, "ask kodansha")
    ∷ (0xD6, "naxat soft")
    ∷ (0xD7, "copya systems")
    ∷ (0xD9, "Banpresto")
    ∷ (0xDA, "tomy")
    ∷ (0xDB, "ljn")
    ∷ (0xDD, "ncs")
    ∷ (0xDE, "human")
    ∷ (0xDF, "altron")
    ∷ (0xE0, "jaleco")
    ∷ (0xE1, "towachiki")
    ∷ (0xE2, "uutaka")
    ∷ (0xE3, "varie")
    ∷ (0xE5, "epoch")
    ∷ (0xE7, "athena")
    ∷ (0xE8, "asmik")
    ∷ (0xE9, "natsume")
    ∷ (0xEA, "king records")
    ∷ (0xEB, "atlus")
    ∷ (0xEC, "Epic/Sony records")
    ∷ (0xEE, "igs")
    ∷ (0xF0, "a wave")
    ∷ (0xF3, "extreme entertainment")
    ∷ (0xFF, "ljn")
    ∷ []
