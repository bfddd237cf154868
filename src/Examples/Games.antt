-- ===== src/Examples/Games.antt =====
-- A file that says it is a game of 64 KiB for the bank controller MBC1.
use tlmboy.Base.{ℕ, ◌≡◌, arith, ◌&&◌, none, ◌==◌, if◌then◌else◌}
use tlmboy.GameInfo.{cartridge_of}
use tlmboy.GameInfo.Codes.{is_rom_size, is_ram_size, controller_at, cartridge_of_lem}

-- The title is `AB`.
abbrev game : ℕ → ℕ
game i =
    if i == 0x134
    then 65
    else if i == 0x135
    then 66
    else if i == 0x147
    then 0x01
    else if i == 0x148
    then 0x01
    else 0

cartridge_of_example :
    cartridge_of game ≡ (if is_rom_size 1 && is_ram_size 0 then controller_at 1 else none)
cartridge_of_example = cartridge_of_lem game (omega arith) (omega arith) (omega arith)
