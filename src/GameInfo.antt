-- ===== src/GameInfo.antt =====
-- src/game_info.h and src/game_info.cpp: what the header of a game says; src/cartridge.cpp: the bank
-- controller that the cartridge gets for it. The bytes of the file are a function of their place.
mod NewLicense
mod OldLicense
mod Sizes
pub mod Codes
pub mod Title
use Prim.Native.Char.{code}
use Prim.Native.String.{String}
use text.Mathlib.Text.{◌==◌ as str_eq}
use tlmboy.Base.{
  ℕ, zero, suc, ◌+◌, ◌-◌, ◌*◌, ◌/◌, ◌%◌, ◌^◌, ◌≤◌, ◌<◌, ◌≡◌, ◌≢◌, ◌⊎◌, ◌↔◌, inl, inr, refl, sym, ap,
  ◌∙◌, arith, Bool, true, false, not, ◌&&◌, ◌||◌, Option, none, some, List, [], ◌∷◌, ◌++◌, map, u8,
  u16, of_bool, to_bool, is_bit_set, set_bit, bit_and, bit_or, bit_xor, ltb, leb, ◌==◌,
  if◌then◌else◌, all_below, all_below_sound, ==→eq, Bool-cases, length, get_or, tabulate,
}
use tlmboy.Base.{sign_extend}
use NewLicense.{new_license_codes}
use OldLicense.{low_license_codes, high_license_codes}
use Sizes.{cartridge_types, rom_sizes, ram_sizes, regions}

-- `map.at` and `map.contains`, where the first entry of a key counts.
unfoldable pub find {ℓ} : {A : Type ℓ} → ℕ → List (ℕ × A) → Option A
find k [] = none
find k ((j, v) ∷ rest) = if j == k then some v else find k rest

-- The bytes of a text.
abbrev codes : String → List ℕ
codes String.[] = []
codes (String.◌∷◌ c s) = code c ∷ codes s

abbrev same : List ℕ → List ℕ → Bool
same [] [] = true
same [] (d ∷ u) = false
same (c ∷ t) [] = false
same (c ∷ t) (d ∷ u) = c == d && same t u

unfoldable pub find_key : List ℕ → List (String × String) → Option String
find_key k [] = none
find_key k ((j, v) ∷ rest) = if same (codes j) k then some v else find_key k rest

abbrev or_unknown : Option String → String
or_unknown none = "Unknown"
or_unknown (some s) = s

pub record GameInfo : Type 0 where
  pub sgb_support : Bool
  pub uses_new_license : Bool
  pub cartridge_type : String
  pub license_code : String
  pub region : String
  pub title : List ℕ
  pub ram_size : String × ℕ
  pub rom_size : String × ℕ

-- The loop over the title, with so many places to go.
unfoldable pub read_title : (ℕ → ℕ) → ℕ → ℕ → List ℕ
read_title dat i zero = []
read_title dat i (suc left) = if dat i == 0 then [] else dat i ∷ read_title dat (i + 1) left

unfoldable pub license_code_of : (ℕ → ℕ) → String
license_code_of dat =
    if dat 0x14b == 0x33
    then or_unknown (find_key (dat 0x144 ∷ dat 0x145 ∷ []) new_license_codes)
    else or_unknown (find (u8 (dat 0x14b)) (low_license_codes ++ high_license_codes))

-- The `uint` that a `char` is converted to, which is signed.
abbrev pub key_of : ℕ → ℕ
key_of c = sign_extend c

-- The constructor; `none` is the exception of `map.at`.
abbrev pub assemble :
    (ℕ → ℕ) → Option String → Option (String × ℕ) → Option (String × ℕ) → Option GameInfo
assemble dat none rom ram = none
assemble dat (some type) none ram = none
assemble dat (some type) (some rom) none = none
assemble dat (some type) (some rom) (some ram) = some (record {
  sgb_support = dat 0x146 == 3;
  uses_new_license = dat 0x14b == 0x33;
  cartridge_type = type;
  license_code = license_code_of dat;
  region = or_unknown (find (key_of (dat 0x14a)) regions);
  title = read_title dat 0x134 16;
  ram_size = ram;
  rom_size = rom;
})

unfoldable pub game_info : (ℕ → ℕ) → Option GameInfo
game_info dat =
    assemble dat (find (key_of (dat 0x147)) cartridge_types) (find (key_of (dat 0x148)) rom_sizes)
      (find (key_of (dat 0x149)) ram_sizes)

-- The controllers of src/cartridge.cpp.
pub data Controller : Type 0 where
  rom mbc1 mbc3 mbc5 : Controller

-- The choice in the constructor of `Cartridge`; `none` is its exception.
unfoldable pub controller_of : String → Option Controller
controller_of type =
    if str_eq type "ROM ONLY"
    then some rom
    else if str_eq type "MBC1" || str_eq type "MBC1+RAM" || str_eq type "MBC1+BAT+RAM"
    then some mbc1
    else if str_eq type "MBC3" || str_eq type "MBC3+RAM" || str_eq type "MBC3+BAT+RAM"
    then some mbc3
    else if str_eq type "MBC5" || str_eq type "MBC5+RAM" || str_eq type "MBC5+BAT+RAM"
    then some mbc5
    else none

abbrev pub controller_for : Option GameInfo → Option Controller
controller_for none = none
controller_for (some info) = controller_of info.cartridge_type

unfoldable pub cartridge_of : (ℕ → ℕ) → Option Controller
cartridge_of dat = controller_for (game_info dat)
