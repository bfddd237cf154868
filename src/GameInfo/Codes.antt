-- ===== src/GameInfo/Codes.antt =====
-- src/game_info.cpp and src/cartridge.cpp: the codes that are accepted.
use tlmboy.Base.{
  ℕ, ◌<◌, ◌≡◌, refl, sym, ap, ◌∙◌, arith, Bool, true, false, not, ◌&&◌, ◌||◌, Option, none, some,
  leb, ◌==◌, if◌then◌else◌, all_below, all_below_sound, ==→eq,
}
use Prim.Native.String.{String}
use tlmboy.GameInfo.{
  assemble, controller_for, Controller, rom, mbc1, mbc3, mbc5, game_info, find, key_of,
  controller_of, cartridge_of,
}
use tlmboy.GameInfo.Sizes.{cartridge_types, rom_sizes, ram_sizes}

-- The type codes that have a name, but for the four from 0xFC on, which a `char` holds as numbers
-- below zero; and the size codes.
abbrev pub is_type : ℕ → Bool
is_type c =
    leb c 0x03
    || c == 0x05
    || c == 0x06
    || c == 0x08
    || c == 0x09
    || (leb 0x0B c && leb c 0x0D)
    || (leb 0x0F c && leb c 0x13)
    || (leb 0x19 c && leb c 0x1E)
    || c == 0x20
    || c == 0x22

abbrev pub is_rom_size : ℕ → Bool
is_rom_size c = leb c 0x08 || (leb 0x52 c && leb c 0x54)

abbrev pub is_ram_size : ℕ → Bool
is_ram_size c = leb c 0x05

abbrev pub is_some {ℓ} : {A : Type ℓ} → Option A → Bool
is_some none = false
is_some (some a) = true

abbrev agree : Bool → Bool → Bool
agree true b = b
agree false b = not b

agree_sound : (a b : Bool) → agree a b ≡ true → a ≡ b
agree_sound true b h = sym h
agree_sound false true h = h
agree_sound false false h = refl

type_table :
    all_below 256 (λ c. agree (is_some (find (key_of c) cartridge_types)) (is_type c)) ≡ true
unfolding all_below find
type_table = refl

rom_table : all_below 256 (λ c. agree (is_some (find (key_of c) rom_sizes)) (is_rom_size c)) ≡ true
unfolding all_below find
rom_table = refl

ram_table : all_below 256 (λ c. agree (is_some (find (key_of c) ram_sizes)) (is_ram_size c)) ≡ true
unfolding all_below find
ram_table = refl

-- The controller of a type code.
abbrev pub controller_at : ℕ → Option Controller
controller_at c =
    if c == 0
    then some rom
    else if leb c 0x03
    then some mbc1
    else if leb 0x11 c && leb c 0x13
    then some mbc3
    else if leb 0x19 c && leb c 0x1B
    then some mbc5
    else none

abbrev number : Option Controller → ℕ
number none = 0
number (some rom) = 1
number (some mbc1) = 2
number (some mbc3) = 3
number (some mbc5) = 4

back : ℕ → Option Controller
back n =
    if n == 1
    then some rom
    else if n == 2
    then some mbc1
    else if n == 3
    then some mbc3
    else if n == 4
    then some mbc5
    else none

back-number : (a : Option Controller) → back (number a) ≡ a
unfolding back
back-number none = refl
back-number (some rom) = refl
back-number (some mbc1) = refl
back-number (some mbc3) = refl
back-number (some mbc5) = refl

number_inj : (a b : Option Controller) → number a ≡ number b → a ≡ b
number_inj a b h = sym (back-number a) ∙ ap back h ∙ back-number b

abbrev chosen : Option String → Option Controller
chosen none = none
chosen (some type) = controller_of type

controller_table :
    all_below 256
      (λ c. number (chosen (find (key_of c) cartridge_types)) == number (controller_at c))
    ≡ true
unfolding all_below find controller_of
controller_table = refl

type_known : (c : ℕ) → c < 256 → is_some (find (key_of c) cartridge_types) ≡ is_type c
type_known c lt = agree_sound _ _ (
    all_below_sound 256 (λ c. agree (is_some (find (key_of c) cartridge_types)) (is_type c)) c
      type_table lt)

rom_known : (c : ℕ) → c < 256 → is_some (find (key_of c) rom_sizes) ≡ is_rom_size c
rom_known c lt = agree_sound _ _ (
    all_below_sound 256 (λ c. agree (is_some (find (key_of c) rom_sizes)) (is_rom_size c)) c
      rom_table lt)

ram_known : (c : ℕ) → c < 256 → is_some (find (key_of c) ram_sizes) ≡ is_ram_size c
ram_known c lt = agree_sound _ _ (
    all_below_sound 256 (λ c. agree (is_some (find (key_of c) ram_sizes)) (is_ram_size c)) c
      ram_table lt)

controller_known : (c : ℕ) → c < 256 → chosen (find (key_of c) cartridge_types) ≡ controller_at c
controller_known c lt = number_inj _ _ (
    ==→eq _ _ (
      all_below_sound 256
        (λ c. number (chosen (find (key_of c) cartridge_types)) == number (controller_at c)) c
        controller_table lt))

module _ (dat : ℕ → ℕ) where
  assemble-is_some :
      (t : Option String) (r m : Option (String × ℕ))
      → is_some (assemble dat t r m) ≡ (is_some t && is_some r && is_some m)
  assemble-is_some none r m = refl
  assemble-is_some (some t) none m = refl
  assemble-is_some (some t) (some r) none = refl
  assemble-is_some (some t) (some r) (some m) = refl

  assemble-controller :
      (t : Option String) (r m : Option (String × ℕ))
      → controller_for (assemble dat t r m) ≡ (if is_some r && is_some m then chosen t else none)
  assemble-controller none r m = ground arith
  assemble-controller (some t) none m = refl
  assemble-controller (some t) (some r) none = refl
  assemble-controller (some t) (some r) (some m) = refl

  module _ (ht : dat 0x147 < 256) (hr : dat 0x148 < 256) (hm : dat 0x149 < 256) where
    -- The constructor of the game information succeeds if and only if the type, the ROM size
    -- and the RAM size have a known code, where the types from 0xFC on, though in the table,
    -- are not known.
    pub game_info-is_some :
        is_some (game_info dat)
        ≡ (is_type (dat 0x147) && is_rom_size (dat 0x148) && is_ram_size (dat 0x149))
    unfolding game_info
    game_info-is_some = assemble-is_some _ _ _ ∙ λ p.
        type_known (dat 0x147) ht p && rom_known (dat 0x148) hr p && ram_known (dat 0x149) hm p

    -- The controller of a cartridge is that of its type code (0: ROM only, 1 to 3: MBC1, 0x11
    -- to 0x13: MBC3, 0x19 to 0x1B: MBC5), if the codes of the ROM size (0 to 8, 0x52 to 0x54)
    -- and of the RAM size (0 to 5) are known; in all other cases the constructors end in an
    -- exception.
    pub cartridge_of_lem : cartridge_of dat ≡ (
        if is_rom_size (dat 0x148) && is_ram_size (dat 0x149)
        then controller_at (dat 0x147)
        else none)
    unfolding cartridge_of game_info
    cartridge_of_lem = assemble-controller _ _ _ ∙ λ p.
        if rom_known (dat 0x148) hr p && ram_known (dat 0x149) hm p
        then controller_known (dat 0x147) ht p
        else none
