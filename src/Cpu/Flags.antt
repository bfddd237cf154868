-- ===== src/Cpu/Flags.antt =====
-- src/cpu.h and src/cpu.cpp: the flags in register F.
use tlmboy.Base.{
  ℕ, ◌+◌, ◌-◌, ◌*◌, ◌/◌, ◌%◌, ◌^◌, ◌<◌, Bool, true, false, ◌≡◌, refl, arith, bit_and, bit_or, ap,
  sym, ◌∙◌, of_bool, to_bool, set_bit, ◌==◌, all_below, all_below_sound, ==→eq,
}
use tlmboy.Base.Bits.{16-bit_and, 32-bit_and, 64-bit_and, 128-bit_and}
use tlmboy.Cpu.State.{Cpu, on_regs}

pub data Flag : Type 0 where
  carry half_carry subtract zero_flag : Flag

-- `kMaskCFlag` and so on.
unfoldable pub flag_mask : Flag → ℕ
flag_mask carry = 0b00010000
flag_mask half_carry = 0b00100000
flag_mask subtract = 0b01000000
flag_mask zero_flag = 0b10000000

-- `kIndCFlag` and so on.
unfoldable pub flag_index : Flag → ℕ
flag_index carry = 4
flag_index half_carry = 5
flag_index subtract = 6
flag_index zero_flag = 7

-- `GetFlagC` and so on, as functions of the value of F.
unfoldable pub test_flag : Flag → ℕ → Bool
unfolding flag_mask
test_flag g f = to_bool (bit_and (flag_mask g) f)

-- `SetFlagC` and so on.
unfoldable pub put_flag : Flag → Bool → ℕ → ℕ
unfolding flag_index set_bit
put_flag g v f = set_bit f v (flag_index g)

module _ {W : Type 0} where
  abbrev pub get_flag : Flag → Cpu W → Bool
  get_flag g s = test_flag g s.reg_file.f

  abbrev pub set_flag : Flag → Bool → Cpu W → Cpu W
  set_flag g v = on_regs λ r. record r { f = put_flag g v r.f }

-- The byte with the given flags over the low nibble of `f`.
unfoldable pub flag_byte : (z n h c : Bool) → ℕ → ℕ
flag_byte z n h c f = of_bool z * 128 + of_bool n * 64 + of_bool h * 32 + of_bool c * 16 + f % 16

-- A setter as arithmetic on a byte: the bits above, the new bit, the bits below.
abbrev put_sum : Flag → Bool → ℕ → ℕ
put_sum carry v f = f / 32 * 32 + of_bool v * 16 + f % 16
put_sum half_carry v f = f / 64 * 64 + of_bool v * 32 + f % 32
put_sum subtract v f = f / 128 * 128 + of_bool v * 64 + f % 64
put_sum zero_flag v f = of_bool v * 128 + f % 128

put_table : (g : Flag) (v : Bool) → all_below 256 (λ f. put_flag g v f == put_sum g v f) ≡ true
unfolding put_flag all_below
put_table carry true = refl
put_table carry false = refl
put_table half_carry true = refl
put_table half_carry false = refl
put_table subtract true = refl
put_table subtract false = refl
put_table zero_flag true = refl
put_table zero_flag false = refl

put_flag_wraps : (g : Flag) (v : Bool) (f : ℕ) → put_flag g v f ≡ put_flag g v (f % 256)
unfolding put_flag
put_flag_wraps g v f =
    let e : f % 256 ≡ f % 256 % 256 = omega arith in
    ap (λ x. bit_or (bit_and x (255 - 2 ^ flag_index g)) (of_bool v * 2 ^ flag_index g)) e

pub put_flag_lem : (g : Flag) (v : Bool) (f : ℕ) → put_flag g v f ≡ put_sum g v (f % 256)
put_flag_lem g v f =
    put_flag_wraps g v f
    ∙ ==→eq _ _ (
        all_below_sound 256 (λ x. put_flag g v x == put_sum g v x) (f % 256) (put_table g v)
          (omega arith))

-- The getters as arithmetic.
pub test_flag_lem : (g : Flag) (f : ℕ) → test_flag g f ≡ (f / 2 ^ flag_index g % 2 == 1)
unfolding test_flag flag_index
test_flag_lem carry f = ground (arith, 16-bit_and f)
test_flag_lem half_carry f = ground (arith, 32-bit_and f)
test_flag_lem subtract f = ground (arith, 64-bit_and f)
test_flag_lem zero_flag f = ground (arith, 128-bit_and f)

-- The flags of a composed byte, and a change of one of them.
abbrev flag_of : Flag → (z n h c : Bool) → Bool
flag_of carry z n h c = c
flag_of half_carry z n h c = h
flag_of subtract z n h c = n
flag_of zero_flag z n h c = z

abbrev flag_byte_with : Flag → Bool → (z n h c : Bool) → ℕ → ℕ
flag_byte_with carry v z n h c = flag_byte z n h v
flag_byte_with half_carry v z n h c = flag_byte z n v c
flag_byte_with subtract v z n h c = flag_byte z v h c
flag_byte_with zero_flag v z n h c = flag_byte v n h c

of_bool-lt : (b : Bool) → of_bool b < 2
of_bool-lt true = omega arith
of_bool-lt false = omega arith

pub test_flag-flag_byte :
    (g : Flag) (z n h c : Bool) (f : ℕ) → test_flag g (flag_byte z n h c f) ≡ flag_of g z n h c
unfolding flag_byte flag_index
test_flag-flag_byte carry z n h c f =
    ground
      (arith, test_flag_lem carry (flag_byte z n h c f), of_bool-lt z, of_bool-lt n, of_bool-lt h)
test_flag-flag_byte half_carry z n h c f = ground (
  arith,
  test_flag_lem half_carry (flag_byte z n h c f),
  of_bool-lt z,
  of_bool-lt n,
  of_bool-lt c,
)
test_flag-flag_byte subtract z n h c f =
    ground (
      arith,
      test_flag_lem subtract (flag_byte z n h c f),
      of_bool-lt z,
      of_bool-lt c,
      of_bool-lt h,
    )
test_flag-flag_byte zero_flag z n h c f =
    ground (
      arith,
      test_flag_lem zero_flag (flag_byte z n h c f),
      of_bool-lt c,
      of_bool-lt n,
      of_bool-lt h,
    )

of_bool-test : (k f : ℕ) → of_bool (f / k % 2 == 1) ≡ f / k % 2
of_bool-test k f = ground arith

-- Any byte is composed of its own flags and its low nibble.
own_flags :
    (f : ℕ)
    → flag_byte
        (test_flag zero_flag f)
        (test_flag subtract f)
        (test_flag half_carry f)
        (test_flag carry f)
        f
      ≡ f % 256
unfolding flag_byte flag_index
own_flags f =
    rw
      (
        test_flag_lem zero_flag f,
        test_flag_lem subtract f,
        test_flag_lem half_carry f,
        test_flag_lem carry f,
      )
      (omega (arith, of_bool-test 128 f, of_bool-test 64 f, of_bool-test 32 f, of_bool-test 16 f))

put_flag-composed :
    (g : Flag) (v z n h c : Bool) (f : ℕ)
    → put_flag g v (flag_byte z n h c f) ≡ flag_byte_with g v z n h c f
unfolding flag_byte
put_flag-composed carry v z n h c f =
    omega (arith, put_flag_lem carry v (flag_byte z n h c f), of_bool-lt)
put_flag-composed half_carry v z n h c f =
    omega (arith, put_flag_lem half_carry v (flag_byte z n h c f), of_bool-lt)
put_flag-composed subtract v z n h c f =
    omega (arith, put_flag_lem subtract v (flag_byte z n h c f), of_bool-lt)
put_flag-composed zero_flag v z n h c f =
    omega (arith, put_flag_lem zero_flag v (flag_byte z n h c f), of_bool-lt)

-- A setter changes its own flag and keeps the other three and the low nibble.
pub put_flag-flag_byte :
    (g : Flag) (v : Bool) (f : ℕ)
    → put_flag g v f
      ≡ flag_byte_with g v
          (test_flag zero_flag f)
          (test_flag subtract f)
          (test_flag half_carry f)
          (test_flag carry f)
          f
put_flag-flag_byte g v f =
    put_flag_wraps g v f ∙ ap (put_flag g v) (sym (own_flags f)) ∙ put_flag-composed g v _ _ _ _ f

pub flag_byte-flag_byte :
    (z n h c z' n' h' c' : Bool) (f : ℕ)
    → flag_byte z n h c (flag_byte z' n' h' c' f) ≡ flag_byte z n h c f
unfolding flag_byte
flag_byte-flag_byte z n h c z' n' h' c' f = omega arith

pub flag_byte-lt : (z n h c : Bool) (f : ℕ) → flag_byte z n h c f < 256
unfolding flag_byte
flag_byte-lt z n h c f = omega (arith, of_bool-lt)

-- These bring every sequence of setters and getters to one composed byte.
pub ruleset flag_laws = (put_flag-flag_byte, test_flag-flag_byte, flag_byte-flag_byte)
