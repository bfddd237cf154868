-- ===== src/Io/Readback.antt =====
-- src/io_registers.cpp: what a register reads as after it was written.
use tlmboy.Base.{
  ℕ, ◌+◌, ◌*◌, ◌/◌, ◌%◌, ◌≤◌, ◌<◌, ◌≡◌, ◌⊎◌, refl, ap, ◌∙◌, arith, Bool, true, false, not, ◌&&◌,
  List, [], ◌∷◌, u16, bit_and, bit_or, ◌==◌, all_below, all_below_sound, ==→eq, get_or,
}
use tlmboy.Base.Bits.{bit_and-7, bit_and-128, bit_or-shift}
use tlmboy.Tlm.{read, write, ok_response}
use tlmboy.Bus.{Target}
use tlmboy.Io.{
  IoRegisters, Shown, masked, all_ones, whole, read_cases, case_of, show, read_value,
  write_register, power_off, is_ignored, b_transport,
}

-- The bits of the sound registers from 0xFF10 on that always read as 1.
abbrev pub unreadable : List ℕ
unreadable =
    0x80 ∷ 0x3F ∷ 0x00 ∷ 0xFF ∷ 0xBF ∷ 0xFF ∷ 0x3F ∷ 0x00 ∷ 0xFF ∷ 0xBF ∷ 0x7F ∷ 0xFF ∷ 0x9F ∷ 0xFF
    ∷ 0xBF ∷ 0xFF ∷ 0xFF ∷ 0x00 ∷ 0x00 ∷ 0xBF ∷ 0x00 ∷ 0x00 ∷ 0x70 ∷ 0xFF ∷ 0xFF ∷ 0xFF ∷ 0xFF
    ∷ 0xFF ∷ 0xFF ∷ 0xFF ∷ 0xFF ∷ 0xFF ∷ []

abbrev pub shown_as : ℕ → ℕ → ℕ
shown_as adr v = bit_or (get_or unreadable adr 0) v

abbrev mask_of : Shown → ℕ
mask_of (masked m) = m
mask_of all_ones = 0xFF
mask_of whole = 0

or_table : all_below 256 (λ x. bit_or 0xFF x == 0xFF && bit_or 0 x == x) ≡ true
unfolding all_below
or_table = refl

show_lem : (s : Shown) (x : ℕ) → x < 256 → show s x ≡ bit_or (mask_of s) x
show_lem (masked m) x h = refl
show_lem all_ones x h =
    let both = all_below_sound 256 (λ x. bit_or 0xFF x == 0xFF && bit_or 0 x == x) x or_table h in
    ground arith
show_lem whole x h =
    let both = all_below_sound 256 (λ x. bit_or 0xFF x == 0xFF && bit_or 0 x == x) x or_table h in
    ground arith

mask_table :
    all_below 128 (λ adr. mask_of (case_of read_cases adr) == get_or unreadable adr 0) ≡ true
unfolding all_below
mask_table = refl

-- What a read shows of a byte.
pub read_value_lem :
    (adr : ℕ) (r : IoRegisters)
    → adr < 128
    → r.cells adr < 256
    → read_value adr r ≡ shown_as adr (r.cells adr)
unfolding read_value
read_value_lem adr r h b =
    let mask = ==→eq _ _ (
      all_below_sound 128 (λ adr. mask_of (case_of read_cases adr) == get_or unreadable adr 0) adr
        mask_table h) in
    show_lem (case_of read_cases adr) (r.cells adr) b ∙ ap (λ m. bit_or m (r.cells adr)) mask

-- The registers that take a byte as it is: not NR52, STAT, the DMA start, and the last two.
abbrev pub is_plain : ℕ → Bool
is_plain adr =
    not (adr == 0x16)
    && not (adr == 0x31)
    && not (adr == 0x36)
    && not (adr == 0x40)
    && not (adr == 0x7F)

stored :
    (adr v : ℕ) (r : IoRegisters) → is_plain adr ≡ true → (write_register adr v r).cells adr ≡ v
unfolding write_register
stored adr v r h = ground arith

stat_table : all_below 256 (λ v. bit_and v 0x78 == v / 8 % 16 * 8) ≡ true
unfolding all_below
stat_table = refl

-- The registers that react to a write in another way: the power bit, and the mode and the
-- coincidence bit of STAT, which a write keeps.
pub write_register-stat :
    (v : ℕ) (r : IoRegisters)
    → v < 256
    → (write_register 0x31 v r).cells 0x31 ≡ v / 8 % 16 * 8 + r.cells 0x31 % 8
unfolding write_register
write_register-stat v r h =
    let upper =
      ==→eq _ _ (all_below_sound 256 (λ v. bit_and v 0x78 == v / 8 % 16 * 8) v stat_table h) in
    let joined = bit_or-shift 3 (v / 8 % 16) (r.cells 0x31 % 8) (omega arith) in
    rw (upper, bit_and-7) joined

no_power_off : (adr v : ℕ) (r : IoRegisters) → is_plain adr ≡ true → power_off adr v r ≡ r
unfolding power_off
no_power_off adr v r plain = ground arith

not_ignored :
    (adr : ℕ) (r : IoRegisters)
    → (0x20 ≤ adr) ⊎ (r.cells 0x16 / 128 % 2 ≡ 1)
    → is_ignored adr r ≡ false
unfolding is_ignored
not_ignored adr r on = ground (arith, bit_and-128 (r.cells 0x16))

not_dma : (adr : ℕ) → is_plain adr ≡ true → (adr == 0x36) ≡ false
not_dma adr plain = ground arith

module _ {W : Type 0} (regs : W → IoRegisters) (with_regs : IoRegisters → W → W) (bus : Target W)
    (read_data : ℕ) (regs-with_regs : (r : IoRegisters) (w : W) → regs (with_regs r w) ≡ r) where
  abbrev io : Target W
  io = b_transport regs with_regs bus read_data

  written :
      (adr v : ℕ) (w : W)
      → adr < 128
      → is_plain adr ≡ true
      → (0x20 ≤ adr) ⊎ ((regs w).cells 0x16 / 128 % 2 ≡ 1)
      → io write adr v w
        ≡ (ok_response v, with_regs (write_register adr v (regs w)) (with_regs (regs w) w))
  unfolding b_transport
  written adr v w ha plain on =
      let whole : u16 adr ≡ adr = omega arith in
      simp (
        whole,
        no_power_off adr v (regs w) plain,
        not_ignored adr (regs w) on,
        not_dma adr plain,
        regs-with_regs,
      )

  -- A byte that is written to a register without a reaction of its own, a sound register only
  -- while the APU is on, is read back with the bits set that the register does not show.
  pub read-write_lem :
      (adr v d : ℕ) (w : W)
      → adr < 128
      → v < 256
      → is_plain adr ≡ true
      → (0x20 ≤ adr) ⊎ ((regs w).cells 0x16 / 128 % 2 ≡ 1)
      → (io read adr d (io write adr v w).1).0 ≡ ok_response (shown_as adr v)
  unfolding b_transport
  read-write_lem adr v d w ha hv plain on =
      let kept = stored adr v (regs w) plain in
      let shown =
        read_value_lem adr (write_register adr v (regs w)) ha (omega (arith, kept))
        ∙ ap (shown_as adr) kept in
      let whole : u16 adr ≡ adr = omega arith in
      simp (written adr v w ha plain on) (simp (whole, regs-with_regs) (ap ok_response shown))
