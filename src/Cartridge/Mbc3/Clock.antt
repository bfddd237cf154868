-- ===== src/Cartridge/Mbc3/Clock.antt =====
-- src/cartridge.cpp: the clock of MBC3.
use tlmboy.Base.{
  ℕ, zero, suc, ◌+◌, ◌*◌, ◌/◌, ◌%◌, ◌<◌, ◌≡◌, ◌↔◌, refl, arith, Bool, true, false, of_bool, bit_or,
  u8,
}
use tlmboy.Cartridge.Mbc3.{rtc_value}

rtc_value-hours : (t : ℕ) (halted : Bool) → rtc_value t 2 halted ≡ t / 3600 % 60
unfolding rtc_value
rtc_value-hours t halted = omega arith

bit_or-halted :
    (n : ℕ) (halted : Bool) → n < 2 → u8 (bit_or n (of_bool halted * 64)) ≡ n + of_bool halted * 64
bit_or-halted zero true h = refl
bit_or-halted zero false h = refl
bit_or-halted (suc zero) true h = refl
bit_or-halted (suc zero) false h = refl
bit_or-halted (suc (suc n)) halted h = absurd (omega arith)

of_bool-lt : (b : Bool) → of_bool b < 2
of_bool-lt true = omega arith
of_bool-lt false = omega arith

-- At every time, the registers 0 and 1 of the clock are the second of the hour, and the
-- registers 3 and 4 hold the day in nine bits with the halt bit at bit 6.
pub rtc_value_lem :
    (t : ℕ) (halted : Bool)
    → (rtc_value t 0 halted + 60 * rtc_value t 1 halted ≡ t % 3600)
      × (rtc_value t 3 halted + 256 * (rtc_value t 4 halted % 64) ≡ t / 86400 % 512)
      × (rtc_value t 4 halted / 64 ≡ of_bool halted)
unfolding rtc_value
rtc_value_lem t halted =
    let upper = bit_or-halted (t / 86400 % 512 / 256) halted (omega arith) in
    let small = of_bool-lt halted in ((omega arith), (omega arith), (omega arith))

-- The register 2 of the clock is the hour of the day exactly in the first 24 of every 120
-- hours.
pub rtc_value-hour_of_day :
    (t : ℕ) (halted : Bool) → (rtc_value t 2 halted ≡ t / 3600 % 24) ↔ (t / 3600 % 120 < 24)
rtc_value-hour_of_day t halted =
    let e = rtc_value-hours t halted in ((λ h. omega arith), (λ h. omega arith))
