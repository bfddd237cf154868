-- ===== src/Timer/Period.antt =====
-- src/timer.cpp: how long the timer counts between two interrupts.
use tlmboy.Base.{ℕ, zero, suc, ◌+◌, ◌-◌, ◌*◌, ◌/◌, ◌%◌, ◌^◌, ◌<◌, ◌≡◌, refl, ap, ◌∙◌, arith, bit_or}
use tlmboy.Base.Bits.{bit_and-4, bit_and-3}
use tlmboy.Timer.{Timer, timer_tick, timer_of_if, b_transport, period_of, pick_period}
use tlmboy.Tlm.{write, ok_response}

-- Some rounds of the loop.
abbrev pub ticks : ℕ → Timer → Timer
ticks zero t = t
ticks (suc n) t = ticks n (timer_tick t)

counts_once :
    (t : Timer)
    → t.reg_tac / 4 % 2 ≡ 1
    → t.reg_tima < 255
    → timer_tick t ≡ record t { reg_tima = t.reg_tima + 1 }
unfolding timer_tick
counts_once t on low = ground (arith, bit_and-4 t.reg_tac)

overflows :
    (t : Timer)
    → t.reg_tac / 4 % 2 ≡ 1
    → t.reg_tima ≡ 255
    → timer_tick t ≡ record t { reg_tima = t.reg_tma; reg_if = bit_or t.reg_if timer_of_if }
unfolding timer_tick
overflows t on top = ground (arith, bit_and-4 t.reg_tac)

stands_still : (t : Timer) → t.reg_tac / 4 % 2 ≡ 0 → timer_tick t ≡ t
unfolding timer_tick
stands_still t off = ground (arith, bit_and-4 t.reg_tac)

ticks-suc : (n : ℕ) (t : Timer) → ticks (suc n) t ≡ timer_tick (ticks n t)
ticks-suc zero t = refl
ticks-suc (suc n) t = ticks-suc n (timer_tick t)

-- An enabled timer that does not reach 256 counts each round, and requests no interrupt.
pub ticks_count :
    (n : ℕ) (t : Timer)
    → t.reg_tac / 4 % 2 ≡ 1
    → t.reg_tima + n < 256
    → ticks n t ≡ record t { reg_tima = t.reg_tima + n }
ticks_count zero t on room = ground arith
ticks_count (suc n) t on room =
    let t' : Timer = record t { reg_tima = t.reg_tima + 1 } in
    let first = counts_once t on (omega arith) in
    ap (ticks n) first ∙ ticks_count n t' on (omega arith) ∙ ground arith

-- From a value TIMA of a byte, an enabled timer reaches its interrupt in 256 - TIMA rounds:
-- TIMA is reloaded from TMA, the timer's bit is set in the interrupt flags, and nothing else
-- has changed.
pub ticks_overflow :
    (t : Timer)
    → t.reg_tac / 4 % 2 ≡ 1
    → t.reg_tima < 256
    → ticks (256 - t.reg_tima) t
      ≡ record t { reg_tima = t.reg_tma; reg_if = bit_or t.reg_if timer_of_if }
ticks_overflow t on lt =
    let k = 255 - t.reg_tima in
    let rounds : 256 - t.reg_tima ≡ suc k = omega arith in
    let t' : Timer = record t { reg_tima = t.reg_tima + k } in
    ap (λ n. ticks n t) rounds
    ∙ ticks-suc k t
    ∙ ap timer_tick (ticks_count k t on (omega arith))
    ∙ overflows t' on (omega arith)

-- A disabled timer stands still.
pub ticks_disabled : (n : ℕ) (t : Timer) → t.reg_tac / 4 % 2 ≡ 0 → ticks n t ≡ t
ticks_disabled zero t off = refl
ticks_disabled (suc n) t off = ap (ticks n) (stands_still t off) ∙ ticks_disabled n t off

period_table : (r : ℕ) → r < 4 → pick_period r ≡ 16 * 4 ^ ((r + 3) % 4)
period_table zero h = refl
period_table (suc zero) h = refl
period_table (suc (suc zero)) h = refl
period_table (suc (suc (suc zero))) h = refl
period_table (suc (suc (suc (suc r)))) h = absurd (omega arith)

-- A write to TAC sets the wait between two rounds to 1024, 16, 64 or 256 clock cycles for the
-- low bits 0, 1, 2, 3; every other register is kept.
pub b_transport-tac :
    (dat : ℕ) (t : Timer)
    → let c = 16 * 4 ^ ((dat + 3) % 4) in
      b_transport write 3 dat t
      ≡ (ok_response dat, record t { reg_tac = dat; cycles_per_inc = c; inc_time = c * 238 })
unfolding b_transport
b_transport-tac dat t =
    let c : period_of dat ≡ 16 * 4 ^ ((dat + 3) % 4) =
      ap pick_period (bit_and-3 dat)
      ∙ period_table (dat % 4) (omega arith)
      ∙ ap (λ k. 16 * 4 ^ k) (omega arith) in
    ap (λ c. (ok_response dat, record t { reg_tac = dat; cycles_per_inc = c; inc_time = c * 238 }))
      c
