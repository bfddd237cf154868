-- ===== src/Timer.antt =====
-- src/timer.h and src/timer.cpp: the divider, the timer, and their registers.
pub mod Period
use tlmboy.Base.{
  ℕ, zero, suc, ◌+◌, ◌*◌, ◌%◌, Bool, bit_and, bit_or, to_bool, u8, ltb, ◌==◌, if◌then◌else◌,
}
use tlmboy.Tlm.{Command, Response, read, write, ignore, ok_response, command_error, assertion}

pub record Timer : Type 0 where
  pub reg_div : ℕ
  pub reg_tac : ℕ
  pub reg_tima : ℕ
  pub reg_tma : ℕ
  -- The byte behind `reg_if_`, the interrupt flags at 0xFF0F.
  pub reg_if : ℕ
  pub cycles_per_inc : ℕ
  -- `inc_time_`, in nanoseconds.
  pub inc_time : ℕ

abbrev pub ns_per_clk_cycle : ℕ
ns_per_clk_cycle = 238

abbrev pub mask_timer_enabled : ℕ
mask_timer_enabled = 0b100

abbrev pub timer_of_if : ℕ
timer_of_if = 0b00100

-- One round of `DivLoop`.
unfoldable pub div_tick : Timer → Timer
div_tick t = record t { reg_div = u8 (t.reg_div + 1) }

-- One round of `TimerLoop`, after the wait.
unfoldable pub timer_tick : Timer → Timer
timer_tick t =
    let old_val = t.reg_tima in
    let new_val = u8 (old_val + 1) in
    if to_bool (bit_and t.reg_tac mask_timer_enabled)
    then (if ltb new_val old_val
        then record t { reg_tima = t.reg_tma; reg_if = bit_or t.reg_if timer_of_if }
        else record t { reg_tima = new_val })
    else t

-- `switch (reg_tac_ & 0b11)`.
abbrev pub pick_period : ℕ → ℕ
pick_period k = if k == 0 then 1024 else if k == 1 then 16 else if k == 2 then 64 else 256

unfoldable pub period_of : ℕ → ℕ
period_of tac = pick_period (bit_and tac 0b11)

-- The register that an address names, and an assignment to it.
abbrev reg_at : ℕ → Timer → ℕ
reg_at zero t = t.reg_div
reg_at (suc zero) t = t.reg_tima
reg_at (suc (suc zero)) t = t.reg_tma
reg_at _ t = t.reg_tac

abbrev store : ℕ → ℕ → Timer → Timer
store zero v t = record t { reg_div = 0 }
store (suc zero) v t = record t { reg_tima = v }
store (suc (suc zero)) v t = record t { reg_tma = v }
store _ v t = record t { reg_tac = v; cycles_per_inc = period_of v }

abbrev answer : Command → ℕ → ℕ → Timer → Response × Timer
answer read adr dat t = (ok_response (reg_at adr t), t)
answer write adr dat t =
    let t' = store adr dat t in
    (ok_response dat, record t' { inc_time = t'.cycles_per_inc * ns_per_clk_cycle })
answer ignore adr dat t = (command_error, t)

-- `b_transport`.
unfoldable pub b_transport : Command → ℕ → ℕ → Timer → Response × Timer
unfolding period_of
b_transport cmd adr dat t = if ltb adr 4 then answer cmd adr dat t else (assertion, t)
