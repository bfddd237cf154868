-- ===== src/Ppu/Cycle.antt =====
-- src/ppu.cpp: a frame, with the other parts of the system at work between the turns.
use tlmboy.Base.{ℕ, zero, suc, ◌+◌, ◌%◌, ◌≡◌, refl, ap, ◌∙◌, arith, Option, none, some}
use tlmboy.Ppu.{Ppu}
use tlmboy.Ppu.Render.{Place, oam_search, lcd_transfer, h_blank, v_blank, Turn, resume}
use tlmboy.Ppu.Frame.{Timed, next_place, next_wait, OnlyBuffers, turn-Turned}

-- `n` turns of the loop; `others` is what the rest of the system does to the registers and memories
-- before each of them.
unfoldable pub run : (Ppu → Ppu) → (ℕ → Ppu → Ppu) → ℕ → ℕ → Place → Ppu → Option Turn
run draw_to_screen others zero time place p = some (p, time, place)
run draw_to_screen others (suc n) time place p = elim (resume draw_to_screen place (others n p)) [
  | none ↦ none
  | some (p', cycles, place') ↦ run draw_to_screen others n (time + cycles) place' p'
]

-- The others write neither LY nor the mode bits of STAT, and the window's line is not theirs.
pub record Leaves (q : Ppu → Ppu) : Type 0 where
  pub same_ly : (p : Ppu) → (q p).lcdc_y ≡ p.lcdc_y
  pub same_mode : (p : Ppu) → (q p).stat % 4 ≡ p.stat % 4
  pub same_window_line : (p : Ppu) → (q p).window_line ≡ p.window_line

-- The place after `n` turns, and the clock cycles that they wait.
abbrev pub place_after : ℕ → Place → Place
place_after zero place = place
place_after (suc n) place = place_after n (next_place place)

abbrev pub cycles_of : ℕ → ℕ → Place → ℕ
cycles_of zero time place = time
cycles_of (suc n) time place = cycles_of n (time + next_wait place) (next_place place)

cycles_of-time : (n time : ℕ) (place : Place) → cycles_of n time place ≡ time + cycles_of n 0 place
cycles_of-time zero time place = omega arith
cycles_of-time (suc n) time place =
    cycles_of-time n (time + next_wait place) (next_place place)
    ∙ omega (arith, cycles_of-time n (0 + next_wait place) (next_place place))

Leaves-Timed :
    (q : Ppu → Ppu) (l : Leaves q) (place : Place) (p : Ppu) → Timed place p → Timed place (q p)
Leaves-Timed q l (oam_search i) p (h, ly, st, wl) =
    (h, l.same_ly p ∙ ly, l.same_mode p ∙ st, omega (arith, l.same_window_line p))
Leaves-Timed q l (lcd_transfer i) p (h, ly, st, wl) =
    (h, l.same_ly p ∙ ly, l.same_mode p ∙ st, omega (arith, l.same_window_line p))
Leaves-Timed q l (h_blank i) p (h, ly, st, wl) =
    (h, l.same_ly p ∙ ly, l.same_mode p ∙ st, omega (arith, l.same_window_line p))
Leaves-Timed q l (v_blank i) p (h, ly, st, wl) =
    (h, l.same_ly p ∙ ly, l.same_mode p ∙ st, l.same_window_line p ∙ wl)

run-suc :
    (d : Ppu → Ppu) (others : ℕ → Ppu → Ppu) (n time cycles : ℕ) (place place' : Place) (p p' : Ppu)
    → resume d place (others n p) ≡ some (p', cycles, place')
    → run d others (suc n) time place p ≡ run d others n (time + cycles) place' p'
unfolding run
run-suc d others n time cycles place place' p p' e = rw (e, run) refl

module _ (d : Ppu → Ppu) (o : OnlyBuffers d) (others : ℕ → Ppu → Ppu)
    (l : (n : ℕ) → Leaves (others n)) where
  -- Under the same conditions on the others and the windows, from any place whose LY, mode bits
  -- and window's line fit it, every number of turns returns with no failed assertion: at the
  -- place that the schedule gives, after the waits that it gives, and LY is the line, or one
  -- more after the transfer and 144 and up in the vertical blank, the mode bits are those of
  -- the place, and the window's line is at most that line.
  pub run-Timed :
      (n time : ℕ) (place : Place) (p : Ppu)
      → Timed place p
      → (q : Ppu) × (run d others n time place p
          ≡ some (q, cycles_of n time place, place_after n place))
        × Timed (place_after n place) q
  unfolding run
  run-Timed zero time place p h = (p, refl, h)
  run-Timed (suc n) time place p h =
      let t = turn-Turned d o place (others n p) (Leaves-Timed (others n) (l n) place p h) in
      let later = run-Timed n (time + next_wait place) (next_place place) t.result t.timed in
      (later.0, run-suc d others n time _ place _ p t.result t.returns ∙ later.1, later.2)

  -- From the search of the first line on, where LY, the mode and the window's line fit the
  -- place, 442 turns of the render loop return, wait 70224 clock cycles in all, and come back
  -- to the search of the first line with LY 0 and mode 2, whatever the others do between the
  -- turns that leaves LY, the mode bits and the window's line alone, if the windows write to
  -- the buffers only.
  pub run-frame :
      (time : ℕ) (p : Ppu)
      → Timed (oam_search 0) p
      → (q : Ppu) × (run d others 442 time (oam_search 0) p ≡ some (q, time + 70224, oam_search 0))
        × Timed (oam_search 0) q
  run-frame time p h =
      let r = run-Timed 442 time (oam_search 0) p h in
      (
        r.0,
        r.1 ∙ ap (λ t. some (r.0, t, oam_search 0)) (cycles_of-time 442 time (oam_search 0)),
        r.2,
      )
