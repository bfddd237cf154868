-- ===== src/Ppu/Frame.antt =====
-- src/ppu.cpp: the places of the render loop, the line they stand in, and the length of a frame.
use tlmboy.Base.{
  ℕ, ◌+◌, ◌%◌, ◌≤◌, ◌<◌, ◌≡◌, refl, ap, ◌∙◌, arith, Bool, true, false, Option, some, to_bool,
  set_bit, bit_and, bit_or, ltb, ◌==◌, if◌then◌else◌,
}
use tlmboy.Ppu.{Ppu}
use tlmboy.Base.{ltb→lt}
use tlmboy.Ppu.Redrawn.{Redrawn, windowed, draw_line-LineDrawn}
use tlmboy.Ppu.Render.{
  check_lyc_interrupt, Place, oam_search, lcd_transfer, h_blank, v_blank, Turn, draw_line, end_line,
  begin_line, begin_v_blank, with_stat, next_ly, resume,
}
use tlmboy.Ppu.Mode.{ModeBits, modes}

-- Where the loop stands: the line in LY, the mode in STAT, and the window's own line.
abbrev pub Timed : Place → Ppu → Type 0
Timed (oam_search i) p = (i < 144) × (p.lcdc_y ≡ i) × (p.stat % 4 ≡ 2) × (p.window_line ≤ i)
Timed (lcd_transfer i) p = (i < 144) × (p.lcdc_y ≡ i) × (p.stat % 4 ≡ 3) × (p.window_line ≤ i)
Timed (h_blank i) p = (i < 144) × (p.lcdc_y ≡ i + 1) × (p.stat % 4 ≡ 0) × (p.window_line ≤ i + 1)
Timed (v_blank i) p = (i < 10) × (p.lcdc_y ≡ 144 + i) × (p.stat % 4 ≡ 1) × (p.window_line ≡ 0)

-- The place after the next wait, and the clock cycles of that wait.
abbrev pub next_place : Place → Place
next_place (oam_search i) = lcd_transfer i
next_place (lcd_transfer i) = h_blank i
next_place (h_blank i) = if ltb (i + 1) 144 then oam_search (i + 1) else v_blank 0
next_place (v_blank i) = if ltb (i + 1) 10 then v_blank (i + 1) else oam_search 0

abbrev pub next_wait : Place → ℕ
next_wait (oam_search i) = 168
next_wait (lcd_transfer i) = 208
next_wait (h_blank i) = if ltb (i + 1) 144 then 80 else 456
next_wait (v_blank i) = if ltb (i + 1) 10 then 456 else 80

-- The windows draw from the buffers, and may write to them.
pub record OnlyBuffers (draw_to_screen : Ppu → Ppu) : Type 0 where
  pub buffers_only : (p : Ppu) → Redrawn p (draw_to_screen p)

-- A turn of the loop that does not fail, to the place that follows.
pub record Turned (place : Place) (o : Option Turn) : Type 0 where
  pub result : Ppu
  pub returns : o ≡ some (result, next_wait place, next_place place)
  pub timed : Timed (next_place place) result

turn-oam_search :
    (d : Ppu → Ppu) (i : ℕ) (p : Ppu)
    → Timed (oam_search i) p
    → Turned (oam_search i) (resume d (oam_search i) p)
unfolding resume ModeBits
turn-oam_search d i p (h, ly, st, wl) =
    let m = (modes p.stat).2 in
    record {
      result = with_stat (set_bit p.stat true 0) p;
      returns = refl;
      timed = (h, ly, omega arith, wl);
    }

by_value :
    (t : Bool) (s n : ℕ)
    → set_bit s true 2 % 4 ≡ n
    → set_bit s false 2 % 4 ≡ n
    → set_bit s t 2 % 4 ≡ n
by_value true s n a b = a
by_value false s n a b = b

check_lyc_interrupt-same :
    (p : Ppu)
    → ((check_lyc_interrupt p).lcdc_y ≡ p.lcdc_y)
      × ((check_lyc_interrupt p).stat % 4 ≡ p.stat % 4)
      × ((check_lyc_interrupt p).window_line ≡ p.window_line)
unfolding check_lyc_interrupt ModeBits
check_lyc_interrupt-same p =
    let m = modes p.stat in (refl, by_value (p.ly_comp == p.lcdc_y) p.stat _ (m.3) (m.4), refl)

Redrawn-same :
    (p q : Ppu)
    → Redrawn p q
    → (q.lcdc_y ≡ p.lcdc_y) × (q.stat ≡ p.stat) × (q.window_line ≡ p.window_line)
Redrawn-same p q r =
    (ap (λ q. q.lcdc_y) r.same, ap (λ q. q.stat) r.same, ap (λ q. q.window_line) r.same)

windowed-le : (line : ℕ) (p : Ppu) → windowed line p ≤ p.window_line + 1
windowed-le line p = ground arith

pending_only :
    (t : Bool) (p : Ppu) (v : ℕ)
    → ((if t then record p { pending = v } else p).lcdc_y ≡ p.lcdc_y)
      × ((if t then record p { pending = v } else p).stat ≡ p.stat)
      × ((if t then record p { pending = v } else p).window_line ≡ p.window_line)
pending_only true p v = (refl, refl, refl)
pending_only false p v = (refl, refl, refl)

end_line-Timed :
    (i : ℕ) (p : Ppu)
    → i < 144
    → p.lcdc_y ≡ i
    → p.stat % 4 ≡ 0
    → p.window_line ≤ i + 1
    → Timed (h_blank i) (end_line i p).0
end_line-Timed i p h ly st wl =
    let p1 = next_ly p in
    let p2 =
      if to_bool (bit_and p1.stat 0b00001000)
      then record p1 { pending = bit_or p1.pending 0b0010 }
      else p1 in
    let c = check_lyc_interrupt-same p2 in
    let k = pending_only (to_bool (bit_and p1.stat 0b00001000)) p1 (bit_or p1.pending 0b0010) in
    (h, c.0 ∙ k.0 ∙ omega arith, c.1 ∙ ap (λ s. s % 4) (k.1) ∙ st, omega (arith, c.2, k.2))

lcd_transfer-by_parts :
    (d : Ppu → Ppu) (i : ℕ) (p q : Ppu)
    → draw_line i (with_stat (set_bit (set_bit p.stat false 0) false 1) p) ≡ some q
    → resume d (lcd_transfer i) p ≡ some (end_line i q)
unfolding resume
lcd_transfer-by_parts d i p q e = rw (e, resume) refl

turn-lcd_transfer :
    (d : Ppu → Ppu) (i : ℕ) (p : Ppu)
    → Timed (lcd_transfer i) p
    → Turned (lcd_transfer i) (resume d (lcd_transfer i) p)
unfolding ModeBits
turn-lcd_transfer d i p (h, ly, st, wl) =
    let m = (modes p.stat).1 in
    let p' = with_stat (set_bit (set_bit p.stat false 0) false 1) p in
    let drawn = draw_line-LineDrawn i p' (omega arith) in
    let q = drawn.result in
    let k = Redrawn-same _ q drawn.redrawn in
    let w = windowed-le i p' in
    record {
      result = (end_line i q).0;
      returns = lcd_transfer-by_parts d i p q drawn.returns;
      timed = end_line-Timed i q h (k.0 ∙ ly) (ap (λ s. s % 4) (k.1) ∙ m) (omega (arith, k.2));
    }

pulled :
    (t : Bool) (pa pb : Ppu) (wa wb : ℕ) (la lb : Place)
    → ◌≡◌ {A = Option Turn}
        (some (if t then (pa, wa, la) else (pb, wb, lb)))
        (some (if t then pa else pb, if t then wa else wb, if t then la else lb))
pulled true pa pb wa wb la lb = refl
pulled false pa pb wa wb la lb = refl

if-Timed :
    (t : Bool) (pa pb : Ppu) (la lb : Place)
    → (t ≡ true → Timed la pa)
    → (t ≡ false → Timed lb pb)
    → Timed (if t then la else lb) (if t then pa else pb)
if-Timed true pa pb la lb a b = a refl
if-Timed false pa pb la lb a b = b refl

begin_line-Timed :
    (i : ℕ) (p : Ppu)
    → i < 144
    → p.lcdc_y ≡ i
    → p.window_line ≤ i
    → Timed (oam_search i) (begin_line i p).0
unfolding ModeBits
begin_line-Timed i p h ly wl = (h, ly, (modes p.stat).0, wl)

begin_v_blank-Timed :
    (d : Ppu → Ppu)
    → OnlyBuffers d
    → (p : Ppu) → p.lcdc_y ≡ 144
    → p.stat % 4 ≡ 0
    → Timed (v_blank 0) (begin_v_blank d p).0
unfolding ModeBits
begin_v_blank-Timed d o p ly st =
    let p1 = record p { window_line = 0 } in
    let p2 = with_stat (set_bit p.stat true 0) p1 in
    let k = Redrawn-same p2 (d p2) (o.buffers_only p2) in
    let m = (modes p.stat).2 in
    (omega arith, k.0 ∙ ly, ap (λ s. s % 4) (k.1) ∙ omega (arith, m), k.2)

turn-h_blank :
    (d : Ppu → Ppu) (o : OnlyBuffers d) (i : ℕ) (p : Ppu)
    → Timed (h_blank i) p
    → Turned (h_blank i) (resume d (h_blank i) p)
unfolding resume
turn-h_blank d o i p (h, ly, st, wl) =
    let t = ltb (i + 1) 144 in
    let pa = (begin_line (i + 1) p).0 in
    let pb = (begin_v_blank d p).0 in
    record {
      result = if t then pa else pb;
      returns = pulled t pa pb 80 456 (oam_search (i + 1)) (v_blank 0);
      timed =
          if-Timed t pa pb (oam_search (i + 1)) (v_blank 0)
            (λ e. begin_line-Timed (i + 1) p (ltb→lt _ _ e) ly wl)
            (λ e. begin_v_blank-Timed d o p (ly ∙ ground arith) st);
    }

turn-v_blank :
    (d : Ppu → Ppu) (i : ℕ) (p : Ppu)
    → Timed (v_blank i) p
    → Turned (v_blank i) (resume d (v_blank i) p)
unfolding resume
turn-v_blank d i p (h, ly, st, wl) =
    let t = ltb (i + 1) 10 in
    let p1 = check_lyc_interrupt (next_ly p) in
    let k1 = check_lyc_interrupt-same (next_ly p) in
    let p2 = check_lyc_interrupt (record p1 { lcdc_y = 0 }) in
    let k2 = check_lyc_interrupt-same (record p1 { lcdc_y = 0 }) in
    let pb = (begin_line 0 p2).0 in
    record {
      result = if t then p1 else pb;
      returns = pulled t p1 pb 456 80 (v_blank (i + 1)) (oam_search 0);
      timed =
          if-Timed t p1 pb (v_blank (i + 1)) (oam_search 0)
            (λ e. (ltb→lt _ _ e, k1.0 ∙ omega arith, k1.1 ∙ st, k1.2 ∙ wl))
            (λ e. begin_line-Timed 0 p2 (omega arith) (k2.0) (omega (arith, k1.2, k2.2)));
    }

pub turn-Turned :
    (d : Ppu → Ppu) (o : OnlyBuffers d) (place : Place) (p : Ppu)
    → Timed place p
    → Turned place (resume d place p)
turn-Turned d o (oam_search i) p h = turn-oam_search d i p h
turn-Turned d o (lcd_transfer i) p h = turn-lcd_transfer d i p h
turn-Turned d o (h_blank i) p h = turn-h_blank d o i p h
turn-Turned d o (v_blank i) p h = turn-v_blank d i p h
