-- ===== src/Memory/Echo.antt =====
-- src/gb_top.cpp: the work RAM at 0xC000 and its echo at 0xE000.
use tlmboy.Base.{
  ℕ, ◌+◌, ◌-◌, ◌<◌, ◌≡◌, ◌∙◌, ap, arith, Bool, true, false, ◌==◌, if◌then◌else◌, ltb, Bool-cases,
  inl, inr,
}
use tlmboy.Tlm.{Command, read, write, ok_response}
use tlmboy.Bus
use tlmboy.Bus.{Device, Target, gb_slaves, work_ram, work_ram_n, echo_ram, echo_ram_n}
use tlmboy.Bus.Routing.{b_transport-gb_slaves}
use tlmboy.Memory.{WorkRam, with_work_ram, b_transport, on_low, on_high}

-- The byte of the work RAM at an offset from its start.
abbrev pub cell : WorkRam → ℕ → ℕ
cell w j = if ltb j 0x1000 then w.low j else w.high (j - 0x1000)

-- Where the work RAM stands on the bus: at its own addresses, or at those of its echo.
abbrev pub window : Bool → ℕ
window echo = if echo then 0xE000 else 0xC000

abbrev pub window_size : Bool → ℕ
window_size echo = if echo then 0x1E00 else 0x2000

abbrev half : Target WorkRam
half cmd j d w = if ltb j 0x1000 then on_low cmd j d w else on_high cmd (j - 0x1000) d w

abbrev bus_of : (Device → Target WorkRam) → Target WorkRam
bus_of t = Bus.b_transport (gb_slaves (with_work_ram t))

at_window :
    (echo : Bool) (t : Device → Target WorkRam) (cmd : Command) (j d : ℕ) (w : WorkRam)
    → j < window_size echo
    → bus_of t cmd (window echo + j) d w ≡ half cmd j d w
unfolding with_work_ram
at_window true t cmd j d w h = elim (Bool-cases (ltb j 0x1000)) [
  | inl low ↦ b_transport-gb_slaves (with_work_ram t) echo_ram j cmd d w (ground arith) ∙ simp low
  | inr high ↦
      let at : 0xE000 + j ≡ 0xF000 + (j - 0x1000) = ground arith in
      ap (λ a. bus_of t cmd a d w) at
      ∙ b_transport-gb_slaves (with_work_ram t) echo_ram_n (j - 0x1000) cmd d w (ground arith)
      ∙ simp high
]
at_window false t cmd j d w h = elim (Bool-cases (ltb j 0x1000)) [
  | inl low ↦ b_transport-gb_slaves (with_work_ram t) work_ram j cmd d w (ground arith) ∙ simp low
  | inr high ↦
      let at : 0xC000 + j ≡ 0xD000 + (j - 0x1000) = ground arith in
      ap (λ a. bus_of t cmd a d w) at
      ∙ b_transport-gb_slaves (with_work_ram t) work_ram_n (j - 0x1000) cmd d w (ground arith)
      ∙ simp high
]

window-lt : (echo : Bool) (j : ℕ) → j < window_size echo → j < 0x2000
window-lt true j h = omega arith
window-lt false j h = omega arith

half_read : (j d : ℕ) (w : WorkRam) → j < 0x2000 → half read j d w ≡ (ok_response (cell w j), w)
unfolding b_transport
half_read j d w h = ground arith

half_write :
    (i j v d : ℕ) (w : WorkRam)
    → i < 0x2000
    → j < 0x2000
    → cell (half write i v w).1 j ≡ (if j == i then v else cell w j)
unfolding b_transport
half_write i j v d w hi hj = ground arith

-- A byte that is written to the work RAM over the bus, at its own addresses or at those of its
-- echo, is read back at both: the first 0x1E00 bytes are one memory under two addresses; every
-- other byte is kept.
pub b_transport-echo :
    (to from : Bool) (t : Device → Target WorkRam) (i j v d : ℕ) (w : WorkRam)
    → i < window_size to
    → j < window_size from
    → (bus_of t read (window from + j) d (bus_of t write (window to + i) v w).1).0
      ≡ ok_response (if j == i then v else cell w j)
b_transport-echo to from t i j v d w hi hj =
    let w' = (bus_of t write (window to + i) v w).1 in
    ap (λ r. r.0) (at_window from t read j d w' hj)
    ∙ ap (λ r. r.0) (half_read j d w' (window-lt from j hj))
    ∙ ap (λ r. ok_response (cell r.1 j)) (at_window to t write i v w hi)
    ∙ ap ok_response (half_write i j v d w (window-lt to i hi) (window-lt from j hj))
