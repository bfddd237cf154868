-- ===== src/Memory.antt =====
-- src/generic_memory.cpp: a memory; src/gb_top.cpp: the work RAM and its echo, which share their bytes.
pub mod Echo
pub mod File
use tlmboy.Base.{ℕ, u16, ◌==◌, if◌then◌else◌}
use tlmboy.Tlm.{Command, Response, read, write, ignore, ok_response, command_error}
use tlmboy.Bus.{Device, Target, work_ram, work_ram_n, echo_ram, echo_ram_n}

-- `data_[adr] = *ptr`.
abbrev pub store : ℕ → ℕ → (ℕ → ℕ) → ℕ → ℕ
store adr dat cells j = if j == adr then dat else cells j

abbrev access : Command → ℕ → ℕ → (ℕ → ℕ) → Response × (ℕ → ℕ)
access read adr dat cells = (ok_response (cells adr), cells)
access write adr dat cells = (ok_response dat, store adr dat cells)
access ignore adr dat cells = (command_error, cells)

-- `GenericMemory::b_transport`, on the bytes behind `data_`; the size is not looked at.
unfoldable pub b_transport : Command → ℕ → ℕ → (ℕ → ℕ) → Response × (ℕ → ℕ)
b_transport cmd addr dat cells = access cmd (u16 addr) dat cells

-- The bytes of the two halves of the work RAM.
pub record WorkRam : Type 0 where
  pub low : ℕ → ℕ
  pub high : ℕ → ℕ

abbrev pub on_low : Target WorkRam
on_low cmd adr dat w =
    let done = b_transport cmd adr dat w.low in (done.0, record w { low = done.1 })

abbrev pub on_high : Target WorkRam
on_high cmd adr dat w =
    let done = b_transport cmd adr dat w.high in (done.0, record w { high = done.1 })

-- The memories that `GbTop` builds over these bytes, beside other devices.
unfoldable pub with_work_ram : (Device → Target WorkRam) → Device → Target WorkRam
with_work_ram t work_ram = on_low
with_work_ram t work_ram_n = on_high
with_work_ram t echo_ram = on_low
with_work_ram t echo_ram_n = on_high
with_work_ram t d = t d
