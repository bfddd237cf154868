-- ===== src/Serial/Transfer.antt =====
-- src/serial.cpp: a transfer, from the write that starts it to its interrupt.
use tlmboy.Base.{
  ℕ, ◌-◌, ◌/◌, ◌%◌, ◌<◌, ◌≡◌, refl, ap, ◌∙◌, arith, Bool, true, false, ◌&&◌, ◌||◌, none, some, List,
  [], ◌∷◌, u16, bit_and, bit_or, ◌==◌, if◌then◌else◌, all_below, all_below_sound, ==→eq,
}
use mathlib.Core.Bool.{or_assoc}
use tlmboy.Base.Bits.{bit_and-1, bit_and-127, bit_and-128}
use tlmboy.Tlm.{Command, read, write, ignore, assertion}
use tlmboy.Serial.{Serial, serial_interrupt, b_transport, serial_io_if}
use tlmboy.Bus.{Target, Device, serial, gb_slaves}
use tlmboy.Bus
use tlmboy.Bus.Routing.{b_transport-gb_slaves}

-- A write to SC while nothing is transmitted starts a transmission exactly if bits 7 and 0 of the
-- byte are set; the interrupt flags stay.
pub b_transport-starts :
    (dat : ℕ) (s : Serial)
    → s.ongoing_transmission ≡ false
    → (b_transport write 1 dat s).1 ≡ (
        if dat / 128 % 2 == 1 && dat % 2 == 1
        then record s { reg_sc = dat; ongoing_transmission = true; interrupt_event = some 976 }
        else record s { reg_sc = dat })
unfolding b_transport
b_transport-starts dat s idle = ground (arith, bit_and-1 dat, bit_and-128 dat)

low_table : all_below 256 (λ d. bit_and d 0b01111111 == d % 128) ≡ true
unfolding all_below
low_table = refl

-- A transaction with the port.
pub record Access : Type 0 where
  pub cmd : Command
  pub addr : ℕ
  pub dat : ℕ

abbrev pub accesses : List Access → Serial → Serial
accesses [] s = s
accesses (x ∷ xs) s = accesses xs (b_transport x.cmd x.addr x.dat s).1

abbrev pub is_write : Command → Bool
is_write write = true
is_write read = false
is_write ignore = false

-- A write to SC.
abbrev pub writes_sc : Access → Bool
writes_sc x = is_write x.cmd && u16 x.addr == 1

-- One that starts a transfer: with the bit that says so, on the internal clock.
abbrev pub starts : Access → Bool
starts x = writes_sc x && x.dat / 128 % 2 == 1 && x.dat % 2 == 1

abbrev pub any_starts : List Access → Bool
any_starts [] = false
any_starts (x ∷ xs) = starts x || any_starts xs

abbrev pub last_sc : List Access → ℕ → ℕ
last_sc [] sc = sc
last_sc (x ∷ xs) sc = last_sc xs (if writes_sc x then x.dat else sc)

-- The port after accesses that a transfer was or was not started by.
abbrev pub in_transfer : Bool → ℕ → Serial → Serial
in_transfer on sc s = record s {
  ongoing_transmission = on;
  reg_sc = sc;
  interrupt_event = if on then some 976 else none;
}

one_write :
    (on : Bool) (sc addr dat : ℕ) (s : Serial)
    → (b_transport write addr dat (in_transfer on sc s)).1
      ≡ in_transfer
          (on || (u16 addr == 1 && dat / 128 % 2 == 1 && dat % 2 == 1))
          (if u16 addr == 1 then dat else sc)
          s
unfolding b_transport
one_write true sc addr dat s = ground (arith, bit_and-1 dat, bit_and-128 dat)
one_write false sc addr dat s = ground (arith, bit_and-1 dat, bit_and-128 dat)

one_access :
    (on : Bool) (sc : ℕ) (cmd : Command) (addr dat : ℕ) (s : Serial)
    → (b_transport cmd addr dat (in_transfer on sc s)).1
      ≡ in_transfer
          (on || starts (record { cmd = cmd; addr = addr; dat = dat }))
          (if writes_sc (record { cmd = cmd; addr = addr; dat = dat }) then dat else sc)
          s
unfolding b_transport
one_access on sc write addr dat s = one_write on sc addr dat s
one_access true sc read addr dat s = ground arith
one_access false sc read addr dat s = ground arith
one_access true sc ignore addr dat s = ground arith
one_access false sc ignore addr dat s = ground arith

accesses_lem :
    (xs : List Access) (on : Bool) (sc : ℕ) (s : Serial)
    → accesses xs (in_transfer on sc s) ≡ in_transfer (on || any_starts xs) (last_sc xs sc) s
accesses_lem [] true sc s = refl
accesses_lem [] false sc s = refl
accesses_lem (x ∷ xs) on sc s =
    ap (accesses xs) (one_access on sc x.cmd x.addr x.dat s)
    ∙ accesses_lem xs (on || starts x) (if writes_sc x then x.dat else sc) s
    ∙ ap (λ b. in_transfer b (last_sc (x ∷ xs) sc) s) (or_assoc on (starts x) (any_starts xs))

idle-in_transfer :
    (s : Serial)
    → s.ongoing_transmission ≡ false
    → s.interrupt_event ≡ none
    → s ≡ in_transfer false s.reg_sc s
idle-in_transfer s idle quiet =
    λ p. record s { ongoing_transmission = idle p; interrupt_event = quiet p }

-- From a state without a transfer, after any transactions a transfer is in progress exactly if
-- one of them was a write to SC with bits 7 and 0 set; its event was notified with a delay of
-- 976 microseconds, SC holds the last byte written to it, and the interrupt flags are as
-- before. The handler of the event then requests the serial interrupt, clears bit 7 of SC and
-- ends the transfer.
pub serial_interrupt-accesses :
    (xs : List Access) (s : Serial)
    → s.ongoing_transmission ≡ false
    → s.interrupt_event ≡ none
    → (accesses xs s ≡ in_transfer (any_starts xs) (last_sc xs s.reg_sc) s)
      × (serial_interrupt (accesses xs s) ≡ record {
        ongoing_transmission = false;
        reg_sc = last_sc xs s.reg_sc % 128;
        reg_if = bit_or s.reg_if 8;
        interrupt_event = none;
      })
unfolding serial_interrupt
serial_interrupt-accesses xs s idle quiet =
    let now = ap (accesses xs) (idle-in_transfer s idle quiet) ∙ accesses_lem xs false s.reg_sc s in
    (
      now,
      ap serial_interrupt now
          ∙ ap
              (λ sc. record {
                ongoing_transmission = false;
                reg_sc = sc;
                reg_if = bit_or s.reg_if 8;
                interrupt_event = none;
              })
              (bit_and-127 (last_sc xs s.reg_sc)),
    )

-- A byte with bits 7 and 0 set that is written to SC while nothing is transmitted makes the
-- event pending for 976 microseconds later; its handler then requests the serial interrupt,
-- clears bit 7 of SC and ends the transmission.
pub serial_interrupt-b_transport :
    (dat : ℕ) (s : Serial)
    → dat < 256
    → s.ongoing_transmission ≡ false
    → dat / 128 % 2 ≡ 1
    → dat % 2 ≡ 1
    → ((b_transport write 1 dat s).1.interrupt_event ≡ some 976)
      × (serial_interrupt (b_transport write 1 dat s).1 ≡ record {
        ongoing_transmission = false;
        reg_sc = dat - 128;
        reg_if = bit_or s.reg_if serial_io_if;
        interrupt_event = none;
      })
unfolding serial_interrupt
serial_interrupt-b_transport dat s h idle go source =
    let low =
      ==→eq _ _ (all_below_sound 256 (λ d. bit_and d 0b01111111 == d % 128) dat low_table h) in
    let started = b_transport-starts dat s idle in (ground arith, ground arith)

-- Where the bus has the serial port as its slave of that name, every command at 0xFF03 reaches
-- it with the address 2 and fails its assertion.
pub gb_slaves-serial_gap :
    (t : Device → Target Serial) (cmd : Command) (dat : ℕ) (s : Serial)
    → ((c : Command) (a d : ℕ) (w : Serial) → t serial c a d w ≡ b_transport c a d w)
    → Bus.b_transport (gb_slaves t) cmd 0xFF03 dat s ≡ (assertion, s)
unfolding b_transport
gb_slaves-serial_gap t cmd dat s h =
    b_transport-gb_slaves t serial 2 cmd dat s (omega arith) ∙ h cmd 2 dat s
