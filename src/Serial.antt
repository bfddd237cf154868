-- ===== src/Serial.antt =====
-- src/serial.h and src/serial.cpp: the serial port, which has no partner.
pub mod Transfer
use tlmboy.Base.{
  ℕ, ◌*◌, Bool, true, false, not, Option, none, some, ◌&&◌, u16, to_bool, bit_and, bit_or, ltb,
  ◌==◌, if◌then◌else◌,
}
use tlmboy.Tlm.{Command, Response, read, write, ignore, ok_response, command_error, assertion}

pub record Serial : Type 0 where
  pub ongoing_transmission : Bool
  pub reg_sc : ℕ
  -- The byte behind `reg_if`.
  pub reg_if : ℕ
  -- The delay with which `interrupt_event` was notified, in microseconds, while it is pending.
  pub interrupt_event : Option ℕ

abbrev pub mask_clock_source : ℕ
mask_clock_source = 0b1

abbrev pub mask_transfer_start : ℕ
mask_transfer_start = 0b10000000

abbrev pub serial_io_if : ℕ
serial_io_if = 0b1000

-- `SerialInterrupt`, which runs when the event is notified. The complement of the mask, on a byte,
-- is 0b01111111.
unfoldable pub serial_interrupt : Serial → Serial
serial_interrupt s = record s {
  reg_if = bit_or s.reg_if serial_io_if;
  reg_sc = bit_and s.reg_sc 0b01111111;
  ongoing_transmission = false;
  interrupt_event = none;
}

-- What a read finds behind the data pointer.
abbrev read_data : ℕ → ℕ → Serial → ℕ
read_data adr dat s = if adr == 0 then 0xFF else if adr == 1 then s.reg_sc else dat

-- `interrupt_event.notify`, under its condition.
abbrev start : ℕ → Serial → Serial
start adr s =
    if adr == 1
      && to_bool (bit_and s.reg_sc mask_transfer_start)
      && not s.ongoing_transmission
      && to_bool (bit_and s.reg_sc mask_clock_source)
    then record s { interrupt_event = some (8 * 122); ongoing_transmission = true }
    else s

abbrev answer : Command → ℕ → ℕ → Serial → Response × Serial
answer read adr dat s = (ok_response (read_data adr dat s), s)
answer write adr dat s =
    (ok_response dat, start adr (if adr == 1 then record s { reg_sc = dat } else s))
answer ignore adr dat s = (command_error, s)

-- `b_transport`.
unfoldable pub b_transport : Command → ℕ → ℕ → Serial → Response × Serial
b_transport cmd addr dat s =
    if ltb (u16 addr) 2 then answer cmd (u16 addr) dat s else (assertion, s)
