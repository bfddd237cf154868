-- ===== src/Examples/Devices.antt =====
-- The timer, the joypad, the bus and the serial port at concrete states.
use tlmboy.Base.{List, ◌∷◌, [], some, ℕ, ◌/◌, ◌%◌, ◌≡◌, refl, arith, true, false, none, inl}
use tlmboy.Tlm.{read, write, ok_response, address_error}
use tlmboy.Timer.{Timer}
use tlmboy.Timer.Period.{ticks, ticks_overflow}
use tlmboy.Joypad.{JoyPad, key_s, set_button, read_reg}
use tlmboy.Joypad.Buttons.{read_reg-set_button}
use tlmboy.Bus
use tlmboy.Bus.{Device, Target, gb_slaves, timer}
use tlmboy.Bus.Routing.{b_transport-gb_slaves}
use tlmboy.Memory.{WorkRam, with_work_ram}
use tlmboy.Memory.Echo.{b_transport-echo}
use tlmboy.Serial
use tlmboy.Serial.{Serial, serial_interrupt}
use tlmboy.Serial.Transfer.{Access, accesses, serial_interrupt-accesses}

abbrev timer_on : Timer
timer_on = record {
  reg_div = 7;
  reg_tac = 5;
  reg_tima = 250;
  reg_tma = 100;
  reg_if = 1;
  cycles_per_inc = 16;
  inc_time = 3808;
}

ticks_overflow_example : ticks 6 timer_on ≡ record timer_on { reg_tima = 100; reg_if = 5 }
ticks_overflow_example = ticks_overflow timer_on refl (omega arith)

-- The action buttons are selected, and B is held.
abbrev pad : JoyPad
pad = record {
  but_up = true;
  but_down = false;
  but_left = false;
  but_right = false;
  but_a = false;
  but_b = true;
  but_start = false;
  but_select = false;
  reg_p1 = 0x1F;
  intr_pending = 0;
}

read_reg-set_button_example : (read_reg (set_button key_s false pad)).reg_p1 / 2 % 2 ≡ 1
read_reg-set_button_example =
    read_reg-set_button key_s false pad refl (omega arith) (refl, inl refl)

-- Devices that answer with the address that they see.
abbrev echoes : Device → Target ℕ
echoes d cmd adr dat w = (ok_response adr, w)

b_transport-gb_slaves_example :
    Bus.b_transport (gb_slaves echoes) read 0xFF06 0 9 ≡ (ok_response 2, 9)
b_transport-gb_slaves_example = b_transport-gb_slaves echoes timer 2 read 0 9 (omega arith)

abbrev port : Serial
port = record { ongoing_transmission = false; reg_sc = 0; reg_if = 2; interrupt_event = none }

-- A write to SB, the start of a transfer, and a read of SC.
abbrev serial_accesses : List Access
serial_accesses =
    record { cmd = write; addr = 0; dat = 0x81 }
    ∷ record { cmd = write; addr = 1; dat = 0x83 }
    ∷ record { cmd = read; addr = 1; dat = 0 }
    ∷ []

serial_interrupt-accesses_example :
    (accesses serial_accesses port ≡ record {
      ongoing_transmission = true;
      reg_sc = 0x83;
      reg_if = 2;
      interrupt_event = some 976;
    })
    × (serial_interrupt (accesses serial_accesses port)
        ≡ record { ongoing_transmission = false; reg_sc = 3; reg_if = 10; interrupt_event = none })
serial_interrupt-accesses_example = serial_interrupt-accesses serial_accesses port refl refl

abbrev ports : Device → Target Serial
ports d = Serial.b_transport

abbrev bare : Device → Target WorkRam
bare d cmd adr dat w = (address_error, w)

abbrev halves : WorkRam
halves = record { low = λ j. 1; high = λ j. 2 }

-- The store at 0xD00F is read at 0xF00F.
b_transport-echo_example :
    (Bus.b_transport
      (gb_slaves (with_work_ram bare))
      read
      0xF00F
      0
      (Bus.b_transport (gb_slaves (with_work_ram bare)) write 0xD00F 99 halves).1).0
    ≡ ok_response 99
b_transport-echo_example =
    b_transport-echo false true bare 0x100F 0x100F 99 0 halves (omega arith) (omega arith)
