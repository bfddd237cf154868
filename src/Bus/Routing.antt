-- ===== src/Bus/Routing.antt =====
-- src/bus.cpp and src/gb_top.cpp: which slave answers at an address.
use tlmboy.Base.{ℕ, ◌+◌, ◌≤◌, ◌<◌, ◌≡◌, ◌⊎◌, arith}
use tlmboy.Tlm.{Command, address_error}
use tlmboy.Bus.{
  Target, find_slave, b_transport, add_bus_slave, gb_slaves, Device, cartridge_rom, video_ram,
  cartridge_ram, work_ram, work_ram_n, echo_ram, echo_ram_n, obj_attr_mem, joy_pad, serial, timer,
  reg_if, io_registers, high_ram, intr_enable,
}

-- The first and the last address of a device in the memory map of the Game Boy.
abbrev pub first_of : Device → ℕ
first_of cartridge_rom = 0x0000
first_of video_ram = 0x8000
first_of cartridge_ram = 0xA000
first_of work_ram = 0xC000
first_of work_ram_n = 0xD000
first_of echo_ram = 0xE000
first_of echo_ram_n = 0xF000
first_of obj_attr_mem = 0xFE00
first_of joy_pad = 0xFF00
first_of serial = 0xFF01
first_of timer = 0xFF04
first_of reg_if = 0xFF0F
first_of io_registers = 0xFF10
first_of high_ram = 0xFF80
first_of intr_enable = 0xFFFF

abbrev pub size_of : Device → ℕ
size_of cartridge_rom = 0x8000
size_of video_ram = 0x2000
size_of cartridge_ram = 0x2000
size_of work_ram = 0x1000
size_of work_ram_n = 0x1000
size_of echo_ram = 0x1000
size_of echo_ram_n = 0x0E00
size_of obj_attr_mem = 0xA0
size_of joy_pad = 1
size_of serial = 3
size_of timer = 4
size_of reg_if = 1
size_of io_registers = 0x70
size_of high_ram = 127
size_of intr_enable = 1

module _ {W : Type 0} where
  -- Every address of a device's range in the memory map reaches that device and no other, with
  -- the offset in the range as its address; data and state are passed on as they are.
  pub b_transport-gb_slaves :
      (t : Device → Target W) (d : Device) (offset : ℕ) (cmd : Command) (dat : ℕ) (w : W)
      → offset < size_of d
      → b_transport (gb_slaves t) cmd (first_of d + offset) dat w ≡ t d cmd offset dat w
  unfolding find_slave b_transport gb_slaves add_bus_slave
  b_transport-gb_slaves t cartridge_rom offset cmd dat w h = ground arith
  b_transport-gb_slaves t video_ram offset cmd dat w h = ground arith
  b_transport-gb_slaves t cartridge_ram offset cmd dat w h = ground arith
  b_transport-gb_slaves t work_ram offset cmd dat w h = ground arith
  b_transport-gb_slaves t work_ram_n offset cmd dat w h = ground arith
  b_transport-gb_slaves t echo_ram offset cmd dat w h = ground arith
  b_transport-gb_slaves t echo_ram_n offset cmd dat w h = ground arith
  b_transport-gb_slaves t obj_attr_mem offset cmd dat w h = ground arith
  b_transport-gb_slaves t joy_pad offset cmd dat w h = ground arith
  b_transport-gb_slaves t serial offset cmd dat w h = ground arith
  b_transport-gb_slaves t timer offset cmd dat w h = ground arith
  b_transport-gb_slaves t reg_if offset cmd dat w h = ground arith
  b_transport-gb_slaves t io_registers offset cmd dat w h = ground arith
  b_transport-gb_slaves t high_ram offset cmd dat w h = ground arith
  b_transport-gb_slaves t intr_enable offset cmd dat w h = ground arith

  -- The addresses 0xFEA0 to 0xFEFF and 0xFF08 to 0xFF0E are answered by an address error, and
  -- no device sees the transaction.
  pub b_transport-gap :
      (t : Device → Target W) (adr : ℕ) (cmd : Command) (dat : ℕ) (w : W)
      → ((0xFEA0 ≤ adr) × (adr < 0xFF00)) ⊎ ((0xFF08 ≤ adr) × (adr < 0xFF0F))
      → b_transport (gb_slaves t) cmd adr dat w ≡ (address_error, w)
  unfolding find_slave b_transport gb_slaves add_bus_slave
  b_transport-gap t adr cmd dat w h = ground arith
