-- ===== src/Bus.antt =====
-- src/bus.h, src/bus.cpp: the bus that finds the slave of an address; src/gb_top.cpp: its slaves.
pub mod Routing
pub mod Direct
use tlmboy.Base.{ℕ, ◌-◌, Bool, true, false, List, [], ◌∷◌, ◌++◌, ◌&&◌, u16, leb, if◌then◌else◌}
use tlmboy.Tlm.{Command, Response, address_error}

-- A target socket: what a command with an address and a data byte does to the state behind it.
abbrev pub Target : Type 0 → Type 0
Target W = Command → ℕ → ℕ → W → Response × W

-- `Bus::BusSlave`.
pub record BusSlave (W : Type 0) : Type 0 where
  pub addr_from : ℕ
  pub addr_to : ℕ
  pub socket : Target W

module _ {W : Type 0} where
  -- `AddBusSlave`: the addresses are cast to 16 bits.
  unfoldable pub add_bus_slave : Target W → ℕ → ℕ → List (BusSlave W) → List (BusSlave W)
  add_bus_slave targ_sock addr_from addr_to slaves =
      slaves
      ++ (record { addr_from = u16 addr_from; addr_to = u16 addr_to; socket = targ_sock } ∷ [])

  -- `b_transport`: the first slave whose range holds the address.
  unfoldable pub find_slave : List (BusSlave W) → ℕ → Command → ℕ → W → Response × W
  find_slave [] adr cmd dat w = (address_error, w)
  find_slave (slave ∷ rest) adr cmd dat w =
      elim (leb slave.addr_from adr && leb adr slave.addr_to) [
        | true ↦ slave.socket cmd (adr - slave.addr_from) dat w
        | false ↦ find_slave rest adr cmd dat w
      ]

  unfoldable pub b_transport : List (BusSlave W) → Target W
  b_transport slaves cmd addr dat w = find_slave slaves (u16 addr) cmd dat w

-- The modules that `GbTop` binds to the bus.
pub data Device : Type 0 where
  cartridge_rom video_ram cartridge_ram work_ram work_ram_n echo_ram echo_ram_n : Device
  obj_attr_mem joy_pad serial timer reg_if io_registers high_ram intr_enable : Device

-- The `AddBusSlave` calls of `GbTop`, in their order.
unfoldable pub gb_slaves : {W : Type 0} → (Device → Target W) → List (BusSlave W)
gb_slaves t =
    let s0 = add_bus_slave (t cartridge_rom) 0x0000 0x7FFF [] in
    let s1 = add_bus_slave (t video_ram) 0x8000 0x9FFF s0 in
    let s2 = add_bus_slave (t cartridge_ram) 0xA000 0xBFFF s1 in
    let s3 = add_bus_slave (t work_ram) 0xC000 0xCFFF s2 in
    let s4 = add_bus_slave (t work_ram_n) 0xD000 0xDFFF s3 in
    let s5 = add_bus_slave (t echo_ram) 0xE000 0xEFFF s4 in
    let s6 = add_bus_slave (t echo_ram_n) 0xF000 0xFDFF s5 in
    let s7 = add_bus_slave (t obj_attr_mem) 0xFE00 0xFE9F s6 in
    let s8 = add_bus_slave (t joy_pad) 0xFF00 0xFF00 s7 in
    let s9 = add_bus_slave (t serial) 0xFF01 0xFF03 s8 in
    let s10 = add_bus_slave (t timer) 0xFF04 0xFF07 s9 in
    let s11 = add_bus_slave (t reg_if) 0xFF0F 0xFF0F s10 in
    let s12 = add_bus_slave (t io_registers) 0xFF10 0xFF7F s11 in
    let s13 = add_bus_slave (t high_ram) 0xFF80 0xFFFE s12 in
    add_bus_slave (t intr_enable) 0xFFFF 0xFFFF s13
