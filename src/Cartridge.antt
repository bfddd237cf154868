-- ===== src/Cartridge.antt =====
-- src/cartridge.h and src/cartridge.cpp: the memory of a cartridge that is seen one bank at a time.
pub mod Rom
pub mod Start
pub mod Mbc1
pub mod Mbc3
pub mod Mbc5
use tlmboy.Base.{
  ℕ, ◌+◌, ◌*◌, Bool, true, false, Option, none, some, u8, u16, ltb, ◌==◌, if◌then◌else◌,
}
use tlmboy.Tlm.{Command, Response, read, write, ignore, ok_response, command_error, assertion}

-- `Cartridge::BankSwitchedMem`, with the `GenericMemory` it extends.
pub record BankSwitchedMem : Type 0 where
  -- The bytes behind `data_`.
  pub cells : ℕ → ℕ
  pub num_banks : ℕ
  pub bank_size : ℕ
  -- `bank_data_`, as an offset into `data_`.
  pub bank_data : ℕ
  pub current_bank_ind : ℕ

-- `DoBankSwitch`; `none` is its failed assertion.
unfoldable pub do_bank_switch : ℕ → BankSwitchedMem → Option BankSwitchedMem
do_bank_switch index m =
    if ltb (u8 index) m.num_banks
    then some (record m { bank_data = u8 index * m.bank_size; current_bank_ind = u8 index })
    else none

-- `data[at] = v`.
abbrev pub update : ℕ → ℕ → (ℕ → ℕ) → ℕ → ℕ
update at v cells j = if j == at then v else cells j

abbrev access : Command → ℕ → ℕ → BankSwitchedMem → Response × BankSwitchedMem
access read adr dat m = (ok_response (m.cells (m.bank_data + adr)), m)
access write adr dat m =
    (ok_response dat, record m { cells = update (m.bank_data + adr) dat m.cells })
access ignore adr dat m = (command_error, m)

-- `BankSwitchedMem::b_transport`.
unfoldable pub b_transport : Command → ℕ → ℕ → BankSwitchedMem → Response × BankSwitchedMem
b_transport cmd addr dat m =
    if ltb (u16 addr) m.bank_size then access cmd (u16 addr) dat m else (assertion, m)
