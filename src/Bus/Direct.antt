-- ===== src/Bus/Direct.antt =====
-- src/bus.cpp: the debug access and the DMI request, which search a slave in the same way.
use tlmboy.Base.{
  ℕ, ◌-◌, ◌≡◌, refl, inl, inr, Bool, Bool-cases, true, false, none, Option, List, [], ◌∷◌, ◌&&◌,
  u16, leb,
}
use tlmboy.Tlm.{Command, Response, address_error}
use tlmboy.Bus.{BusSlave, find_slave, b_transport}

-- What `transport_dbg` of a target socket does; the first result is the number of bytes.
abbrev pub DbgTarget : Type 0 → Type 0
DbgTarget W = Command → ℕ → ℕ → W → ℕ × Response × W

module _ {W : Type 0} (dbg : BusSlave W → DbgTarget W) where
  unfoldable pub find_dbg : List (BusSlave W) → ℕ → Command → ℕ → W → ℕ × Response × W
  find_dbg [] adr cmd dat w = (0, address_error, w)
  find_dbg (slave ∷ rest) adr cmd dat w = elim (leb slave.addr_from adr && leb adr slave.addr_to) [
    | true ↦ dbg slave cmd (adr - slave.addr_from) dat w
    | false ↦ find_dbg rest adr cmd dat w
  ]

  -- `Bus::transport_dbg`.
  unfoldable pub transport_dbg : List (BusSlave W) → DbgTarget W
  transport_dbg slaves cmd addr dat w = find_dbg slaves (u16 addr) cmd dat w

-- `Bus::get_direct_mem_ptr`, for slaves that answer an address with a range and a pointer, or not.
module _ {W D : Type 0} (request : BusSlave W → ℕ → Option D) where
  unfoldable pub find_direct : List (BusSlave W) → ℕ → Option D
  find_direct [] adr = none
  find_direct (slave ∷ rest) adr = elim (leb slave.addr_from adr && leb adr slave.addr_to) [
    | true ↦ request slave (adr - slave.addr_from)
    | false ↦ find_direct rest adr
  ]

  unfoldable pub get_direct_mem_ptr : List (BusSlave W) → ℕ → Option D
  get_direct_mem_ptr slaves addr = find_direct slaves (u16 addr)

-- Whether a slave has the address.
abbrev pub mapped : {W : Type 0} → List (BusSlave W) → ℕ → Bool
mapped [] adr = false
mapped (slave ∷ rest) adr = elim (leb slave.addr_from adr && leb adr slave.addr_to) [
  | true ↦ true
  | false ↦ mapped rest adr
]

abbrev pub bytes : Bool → ℕ
bytes true = 1
bytes false = 0

abbrev with_count : {W : Type 0} → ℕ → Response × W → ℕ × Response × W
with_count n done = (n, done.0, done.1)

abbrev as_memory : {W : Type 0} → BusSlave W → DbgTarget W
as_memory s cmd adr dat w = with_count 1 (s.socket cmd adr dat w)

search :
    {W : Type 0} (xs : List (BusSlave W)) (cmd : Command) (adr dat : ℕ) (w : W)
    → find_dbg as_memory xs adr cmd dat w
      ≡ with_count (bytes (mapped xs adr)) (find_slave xs adr cmd dat w)
unfolding find_dbg find_slave
search [] cmd adr dat w = refl
search (s ∷ xs) cmd adr dat w = elim (Bool-cases (leb s.addr_from adr && leb adr s.addr_to)) [
  | inl here ↦ rw (here, find_dbg, find_slave, mapped) refl
  | inr there ↦ rw (there, find_dbg, find_slave, mapped) (search xs cmd adr dat w)
]

-- Where every slave answers a debug access with its `b_transport` and one byte, as memories do,
-- the debug access over the bus is a transaction, and its result tells whether the address is
-- mapped.
transport_dbg-b_transport :
    {W : Type 0} (slaves : List (BusSlave W)) (cmd : Command) (addr dat : ℕ) (w : W)
    → transport_dbg as_memory slaves cmd addr dat w
      ≡ with_count (bytes (mapped slaves (u16 addr))) (b_transport slaves cmd addr dat w)
unfolding transport_dbg b_transport
transport_dbg-b_transport slaves cmd addr dat w = search slaves cmd (u16 addr) dat w
