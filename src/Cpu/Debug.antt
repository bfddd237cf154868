-- ===== src/Cpu/Debug.antt =====
-- src/cpu.cpp: the accesses to the bus that the debugger makes. What the CPU reaches by
-- `transport_dbg` is `DebugSocket`.
use tlmboy.Base.{ℕ, Option, none, some, u8, u16}
use tlmboy.Cpu.State.{Cpu}

-- `init_socket->transport_dbg`, over the state `W` of all that is not the CPU.
pub record DebugSocket (W : Type 0) : Type 0 where
  -- With a read command: the data byte, `none` where the status is an error afterwards.
  pub read : W → ℕ → Option ℕ × W
  -- With a write command; `none` where the status is an error afterwards.
  pub write : W → ℕ → ℕ → Option W

module _ {W : Type 0} (dbg : DebugSocket W) where
  -- `Cpu::WriteBusDebug`; `none` is the reported error, which SystemC throws.
  unfoldable pub write_bus_debug : ℕ → ℕ → Cpu W → Option (Cpu W)
  write_bus_debug addr dat s = elim (dbg.write s.world (u16 addr) (u8 dat)) [
    | none ↦ none
    | some w ↦ some (record s { world = w })
  ]

  -- `Cpu::ReadBusDebug`: 0 where nothing answers.
  unfoldable pub read_bus_debug : ℕ → Cpu W → ℕ × Cpu W
  read_bus_debug addr s =
      let (answer, w) = dbg.read s.world (u16 addr) in
      (elim answer [ none ↦ 0 | some v ↦ u8 v ], record s { world = w })
