-- ===== src/Cpu/Ram.antt =====
-- What the stack and the programs rely on of ordinary memory behind the bus (src/bus.cpp,
-- src/generic_memory.cpp), as the CPU's socket shows it.
use tlmboy.Base.{ℕ, ◌<◌, ◌≡◌, ◌≢◌, Bool, true, some, arith, Option-cases}
use tlmboy.Cpu.State.{Cpu, Socket, GbCommand, ok, read_bus}

-- The addresses that `is_ram` accepts hold bytes: reading has no effect beside its result and a
-- write changes one address. They lie above the part of the ROM that the CPU reads directly.
pub record Ram {W : Type 0} (bus : Socket W) : Type 0 where
  pub is_ram : ℕ → Bool
  pub peek : W → ℕ → ℕ
  pub above_rom : (at : ℕ) → is_ram at ≡ true → 0x3FFF < at
  pub below_end : (at : ℕ) → is_ram at ≡ true → at < 65536
  pub read_peek :
      (w : W) (at : ℕ) (cmd : GbCommand)
      → is_ram at ≡ true
      → bus.read w at cmd ≡ some (peek w at, w)
  pub peek_byte : (w : W) (at : ℕ) → is_ram at ≡ true → peek w at < 256
  pub peek-write_self :
      (w : W) (at v : ℕ) → is_ram at ≡ true → v < 256 → peek (bus.write w at v) at ≡ v
  pub peek-write_ne :
      (w : W) (at other v : ℕ)
      → is_ram at ≡ true
      → is_ram other ≡ true
      → at ≢ other
      → peek (bus.write w other v) at ≡ peek w at

-- Reading ordinary memory gives what is stored there, and changes nothing.
pub read_bus_ram :
    {W : Type 0} (bus : Socket W) (ram : Ram bus) (at : ℕ) (cmd : GbCommand) (s : Cpu W)
    → ram.is_ram at ≡ true
    → read_bus bus at cmd s ≡ ok (ram.peek s.world at, s)
unfolding read_bus
read_bus_ram bus ram at cmd s h = ground (
  arith,
  ram.above_rom at h,
  ram.below_end at h,
  ram.read_peek s.world at cmd h,
  ram.peek_byte s.world at h,
  Option-cases (bus.rom_bank_0 s.world),
)
