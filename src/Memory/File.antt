-- ===== src/Memory/File.antt =====
-- src/generic_memory.cpp: what is copied into a memory; the DMI and the debug access.
use tlmboy.Base.{ℕ, ◌+◌, ◌-◌, Option, none, some, u16, ltb, if◌then◌else◌}
use tlmboy.Tlm.{Command, Response}
use tlmboy.Memory.{b_transport}

-- A file that can be opened and read.
pub record DataFile : Type 0 where
  pub size : ℕ
  pub byte : ℕ → ℕ

-- `n` bytes from a place of the file on, over the start of the memory.
unfoldable pub copied : (ℕ → ℕ) → ℕ → ℕ → (ℕ → ℕ) → ℕ → ℕ
copied byte offset n cells j = if ltb j n then byte (offset + j) else cells j

-- `LoadFromFile`; `none` is the assertion on the size, or the exception for a number of bytes
-- that is below zero.
unfoldable pub load_from_file : DataFile → ℕ → ℕ → (ℕ → ℕ) → Option (ℕ → ℕ)
unfolding copied
load_from_file file offset memory_size cells =
    if ltb file.size offset
    then none
    else if ltb memory_size (file.size - offset)
    then (if ltb memory_size offset
        then none
        else some (copied file.byte offset (memory_size - offset) cells))
    else some (copied file.byte offset (file.size - offset) cells)

-- `LoadFromData`.
unfoldable pub load_from_data : DataFile → ℕ → (ℕ → ℕ) → ℕ → ℕ
unfolding copied
load_from_data dat memory_size cells =
    copied dat.byte 0 (if ltb memory_size dat.size then memory_size else dat.size) cells

-- `SetMemData`; `none` is its failed assertion.
unfoldable pub set_mem_data : (ℕ → ℕ) → ℕ → ℕ → (ℕ → ℕ) → Option (ℕ → ℕ)
unfolding copied
set_mem_data dat size memory_size cells =
    if ltb size memory_size then some (copied dat 0 size cells) else none

-- `transport_dbg`, which returns 1.
unfoldable pub transport_dbg : Command → ℕ → ℕ → (ℕ → ℕ) → ℕ × Response × (ℕ → ℕ)
unfolding b_transport
transport_dbg cmd addr dat cells =
    let (response, cells') = b_transport cmd addr dat cells in (1, response, cells')

-- `get_direct_mem_ptr`: the range, and the place in `data_` that the pointer shows; `none` is the
-- failed assertion.
unfoldable pub get_direct_mem_ptr : ℕ → ℕ → Option (ℕ × ℕ × ℕ)
get_direct_mem_ptr addr memory_size =
    if ltb (u16 addr) memory_size then some (0, memory_size - 1, u16 addr) else none
