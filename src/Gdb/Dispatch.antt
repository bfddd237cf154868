-- ===== src/Gdb/Dispatch.antt =====
-- src/gdb_server.cpp: the commands on memory, and the call of a command for a message.
use tlmboy.Base.{
  ℕ, zero, suc, ◌+◌, ◌-◌, ◌*◌, ◌%◌, ◌^◌, Option, none, some, List, [], ◌∷◌, ◌++◌, ltb,
  if◌then◌else◌, length, get_or,
}
use tlmboy.Cpu.State.{Cpu}
use tlmboy.Cpu.Debug.{DebugSocket, write_bus_debug, read_bus_debug}
use tlmboy.Gdb.Text.{
  and_then, Text, Result, ok, err, out_of_range, assertion, response_error, take, drop, hex2, stoi,
  packetify,
}
use tlmboy.Gdb.Split.{split_msg, text_eq, attached, supported}
use tlmboy.Gdb.Server.{
  M, cmd_attached, cmd_continue, cmd_detach, cmd_halted, cmd_insert_bp, cmd_not_found, cmd_read_reg,
  cmd_remove_bp, cmd_supported, cmd_write_reg, msg_ack, msg_ok, number, reply, send_msg, ◌>>=◌,
}

-- The message without `$` and the check sum: the length less four wraps around as a `size_t`.
unfoldable pub strip : Text → Text
strip msg = take ((length msg + 2 ^ 64 - 4) % 2 ^ 64) (drop 1 msg)

-- `cmd_map`.
pub data Handler : Type 0 where
  on_halted on_read_reg on_write_reg on_detach on_read_mem on_write_mem on_continue : Handler
  on_insert_bp on_remove_bp on_supported on_attached : Handler

unfoldable pub cmd_map : Text → Option Handler
unfolding text_eq
cmd_map name =
    if text_eq name (b'?' ∷ [])
    then some on_halted
    else if text_eq name (b'g' ∷ [])
    then some on_read_reg
    else if text_eq name (b'G' ∷ [])
    then some on_write_reg
    else if text_eq name (b'D' ∷ [])
    then some on_detach
    else if text_eq name (b'm' ∷ [])
    then some on_read_mem
    else if text_eq name (b'M' ∷ [])
    then some on_write_mem
    else if text_eq name (b'c' ∷ [])
    then some on_continue
    else if text_eq name (b'Z' ∷ [])
    then some on_insert_bp
    else if text_eq name (b'z' ∷ [])
    then some on_remove_bp
    else if text_eq name (b'q' ∷ supported)
    then some on_supported
    else if text_eq name (b'q' ∷ attached)
    then some on_attached
    else none

-- `data_str.substr(i * 2, 2)`, as a number.
unfoldable pub byte_at : ℕ → Text → Result ℕ
byte_at i data_str =
    if ltb (length data_str) (i * 2)
    then err out_of_range
    else stoi (take 2 (drop (i * 2) data_str))

abbrev pub reported : {A : Type 0} → Option A → Result A
reported none = err response_error
reported (some a) = ok a

-- The numbers in the messages, and the accesses to memory.
module _ {W : Type 0} (dbg : DebugSocket W) where
  -- The loop of `CmdReadMem` from the place `i` on, with so many rounds to go.
  unfoldable pub read_bytes : ℕ → ℕ → ℕ → Cpu W → Text × Cpu W
  read_bytes zero i addr s = ([], s)
  read_bytes (suc n) i addr s =
      let (dat, s1) = read_bus_debug dbg (addr + i) s in
      let (text, s2) = read_bytes n (i + 1) addr s1 in (hex2 dat ++ text, s2)

  -- `CmdReadMem`.
  abbrev pub send_bytes : Text × Cpu W → M W (Unit {0})
  send_bytes (text, cpu) s = reply (packetify text) (record s { cpu = cpu })

  unfoldable pub cmd_read_mem : List Text → M W (Unit {0})
  cmd_read_mem msg_split = do
    addr ← number (get_or msg_split 1 [])
    len ← number (get_or msg_split 2 [])
    λ s. send_bytes (read_bytes len 0 addr s.cpu) s

  -- The loop of `CmdWriteMem`.
  unfoldable pub write_bytes : ℕ → ℕ → ℕ → Text → Cpu W → Result (Cpu W)
  write_bytes zero i addr data_str s = ok s
  write_bytes (suc n) i addr data_str s = and_then (byte_at i data_str) λ dat.
      and_then (reported (write_bus_debug dbg (addr + i) dat s))
        λ s'. write_bytes n (i + 1) addr data_str s'

  -- `CmdWriteMem`.
  abbrev pub put_cpu : Result (Cpu W) → M W (Unit {0})
  put_cpu (err e) s = err e
  put_cpu (ok cpu) s = reply msg_ok (record s { cpu = cpu })

  unfoldable pub cmd_write_mem : List Text → M W (Unit {0})
  cmd_write_mem msg_split = do
    addr ← number (get_or msg_split 1 [])
    len ← number (get_or msg_split 2 [])
    λ s. put_cpu (write_bytes len 0 addr (get_or msg_split 3 []) s.cpu) s

  -- A handler, and `cmd_map[res[0]](res)` with the assertion that the name is in the map.
  unfoldable pub handle : Handler → List Text → M W (Unit {0})
  handle on_halted res = cmd_halted
  handle on_read_reg res = cmd_read_reg
  handle on_write_reg res = cmd_write_reg res
  handle on_detach res = cmd_detach
  handle on_read_mem res = cmd_read_mem res
  handle on_write_mem res = cmd_write_mem res
  handle on_continue res = cmd_continue
  handle on_insert_bp res = cmd_insert_bp res
  handle on_remove_bp res = cmd_remove_bp res
  handle on_supported res = cmd_supported res
  handle on_attached res = cmd_attached

  abbrev pub handle_found : Option Handler → List Text → M W (Unit {0})
  handle_found none res s = err assertion
  handle_found (some h) res s = handle h res s

  unfoldable pub call : List Text → M W (Unit {0})
  unfolding cmd_map handle
  call res s = handle_found (cmd_map (get_or res 0 [])) res s

  -- `DecodeAndCall`.
  unfoldable pub call_split : List Text → M W (Unit {0})
  unfolding send_msg call cmd_not_found
  call_split [] s = cmd_not_found s
  call_split (name ∷ res) s = call (name ∷ res) (send_msg msg_ack s)

  unfoldable pub decode_and_call : Text → M W (Unit {0})
  unfolding strip split_msg call_split
  decode_and_call msg s = call_split (split_msg (strip msg)) s
