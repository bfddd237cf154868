-- ===== src/Gdb/Receive.antt =====
-- src/gdb_server.cpp: the reception of messages; src/cpu_jumptable.cpp: what a round of the loop of
-- `DoMachineCycle` does about the debugger.
use tlmboy.Base.{
  ℕ, zero, suc, ◌+◌, ◌-◌, ◌*◌, ◌%◌, ◌^◌, Bool, true, false, not, ◌&&◌, [], ◌∷◌, ◌++◌, bit_and, ltb,
  ◌==◌, if◌then◌else◌, length,
}
use tlmboy.Base.{sign_extend}
use tlmboy.Cpu.RegFile.{pc}
use tlmboy.Cpu.State.{Socket, reg16, ns_per_clk_cycle}
use tlmboy.Cpu.Debug.{DebugSocket}
use tlmboy.Gdb.Text.{
  and_then, Text, Result, ok, err, protocol_error, no_dollar, message_too_long, check_sum_incorrect,
  out_of_range, blocked, still_pending, stoi,
}
use tlmboy.Gdb.Split.{attached, text_eq}
use tlmboy.Gdb.Server.{
  GdbServer, M, cmd_halted, max_message_length, bp_reached, send_bp_reached, ◌>>=◌,
}
use tlmboy.Gdb.Dispatch.{decode_and_call}

-- The loop of `RecvMsgBlocking` on the bytes to come, with `str_buffer` and `sum_to_check`. A zero
-- byte is an empty text, of which `resp.at(0)` fails.
unfoldable pub recv_body : Text → ℕ → Text → Result (Text × ℕ × Text)
recv_body str_buffer sum_to_check [] = err blocked
recv_body str_buffer sum_to_check (c ∷ rest) =
    let str = str_buffer ++ (c ∷ []) in
    let sum = (sum_to_check + sign_extend c) % 2 ^ 32 in
    let more = recv_body str sum rest in
    if c == 0
    then err out_of_range
    else if ltb max_message_length (length str)
    then err message_too_long
    else if c == b'#'
    then ok (str, sum, rest)
    else more

-- The text of two bytes, which ends at a zero byte.
abbrev pub two_bytes : ℕ → ℕ → Text
two_bytes c d = if c == 0 then [] else if d == 0 then c ∷ [] else c ∷ d ∷ []

-- `(sum_to_check & 0xff) != checksum`, after `sum_to_check -= '#'`.
abbrev pub is_sum : ℕ → ℕ → Bool
is_sum sum_to_check checksum = bit_and ((sum_to_check + 2 ^ 32 - b'#') % 2 ^ 32) 0xff == checksum

module _ {W : Type 0} where
  -- `IsMsgPending`: bytes have arrived.
  unfoldable pub is_msg_pending : GdbServer W → Bool
  is_msg_pending s = s.is_attached && not (length s.stream == 0)

-- The start of a round of `DoMachineCycle`: whether the CPU goes on to an instruction.
module _ {W : Type 0} (bus : Socket W) where
  abbrev hit : GdbServer W → GdbServer W
  hit s =
      let s1 = send_bp_reached (record s { halted = true }) in
      record s1 { cpu = record s1.cpu { world = bus.wait (4 * ns_per_clk_cycle) s1.cpu.world } }

  unfoldable pub is_running : GdbServer W → Bool × GdbServer W
  is_running s =
      if s.halted
      then (false, s)
      else if bp_reached (reg16 pc s.cpu) s
      then (false, hit s)
      else (true, s)

module _ {W : Type 0} (dbg : DebugSocket W) where
  -- The message with its check sum, once the sum is known.
  unfoldable pub deliver : Text → M W Text
  deliver str_buffer = decode_and_call dbg str_buffer >>= λ _ s. ok (str_buffer, s)

  abbrev pub checked : Text → ℕ → Text → Result ℕ → M W Text
  checked str_buffer sum_to_check checksum_str (err e) s = err e
  checked str_buffer sum_to_check checksum_str (ok checksum) s =
      if is_sum sum_to_check checksum
      then deliver (str_buffer ++ checksum_str) s
      else err check_sum_incorrect

  -- The two bytes of the check sum; the model waits for both of them.
  unfoldable pub recv_checksum : Text → ℕ → Text → M W Text
  recv_checksum str_buffer sum_to_check (c ∷ d ∷ rest) s =
      let checksum_str = two_bytes c d in
      checked str_buffer sum_to_check checksum_str (stoi checksum_str) (record s { stream = rest })
  recv_checksum str_buffer sum_to_check stream s = err blocked

  unfoldable pub recv_packet : Text → M W Text
  recv_packet stream s =
      and_then (recv_body (b'$' ∷ []) 0 stream) λ (r : Text × ℕ × Text). recv_checksum r.0 r.1 r.2 s

  -- `RecvMsgBlocking`.
  unfoldable pub recv_first : Text → M W Text
  recv_first [] s = err blocked
  recv_first (c ∷ rest) s =
      let s' = record s { stream = rest } in
      if c == 0
      then err out_of_range
      else if c == b'+'
      then ok (c ∷ [], s')
      else if c == b'-'
      then err protocol_error
      else if c == 3
      then (cmd_halted >>= λ _ t. ok (c ∷ [], t)) s'
      else if not (c == b'$')
      then err no_dollar
      else recv_packet rest s'

  unfoldable pub recv_msg_blocking : M W Text
  recv_msg_blocking s = recv_first s.stream s

  -- `HandleMessages`, with a bound on its rounds.
  unfoldable pub handle_messages : ℕ → M W (Unit {0})
  handle_messages zero s = if is_msg_pending s then err still_pending else ok (tt, s)
  handle_messages (suc n) s = elim (is_msg_pending s) [
    | false ↦ ok (tt, s)
    | true ↦ and_then (recv_msg_blocking s) λ (r : Text × GdbServer W). handle_messages n r.1
  ]

  -- `InitBlocking` once a client is there, with a bound on its rounds: `$qAttached#8f` ends it.
  abbrev pub attached_msg : Text
  attached_msg = (b'$' ∷ b'q' ∷ attached) ++ (b'#' ∷ b'8' ∷ b'f' ∷ [])

  unfoldable pub init_blocking : ℕ → M W (Unit {0})
  init_blocking zero s = err still_pending
  init_blocking (suc n) s = and_then (recv_msg_blocking s) λ (r : Text × GdbServer W).
      elim (text_eq r.0 attached_msg) [ true ↦ ok (tt, r.1) | false ↦ init_blocking n r.1 ]

  -- The same with the messages that are handled first.
  unfoldable pub start_of_round : Socket W → ℕ → M W Bool
  start_of_round bus n = handle_messages n >>= λ _ s. ok (is_running bus s)
