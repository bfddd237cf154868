-- ===== src/Gdb/Delivery.antt =====
-- src/gdb_server.cpp: messages in the frame that `Packetify` makes, and those that are refused.
use tlmboy.Base.{
  ◌+◌, ◌*◌, ◌/◌, ◌%◌, ◌≤◌, ◌<◌, ◌≡◌, refl, sym, ap, ◌∙◌, arith, true, [], ◌∷◌, ◌++◌, ◌==◌, length,
}
use tlmboy.Cpu.Debug.{DebugSocket}
use tlmboy.Gdb.Text.{Text, ok, err, message_too_long, packetify, hex_digit}
use tlmboy.Gdb.Digits.{total, digit_value-hex_digit}
use tlmboy.Gdb.Split.{split_msg}
use tlmboy.Gdb.Server.{GdbServer, ◌>>=◌}
use tlmboy.Gdb.Dispatch.{call_split}
use tlmboy.Gdb.Receive.{recv_msg_blocking, recv_packet}
use tlmboy.Gdb.Framing.{
  Plain, low_byte, packetify-framed, low_byte-total, recv_framed, recv_msg_blocking_lem,
  recv_body-too_long,
}

module _ {W : Type 0} (dbg : DebugSocket W) where
  -- A message of bytes that are neither zero nor `#`, of fewer than 4095 of them, in the frame
  -- that `Packetify` makes is accepted whole: just its text is split and called, and the bytes
  -- behind the frame are left for the next message.
  pub recv_msg_blocking-packetify :
      (msg rest : Text) (s : GdbServer W)
      → Plain msg
      → length msg < 4095
      → s.stream ≡ packetify msg ++ rest
      → recv_msg_blocking dbg s
        ≡ (call_split dbg (split_msg msg) >>= λ _ t. ok (packetify msg, t))
            (record s { stream = rest })
  recv_msg_blocking-packetify msg rest s p fits arrived =
      let sum = low_byte-total msg p in
      let high = low_byte msg / 16 in
      let low = low_byte msg % 16 in
      let right : (total msg % 256 == high * 16 + low) ≡ true = ground arith in
      recv_framed dbg msg rest (hex_digit high) (hex_digit low) high low s p fits
        (digit_value-hex_digit high (omega arith)) (digit_value-hex_digit low (omega arith))
        (arrived ∙ ap (λ t. t ++ rest) (packetify-framed msg))
      ∙ rw right (
          ap
            (λ m.
              (call_split dbg (split_msg msg) >>= λ _ t. ok (m, t)) (record s { stream = rest }))
            (sym (packetify-framed msg)))

  -- A text of 4096 bytes or more in front of the first `#` ends in an exception.
  pub recv_too_long :
      (msg rest : Text) (s : GdbServer W)
      → Plain msg
      → 4096 ≤ length msg
      → s.stream ≡ (b'$' ∷ msg) ++ rest
      → recv_msg_blocking dbg s ≡ err message_too_long
  unfolding recv_packet
  recv_too_long msg rest s p long arrived =
      recv_msg_blocking_lem dbg msg rest s arrived
      ∙ rw (recv_body-too_long (b'$' ∷ []) msg rest 0 p (omega arith) (omega arith), recv_packet)
          refl
