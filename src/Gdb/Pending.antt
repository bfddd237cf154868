-- ===== src/Gdb/Pending.antt =====
-- src/gdb_server.cpp: the loop of `HandleMessages` ends, since each message takes its own bytes.
use tlmboy.Base.{
  ℕ, zero, suc, ◌≤◌, ◌≡◌, ◌≢◌, refl, sym, ap, arith, Bool, true, false, not, List, [], ◌∷◌, ◌++◌,
  ◌==◌, if◌then◌else◌, length,
}
use mathlib.Core.Path.{subst}
use tlmboy.Cpu.Debug.{DebugSocket}
use tlmboy.Gdb.Text.{
  and_then, Text, Fault, Result, ok, err, protocol_error, no_dollar, check_sum_incorrect,
  out_of_range, message_too_long,
}
use tlmboy.Gdb.Split.{split_msg}
use tlmboy.Gdb.Commands.{
  IsReal, InTime, failed, Keeps, kept, lost, if-Keeps, stoi-InTime, call_split-Keeps,
}
use tlmboy.Gdb.Server.{GdbServer, cmd_halted, halt, send_msg, ◌>>=◌}
use tlmboy.Gdb.Dispatch.{decode_and_call, strip}
use tlmboy.Gdb.Receive.{
  recv_body, recv_checksum, recv_packet, recv_first, recv_msg_blocking, deliver, checked,
  is_msg_pending, handle_messages,
}

-- What a client sends: a single byte, or a frame, whose text and check sum may be anything.
pub data Message : Type 0 where
  single : ℕ → Message
  frame : Text → ℕ → ℕ → Message

abbrev pub Without : ℕ → Text → Type 0
Without h [] = Unit {0}
Without h (c ∷ t) = (c ≢ h) × Without h t

-- A single byte does not open a frame, and the first `#` of a frame is its end.
abbrev pub IsWhole : Message → Type 0
IsWhole (single c) = c ≢ b'$'
IsWhole (frame t c d) = Without b'#' t

abbrev pub AllWhole : List Message → Type 0
AllWhole [] = Unit {0}
AllWhole (m ∷ ms) = IsWhole m × AllWhole ms

-- The bytes of a message before those of the next ones.
abbrev pub before : Message → Text → Text
before (single c) rest = c ∷ rest
before (frame t c d) rest = b'$' ∷ (t ++ (b'#' ∷ c ∷ d ∷ rest))

abbrev pub stream_of : List Message → Text
stream_of [] = []
stream_of (m ∷ ms) = before m (stream_of ms)

-- What is left behind the first `#`, unless the message ends in a fault.
data Body (rest : Text) : Result (Text × ℕ × Text) → Type 0 where
  read_to : (t : Text) (sum : ℕ) → Body rest (ok (t, sum, rest))
  cut : (e : Fault) → IsReal e → Body rest (err e)

if-Body :
    {rest : Text} (t : Bool) {x y : Result (Text × ℕ × Text)}
    → Body rest x
    → Body rest y
    → Body rest (if t then x else y)
if-Body true p q = p
if-Body false p q = q

else-Body :
    {rest : Text} (t : Bool) (x : Result (Text × ℕ × Text)) {y : Result (Text × ℕ × Text)}
    → t ≡ false
    → Body rest y
    → Body rest (if t then x else y)
else-Body false x e q = q
else-Body true x e q = absurd (ground arith)

recv_body-Body :
    (msg rest str : Text) (sum : ℕ)
    → Without b'#' msg
    → Body rest (recv_body str sum (msg ++ (b'#' ∷ rest)))
unfolding recv_body
recv_body-Body [] rest str sum w = if-Body _ (cut message_too_long tt) (read_to _ _)
recv_body-Body (c ∷ msg) rest str sum w = if-Body _ (cut out_of_range tt) (
    if-Body _ (cut message_too_long tt) (
      else-Body (c == b'#') _ (ground (arith, w.0))
        (recv_body-Body msg rest (str ++ (c ∷ [])) _ w.1)))

module _ {W : Type 0} (dbg : DebugSocket W) where
  deliver-Keeps : (t : Text) (s : GdbServer W) → Keeps s.stream (deliver dbg t s)
  unfolding deliver decode_and_call
  deliver-Keeps t s = delivered _ (call_split-Keeps dbg (split_msg (strip t)) s)
    where
      delivered :
          (r : Result (Unit {0} × GdbServer W))
          → Keeps s.stream r
          → Keeps s.stream (((λ _. r) >>= λ _ u. ok (t, u)) s)
      delivered (ok (_, u)) (kept _ _ e) = kept t u e
      delivered (err e) (lost _ h) = lost e h

  checked-Keeps :
      (t : Text) (sum : ℕ) (text : Text) (r : Result ℕ) (s : GdbServer W)
      → InTime r
      → Keeps s.stream (checked dbg t sum text r s)
  checked-Keeps t sum text (ok n) s h = if-Keeps _ (deliver-Keeps _ s) (lost check_sum_incorrect tt)
  checked-Keeps t sum text (err e) s (failed _ h) = lost e h

  recv_packet-Keeps :
      (t : Text) (c d : ℕ) (rest : Text) (s : GdbServer W)
      → Without b'#' t
      → Keeps rest (recv_packet dbg (t ++ (b'#' ∷ c ∷ d ∷ rest)) s)
  unfolding recv_packet recv_checksum
  recv_packet-Keeps t c d rest s w = packet (recv_body-Body t (c ∷ d ∷ rest) (b'$' ∷ []) 0 w)
    where
      packet :
          {r : Result (Text × ℕ × Text)}
          → Body (c ∷ d ∷ rest) r
          → Keeps rest (and_then r λ (x : Text × ℕ × Text). recv_checksum dbg x.0 x.1 x.2 s)
      packet (read_to u sum) = checked-Keeps u sum _ _ (record s { stream = rest }) (stoi-InTime _)
      packet (cut e h) = lost e h

  -- A whole message is read to its last byte, and no further.
  recv_first-Keeps :
      (m : Message) (rest : Text) (s : GdbServer W)
      → IsWhole m
      → Keeps rest (recv_first dbg (before m rest) s)
  unfolding recv_first cmd_halted halt send_msg
  recv_first-Keeps (single c) rest s w = if-Keeps (c == 0) (lost out_of_range tt) (
      if-Keeps (c == b'+') (kept _ _ refl) (
        if-Keeps (c == b'-') (lost protocol_error tt) (
          if-Keeps (c == 3) (kept _ _ refl) (
            let other : not (c == b'$') ≡ true = ground (arith, w) in
            subst
              (λ b.
                Keeps rest
                  (if b then err no_dollar else recv_packet dbg rest (record s { stream = rest })))
              (sym other) (lost no_dollar tt)))))
  recv_first-Keeps (frame t c d) rest s w =
      recv_packet-Keeps t c d rest (record s { stream = t ++ (b'#' ∷ c ∷ d ∷ rest) }) w

  -- How `HandleMessages` ends: with nothing pending, or by an exception of a message.
  pub data Finished : Result (Unit {0} × GdbServer W) → Type 0 where
    idle : (s : GdbServer W) → is_msg_pending s ≡ false → Finished (ok (tt, s))
    fault : (e : Fault) → IsReal e → Finished (err e)

  nothing_left : (s : GdbServer W) → s.stream ≡ [] → is_msg_pending s ≡ false
  unfolding is_msg_pending
  nothing_left s e = let none : length s.stream ≡ 0 = ap length e in ground arith

  later :
      (n : ℕ) (rest : Text) {r : Result (Text × GdbServer W)}
      → ((u : GdbServer W) → u.stream ≡ rest → Finished (handle_messages dbg n u))
      → Keeps rest r
      → Finished (and_then r λ (x : Text × GdbServer W). handle_messages dbg n x.1)
  later n rest ih (kept t u e) = ih u e
  later n rest ih (lost e h) = fault e h

  one_round :
      (n : ℕ) (rest : Text) (s : GdbServer W)
      → ((u : GdbServer W) → u.stream ≡ rest → Finished (handle_messages dbg n u))
      → Keeps rest (recv_msg_blocking dbg s)
      → (b : Bool) → is_msg_pending s ≡ b
      → Finished (elim b [
        | false ↦ ok (tt, s)
        | true ↦
            and_then (recv_msg_blocking dbg s) λ (x : Text × GdbServer W). handle_messages dbg n x.1
      ])
  one_round n rest s ih k false e = idle s e
  one_round n rest s ih k true e = later n rest ih k

  quiet : (n : ℕ) (s : GdbServer W) → is_msg_pending s ≡ false → Finished (handle_messages dbg n s)
  unfolding handle_messages
  quiet zero s e = rw e (idle s e)
  quiet (suc n) s e = rw (e, handle_messages) (idle s e)

  -- If the bytes that have arrived are whole messages, single bytes other than `$` and frames
  -- with any text without `#` and any two bytes of check sum, the loop of `HandleMessages`
  -- comes to its end within as many rounds as there are messages, and never waits for a byte:
  -- nothing is pending, or a message ended in an exception.
  pub handle_messages-Finished :
      (ms : List Message) (n : ℕ) (s : GdbServer W)
      → AllWhole ms
      → s.stream ≡ stream_of ms
      → length ms ≤ n
      → Finished (handle_messages dbg n s)
  unfolding handle_messages recv_msg_blocking
  handle_messages-Finished [] n s w e le = quiet n s (nothing_left s e)
  handle_messages-Finished (m ∷ ms) zero s w e le = absurd (omega arith)
  handle_messages-Finished (m ∷ ms) (suc n) s w e le =
      let rest = stream_of ms in
      let first =
        subst (λ t. Keeps rest (recv_first dbg t s)) (sym e) (recv_first-Keeps m rest s w.0) in
      one_round n rest s (λ u same. handle_messages-Finished ms n u w.1 same (omega arith)) first
        (is_msg_pending s) refl
