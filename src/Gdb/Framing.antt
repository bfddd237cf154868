-- ===== src/Gdb/Framing.antt =====
-- src/gdb_server.cpp: what `RecvMsgBlocking` accepts.
use tlmboy.Base.{
  ℕ, zero, suc, ◌+◌, ◌-◌, ◌*◌, ◌/◌, ◌%◌, ◌^◌, ◌≤◌, ◌<◌, ◌≡◌, ◌≢◌, inl, inr, refl, ap, ◌∙◌, arith,
  some, [], ◌∷◌, ◌++◌, bit_and, ltb, ◌==◌, if◌then◌else◌, Bool-cases, length,
}
use tlmboy.Base.{sign_extend}
use tlmboy.Base.Bits.{bit_and-255}
use tlmboy.Gdb.Text.{
  Text, ok, err, check_sum_incorrect, message_too_long, hex2, digit_value, stoi, sum_from,
  get_checksum_str, packetify, take,
}
use tlmboy.Cpu.Debug.{DebugSocket}
use tlmboy.Gdb.Text.{hex_digit}
use tlmboy.Gdb.Digits.{Bytes, total, sum_from-total, stoi_2, digit_value_range}
use tlmboy.Gdb.Split.{split_msg}
use tlmboy.Gdb.Server.{GdbServer, ◌>>=◌}
use tlmboy.Gdb.Dispatch.{strip, call_split, decode_and_call}
use tlmboy.Gdb.Receive.{
  recv_body, recv_checksum, recv_packet, recv_first, recv_msg_blocking, deliver, is_sum, two_bytes,
  checked,
}

-- A text that fits between `$` and `#`: bytes that are neither zero nor `#`.
abbrev pub Plain : Text → Type 0
Plain [] = Unit {0}
Plain (c ∷ t) = (0 < c) × (c < 256) × (c ≢ b'#') × Plain t

pub Plain-Bytes : (t : Text) → Plain t → Bytes t
Plain-Bytes [] p = tt
Plain-Bytes (c ∷ t) p = (p.1, Plain-Bytes t p.3)

length-snoc : (t : Text) (c : ℕ) → length (t ++ (c ∷ [])) ≡ length t + 1
length-snoc [] c = refl
length-snoc (d ∷ t) c = omega (arith, length-snoc t c)

snoc-append : (t u : Text) (c : ℕ) → (t ++ (c ∷ [])) ++ u ≡ t ++ (c ∷ u)
snoc-append [] u c = refl
snoc-append (d ∷ t) u c = ap (λ v. d ∷ v) (snoc-append t u c)

-- The sum once `#` has been added as well.
abbrev with_hash : ℕ → ℕ
with_hash sum = (sum + sign_extend b'#') % 2 ^ 32

-- The loop reads up to the first `#`.
recv_body_lem :
    (str msg rest : Text) (sum : ℕ)
    → Plain msg
    → length str + length msg < 4096
    → recv_body str sum (msg ++ (b'#' ∷ rest))
      ≡ ok (str ++ (msg ++ (b'#' ∷ [])), with_hash (sum_from sum msg), rest)
unfolding recv_body sum_from
recv_body_lem str [] rest sum p fits = let n = length-snoc str b'#' in ground arith
recv_body_lem str (c ∷ msg) rest sum p fits =
    let n = length-snoc str c in
    let next =
      recv_body_lem (str ++ (c ∷ [])) msg rest ((sum + sign_extend c) % 2 ^ 32) p.3 (omega arith) in
    let grown = snoc-append str (msg ++ (b'#' ∷ [])) c in ground arith

-- Without a `#` within the bound it gives up.
pub recv_body-too_long :
    (str msg rest : Text) (sum : ℕ)
    → Plain msg
    → length str ≤ 4096
    → 4096 < length str + length msg
    → recv_body str sum (msg ++ rest) ≡ err message_too_long
unfolding recv_body
recv_body-too_long str [] rest sum p lo hi = absurd (omega arith)
recv_body-too_long str (c ∷ msg) rest sum p lo hi =
    let n = length-snoc str c in
    elim (Bool-cases (ltb 4096 (length (str ++ (c ∷ []))))) [
      | inl over ↦ ground arith
      | inr under ↦
          let next =
            recv_body-too_long (str ++ (c ∷ [])) msg rest ((sum + sign_extend c) % 2 ^ 32) p.3
              (ground arith) (omega arith) in
          ground arith
    ]

append_assoc : (t u v : Text) → (t ++ u) ++ v ≡ t ++ (u ++ v)
append_assoc [] u v = refl
append_assoc (c ∷ t) u v = ap (λ w. c ∷ w) (append_assoc t u v)

take_all : (n : ℕ) (t u : Text) → length t ≡ n → take n (t ++ u) ≡ t
take_all zero [] u e = refl
take_all zero (c ∷ t) u e = absurd (omega arith)
take_all (suc n) [] u e = absurd (omega arith)
take_all (suc n) (c ∷ t) u e = ap (λ v. c ∷ v) (take_all n t u (omega arith))

length-append : (t u : Text) → length (t ++ u) ≡ length t + length u
length-append [] u = omega arith
length-append (c ∷ t) u = omega (arith, length-append t u)

-- A text in its frame, with any two bytes in the place of the check sum.
abbrev pub framed : Text → ℕ → ℕ → Text
framed msg c d = b'$' ∷ (msg ++ (b'#' ∷ c ∷ d ∷ []))

strip-framed : (msg : Text) (c d : ℕ) → length msg < 4096 → strip (framed msg c d) ≡ msg
unfolding strip
strip-framed msg c d fits =
    let n = length-append msg (b'#' ∷ c ∷ d ∷ []) in
    take_all ((length (framed msg c d) + 2 ^ 64 - 4) % 2 ^ 64) msg (b'#' ∷ c ∷ d ∷ []) (omega arith)

abbrev pub low_byte : Text → ℕ
low_byte msg = bit_and (sum_from 0 msg) 0xff

pub packetify-framed :
    (msg : Text)
    → packetify msg ≡ framed msg (hex_digit (low_byte msg / 16)) (hex_digit (low_byte msg % 16))
unfolding packetify get_checksum_str hex2
packetify-framed msg = refl

pub low_byte-total : (msg : Text) → Plain msg → low_byte msg ≡ total msg % 256
low_byte-total msg p =
    omega
      (arith, bit_and-255 (sum_from 0 msg), sum_from-total 0 msg (omega arith) (Plain-Bytes msg p))

-- Adding and subtracting `#` changes nothing.
without_hash : (sum : ℕ) → sum < 2 ^ 32 → (with_hash sum + 2 ^ 32 - b'#') % 2 ^ 32 ≡ sum
without_hash sum lt = omega arith

sum_from-lt : (n : ℕ) (t : Text) → n < 2 ^ 32 → sum_from n t < 2 ^ 32
unfolding sum_from
sum_from-lt n [] lt = lt
sum_from-lt n (c ∷ t) lt = sum_from-lt ((n + sign_extend c) % 2 ^ 32) t (omega arith)

module _ {W : Type 0} (dbg : DebugSocket W) where
  -- After `#`, with two bytes that are digits, the message is delivered if and only if they stand
  -- for the sum.
  recv_checksum_lem :
      (str : Text) (sum c d v w : ℕ) (rest : Text) (s : GdbServer W)
      → digit_value c ≡ some v
      → digit_value d ≡ some w
      → recv_checksum dbg str sum (c ∷ d ∷ rest) s ≡ (
          if is_sum sum (v * 16 + w)
          then deliver dbg (str ++ (c ∷ d ∷ [])) (record s { stream = rest })
          else err check_sum_incorrect)
  unfolding recv_checksum
  recv_checksum_lem str sum c d v w rest s hc hd =
      let (_, lo, _, _, _) = digit_value_range c v hc in
      let (_, lo', _, _, _) = digit_value_range d w hd in
      let both : two_bytes c d ≡ c ∷ d ∷ [] = ground arith in
      let s' : GdbServer W = record s { stream = rest } in
      ap (λ t. checked dbg str sum t (stoi t) s') both
      ∙ ap (λ r. checked dbg str sum (c ∷ d ∷ []) r s') (stoi_2 c d v w hc hd)

  recv_packet_lem :
      (msg rest : Text) (s : GdbServer W)
      → Plain msg
      → length msg < 4095
      → recv_packet dbg (msg ++ (b'#' ∷ rest)) s
        ≡ recv_checksum dbg (b'$' ∷ (msg ++ (b'#' ∷ []))) (with_hash (sum_from 0 msg)) rest s
  unfolding recv_packet
  recv_packet_lem msg rest s p fits =
      rw (recv_body_lem (b'$' ∷ []) msg rest 0 p (omega arith), recv_packet) refl

  pub recv_msg_blocking_lem :
      (t rest : Text) (s : GdbServer W)
      → s.stream ≡ (b'$' ∷ t) ++ rest
      → recv_msg_blocking dbg s ≡ recv_packet dbg (t ++ rest) (record s { stream = t ++ rest })
  unfolding recv_msg_blocking recv_first
  recv_msg_blocking_lem t rest s arrived = ap (λ u. recv_first dbg u s) arrived

  deliver_lem :
      (msg : Text) (c d : ℕ) (s : GdbServer W)
      → length msg < 4095
      → deliver dbg (framed msg c d) s
        ≡ (call_split dbg (split_msg msg) >>= λ _ t. ok (framed msg c d, t)) s
  unfolding deliver decode_and_call
  deliver_lem msg c d s fits =
      ap (λ t. (call_split dbg (split_msg t) >>= λ _ u. ok (framed msg c d, u)) s)
        (strip-framed msg c d (omega arith))

  sum_checked :
      (msg : Text) (c d n : ℕ) (s : GdbServer W)
      → Plain msg
      → length msg < 4095
      → (if is_sum (with_hash (sum_from 0 msg)) n
          then deliver dbg ((b'$' ∷ (msg ++ (b'#' ∷ []))) ++ (c ∷ d ∷ [])) s
          else err check_sum_incorrect)
        ≡ (if total msg % 256 == n
            then (call_split dbg (split_msg msg) >>= λ _ t. ok (framed msg c d, t)) s
            else err check_sum_incorrect)
  sum_checked msg c d n s p fits =
      let sum = ap (λ m. bit_and m 0xff) (without_hash _ (sum_from-lt 0 msg (omega arith))) in
      let raw : Text = (b'$' ∷ (msg ++ (b'#' ∷ []))) ++ (c ∷ d ∷ []) in
      let text = ap (λ t. b'$' ∷ t) (append_assoc msg (b'#' ∷ []) (c ∷ d ∷ [])) in
      ap (λ m. if m == n then deliver dbg raw s else err check_sum_incorrect)
        (sum ∙ low_byte-total msg p)
      ∙ ap (λ r. if total msg % 256 == n then r else err check_sum_incorrect)
          (ap (λ t. deliver dbg t s) text ∙ deliver_lem msg c d s fits)

  -- A text of bytes that are neither zero nor `#`, of fewer than 4095 of them, between `$` and
  -- `#` with two digits behind it is delivered to the commands if the digits stand for the sum
  -- of its bytes modulo 256, and otherwise ends in the exception for a wrong check sum.
  pub recv_framed :
      (msg rest : Text) (c d v w : ℕ) (s : GdbServer W)
      → Plain msg
      → length msg < 4095
      → digit_value c ≡ some v
      → digit_value d ≡ some w
      → s.stream ≡ framed msg c d ++ rest
      → recv_msg_blocking dbg s ≡ (
          if total msg % 256 == v * 16 + w
          then (call_split dbg (split_msg msg) >>= λ _ t. ok (framed msg c d, t))
              (record s { stream = rest })
          else err check_sum_incorrect)
  recv_framed msg rest c d v w s p fits hc hd arrived =
      recv_msg_blocking_lem (msg ++ (b'#' ∷ c ∷ d ∷ [])) rest s arrived
      ∙ ap (λ t. recv_packet dbg t (record s { stream = t })) (append_assoc msg _ rest)
      ∙ recv_packet_lem msg (c ∷ d ∷ rest) (record s { stream = msg ++ (b'#' ∷ c ∷ d ∷ rest) }) p
          fits
      ∙ recv_checksum_lem (b'$' ∷ (msg ++ (b'#' ∷ []))) (with_hash (sum_from 0 msg)) c d v w rest
          (record s { stream = msg ++ (b'#' ∷ c ∷ d ∷ rest) }) hc hd
      ∙ sum_checked msg c d (v * 16 + w) (record s { stream = rest }) p fits
