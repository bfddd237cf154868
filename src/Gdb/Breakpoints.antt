-- ===== src/Gdb/Breakpoints.antt =====
-- src/gdb_server.cpp: the commands `Z` and `z`, and the set of breakpoints.
use tlmboy.Base.{
  ℕ, ◌≤◌, ◌<◌, ◌≡◌, ◌⊎◌, inl, inr, refl, ap, ◌∙◌, arith, true, not, ◌&&◌, ◌||◌, some, List, [], ◌∷◌,
  ◌++◌, u16, leb, ◌==◌, ==→eq, Bool-cases,
}
use tlmboy.Cpu.Debug.{DebugSocket}
use tlmboy.Gdb.Text.{Text, Result, ok, hex2, hex4, packetify}
use tlmboy.Gdb.Digits.{stoi-hex4}
use tlmboy.Gdb.Fields.{hex_field-hex4, comma_stops}
use tlmboy.Gdb.Split.{split_msg, groups, split_break_point, not_empty, text_eq, expect}
use tlmboy.Gdb.Fields.{number_bind}
use tlmboy.Gdb.Server.{
  GdbServer, contains, insert, erase, bp_reached, cmd_insert_bp, cmd_remove_bp, send_msg, msg_ack,
}
use tlmboy.Gdb.Dispatch.{call_split, call, cmd_map, handle}

contains-insert : (a x : ℕ) (bps : List ℕ) → contains (insert a bps) x ≡ (x == a || contains bps x)
unfolding insert contains
contains-insert a x bps = elim (Bool-cases (contains bps a)) [
  | inl old ↦ elim (Bool-cases (x == a)) [
    | inl same ↦ rw (old, insert) (rw same (ap (contains bps) (==→eq x a same) ∙ old))
    | inr other ↦ rw (old, insert) (rw other refl)
  ]
  | inr new ↦ rw (new, insert) (ground arith)
]

contains-erase :
    (a x : ℕ) (bps : List ℕ) → contains (erase a bps) x ≡ (not (x == a) && contains bps x)
unfolding erase contains
contains-erase a x [] = ground arith
contains-erase a x (b ∷ bps) = ground (arith, contains-erase a x bps)

-- `Z` or `z`, the kind, the address in four digits, and a kind that is not looked at.
abbrev pub bp_msg : ℕ → ℕ → ℕ → ℕ → Text
bp_msg name kind a k = name ∷ kind ∷ b',' ∷ (hex4 a ++ (b',' ∷ k ∷ []))

-- The parts of such a message.
split_break_point_lem :
    (name kind a k : ℕ)
    → (kind ≡ b'0') ⊎ (kind ≡ b'1')
    → a < 65536
    → 48 ≤ k
    → k ≤ 57
    → split_break_point name (kind ∷ b',' ∷ (hex4 a ++ (b',' ∷ k ∷ [])))
      ≡ some ((name ∷ []) ∷ (kind ∷ []) ∷ hex4 a ∷ (k ∷ []) ∷ [])
unfolding split_break_point expect
split_break_point_lem name kind a k kinds lt lo hi =
    let right : (kind == b'0' || kind == b'1') ≡ true = ground arith in
    let digit : (leb 48 k && leb k 57) ≡ true = ground arith in
    rw (right, split_break_point)
      (rw (hex_field-hex4 a (b',' ∷ k ∷ []) lt comma_stops) (rw (digit) refl))

split_msg-Z :
    (kind a k : ℕ)
    → (kind ≡ b'0') ⊎ (kind ≡ b'1')
    → a < 65536
    → 48 ≤ k
    → k ≤ 57
    → split_msg (bp_msg b'Z' kind a k) ≡ (b'Z' ∷ []) ∷ (kind ∷ []) ∷ hex4 a ∷ (k ∷ []) ∷ []
unfolding split_msg groups not_empty hex4 hex2
split_msg-Z kind a k kinds lt lo hi =
    rw (split_break_point_lem b'Z' kind a k kinds lt lo hi, split_msg, groups) refl

split_msg-z :
    (kind a k : ℕ)
    → (kind ≡ b'0') ⊎ (kind ≡ b'1')
    → a < 65536
    → 48 ≤ k
    → k ≤ 57
    → split_msg (bp_msg b'z' kind a k) ≡ (b'z' ∷ []) ∷ (kind ∷ []) ∷ hex4 a ∷ (k ∷ []) ∷ []
unfolding split_msg groups not_empty hex4 hex2
split_msg-z kind a k kinds lt lo hi =
    rw (split_break_point_lem b'z' kind a k kinds lt lo hi, split_msg, groups) refl

module _ {W : Type 0} (dbg : DebugSocket W) where
  -- The server after a change of the set: the message is acknowledged and answered by `OK`.
  abbrev pub with_bps : List ℕ → GdbServer W → GdbServer W
  with_bps bps s =
      send_msg (packetify (b'O' ∷ b'K' ∷ [])) (record (send_msg msg_ack s) { bp_set = bps })

  abbrev with_reply : GdbServer W → Result (Unit {0} × GdbServer W)
  with_reply s = ok (tt, send_msg (packetify (b'O' ∷ b'K' ∷ [])) s)

  cmd_insert_bp_lem :
      (kind a k : ℕ) (s : GdbServer W)
      → (kind ≡ b'0') ⊎ (kind ≡ b'1')
      → a < 65536
      → cmd_insert_bp ((b'Z' ∷ []) ∷ (kind ∷ []) ∷ hex4 a ∷ (k ∷ []) ∷ []) s
        ≡ ok (tt, send_msg (packetify (b'O' ∷ b'K' ∷ [])) (record s { bp_set = insert a s.bp_set }))
  unfolding cmd_insert_bp text_eq
  cmd_insert_bp_lem kind a k s kinds lt =
      let right : (kind == b'0' && true || kind == b'1' && true) ≡ true = ground arith in
      let same : u16 a ≡ a = omega arith in
      rw (right, cmd_insert_bp)
        (number_bind (hex4 a) a _ s (stoi-hex4 a lt)
          ∙ ap (λ v. with_reply (record s { bp_set = insert v s.bp_set })) same)

  cmd_remove_bp_lem :
      (kind a k : ℕ) (s : GdbServer W)
      → (kind ≡ b'0') ⊎ (kind ≡ b'1')
      → a < 65536
      → cmd_remove_bp ((b'z' ∷ []) ∷ (kind ∷ []) ∷ hex4 a ∷ (k ∷ []) ∷ []) s
        ≡ ok (tt, send_msg (packetify (b'O' ∷ b'K' ∷ [])) (record s { bp_set = erase a s.bp_set }))
  unfolding cmd_remove_bp text_eq
  cmd_remove_bp_lem kind a k s kinds lt =
      let right : (kind == b'0' && true || kind == b'1' && true) ≡ true = ground arith in
      let same : u16 a ≡ a = omega arith in
      rw (right, cmd_remove_bp)
        (number_bind (hex4 a) a _ s (stoi-hex4 a lt)
          ∙ ap (λ v. with_reply (record s { bp_set = erase v s.bp_set })) same)

  -- For the kinds 0 and 1 and a 16-bit address in four digits, the message `Z` adds the address
  -- to those at which `BpReached` holds, and `z` takes it away; both leave the other addresses
  -- as they are, are acknowledged and answered by `OK`, and change nothing else.
  pub bp_reached-call_split :
      (kind a k x : ℕ) (s : GdbServer W)
      → (kind ≡ b'0') ⊎ (kind ≡ b'1')
      → a < 65536
      → 48 ≤ k
      → k ≤ 57
      → x < 65536
      → (call_split dbg (split_msg (bp_msg b'Z' kind a k)) s
          ≡ ok (tt, with_bps (insert a s.bp_set) s))
        × (call_split dbg (split_msg (bp_msg b'z' kind a k)) s
            ≡ ok (tt, with_bps (erase a s.bp_set) s))
        × (bp_reached x (with_bps (insert a s.bp_set) s) ≡ (x == a || bp_reached x s))
        × (bp_reached x (with_bps (erase a s.bp_set) s) ≡ (not (x == a) && bp_reached x s))
  unfolding call_split call cmd_map handle text_eq bp_reached send_msg
  bp_reached-call_split kind a k x s kinds la lo hi lx =
      let same : u16 x ≡ x = omega arith in
      (
        ap (λ res. call_split dbg res s) (split_msg-Z kind a k kinds la lo hi)
            ∙ cmd_insert_bp_lem kind a k (send_msg msg_ack s) kinds la,
        ap (λ res. call_split dbg res s) (split_msg-z kind a k kinds la lo hi)
            ∙ cmd_remove_bp_lem kind a k (send_msg msg_ack s) kinds la,
        rw same (contains-insert a x s.bp_set),
        rw same (contains-erase a x s.bp_set),
      )
