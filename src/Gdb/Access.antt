-- ===== src/Gdb/Access.antt =====
-- src/gdb_server.cpp: the messages `M` and `m` over a memory.
use tlmboy.Base.{
  ℕ, ◌+◌, ◌≤◌, ◌<◌, ◌≡◌, refl, sym, ap, ◌∙◌, arith, some, List, [], ◌∷◌, ◌++◌, length,
}
use mathlib.Core.Path.{subst}
use tlmboy.Cpu.Debug.{DebugSocket}
use tlmboy.Gdb.Text.{Text, ok, hex2, hex4, packetify}
use tlmboy.Gdb.Digits.{Bytes, stoi-hex2, stoi-hex4}
use tlmboy.Gdb.Fields.{
  AllHex, AllHex-append, hex2-AllHex, hex_field-hex2, hex_field-hex4, hex_field_all, comma_stops,
  colon_stops, number_bind,
}
use tlmboy.Gdb.Split.{split_msg, groups, split_write, split_read, not_empty, expect, text_eq}
use tlmboy.Gdb.Server.{GdbServer, send_msg, msg_ok, msg_ack, ◌>>=◌}
use tlmboy.Gdb.Dispatch.{
  cmd_read_mem, cmd_write_mem, put_cpu, send_bytes, call_split, call, cmd_map, handle,
}
use tlmboy.Gdb.Memories.{
  DebugRam, bytes_text, stored_all, Holds, stored_all-Holds, write_bytes_lem, read_bytes_lem,
}

-- The messages, with the address in four digits and the number of bytes in two.
abbrev pub write_msg : ℕ → List ℕ → Text
write_msg a bs = b'M' ∷ (hex4 a ++ (b',' ∷ (hex2 (length bs) ++ (b':' ∷ bytes_text bs))))

abbrev pub read_msg : ℕ → ℕ → Text
read_msg a n = b'm' ∷ (hex4 a ++ (b',' ∷ hex2 n))

bytes_text-AllHex : (bs : List ℕ) → Bytes bs → AllHex (bytes_text bs)
unfolding bytes_text
bytes_text-AllHex [] p = tt
bytes_text-AllHex (b ∷ bs) p =
    AllHex-append (hex2 b) (bytes_text bs) (hex2-AllHex b p.0) (bytes_text-AllHex bs p.1)

split_write_lem :
    (a b : ℕ) (bs : List ℕ)
    → Bytes (b ∷ bs)
    → a < 65536
    → length (b ∷ bs) < 256
    → split_write (hex4 a ++ (b',' ∷ (hex2 (length (b ∷ bs)) ++ (b':' ∷ bytes_text (b ∷ bs)))))
      ≡ some ((b'M' ∷ []) ∷ hex4 a ∷ hex2 (length (b ∷ bs)) ∷ bytes_text (b ∷ bs) ∷ [])
unfolding split_write expect bytes_text hex2
split_write_lem a b bs p la ln =
    let n = length (b ∷ bs) in
    rw
      (
        hex_field-hex4 a (b',' ∷ (hex2 n ++ (b':' ∷ bytes_text (b ∷ bs)))) la comma_stops,
        split_write,
      )
      (rw (hex_field-hex2 n (b':' ∷ bytes_text (b ∷ bs)) ln colon_stops)
        (rw (hex_field_all _ _ (bytes_text-AllHex (b ∷ bs) p)) refl))

split_read_lem :
    (a n : ℕ)
    → a < 65536
    → n < 256
    → split_read (hex4 a ++ (b',' ∷ hex2 n)) ≡ some ((b'm' ∷ []) ∷ hex4 a ∷ hex2 n ∷ [])
unfolding split_read expect hex2
split_read_lem a n la ln =
    rw (hex_field-hex4 a (b',' ∷ hex2 n) la comma_stops, split_read)
      (rw (hex_field_all _ _ (hex2-AllHex n ln)) refl)

split_msg-write :
    (a b : ℕ) (bs : List ℕ)
    → Bytes (b ∷ bs)
    → a < 65536
    → length (b ∷ bs) < 256
    → split_msg (write_msg a (b ∷ bs))
      ≡ (b'M' ∷ []) ∷ hex4 a ∷ hex2 (length (b ∷ bs)) ∷ bytes_text (b ∷ bs) ∷ []
unfolding split_msg groups not_empty hex4 hex2 bytes_text
split_msg-write a b bs p la ln = rw (split_write_lem a b bs p la ln, split_msg, groups) refl

split_msg-read :
    (a n : ℕ) → a < 65536 → n < 256 → split_msg (read_msg a n) ≡ (b'm' ∷ []) ∷ hex4 a ∷ hex2 n ∷ []
unfolding split_msg groups not_empty hex4 hex2
split_msg-read a n la ln = rw (split_read_lem a n la ln, split_msg, groups) refl

start : (a : ℕ) → a + 0 ≡ a
start a = omega arith

module _ {W : Type 0} (dbg : DebugSocket W) (ram : DebugRam dbg) where
  -- The server after both messages: the bytes stand in memory, and four texts have been sent.
  abbrev pub accessed : ℕ → List ℕ → GdbServer W → GdbServer W
  accessed a bs s =
      let w = stored_all dbg ram a bs s.cpu.world in
      let stored = record (send_msg msg_ack s) { cpu = record s.cpu { world = w } } in
      send_msg (packetify (bytes_text bs)) (send_msg msg_ack (send_msg msg_ok stored))

  cmd_write_mem_lem :
      (a b : ℕ) (bs : List ℕ) (s : GdbServer W)
      → Bytes (b ∷ bs)
      → length (b ∷ bs) < 256
      → ram.first ≤ a
      → a + length (b ∷ bs) ≤ ram.end
      → cmd_write_mem dbg
          ((b'M' ∷ []) ∷ hex4 a ∷ hex2 (length (b ∷ bs)) ∷ bytes_text (b ∷ bs) ∷ [])
          s
        ≡ ok (
          tt,
          send_msg msg_ok (record s {
            cpu = record s.cpu { world = stored_all dbg ram a (b ∷ bs) s.cpu.world };
          }),
        )
  unfolding cmd_write_mem
  cmd_write_mem_lem a b bs s p ln lo fits =
      let n = length (b ∷ bs) in
      number_bind (hex4 a) a _ s (stoi-hex4 a (omega (arith, ram.below_end)))
      ∙ number_bind (hex2 n) n _ s (stoi-hex2 n ln)
      ∙ ap (λ r. put_cpu dbg r s)
          (write_bytes_lem dbg ram [] (b ∷ bs) 0 a s.cpu p refl (omega arith) (omega arith)
            ∙ ap (λ at. ok (record s.cpu { world = stored_all dbg ram at (b ∷ bs) s.cpu.world }))
                (start a))

  cmd_read_mem_lem :
      (a : ℕ) (bs : List ℕ) (s : GdbServer W)
      → Bytes bs
      → length bs < 256
      → a < 65536
      → ram.first ≤ a
      → a + length bs ≤ ram.end
      → Holds dbg ram a bs s.cpu.world
      → cmd_read_mem dbg ((b'm' ∷ []) ∷ hex4 a ∷ hex2 (length bs) ∷ []) s
        ≡ ok (tt, send_msg (packetify (bytes_text bs)) s)
  unfolding cmd_read_mem
  cmd_read_mem_lem a bs s p ln la lo fits h =
      let n = length bs in
      number_bind (hex4 a) a _ s (stoi-hex4 a la)
      ∙ number_bind (hex2 n) n _ s (stoi-hex2 n ln)
      ∙ ap (λ r. send_bytes dbg r s)
          (read_bytes_lem dbg ram bs 0 a s.cpu p
            (subst (λ at. Holds dbg ram at bs s.cpu.world) (sym (start a)) h) (omega arith)
            (omega arith))

  -- Over a range of the 16-bit addresses that is memory, which stores what is written and reads
  -- it back, the message `M` with up to 255 bytes for a part of the range stores them one after
  -- the other, and the message `m` for the same part is answered by just their digits; nothing
  -- else of the server changes but the texts sent.
  pub call_split-write-read :
      (a b : ℕ) (bs : List ℕ) (s : GdbServer W)
      → Bytes (b ∷ bs)
      → length (b ∷ bs) < 256
      → ram.first ≤ a
      → a + length (b ∷ bs) ≤ ram.end
      → (call_split dbg (split_msg (write_msg a (b ∷ bs))) >>= λ _.
            call_split dbg (split_msg (read_msg a (length (b ∷ bs)))))
          s
        ≡ ok (tt, accessed a (b ∷ bs) s)
  unfolding call_split call cmd_map handle text_eq send_msg
  call_split-write-read a b bs s p ln lo fits =
      let n = length (b ∷ bs) in
      let w = stored_all dbg ram a (b ∷ bs) s.cpu.world in
      let la : a < 65536 = omega (arith, ram.below_end) in
      let t : GdbServer W =
        send_msg msg_ok (record (send_msg msg_ack s) { cpu = record s.cpu { world = w } }) in
      let first : call_split dbg (split_msg (write_msg a (b ∷ bs))) s ≡ ok (tt, t) =
        ap (λ res. call_split dbg res s) (split_msg-write a b bs p la ln)
        ∙ cmd_write_mem_lem a b bs (send_msg msg_ack s) p ln lo fits in
      let second : call_split dbg (split_msg (read_msg a n)) t ≡ ok (tt, accessed a (b ∷ bs) s) =
        ap (λ res. call_split dbg res t) (split_msg-read a n la ln)
        ∙ cmd_read_mem_lem a (b ∷ bs) (send_msg msg_ack t) p ln la lo fits
            (stored_all-Holds dbg ram a (b ∷ bs) s.cpu.world lo fits) in
      rw (first, ◌>>=◌) second
