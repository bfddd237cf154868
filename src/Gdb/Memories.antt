-- ===== src/Gdb/Memories.antt =====
-- src/gdb_server.cpp: the commands `M` and `m` over a memory.
use tlmboy.Base.{
  ℕ, zero, suc, ◌+◌, ◌*◌, ◌≤◌, ◌<◌, ◌≡◌, refl, sym, ap, ◌∙◌, arith, false, some, List, [], ◌∷◌,
  ◌++◌, u8, u16, ltb, ◌==◌, if◌then◌else◌, length,
}
use mathlib.Core.Path.{subst}
use tlmboy.Cpu.State.{Cpu}
use tlmboy.Cpu.Debug.{DebugSocket, read_bus_debug, write_bus_debug}
use tlmboy.Gdb.Text.{Text, ok, hex2, take, drop, stoi}
use tlmboy.Gdb.Digits.{Bytes, stoi-hex2}
use tlmboy.Gdb.Dispatch.{read_bytes, write_bytes, byte_at}

-- What the debugger relies on where a range of addresses is memory: a write is stored, and changes one
-- byte of the range only; a read gives the byte and changes nothing.
pub record DebugRam {W : Type 0} (dbg : DebugSocket W) : Type 0 where
  pub first : ℕ
  pub end : ℕ
  pub below_end : end ≤ 65536
  pub holds : W → ℕ → ℕ
  pub stored : W → ℕ → ℕ → W
  pub write_stored :
      (w : W) (a v : ℕ) → first ≤ a → a < end → v < 256 → dbg.write w a v ≡ some (stored w a v)
  pub holds_stored :
      (w : W) (a v b : ℕ)
      → first ≤ a
      → a < end
      → first ≤ b
      → b < end
      → holds (stored w a v) b ≡ (if b == a then v else holds w b)
  pub read_holds : (w : W) (a : ℕ) → first ≤ a → a < end → dbg.read w a ≡ (some (holds w a), w)

-- The digits of some bytes.
unfoldable pub bytes_text : List ℕ → Text
bytes_text [] = []
bytes_text (b ∷ bs) = hex2 b ++ bytes_text bs

take-drop : (t u : Text) (n i : ℕ) → length t ≡ i → take n (drop i (t ++ u)) ≡ take n u
take-drop [] u n zero e = refl
take-drop [] u n (suc i) e = absurd (omega arith)
take-drop (c ∷ t) u n zero e = absurd (omega arith)
take-drop (c ∷ t) u n (suc i) e = take-drop t u n i (omega arith)

append_assoc : (t u v : Text) → (t ++ u) ++ v ≡ t ++ (u ++ v)
append_assoc [] u v = refl
append_assoc (c ∷ t) u v = ap (λ w. c ∷ w) (append_assoc t u v)

length-append : (t u : Text) → length (t ++ u) ≡ length t + length u
length-append [] u = omega arith
length-append (c ∷ t) u = omega (arith, length-append t u)

-- The number at place `i`.
byte_at_lem :
    (t u : Text) (b i : ℕ) → length t ≡ i * 2 → b < 256 → byte_at i (t ++ (hex2 b ++ u)) ≡ ok b
unfolding byte_at hex2
byte_at_lem t u b i e lt =
    let n = length-append t (hex2 b ++ u) in
    let inside : ltb (length (t ++ (hex2 b ++ u))) (i * 2) ≡ false = ground arith in
    rw (inside, byte_at) (ap stoi (take-drop t (hex2 b ++ u) 2 (i * 2) e) ∙ stoi-hex2 b lt)

module _ {W : Type 0} (dbg : DebugSocket W) (ram : DebugRam dbg) where
  -- Some bytes written from an address on, and the bytes that stand there.
  abbrev pub stored_all : ℕ → List ℕ → W → W
  stored_all a [] w = w
  stored_all a (b ∷ bs) w = stored_all (suc a) bs (ram.stored w a b)

  abbrev pub Holds : ℕ → List ℕ → W → Type 0
  Holds a [] w = Unit {0}
  Holds a (b ∷ bs) w = (ram.holds w a ≡ b) × Holds (suc a) bs w

  stored_all-before :
      (a : ℕ) (bs : List ℕ) (w : W) (b : ℕ)
      → ram.first ≤ b
      → b < a
      → a + length bs ≤ ram.end
      → ram.holds (stored_all a bs w) b ≡ ram.holds w b
  stored_all-before a [] w b lo lt fits = refl
  stored_all-before a (v ∷ bs) w b lo lt fits =
      let kept = ram.holds_stored w a v b (omega arith) (omega arith) (omega arith) (omega arith) in
      stored_all-before (suc a) bs (ram.stored w a v) b lo (omega arith) (omega arith)
      ∙ ground (arith, kept)

  pub stored_all-Holds :
      (a : ℕ) (bs : List ℕ) (w : W)
      → ram.first ≤ a
      → a + length bs ≤ ram.end
      → Holds a bs (stored_all a bs w)
  stored_all-Holds a [] w lo fits = tt
  stored_all-Holds a (v ∷ bs) w lo fits =
      let put = ram.holds_stored w a v a lo (omega arith) lo (omega arith) in
      (
        stored_all-before (suc a) bs (ram.stored w a v) a lo (omega arith) (omega arith)
            ∙ ground (arith, put),
        stored_all-Holds (suc a) bs (ram.stored w a v) (omega arith) (omega arith),
      )

  written :
      (a b : ℕ) (s : Cpu W)
      → ram.first ≤ a
      → a < ram.end
      → b < 256
      → write_bus_debug dbg a b s ≡ some (record s { world = ram.stored s.world a b })
  unfolding write_bus_debug
  written a b s lo la lb =
      let e1 : u16 a ≡ a = omega (arith, ram.below_end) in
      let e2 : u8 b ≡ b = omega arith in
      rw (e1, e2, ram.write_stored s.world a b lo la lb, write_bus_debug) refl

  found :
      (a b : ℕ) (s : Cpu W)
      → ram.first ≤ a
      → a < ram.end
      → b < 256
      → ram.holds s.world a ≡ b
      → read_bus_debug dbg a s ≡ (b, s)
  unfolding read_bus_debug
  found a b s lo la lb h =
      let e1 : u16 a ≡ a = omega (arith, ram.below_end) in
      rw (e1, ram.read_holds s.world a lo la, read_bus_debug) (ap (λ v. (v, s)) (omega arith))

  -- The two loops.
  two_more : (t : Text) (b i : ℕ) → length t ≡ i * 2 → length (t ++ hex2 b) ≡ (i + 1) * 2
  unfolding hex2
  two_more t b i e = omega (arith, length-append t (hex2 b))

  pub write_bytes_lem :
      (t : Text) (bs : List ℕ) (i addr : ℕ) (s : Cpu W)
      → Bytes bs
      → length t ≡ i * 2
      → ram.first ≤ addr + i
      → addr + i + length bs ≤ ram.end
      → write_bytes dbg (length bs) i addr (t ++ bytes_text bs) s
        ≡ ok (record s { world = stored_all (addr + i) bs s.world })
  unfolding write_bytes bytes_text
  write_bytes_lem t [] i addr s bytes e lo fits = refl
  write_bytes_lem t (b ∷ bs) i addr s bytes e lo fits =
      let s' : Cpu W = record s { world = ram.stored s.world (addr + i) b } in
      let done : write_bus_debug dbg (addr + i) b s ≡ some s' =
        written (addr + i) b s lo (omega arith) bytes.0 in
      let n = length-append t (hex2 b) in
      rw (byte_at_lem t (bytes_text bs) b i e bytes.0, write_bytes)
        (rw (done) (
          ap (λ u. write_bytes dbg (length bs) (i + 1) addr u s')
            (sym (append_assoc t (hex2 b) (bytes_text bs)))
          ∙ write_bytes_lem (t ++ hex2 b) bs (i + 1) addr s' bytes.1 (two_more t b i e)
              (omega arith) (omega arith)
          ∙ ap (λ a. ok (record s { world = stored_all a bs (ram.stored s.world (addr + i) b) }))
              (omega arith)))

  pub read_bytes_lem :
      (bs : List ℕ) (i addr : ℕ) (s : Cpu W)
      → Bytes bs
      → Holds (addr + i) bs s.world
      → ram.first ≤ addr + i
      → addr + i + length bs ≤ ram.end
      → read_bytes dbg (length bs) i addr s ≡ (bytes_text bs, s)
  unfolding read_bytes bytes_text
  read_bytes_lem [] i addr s bytes h lo fits = refl
  read_bytes_lem (b ∷ bs) i addr s bytes h lo fits =
      let at : addr + (i + 1) ≡ suc (addr + i) = omega arith in
      let later =
        read_bytes_lem bs (i + 1) addr s bytes.1 (subst (λ a. Holds a bs s.world) (sym at) h.1)
          (omega arith) (omega arith) in
      rw (found (addr + i) b s lo (omega arith) bytes.0 h.0, read_bytes)
        (rw (later, read_bytes) refl)
