-- ===== src/Gdb/Commands.antt =====
-- src/gdb_server.cpp: the commands leave the bytes alone that are still to come.
use tlmboy.Base.{
  ℕ, zero, suc, ◌+◌, ◌≡◌, refl, Bool, true, false, Option, none, some, List, [], ◌∷◌, leb,
  if◌then◌else◌, length, get_or,
}
use tlmboy.Cpu.Debug.{DebugSocket}
use tlmboy.Cpu.RegFile.{RegFile, Reg16, af, bc, de, hl, sp, pc}
use tlmboy.Cpu.State.{Cpu}
use tlmboy.Gdb.Text.{
  and_then, assertion, response_error, int_of, unsigned, signed, skip_space, Text, Fault, Result,
  ok, err, invalid_argument, out_of_range, blocked, still_pending, stoi,
}
use tlmboy.Gdb.Server.{
  insert, erase, GdbServer, M, msg_ack, write_registers, cmd_halted, cmd_read_reg, cmd_write_reg,
  cmd_detach, cmd_continue, cmd_insert_bp, cmd_remove_bp, cmd_supported, cmd_attached,
  cmd_not_found, send_msg, halt, continue, put_registers, number, lift, change_bps, ◌>>=◌,
}
use tlmboy.Gdb.Dispatch.{
  Handler, on_halted, on_read_reg, on_write_reg, on_detach, on_read_mem, on_write_mem, on_continue,
  on_insert_bp, on_remove_bp, on_supported, on_attached, handle, handle_found, call_split, call,
  cmd_map, reported, write_bytes, byte_at, cmd_read_mem, cmd_write_mem, put_cpu,
}

-- A fault that the code throws: neither a lack of rounds nor a wait for bytes to come.
abbrev pub IsReal : Fault → Type 0
IsReal still_pending = ⊥
IsReal blocked = ⊥
IsReal e = Unit {0}

pub data InTime {A : Type 0} : Result A → Type 0 where
  done : (a : A) → InTime (ok a)
  failed : (e : Fault) → IsReal e → InTime (err e)

-- The same, and the bytes still to come are those of a given stream.
pub data Keeps {W A : Type 0} (stream : Text) : Result (A × GdbServer W) → Type 0 where
  kept : (a : A) (s : GdbServer W) → s.stream ≡ stream → Keeps stream (ok (a, s))
  lost : (e : Fault) → IsReal e → Keeps stream (err e)

if-InTime :
    {A : Type 0} (t : Bool) {x y : Result A} → InTime x → InTime y → InTime (if t then x else y)
if-InTime true p q = p
if-InTime false p q = q

pub if-Keeps :
    {W A : Type 0} {stream : Text} (t : Bool) {x y : Result (A × GdbServer W)}
    → Keeps stream x
    → Keeps stream y
    → Keeps stream (if t then x else y)
if-Keeps true p q = p
if-Keeps false p q = q

and_then-InTime :
    {A B : Type 0} {r : Result A} {f : A → Result B}
    → InTime r
    → ((a : A) → InTime (f a))
    → InTime (and_then r f)
and_then-InTime (done a) q = q a
and_then-InTime (failed e h) q = failed e h

int_of-InTime : (b : Bool) (n : ℕ) → InTime (int_of b n)
int_of-InTime true n = if-InTime _ (done _) (failed out_of_range tt)
int_of-InTime false n = if-InTime _ (done _) (failed out_of_range tt)

unsigned-InTime : (b : Bool) (t : Text) → InTime (unsigned b t)
unsigned-InTime b t = if-InTime _ (int_of-InTime b _) (failed invalid_argument tt)

signed-InTime : (t : Text) → InTime (signed t)
signed-InTime [] = unsigned-InTime false []
signed-InTime (c ∷ t) =
    if-InTime _ (unsigned-InTime true t)
      (if-InTime _ (unsigned-InTime false t) (unsigned-InTime false (c ∷ t)))

pub stoi-InTime : (t : Text) → InTime (stoi t)
unfolding stoi
stoi-InTime t = signed-InTime (skip_space t)

write_registers-InTime :
    (rs : List Reg16) (i : ℕ) (t : Text) (regs : RegFile) → InTime (write_registers rs i t regs)
unfolding write_registers
write_registers-InTime [] i t regs = done regs
write_registers-InTime (r ∷ rs) i t regs =
    and_then-InTime (stoi-InTime _) λ n. write_registers-InTime rs (i + 4) t _

byte_at-InTime : (i : ℕ) (t : Text) → InTime (byte_at i t)
unfolding byte_at
byte_at-InTime i t = if-InTime _ (failed out_of_range tt) (stoi-InTime _)

reported-InTime : {A : Type 0} (o : Option A) → InTime (reported o)
reported-InTime none = failed response_error tt
reported-InTime (some a) = done a

module _ {W : Type 0} (dbg : DebugSocket W) where
  write_bytes-InTime : (n i addr : ℕ) (t : Text) (s : Cpu W) → InTime (write_bytes dbg n i addr t s)
  unfolding write_bytes
  write_bytes-InTime zero i addr t s = done s
  write_bytes-InTime (suc n) i addr t s =
      and_then-InTime (byte_at-InTime i t)
        λ dat. and_then-InTime (reported-InTime _) λ s'. write_bytes-InTime n (i + 1) addr t s'

  -- A chain that reads a number.
  number-Keeps :
      (t : Text) (k : ℕ → M W (Unit {0})) (s : GdbServer W)
      → ((n : ℕ) → Keeps s.stream (k n s))
      → Keeps s.stream ((number t >>= k) s)
  number-Keeps t k s q = lifted (stoi t) (stoi-InTime t)
    where
      lifted : (r : Result ℕ) → InTime r → Keeps s.stream ((lift r >>= k) s)
      lifted (ok n) h = q n
      lifted (err e) (failed _ h) = lost e h

  change_bps-Keeps :
      (change : ℕ → List ℕ → List ℕ) (res : List Text) (s : GdbServer W)
      → Keeps s.stream (change_bps change res s)
  unfolding send_msg
  change_bps-Keeps change res s = if-Keeps _ (number-Keeps _ _ s λ n. kept _ _ refl) (kept _ _ refl)

  put_registers-Keeps :
      (r : Result RegFile) (s : GdbServer W) → InTime r → Keeps s.stream (put_registers r s)
  unfolding send_msg
  put_registers-Keeps (ok x) s h = kept _ _ refl
  put_registers-Keeps (err e) s (failed _ h) = lost e h

  put_cpu-Keeps :
      (r : Result (Cpu W)) (s : GdbServer W) → InTime r → Keeps s.stream (put_cpu dbg r s)
  unfolding send_msg
  put_cpu-Keeps (ok x) s h = kept _ _ refl
  put_cpu-Keeps (err e) s (failed _ h) = lost e h

  handle-Keeps :
      (h : Handler) (res : List Text) (s : GdbServer W) → Keeps s.stream (handle dbg h res s)
  unfolding handle cmd_halted cmd_read_reg cmd_write_reg cmd_detach cmd_read_mem cmd_write_mem
      cmd_continue cmd_insert_bp cmd_remove_bp cmd_supported cmd_attached halt continue send_msg
  handle-Keeps on_write_reg res s =
      let data_str = get_or res 1 [] in
      let all = af ∷ bc ∷ de ∷ hl ∷ sp ∷ pc ∷ [] in
      if-Keeps (leb 24 (length data_str))
        (put_registers-Keeps _ s (write_registers-InTime all 0 data_str s.cpu.reg_file))
        (lost assertion tt)
  handle-Keeps on_read_mem res s = number-Keeps _ _ s λ a. number-Keeps _ _ s λ n. kept tt _ refl
  handle-Keeps on_write_mem res s =
      number-Keeps _ _ s
        λ a. number-Keeps _ _ s λ n. put_cpu-Keeps _ s (write_bytes-InTime n 0 a _ _)
  handle-Keeps on_insert_bp res s = change_bps-Keeps insert res s
  handle-Keeps on_remove_bp res s = change_bps-Keeps erase res s
  handle-Keeps on_halted res s = kept tt _ refl
  handle-Keeps on_read_reg res s = kept tt _ refl
  handle-Keeps on_detach res s = kept tt _ refl
  handle-Keeps on_continue res s = kept tt _ refl
  handle-Keeps on_supported res s = kept tt _ refl
  handle-Keeps on_attached res s = kept tt _ refl

  handle_found-Keeps :
      (h : Option Handler) (res : List Text) (s : GdbServer W)
      → Keeps s.stream (handle_found dbg h res s)
  handle_found-Keeps none res s = lost assertion tt
  handle_found-Keeps (some h) res s = handle-Keeps h res s

  pub call_split-Keeps : (res : List Text) (s : GdbServer W) → Keeps s.stream (call_split dbg res s)
  unfolding call_split call cmd_not_found send_msg
  call_split-Keeps [] s = kept tt _ refl
  call_split-Keeps (name ∷ res) s =
      handle_found-Keeps (cmd_map name) (name ∷ res) (send_msg msg_ack s)
