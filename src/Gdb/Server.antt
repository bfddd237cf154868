-- ===== src/Gdb/Server.antt =====
-- src/gdb_server.cpp: the server, and its commands but for those on memory. The socket of
-- src/tcp_server.cpp is the list of bytes that have arrived and the list of the texts sent.
use tlmboy.Base.{
  ℕ, zero, suc, ◌+◌, ◌*◌, ◌/◌, Bool, true, false, ◌||◌, none, some, List, [], ◌∷◌, ◌++◌, u16, leb,
  ◌==◌, if◌then◌else◌, length, get_or,
}
use tlmboy.Cpu.RegFile.{RegFile, Reg16, af, bc, de, hl, sp, pc, get16, set16}
use tlmboy.Cpu.State.{Cpu, reg16}
use tlmboy.Gdb.Text.{
  and_then, Text, Result, ok, err, assertion, take, drop, hex2, hex4, stoi, packetify,
}
use tlmboy.Gdb.Split.{text_eq, after}

-- `GdbServer`, with the CPU behind `cpu_` and its `halted_`, and the socket's two directions.
pub record GdbServer (W : Type 0) : Type 0 where
  pub is_attached : Bool
  pub bp_set : List ℕ
  pub cpu : Cpu W
  pub halted : Bool
  pub stream : Text
  pub sent : List Text

-- A set of addresses as a list without order: `std::set<u16>`.
unfoldable pub contains : List ℕ → ℕ → Bool
contains [] a = false
contains (b ∷ rest) a = b == a || contains rest a

unfoldable pub insert : ℕ → List ℕ → List ℕ
unfolding contains
insert a bps = if contains bps a then bps else a ∷ bps

unfoldable pub erase : ℕ → List ℕ → List ℕ
erase a [] = []
erase a (b ∷ bps) = if b == a then erase a bps else b ∷ erase a bps

-- `kMsgAck`, `kMsgEmpty` and `kMsgOk`, and `kMaxMessageLength`.
abbrev pub msg_ack : Text
msg_ack = b'+' ∷ []

abbrev pub msg_empty : Text
msg_empty = b'+' ∷ b'$' ∷ b'#' ∷ b'0' ∷ b'0' ∷ []

abbrev pub msg_ok : Text
msg_ok = b'+' ∷ b'$' ∷ b'O' ∷ b'K' ∷ b'#' ∷ b'9' ∷ b'a' ∷ []

abbrev pub max_message_length : ℕ
max_message_length = 4096

abbrev pub sigtrap : ℕ
sigtrap = 5

-- `std::rotl(data, 8)` of a `u16`.
unfoldable pub rotl8 : ℕ → ℕ
rotl8 v = u16 (v * 256) + v / 256

unfoldable pub repeat : ℕ → ℕ → Text
repeat zero c = []
repeat (suc n) c = c ∷ repeat n c

-- `CmdSupported`: `msg_split[1].find("hwbreak+;")`.
abbrev pub hwbreak : Text
hwbreak = 104 ∷ 119 ∷ 98 ∷ 114 ∷ 101 ∷ 97 ∷ 107 ∷ 43 ∷ 59 ∷ []

unfoldable pub finds : Text → Text → Bool
unfolding after
finds pattern [] = false
finds pattern (c ∷ t) =
    let later = finds pattern t in elim (after pattern (c ∷ t)) [ none ↦ later | some rest ↦ true ]

-- The loop of `CmdWriteReg` over `cpu_->reg_file`, from the place `i` on.
unfoldable pub write_registers : List Reg16 → ℕ → Text → RegFile → Result RegFile
write_registers [] i data_str regs = ok regs
write_registers (r ∷ rest) i data_str regs =
    and_then (stoi (take 4 (drop i data_str)))
      λ n. write_registers rest (i + 4) data_str (set16 r (rotl8 (u16 n)) regs)

abbrev pub M : Type 0 → Type 0 → Type 0
M W A = GdbServer W → Result (A × GdbServer W)

module _ {W : Type 0} where
  infixl 5 ◌>>=◌
  abbrev pub ◌>>=◌ : {A B : Type 0} → M W A → (A → M W B) → M W B
  ◌>>=◌ m k s = elim (m s) [ ok (x, s') ↦ k x s' | err e ↦ err e ]

  -- A number read from a text; the exception of `std::stoi` ends the handler.
  abbrev pub lift : Result ℕ → M W ℕ
  lift (ok n) s = ok (n, s)
  lift (err e) s = err e

  abbrev pub number : Text → M W ℕ
  number t = lift (stoi t)

  -- `tcp_server_.SendMsg`.
  unfoldable pub send_msg : Text → GdbServer W → GdbServer W
  send_msg msg s = record s { sent = s.sent ++ (msg ∷ []) }

  abbrev pub reply : Text → GdbServer W → Result (Unit {0} × GdbServer W)
  reply msg s = ok (tt, send_msg msg s)

  -- `Cpu::Halt` and `Cpu::Continue`.
  unfoldable pub halt : GdbServer W → GdbServer W
  halt s = record s { halted = true }

  unfoldable pub continue : GdbServer W → GdbServer W
  continue s = record s { halted = false }

  -- `BpReached`.
  unfoldable pub bp_reached : ℕ → GdbServer W → Bool
  unfolding contains
  bp_reached address s = contains s.bp_set (u16 address)

  -- `SendBpReached`.
  unfoldable pub send_bp_reached : GdbServer W → GdbServer W
  unfolding packetify send_msg hex2
  send_bp_reached s = send_msg (packetify (b'S' ∷ hex2 sigtrap)) s

  -- `CmdDetach`, `CmdAttached`, `CmdHalted`, `CmdNotFound` and `CmdContinue`.
  unfoldable pub cmd_detach : M W (Unit {0})
  unfolding continue send_msg
  cmd_detach s = reply msg_ok (continue (record s { is_attached = false }))

  unfoldable pub cmd_attached : M W (Unit {0})
  unfolding packetify send_msg
  cmd_attached s = reply (packetify (b'1' ∷ [])) (record s { is_attached = true })

  unfoldable pub cmd_halted : M W (Unit {0})
  unfolding halt packetify send_msg hex2
  cmd_halted s = reply (packetify (b'S' ∷ hex2 sigtrap)) (halt s)

  unfoldable pub cmd_not_found : M W (Unit {0})
  unfolding send_msg
  cmd_not_found s = reply msg_empty s

  unfoldable pub cmd_continue : M W (Unit {0})
  unfolding continue
  cmd_continue s = ok (tt, continue s)

  -- `CmdSupported`.
  unfoldable pub cmd_supported : List Text → M W (Unit {0})
  unfolding packetify send_msg finds
  cmd_supported msg_split s =
      reply (packetify (if finds hwbreak (get_or msg_split 1 []) then hwbreak else [])) s

  -- `CmdReadReg`: the registers with their bytes in memory order, and 28 times `x`.
  unfoldable pub register_text : GdbServer W → Reg16 → Text
  unfolding hex4 rotl8 get16
  register_text s r = hex4 (rotl8 (reg16 r s.cpu))

  unfoldable pub all_registers : GdbServer W → Text
  unfolding register_text
  all_registers s =
      register_text s af
      ++ (register_text s bc
          ++ (register_text s de
              ++ (register_text s hl ++ (register_text s sp ++ register_text s pc))))

  unfoldable pub cmd_read_reg : M W (Unit {0})
  unfolding packetify send_msg all_registers repeat
  cmd_read_reg s = reply (packetify (all_registers s ++ repeat (7 * 4) b'x')) s

  -- `CmdWriteReg`.
  abbrev pub put_registers : Result RegFile → M W (Unit {0})
  put_registers (err e) s = err e
  put_registers (ok regs) s = reply msg_ok (record s { cpu = record s.cpu { reg_file = regs } })

  unfoldable pub cmd_write_reg : List Text → M W (Unit {0})
  unfolding write_registers send_msg
  cmd_write_reg msg_split s =
      let data_str = get_or msg_split 1 [] in
      if leb 24 (length data_str)
      then put_registers
          (write_registers (af ∷ bc ∷ de ∷ hl ∷ sp ∷ pc ∷ []) 0 data_str s.cpu.reg_file) s
      else err assertion

  -- `CmdInsertBp` and `CmdRemoveBp`, which change a set of 16-bit addresses.
  abbrev pub change_bps : (ℕ → List ℕ → List ℕ) → List Text → M W (Unit {0})
  change_bps change msg_split s =
      let kind = get_or msg_split 1 [] in
      if text_eq kind (b'0' ∷ []) || text_eq kind (b'1' ∷ [])
      then (number (get_or msg_split 2 []) >>= λ addr s.
            reply (packetify (b'O' ∷ b'K' ∷ [])) (record s { bp_set = change (u16 addr) s.bp_set }))
          s
      else reply (packetify []) s

  unfoldable pub cmd_insert_bp : List Text → M W (Unit {0})
  unfolding packetify send_msg insert text_eq
  cmd_insert_bp msg_split = change_bps insert msg_split

  unfoldable pub cmd_remove_bp : List Text → M W (Unit {0})
  unfolding packetify send_msg erase text_eq
  cmd_remove_bp msg_split = change_bps erase msg_split
