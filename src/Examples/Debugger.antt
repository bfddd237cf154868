-- ===== src/Examples/Debugger.antt =====
-- A debugger over a plain memory, and its messages.
use tlmboy.Base.{
  ◌≤◌, ◌<◌, ap, true, none, leb, ltb, ◌&&◌, if◌then◌else◌, List, ℕ, ◌≡◌, inl, refl, arith, true,
  false, not, ◌&&◌, ◌||◌, some, [], ◌∷◌, ◌++◌, ◌==◌,
}
use tlmboy.Cpu.RegFile.{get16, get8, msb_of, lsb_of}
use tlmboy.Cpu.Debug.{DebugSocket}
use tlmboy.Cartridge.{update}
use tlmboy.Examples.{plain, cpu, regs}
use tlmboy.Gdb.Text.{digit_value, Text, ok, err, check_sum_incorrect, packetify}
use tlmboy.Gdb.Split.{split_msg}
use tlmboy.Gdb.Server.{
  GdbServer, bp_reached, contains, insert, erase, send_msg, msg_ok, msg_ack, all_registers,
  continue, ◌>>=◌,
}
use tlmboy.Gdb.Dispatch.{call_split}
use tlmboy.Gdb.Receive.{recv_msg_blocking, handle_messages, is_running}
use tlmboy.Gdb.Framing.{framed, recv_framed}
use tlmboy.Gdb.Delivery.{recv_msg_blocking-packetify}
use tlmboy.Gdb.Registers.{call_split-all_registers}
use tlmboy.Gdb.Breakpoints.{bp_msg, with_bps, bp_reached-call_split}
use tlmboy.Gdb.Memories.{DebugRam}
use tlmboy.Gdb.Access.{write_msg, read_msg, accessed, call_split-write-read}
use tlmboy.Gdb.Pending.{Message, single, frame, stream_of, Finished, handle_messages-Finished}
use tlmboy.Gdb.Stops.{continued, is_running-continued}

-- Every address answers.
abbrev debug_plain : DebugSocket (ℕ → ℕ)
debug_plain = record { read = λ w a. (some (w a), w); write = λ w a v. some (update a v w) }

-- Only the work RAM answers.
abbrev debug_work : DebugSocket (ℕ → ℕ)
debug_work = record {
  read = λ w a. if leb 0xC000 a && ltb a 0xE000 then (some (w a), w) else (none, w);
  write = λ w a v. if leb 0xC000 a && ltb a 0xE000 then some (update a v w) else none;
}

in_work : (a : ℕ) → 0xC000 ≤ a → a < 0xE000 → (leb 0xC000 a && ltb a 0xE000) ≡ true
in_work a lo hi = ground arith

abbrev debug_ram : DebugRam debug_work
debug_ram = record {
  first = 0xC000;
  end = 0xE000;
  below_end = omega arith;
  holds = λ w a. w a;
  stored = λ w a v. update a v w;
  write_stored =
      λ w a v lo hi lv. ap (λ b. if b then some (update a v w) else none) (in_work a lo hi);
  holds_stored = λ w a v b la ha lb hb. refl;
  read_holds = λ w a lo hi. ap (λ b. if b then (some (w a), w) else (none, w)) (in_work a lo hi);
}

-- A server with these bytes to come, and a breakpoint at the PC of the processor.
abbrev server : Text → GdbServer (ℕ → ℕ)
server stream = record {
  is_attached = true;
  bp_set = 0x1234 ∷ [];
  cpu = cpu;
  halted = true;
  stream = stream;
  sent = [];
}

-- `g`, and a `+` behind it.
abbrev g_msg : Text
g_msg = b'g' ∷ []

recv_msg_blocking-packetify_example :
    recv_msg_blocking debug_plain (server (packetify g_msg ++ (b'+' ∷ [])))
    ≡ (call_split debug_plain (split_msg g_msg) >>= λ _ t. ok (packetify g_msg, t))
        (server (b'+' ∷ []))
recv_msg_blocking-packetify_example =
    recv_msg_blocking-packetify debug_plain g_msg (b'+' ∷ [])
      (server (packetify g_msg ++ (b'+' ∷ []))) (omega arith) (omega arith) refl

-- The sum of `g` is 0x67, and not 0x68.
recv_framed_example :
    recv_msg_blocking debug_plain (server (framed g_msg b'6' b'8')) ≡ err check_sum_incorrect
unfolding digit_value
recv_framed_example =
    recv_framed debug_plain g_msg [] b'6' b'8' 6 8 (server (framed g_msg b'6' b'8')) (omega arith)
      (omega arith) refl refl refl

call_split-all_registers_example :
    call_split debug_plain
      (split_msg (b'G' ∷ (all_registers (server []) ++ (b'0' ∷ []))))
      (server [])
    ≡ ok (tt, send_msg msg_ok (send_msg msg_ack (server [])))
unfolding send_msg digit_value
call_split-all_registers_example =
    call_split-all_registers debug_plain (server []) (server []) (b'0' ∷ []) (omega arith)
      (refl, tt)

bp_reached_example :
    (call_split debug_plain (split_msg (bp_msg b'Z' b'0' 0x150 b'1')) (server [])
      ≡ ok (tt, with_bps debug_plain (insert 0x150 (0x1234 ∷ [])) (server [])))
    × (call_split debug_plain (split_msg (bp_msg b'z' b'0' 0x150 b'1')) (server [])
        ≡ ok (tt, with_bps debug_plain (erase 0x150 (0x1234 ∷ [])) (server [])))
    × (bp_reached 0x150 (with_bps debug_plain (insert 0x150 (0x1234 ∷ [])) (server []))
        ≡ (0x150 == 0x150 || bp_reached 0x150 (server [])))
    × (bp_reached 0x150 (with_bps debug_plain (erase 0x150 (0x1234 ∷ [])) (server []))
        ≡ (not (0x150 == 0x150) && bp_reached 0x150 (server [])))
bp_reached_example =
    bp_reached-call_split debug_plain b'0' 0x150 b'1' 0x150 (server []) (inl refl) (omega arith)
      (omega arith) (omega arith) (omega arith)

call_split-write-read_example :
    (call_split debug_work (split_msg (write_msg 0xC000 (7 ∷ 255 ∷ []))) >>= λ _.
    call_split debug_work (split_msg (read_msg 0xC000 2)))
      (server [])
    ≡ ok (tt, accessed debug_work debug_ram 0xC000 (7 ∷ 255 ∷ []) (server []))
call_split-write-read_example =
    call_split-write-read debug_work debug_ram 0xC000 7 (255 ∷ []) (server []) (omega arith)
      (omega arith) (omega arith) (omega arith)

-- An acknowledgement, a frame with a wrong check sum, and one more byte.
abbrev messages : List Message
messages = single b'+' ∷ frame (b'g' ∷ []) b'0' b'0' ∷ single 3 ∷ []

handle_messages-Finished_example :
    Finished debug_plain (handle_messages debug_plain 3 (server (stream_of messages)))
handle_messages-Finished_example =
    handle_messages-Finished debug_plain messages 3 (server (stream_of messages))
      (omega arith, ((omega arith, tt), (omega arith, tt))) refl (omega arith)

is_running-continued_example :
    ((is_running plain (continue (continued plain 3 (server [])))).0 ≡ false)
    × ((continued plain 3 (server [])).cpu.reg_file ≡ regs)
unfolding bp_reached contains get16 get8 msb_of lsb_of
is_running-continued_example = is_running-continued plain 3 (server []) refl
