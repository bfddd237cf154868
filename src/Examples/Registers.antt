-- ===== src/Examples/Registers.antt =====
-- The I/O registers at concrete states.
use tlmboy.Base.{ℕ, ◌%◌, ◌≡◌, inr, refl, arith, false, some, [], ◌==◌, if◌then◌else◌}
use tlmboy.Tlm.{read, write, ignore, ok_response, command_error}
use tlmboy.Bus.{Target}
use tlmboy.Io.{IoRegisters, dma_transfer, b_transport}
use tlmboy.Io.Readback.{read-write_lem}
use tlmboy.Io.Dma.{Copyable, copied, dma_transfer_lem}

abbrev registers : IoRegisters
registers = record {
  cells = λ j. if j == 0x16 then 0x80 else 0x55;
  levels = λ s. false;
  requests = [];
}

-- A bus that only the registers are on.
abbrev quiet : Target IoRegisters
quiet cmd adr dat r = (ok_response dat, r)

abbrev alone : Target IoRegisters
alone = b_transport (λ r. r) (λ r w. r) quiet 0

read-write_example : (alone read 0x01 0 (alone write 0x01 0x81 registers).1).0 ≡ ok_response 0xBF
read-write_example =
    read-write_lem (λ r. r) (λ r w. r) quiet 0 (λ r w. refl) 0x01 0x81 0 registers (omega arith)
      (omega arith) refl (inr refl)

-- Memory alone.
abbrev memory : Target (ℕ → ℕ)
memory read adr dat w = (ok_response (w adr), w)
memory write adr dat w = (ok_response dat, λ a. if a == adr then dat else w a)
memory ignore adr dat w = (command_error, w)

abbrev memory-Copyable : Copyable memory 0xC1
memory-Copyable = record {
  peek = λ w a. w a;
  poke = λ at v w. λ a. if a == at then v else w a;
  read_source = λ i d w h. refl;
  write_oam = λ i v w h. refl;
  peek-poke = λ i v b w h. refl;
}

abbrev numbered : ℕ → ℕ
numbered a = a % 256

dma_transfer_example :
    (dma_transfer memory 7 0xC1 numbered
      ≡ some (copied memory 0xC1 memory-Copyable 0xA0 0 numbered))
    × (copied memory 0xC1 memory-Copyable 0xA0 0 numbered 0xFE05 ≡ 5)
    × (copied memory 0xC1 memory-Copyable 0xA0 0 numbered 0xFEA7 ≡ 0xA7)
dma_transfer_example =
    dma_transfer_lem memory 0xC1 memory-Copyable 7 5 0xFEA7 numbered (omega arith) (omega arith)
      (inr (omega arith))
