-- ===== src/Tlm.antt =====
-- What a module sees of a transaction (tlm_generic_payload): the command, and how it is answered.
use tlmboy.Base.{ℕ}

pub data Command : Type 0 where
  read write ignore : Command

-- The response status, with the byte that the data pointer holds afterwards.
pub data Response : Type 0 where
  ok_response : ℕ → Response
  command_error : Response
  address_error : Response
  -- The status is left as the initiator set it, or as the transaction before left it.
  unanswered : ℕ → Response
  -- An `assert` that fails.
  assertion : Response
