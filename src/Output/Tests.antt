-- ===== src/Output/Tests.antt =====
-- `transmit` of two messages of which `sendmsg` takes three bytes.
use mathlib.Core.List.{flatten}
use doorhinges.Base.{◌≡◌, true, false, [], ◌∷◌, arith}
use doorhinges.Output.{Output, conn_mwrite, took, transmit_incomplete, next_message, transmit}
use doorhinges.Output.Pending.{Transmitted, transmit_lem}

abbrev two_messages : Output
two_messages = record {
  msglist = ((1 ∷ 2 ∷ []) ∷ (3 ∷ 4 ∷ []) ∷ []) ∷ ((5 ∷ []) ∷ []) ∷ [];
  msgcurr = 0;
  udp = false;
  state = conn_mwrite;
  bytes_written = 0;
}

transmit_lem_example :
    ((transmit (took 3) true two_messages).1 ≡ transmit_incomplete)
    × Transmitted
        (took 3)
        two_messages
        (transmit (took 3) true two_messages).0
        (transmit (took 3) true two_messages).1
unfolding next_message flatten
transmit_lem_example = transmit_lem (took 3) true two_messages (omega arith)
