-- ===== src/Output.antt =====
-- ngix_module/AIS/ais.c, the write side of a connection: `transmit`, which sends the messages that
-- are queued, and the states of a connection in ais.h.
--
-- `msglist` is the list of the messages in use, each the list of its fragments, and a fragment the
-- list of its bytes: an `iovec`. What `sendmsg` and `update_event` return is an argument.
pub mod Pending
pub mod Tests
use doorhinges.Base.{
  ℕ, zero, suc, ◌+◌, ◌-◌, Bool, true, false, ◌&&◌, List, [], ◌∷◌, ltb, leb, ◌==◌, if◌then◌else◌,
  length, get_or, set, drop,
}

-- `enum conn_states`
pub data ConnState : Type 0 where
  conn_listening conn_new_cmd conn_waiting conn_read conn_parse_cmd conn_write conn_swallow :
      ConnState
  conn_closing conn_mwrite conn_max_state : ConnState

-- `enum transmit_result`
pub data TransmitResult : Type 0 where
  transmit_complete transmit_incomplete transmit_soft_error transmit_hard_error : TransmitResult

-- The result of `sendmsg`: how many bytes it took, -1 with EAGAIN or EWOULDBLOCK, or -1 with
-- another error.
pub data Sent : Type 0 where
  took : ℕ → Sent
  would_block : Sent
  failed : Sent

-- The fields of `conn` that `transmit` uses, and `stats.bytes_written` of the thread.
pub record Output : Type 0 where
  pub msglist : List (List (List ℕ))
  pub msgcurr : ℕ
  pub udp : Bool
  pub state : ConnState
  pub bytes_written : ℕ

abbrev pub is_done : List (List ℕ) → Bool
is_done [] = true
is_done (b ∷ bs) = false

-- Taking `res` bytes from the fragments of a message: whole fragments, then a part of one.
pub advance : ℕ → List (List ℕ) → List (List ℕ)
advance res [] = []
advance res (b ∷ bs) =
    let rest = advance (res - length b) bs in if leb (length b) res then rest else drop res b ∷ bs

-- The step to the next message when the current one is done.
pub next_message : Output → Output
next_message o =
    if ltb o.msgcurr (length o.msglist) && is_done (get_or o.msglist o.msgcurr [])
    then record o { msgcurr = o.msgcurr + 1 }
    else o

-- `res > 0`
pub taken : ℕ → Output → Output
taken res o = record o {
  msglist = set o.msglist o.msgcurr (advance res (get_or o.msglist o.msgcurr []));
  bytes_written = o.bytes_written + res;
}

-- An error of the socket.
pub fail : Output → Output × TransmitResult
fail o = (record o { state = if o.udp then conn_read else conn_closing }, transmit_hard_error)

-- What follows the call of `sendmsg`; the flag is the result of `update_event`.
pub after_send : Sent → Bool → Output → Output × TransmitResult
unfolding taken fail
after_send (took zero) updated o = fail o
after_send (took (suc n)) updated o = (taken (suc n) o, transmit_incomplete)
after_send would_block true o = (o, transmit_soft_error)
after_send would_block false o = (record o { state = conn_closing }, transmit_hard_error)
after_send failed updated o = fail o

-- `transmit`
pub transmit : Sent → Bool → Output → Output × TransmitResult
transmit sent updated o =
    let p = next_message o in
    if ltb p.msgcurr (length p.msglist) then after_send sent updated p else (p, transmit_complete)
