-- ===== src/Machine.antt =====
-- ngix_module/AIS/ais.c, the state machine of a connection: `drive_machine` with `update_event`,
-- `reset_cmd_handler`, `conn_cleanup` and `conn_close`.
--
-- The machine puts together the input buffer (Input), the reply (Reply) and the output (Output),
-- whose `state` is that of the connection. What the calls of the system answer in a pass of the loop
-- is an argument, and so is `process_command`.
pub mod Texts
pub mod Events
pub mod Wakes
pub mod Swallow
pub mod Tests
use doorhinges.Base.{
  ℕ, zero, suc, ◌+◌, ◌-◌, Bool, true, false, not, ◌&&◌, ◌||◌, Option, none, some, List, [], ◌∷◌,
  ltb, ◌==◌, if◌then◌else◌, length, get_or, take,
}
use doorhinges.Input.{
  Input, TryReadResult, data_received, no_data_received, read_error, memory_error, Got, bytes,
  end_of_file, would_block, failed, Env, Line, need_more, give_up, line, try_read_udp,
  try_read_network, try_read_command, write_bytes,
}
use doorhinges.Output.{
  Output, ConnState, conn_listening, conn_new_cmd, conn_waiting, conn_read, conn_parse_cmd,
  conn_write, conn_swallow, conn_closing, conn_mwrite, conn_max_state, Sent, TransmitResult,
  transmit_complete, transmit_incomplete, transmit_soft_error, transmit_hard_error, transmit,
}
use doorhinges.Machine.Texts.{out_of_memory, not_supported}
use doorhinges.Reply.{Reply, conn_set_state, queue_text, build_udp_headers, out_string}

-- `ev_flags`: nothing, EV_READ or EV_WRITE, each with EV_PERSIST.
pub data EventFlags : Type 0 where
  ev_none : EventFlags
  ev_read : EventFlags
  ev_write : EventFlags

-- What `accept` and the calls behind it answer: none waits, or an error; EMFILE; a socket that
-- cannot be set to O_NONBLOCK; or one that can, with whether there are too many connections.
pub data Accepted : Type 0 where
  no_socket : Accepted
  too_many : Accepted
  blocking : Accepted
  socket : Bool → Accepted

-- The fields of `conn` that are not in its parts, and `nreqs`. `closed` says that `conn_close` has
-- given the connection back; `dispatched` and `rejected` count the new connections.
pub record Machine : Type 0 where
  pub input : Input
  pub reply : Reply
  pub ev_flags : EventFlags
  pub sbytes : ℕ
  pub hdrsize : ℕ
  pub binary : Bool
  pub nreqs : ℕ
  pub closed : Bool
  pub dispatched : ℕ
  pub rejected : ℕ

-- What the calls of a pass answer: `accept`; the reads of the socket; the packet; the read that throws
-- away, by the bytes it may read; `event_del` and `event_add`; the memory for the headers; `sendmsg`.
pub record Calls : Type 0 where
  pub accepted : Accepted
  pub env : Env
  pub packet : List ℕ
  pub thrown : ℕ → Got
  pub event_del : Bool
  pub event_add : Bool
  pub given : Bool
  pub sent : Sent

pub state_of : Machine → ConnState
state_of m = m.reply.output.state

pub set_state : ConnState → Machine → Machine
set_state s m = record m { reply = conn_set_state s m.reply }

abbrev pub same_flags : EventFlags → EventFlags → Bool
same_flags ev_none ev_none = true
same_flags ev_none ev_read = false
same_flags ev_none ev_write = false
same_flags ev_read ev_none = false
same_flags ev_read ev_read = true
same_flags ev_read ev_write = false
same_flags ev_write ev_none = false
same_flags ev_write ev_read = false
same_flags ev_write ev_write = true

-- `update_event`
pub update_event : Calls → EventFlags → Machine → Machine × Bool
update_event c flags m =
    if same_flags m.ev_flags flags
    then (m, true)
    else if c.event_del
    then (record m { ev_flags = flags }, c.event_add)
    else (m, false)

-- `reset_cmd_handler`
pub reset_cmd_handler : Machine → Machine
unfolding set_state
reset_cmd_handler m =
    if ltb 0 m.input.rbytes then set_state conn_parse_cmd m else set_state conn_waiting m

-- A pass that goes on, and one after which the loop ends.
abbrev pub go_on : Machine → Option (Machine × Bool)
go_on m = some (m, false)

abbrev pub stop : Machine → Option (Machine × Bool)
stop m = some (m, true)

-- On EMFILE the listening connections get no more events; the others of them are not in the state.
pub on_listening : Calls → Accepted → Machine → Option (Machine × Bool)
on_listening c no_socket m = stop m
on_listening c too_many m = stop (update_event c ev_none m).0
on_listening c blocking m = go_on m
on_listening c (socket true) m = stop (record m { rejected = m.rejected + 1 })
on_listening c (socket false) m = stop (record m { dispatched = m.dispatched + 1 })

pub on_waiting : Calls → Machine → Option (Machine × Bool)
on_waiting c m =
    let u = update_event c ev_read m in
    if u.1 then stop (set_state conn_read u.0) else go_on (set_state conn_closing u.0)

-- The state after a read; what `try_read_network` prepares when it has no memory is sent, and then
-- the connection closes.
pub after_read : TryReadResult → Machine → Machine
after_read no_data_received m = set_state conn_waiting m
after_read data_received m = set_state conn_parse_cmd m
after_read read_error m = set_state conn_closing m
after_read memory_error m = record m {
  reply = record (out_string out_of_memory m.reply) { write_and_go = conn_closing };
}

-- Whether `try_read_udp` prepares that reply to the bytes that it got, which it does before it returns that there is no data.
pub is_multi_packet : List ℕ → Bool
is_multi_packet packet =
    ltb 8 (length packet) && not (get_or packet 4 0 == 0 && get_or packet 5 0 == 1)

pub answer_packet : List ℕ → Machine → Machine
unfolding is_multi_packet
answer_packet packet m =
    if is_multi_packet packet then record m { reply = out_string not_supported m.reply } else m

pub on_read : Calls → Machine → Option (Machine × Bool)
on_read c m =
    let u = try_read_udp c.packet m.input in
    if m.reply.output.udp
    then go_on
        (after_read u.1 (answer_packet (take m.input.rsize c.packet) (record m { input = u.0 })))
    else elim (try_read_network c.env m.input) [
      | none ↦ none
      | some (r, i) ↦ go_on (after_read r (record m { input = i }))
    ]

module _ (process_command : List ℕ → Machine → Machine) where
  -- A line is processed while it is still in the buffer, with a zero at its end; `cont` is where the
  -- next one starts.
  pub process_line : List ℕ → (ℕ → ℕ) → ℕ → Machine → Machine
  process_line command rbuf cont m =
      let p = process_command command (record m { input = record m.input { rbuf = rbuf } }) in
      record p {
        input = record p.input { rbytes = p.input.rbytes - (cont - p.input.rcurr); rcurr = cont };
      }

  pub after_command : Line → Input → Machine → Machine
  after_command need_more i m = set_state conn_waiting m
  after_command give_up i m = set_state conn_closing m
  after_command (line command) i m = process_line command i.rbuf i.rcurr m

  pub on_parse_cmd : Machine → Option (Machine × Bool)
  on_parse_cmd m = let r = try_read_command m.input in go_on (after_command r.1 r.0 m)

pub on_new_cmd : Calls → Machine → Option (Machine × Bool)
on_new_cmd c m =
    let u = update_event c ev_write m in
    if not (m.nreqs == 0)
    then go_on (reset_cmd_handler (record m { nreqs = m.nreqs - 1 }))
    else if ltb 0 m.input.rbytes
    then (if u.1 then stop u.0 else stop (set_state conn_closing u.0))
    else stop m

-- The part of `sbytes` that is in the buffer.
pub swallow_buffered : Machine → Machine
swallow_buffered m =
    let tocopy = if ltb m.sbytes m.input.rbytes then m.sbytes else m.input.rbytes in
    record m {
      sbytes = m.sbytes - tocopy;
      input = record m.input { rcurr = m.input.rcurr + tocopy; rbytes = m.input.rbytes - tocopy };
    }

-- What is read to be thrown away.
pub swallow_read : Calls → Got → Machine → Option (Machine × Bool)
swallow_read c (bytes []) m = go_on (set_state conn_closing m)
swallow_read c (bytes (b ∷ bs)) m = go_on (record m {
  sbytes = m.sbytes - length (b ∷ bs);
  input = record m.input {
    rbuf = write_bytes m.input.rbuf 0 (b ∷ bs);
    bytes_read = m.input.bytes_read + length (b ∷ bs);
  };
})
swallow_read c end_of_file m = go_on (set_state conn_closing m)
swallow_read c would_block m =
    let u = update_event c ev_read m in if u.1 then stop u.0 else go_on (set_state conn_closing u.0)
swallow_read c failed m = go_on (set_state conn_closing m)

pub on_swallow : Calls → Machine → Option (Machine × Bool)
on_swallow c m =
    let room = if ltb m.sbytes m.input.rsize then m.sbytes else m.input.rsize in
    let read = swallow_read c (c.thrown room) m in
    if m.sbytes == 0
    then go_on (set_state conn_new_cmd m)
    else if ltb 0 m.input.rbytes
    then go_on (swallow_buffered m)
    else read

-- TRANSMIT_COMPLETE in the state in which the message was sent.
pub complete : ConnState → Machine → Machine
complete conn_mwrite m =
    if m.binary then set_state m.reply.write_and_go m else set_state conn_new_cmd m
complete conn_write m = set_state m.reply.write_and_go m
complete s m = set_state conn_closing m

-- What follows `transmit`, which leaves the flags `flags` where it updates the event.
pub after_transmit : TransmitResult → EventFlags → Machine → Option (Machine × Bool)
after_transmit transmit_complete flags m = go_on (complete (state_of m) m)
after_transmit transmit_incomplete flags m = go_on m
after_transmit transmit_hard_error flags m = go_on (record m { ev_flags = flags })
after_transmit transmit_soft_error flags m = stop (record m { ev_flags = flags })

-- The flags after `transmit`, which calls `update_event` only if `sendmsg` would block.
pub flags_after : Sent → Calls → Machine → EventFlags
flags_after doorhinges.Output.would_block c m = (update_event c ev_write m).0.ev_flags
flags_after s c m = m.ev_flags

pub send_messages : Calls → Machine → Option (Machine × Bool)
send_messages c m =
    let t = transmit c.sent (update_event c ev_write m).1 m.reply.output in
    after_transmit t.1 (flags_after c.sent c m)
      (record m { reply = record m.reply { output = t.0 } })

pub on_mwrite : Calls → Machine → Option (Machine × Bool)
on_mwrite c m =
    let h = build_udp_headers m.input.request_id m.hdrsize c.given m.reply in
    if m.reply.output.udp && m.reply.output.msgcurr == 0
    then (if h.0
        then send_messages c (record m { hdrsize = h.1; reply = h.2 })
        else go_on (set_state conn_closing m))
    else send_messages c m

pub on_write : ℕ → ℕ → Calls → Machine → Option (Machine × Bool)
on_write iov_max fuel c m = elim (queue_text iov_max fuel m.reply) [
  | none ↦ none
  | some (true, r) ↦ on_mwrite c (record m { reply = r })
  | some (false, r) ↦ go_on (record m { reply = r })
]

-- `conn_cleanup` and `conn_close`
pub on_closing : Machine → Option (Machine × Bool)
on_closing m =
    if m.reply.output.udp then stop (set_state conn_read m) else stop (record m { closed = true })

module _ (process_command : List ℕ → Machine → Machine) (iov_max fuel : ℕ) where
  -- A pass of the loop in `drive_machine`, which ends the loop if the flag is set.
  pub drive_at : ConnState → Calls → Machine → Option (Machine × Bool)
  drive_at conn_listening c m = on_listening c c.accepted m
  drive_at conn_waiting c m = on_waiting c m
  drive_at conn_read c m = on_read c m
  drive_at conn_parse_cmd c m = on_parse_cmd process_command m
  drive_at conn_new_cmd c m = on_new_cmd c m
  drive_at conn_swallow c m = on_swallow c m
  drive_at conn_write c m = on_write iov_max fuel c m
  drive_at conn_mwrite c m = on_mwrite c m
  drive_at conn_closing c m = on_closing m
  drive_at conn_max_state c m = none

  -- The loop, with what the calls of each pass answer: the machine when it ends, if it does.
  pub drive_machine : List Calls → Machine → Option (Machine × Bool)
  drive_machine [] m = go_on m
  drive_machine (c ∷ cs) m = elim (drive_at (state_of m) c m) [
    | none ↦ none
    | some (m', true) ↦ stop m'
    | some (m', false) ↦ drive_machine cs m'
  ]
