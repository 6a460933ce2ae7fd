-- ===== src/Machine/Tests.antt =====
-- Passes of the state machine on a connection over TCP.
use doorhinges.Base.{ℕ, ◌≡◌, refl, Bool, true, false, some, List, [], ◌∷◌, arith, suc, zero, ◌⊎◌}
use doorhinges.Input.{would_block, bytes, Got}
use doorhinges.Output.{
  ConnState, conn_new_cmd, conn_waiting, conn_read, conn_closing, conn_swallow, Sent,
}
use doorhinges.Reply.{conn_set_state}
use doorhinges.Machine.{
  ev_none, ev_read, ev_write, Machine, Calls, no_socket, state_of, set_state, update_event,
  reset_cmd_handler, on_waiting, on_new_cmd, drive_at, drive_machine,
}
use doorhinges.Machine.Swallow.{IsAtMost, Left, swallow_sum, drive_machine_swallows}
use doorhinges.Machine.Wakes.{Ended, drive_machine_wakes}

abbrev machine_at : ConnState → ℕ → ℕ → Machine
machine_at s nreqs rbytes = record {
  input = record {
    rbuf = λ p. 97;
    rcurr = 0;
    rbytes = rbytes;
    rsize = 16;
    bytes_read = 0;
    request_id = 0;
    closing = false;
  };
  reply = record {
    output = record { msglist = []; msgcurr = 0; udp = false; state = s; bytes_written = 0 };
    msgsize = 2;
    iovsize = 1;
    iovused = 0;
    msgbytes = 0;
    realloced = [];
    noreply = false;
    wbuf = 0 ∷ 0 ∷ 0 ∷ 0 ∷ [];
    wsize = 4;
    wcurr = 0;
    wbytes = 0;
    write_and_go = conn_new_cmd;
  };
  ev_flags = ev_none;
  sbytes = 0;
  hdrsize = 0;
  binary = false;
  nreqs = nreqs;
  closed = false;
  dispatched = 0;
  rejected = 0;
}

-- The calls of a pass in which no bytes have come.
abbrev nothing_comes : Bool → Calls
nothing_comes added = record {
  accepted = no_socket;
  env = record { read = λ i n. would_block; realloc = λ i. true };
  packet = [];
  thrown = λ n. would_block;
  event_del = true;
  event_add = added;
  given = true;
  sent = doorhinges.Output.would_block;
}

-- A socket with two bytes for each read.
abbrev read_two : ℕ → Got
read_two zero = bytes []
read_two (suc zero) = bytes (7 ∷ [])
read_two (suc (suc n)) = bytes (7 ∷ 7 ∷ [])

abbrev two_come : Calls
two_come = record (nothing_comes true) { thrown = read_two }

two_come-IsAtMost : (n : ℕ) → IsAtMost n (two_come.thrown n)
two_come-IsAtMost zero = omega arith
two_come-IsAtMost (suc zero) = omega arith
two_come-IsAtMost (suc (suc n)) = omega arith

abbrev do_nothing : List ℕ → Machine → Machine
do_nothing command m = m

-- A connection whose request is answered waits for the next one.
drive_machine_wakes_example :
    Ended do_nothing 16 100
      (nothing_comes true ∷ nothing_comes true ∷ [])
      (machine_at conn_new_cmd 1 0)
      (record (machine_at conn_read 0 0) { ev_flags = ev_read })
unfolding drive_machine drive_at on_new_cmd on_waiting reset_cmd_handler update_event state_of
    set_state conn_set_state
drive_machine_wakes_example =
    drive_machine_wakes do_nothing 16 100 (nothing_comes true ∷ nothing_comes true ∷ [])
      (machine_at conn_new_cmd 1 0) (record (machine_at conn_read 0 0) { ev_flags = ev_read }) refl

-- A connection with bytes of a next request, whose turn is over and whose event cannot be updated,
-- is neither closed nor has an event.
left_behind :
    drive_machine do_nothing 16 100 (nothing_comes false ∷ []) (machine_at conn_new_cmd 0 3)
    ≡ some (record (machine_at conn_closing 0 3) { ev_flags = ev_write }, true)
unfolding drive_machine drive_at on_new_cmd update_event state_of set_state conn_set_state
left_behind = refl

-- Three bytes to throw away, one of which is in the buffer.
abbrev three_left : Machine
three_left = record (machine_at conn_swallow 1 1) { sbytes = 3 }

abbrev four_passes : List Calls
four_passes = two_come ∷ two_come ∷ two_come ∷ two_come ∷ []

drive_machine_swallows_example :
    (m' : Machine) × (cs' : List Calls) × (swallow_sum m' ≡ 3)
    × ((drive_machine do_nothing 16 100 four_passes three_left ≡ some (m', true))
        ⊎ (drive_machine do_nothing 16 100 four_passes three_left
            ≡ drive_machine do_nothing 16 100 cs' m')
          × Left m')
unfolding state_of
drive_machine_swallows_example =
    drive_machine_swallows do_nothing 16 100 four_passes three_left refl
      (two_come-IsAtMost, (two_come-IsAtMost, (two_come-IsAtMost, (two_come-IsAtMost, tt))))
      (omega arith)
