-- ===== src/Machine/Wakes.antt =====
-- Where the loop of `drive_machine` ends, an event will go on with the connection.
use doorhinges.Base.{
  ℕ, ◌≡◌, refl, sym, ap, ◌∙◌, inl, inr, Bool, true, false, ◌&&◌, Option, none, some, List, [], ◌∷◌,
  ltb, ◌==◌, if◌then◌else◌, Bool-cases, subst,
}
use doorhinges.Input.{Got, bytes, end_of_file, would_block, failed}
use doorhinges.Output.{
  ConnState, conn_listening, conn_new_cmd, conn_waiting, conn_read, conn_parse_cmd, conn_write,
  conn_swallow, conn_closing, conn_mwrite, conn_max_state, TransmitResult, transmit_complete,
  transmit_incomplete, transmit_soft_error, transmit_hard_error, transmit,
}
use doorhinges.Output.Pending.{transmit_soft}
use doorhinges.Reply.{Reply, queue_text, build_udp_headers}
use doorhinges.Reply.State.{GoesOn, queue_text-GoesOn, build_udp_headers_state}
use doorhinges.Machine.{
  EventFlags, ev_read, ev_write, Machine, Calls, state_of, update_event, swallow_read, on_swallow,
  after_transmit, flags_after, send_messages, on_mwrite, on_write, on_parse_cmd, drive_at,
  drive_machine,
}
use doorhinges.Machine.Events.{
  Woken, Wakes, update_event_done, update_event_kept, on_listening-Wakes, on_waiting-Wakes,
  on_read-Wakes, on_closing-Wakes, on_new_cmd-Wakes,
}

swallow_read-Wakes :
    (c : Calls) (g : Got) (m : Machine)
    → state_of m ≡ conn_swallow
    → Wakes c conn_swallow (swallow_read c g m)
unfolding swallow_read state_of
swallow_read-Wakes c (bytes []) m e = tt
swallow_read-Wakes c (bytes (b ∷ bs)) m e = tt
swallow_read-Wakes c end_of_file m e = tt
swallow_read-Wakes c would_block m e = elim (Bool-cases ((update_event c ev_read m).1)) [
  | inl done ↦ rw done (
      subst (λ s. Woken c conn_swallow s (update_event c ev_read m).0)
        (sym (ap (λ r. r.output.state) (update_event_kept c ev_read m).0 ∙ e))
        (update_event_done c ev_read m done))
  | inr not_done ↦ rw not_done tt
]
swallow_read-Wakes c failed m e = tt

on_swallow-Wakes :
    (c : Calls) (m : Machine) → state_of m ≡ conn_swallow → Wakes c conn_swallow (on_swallow c m)
unfolding on_swallow
on_swallow-Wakes c m e = elim (Bool-cases (m.sbytes == 0)) [
  | inl all ↦ rw all tt
  | inr some_left ↦ elim (Bool-cases (ltb 0 m.input.rbytes)) [
    | inl buffered ↦ rw (some_left, buffered) tt
    | inr empty ↦
        rw (some_left, empty)
          (swallow_read-Wakes c
            (c.thrown (if ltb m.sbytes m.input.rsize then m.sbytes else m.input.rsize)) m e)
  ]
]

-- The states in which messages are sent.
is_sending : ConnState → Bool
is_sending conn_write = true
is_sending conn_mwrite = true
is_sending s = false

sending-Woken :
    (c : Calls) (b s : ConnState) (m : Machine)
    → is_sending s ≡ true
    → m.ev_flags ≡ ev_write
    → Woken c b s m
unfolding is_sending
sending-Woken c b conn_listening m h e = cc
sending-Woken c b conn_new_cmd m h e = cc
sending-Woken c b conn_waiting m h e = cc
sending-Woken c b conn_read m h e = cc
sending-Woken c b conn_parse_cmd m h e = cc
sending-Woken c b conn_write m h e = e
sending-Woken c b conn_swallow m h e = cc
sending-Woken c b conn_closing m h e = cc
sending-Woken c b conn_mwrite m h e = e
sending-Woken c b conn_max_state m h e = cc

after_transmit-Wakes :
    (c : Calls) (b : ConnState) (r : TransmitResult) (flags : EventFlags) (m : Machine)
    → (r ≡ transmit_soft_error → (flags ≡ ev_write) × (is_sending (state_of m) ≡ true))
    → Wakes c b (after_transmit r flags m)
unfolding after_transmit state_of
after_transmit-Wakes c b transmit_complete flags m h = tt
after_transmit-Wakes c b transmit_incomplete flags m h = tt
after_transmit-Wakes c b transmit_soft_error flags m h =
    sending-Woken c b m.reply.output.state (record m { ev_flags = flags }) (h refl).1 (h refl).0
after_transmit-Wakes c b transmit_hard_error flags m h = tt

send_messages-Wakes :
    (c : Calls) (b : ConnState) (m : Machine)
    → is_sending (state_of m) ≡ true
    → Wakes c b (send_messages c m)
unfolding send_messages flags_after state_of
send_messages-Wakes c b m e =
    let u = update_event c ev_write m in
    let t = transmit c.sent u.1 m.reply.output in
    after_transmit-Wakes c b t.1 (flags_after c.sent c m)
      (record m { reply = record m.reply { output = t.0 } })
      (λ soft.
        let (blocks, told, kept) = transmit_soft c.sent u.1 m.reply.output soft in
        (
          ap (λ s. flags_after s c m) blocks ∙ update_event_done c ev_write m told,
          ap is_sending kept ∙ e,
        ))

sent_state :
    (m : Machine) (size : ℕ) (r : Reply)
    → is_sending (state_of m) ≡ true
    → r.output.state ≡ m.reply.output.state
    → is_sending (state_of (record m { hdrsize = size; reply = r })) ≡ true
unfolding state_of
sent_state m size r e same = ap is_sending same ∙ e

on_mwrite-Wakes :
    (c : Calls) (b : ConnState) (m : Machine)
    → is_sending (state_of m) ≡ true
    → Wakes c b (on_mwrite c m)
unfolding on_mwrite
on_mwrite-Wakes c b m e =
    let h = build_udp_headers m.input.request_id m.hdrsize c.given m.reply in
    elim (Bool-cases (m.reply.output.udp && m.reply.output.msgcurr == 0)) [
      | inl first ↦ elim (Bool-cases (h.0)) [
        | inl built ↦
            rw (first, built)
              (send_messages-Wakes c b (record m { hdrsize = h.1; reply = h.2 })
                (sent_state m h.1 h.2 e
                  (build_udp_headers_state m.input.request_id m.hdrsize c.given m.reply)))
        | inr not_built ↦ rw (first, not_built) tt
      ]
      | inr later ↦ rw later (send_messages-Wakes c b m e)
    ]

on_write-Wakes :
    (n fuel : ℕ) (c : Calls) (b : ConnState) (m : Machine)
    → is_sending (state_of m) ≡ true
    → Wakes c b (on_write n fuel c m)
unfolding on_write
on_write-Wakes n fuel c b m e =
    of_text (queue_text n fuel m.reply) (queue_text-GoesOn n fuel m.reply)
  where
    of_text :
        (r : Option (Bool × Reply))
        → GoesOn m.reply r
        → Wakes c b (elim r [
          | none ↦ none
          | some (true, d) ↦ on_mwrite c (record m { reply = d })
          | some (false, d) ↦ some (record m { reply = d }, false)
        ])
    of_text none k = tt
    of_text (some (true, d)) k =
        on_mwrite-Wakes c b (record m { reply = d }) (sent_state m m.hdrsize d e k)
    of_text (some (false, d)) k = tt

module _ (process_command : List ℕ → Machine → Machine) (n fuel : ℕ) where
  drive_at-Wakes :
      (s : ConnState) (c : Calls) (m : Machine)
      → state_of m ≡ s
      → Wakes c s (drive_at process_command n fuel s c m)
  unfolding drive_at on_parse_cmd is_sending
  drive_at-Wakes conn_listening c m e = on_listening-Wakes c c.accepted m e
  drive_at-Wakes conn_new_cmd c m e = on_new_cmd-Wakes c m e
  drive_at-Wakes conn_waiting c m e = on_waiting-Wakes c m
  drive_at-Wakes conn_read c m e = on_read-Wakes c m
  drive_at-Wakes conn_parse_cmd c m e = tt
  drive_at-Wakes conn_write c m e = on_write-Wakes n fuel c conn_write m (ap is_sending e)
  drive_at-Wakes conn_swallow c m e = on_swallow-Wakes c m e
  drive_at-Wakes conn_closing c m e = on_closing-Wakes c m e
  drive_at-Wakes conn_mwrite c m e = on_mwrite-Wakes c conn_mwrite m (ap is_sending e)
  drive_at-Wakes conn_max_state c m e = tt

  -- The passes of the loop so far: with the calls `cs` from `m`, to `rest` from `last`.
  pub data Passes : List Calls → Machine → List Calls → Machine → Type 0 where
    here : (cs : List Calls) (m : Machine) → Passes cs m cs m
    next :
        (c : Calls) {cs rest : List Calls} {m m' last : Machine}
        → drive_at process_command n fuel (state_of m) c m ≡ some (m', false)
        → Passes cs m' rest last
        → Passes (c ∷ cs) m rest last

  -- The loop ends in `m'`: its passes lead to the machine `last`, from which the one with the calls `c`
  -- is the last, and the machine that this one leaves will be woken.
  pub record Ended (cs : List Calls) (m m' : Machine) : Type 0 where
    pub last : Machine
    pub c : Calls
    pub rest : List Calls
    pub passes : Passes cs m (c ∷ rest) last
    pub ends : drive_at process_command n fuel (state_of last) c last ≡ some (m', true)
    pub woken : Woken c (state_of last) (state_of m') m'

  abbrev Ends : List Calls → Machine → Option (Machine × Bool) → Type 0
  Ends cs m none = Unit {0}
  Ends cs m (some (m', false)) = Unit {0}
  Ends cs m (some (m', true)) = Ended cs m m'

  Ends-next :
      (c : Calls) (cs : List Calls) (m m1 : Machine) (r : Option (Machine × Bool))
      → drive_at process_command n fuel (state_of m) c m ≡ some (m1, false)
      → Ends cs m1 r
      → Ends (c ∷ cs) m r
  Ends-next c cs m m1 none e w = tt
  Ends-next c cs m m1 (some (m', false)) e w = tt
  Ends-next c cs m m1 (some (m', true)) e w = record {
    last = w.last;
    c = w.c;
    rest = w.rest;
    passes = next c e w.passes;
    ends = w.ends;
    woken = w.woken;
  }

  pass-Ends :
      (c : Calls) (cs : List Calls) (m : Machine)
      → ((m1 : Machine) → Ends cs m1 (drive_machine process_command n fuel cs m1))
      → (r : Option (Machine × Bool)) → drive_at process_command n fuel (state_of m) c m ≡ r
      → Wakes c (state_of m) r
      → Ends (c ∷ cs) m (elim r [
        | none ↦ none
        | some (m', true) ↦ some (m', true)
        | some (m', false) ↦ drive_machine process_command n fuel cs m'
      ])
  pass-Ends c cs m h none e w = tt
  pass-Ends c cs m h (some (m', true)) e w = record {
    last = m;
    c = c;
    rest = cs;
    passes = here (c ∷ cs) m;
    ends = e;
    woken = w;
  }
  pass-Ends c cs m h (some (m1, false)) e w =
      Ends-next c cs m m1 (drive_machine process_command n fuel cs m1) e (h m1)

  drive_machine-Ends :
      (cs : List Calls) (m : Machine) → Ends cs m (drive_machine process_command n fuel cs m)
  unfolding drive_machine
  drive_machine-Ends [] m = tt
  drive_machine-Ends (c ∷ cs) m =
      pass-Ends c cs m (drive_machine-Ends cs) (drive_at process_command n fuel (state_of m) c m)
        refl (drive_at-Wakes (state_of m) c m refl)

  -- Where the loop of `drive_machine` ends, there is a pass that is the last one, to which the passes
  -- before it lead, and by which it ends: in `conn_write` and `conn_mwrite` with the event for room to
  -- write; in `conn_swallow` and, over a stream, in `conn_read` with that for bytes to read; in
  -- `conn_new_cmd` with no bytes buffered or with the event for room to write; in `conn_closing` with
  -- the connection given back, unless the last pass began in `conn_new_cmd` and its `event_del` or
  -- `event_add` failed. The loop does not end in `conn_waiting`, `conn_parse_cmd` or `conn_max_state`;
  -- of a listening connection nothing is said.
  pub drive_machine_wakes :
      (cs : List Calls) (m m' : Machine)
      → drive_machine process_command n fuel cs m ≡ some (m', true)
      → Ended cs m m'
  drive_machine_wakes cs m m' h = subst (Ends cs m) h (drive_machine-Ends cs m)
