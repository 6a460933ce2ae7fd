-- ===== src/Machine/Events.antt =====
-- What the states of `drive_machine` that read no body leave a connection waiting for
-- (ngix_module/AIS/ais.c).
use doorhinges.Base.{
  ◌≡◌, refl, sym, ap, ◌∙◌, ◌⊎◌, inl, inr, Bool, true, false, ◌&&◌, Option, none, some, arith, ltb,
  ◌==◌, if◌then◌else◌, Bool-cases, Option-cases, subst,
}
use doorhinges.Input.{try_read_network}
use doorhinges.Output.{
  ConnState, conn_listening, conn_new_cmd, conn_waiting, conn_read, conn_parse_cmd, conn_write,
  conn_swallow, conn_closing, conn_mwrite, conn_max_state,
}
use doorhinges.Reply.{conn_set_state}
use doorhinges.Machine.{
  EventFlags, ev_none, ev_read, ev_write, Machine, Calls, Accepted, no_socket, too_many, blocking,
  socket, state_of, set_state, same_flags, update_event, on_listening, on_waiting, on_read,
  on_new_cmd, on_closing,
}

-- What will go on with a machine in a state after a pass that began in the state `s`: an event for the
-- bytes to read or for room to write, or nothing where the connection is given back, or where a pass of
-- `conn_new_cmd` could not update the event.
abbrev pub Woken : Calls → ConnState → ConnState → Machine → Type 0
Woken c s conn_listening m = Unit {0}
Woken c s conn_new_cmd m = (m.input.rbytes ≡ 0) ⊎ (m.ev_flags ≡ ev_write)
Woken c s conn_waiting m = ⊥
Woken c s conn_read m = (m.reply.output.udp ≡ true) ⊎ (m.ev_flags ≡ ev_read)
Woken c s conn_parse_cmd m = ⊥
Woken c s conn_write m = m.ev_flags ≡ ev_write
Woken c s conn_swallow m = m.ev_flags ≡ ev_read
Woken c s conn_closing m =
    (m.closed ≡ true) ⊎ ((s ≡ conn_new_cmd) × ((c.event_del && c.event_add) ≡ false))
Woken c s conn_mwrite m = m.ev_flags ≡ ev_write
Woken c s conn_max_state m = ⊥

-- What a pass from the state `s` promises: if it ends the loop, the machine will be woken.
abbrev pub Wakes : Calls → ConnState → Option (Machine × Bool) → Type 0
Wakes c s none = Unit {0}
Wakes c s (some (m, false)) = Unit {0}
Wakes c s (some (m, true)) = Woken c s (state_of m) m

same_flags→eq : (a b : EventFlags) → same_flags a b ≡ true → a ≡ b
same_flags→eq ev_none ev_none h = refl
same_flags→eq ev_none ev_read h = cc
same_flags→eq ev_none ev_write h = cc
same_flags→eq ev_read ev_none h = cc
same_flags→eq ev_read ev_read h = refl
same_flags→eq ev_read ev_write h = cc
same_flags→eq ev_write ev_none h = cc
same_flags→eq ev_write ev_read h = cc
same_flags→eq ev_write ev_write h = refl

module _ (c : Calls) (f : EventFlags) (m : Machine) where
  pub update_event_done : (update_event c f m).1 ≡ true → (update_event c f m).0.ev_flags ≡ f
  unfolding update_event
  update_event_done h = elim (Bool-cases (same_flags m.ev_flags f)) [
    | inl same ↦ rw same (same_flags→eq m.ev_flags f same)
    | inr other ↦ elim (Bool-cases (c.event_del)) [
      | inl deleted ↦ rw (other, deleted) refl
      | inr still ↦ absurd (cc (h, other, still))
    ]
  ]

  update_event_failed : (update_event c f m).1 ≡ false → (c.event_del && c.event_add) ≡ false
  unfolding update_event
  update_event_failed h = elim (Bool-cases (same_flags m.ev_flags f)) [
    | inl same ↦ absurd (cc (h, same))
    | inr other ↦ elim (Bool-cases (c.event_del)) [
      | inl deleted ↦ rw deleted (sym (rw (other, deleted) refl) ∙ h)
      | inr still ↦ rw still refl
    ]
  ]

  pub update_event_kept :
      ((update_event c f m).0.reply ≡ m.reply) × ((update_event c f m).0.input ≡ m.input)
  unfolding update_event
  update_event_kept = elim (Bool-cases (same_flags m.ev_flags f)) [
    | inl same ↦ rw same (refl, refl)
    | inr other ↦ elim (Bool-cases (c.event_del)) [
      | inl deleted ↦ rw (other, deleted) (refl, refl)
      | inr still ↦ rw (other, still) (refl, refl)
    ]
  ]

pub on_listening-Wakes :
    (c : Calls) (a : Accepted) (m : Machine)
    → state_of m ≡ conn_listening
    → Wakes c conn_listening (on_listening c a m)
unfolding on_listening state_of
on_listening-Wakes c no_socket m e = rw e tt
on_listening-Wakes c too_many m e =
    subst (λ s. Woken c conn_listening s (update_event c ev_none m).0)
      (sym (ap (λ r. r.output.state) (update_event_kept c ev_none m).0 ∙ e)) tt
on_listening-Wakes c blocking m e = tt
on_listening-Wakes c (socket true) m e = rw e tt
on_listening-Wakes c (socket false) m e = rw e tt

pub on_waiting-Wakes : (c : Calls) (m : Machine) → Wakes c conn_waiting (on_waiting c m)
unfolding on_waiting state_of set_state conn_set_state
on_waiting-Wakes c m = elim (Bool-cases ((update_event c ev_read m).1)) [
  | inl done ↦ rw done (inr (update_event_done c ev_read m done))
  | inr not_done ↦ rw not_done tt
]

pub on_read-Wakes : (c : Calls) (m : Machine) → Wakes c conn_read (on_read c m)
unfolding on_read
on_read-Wakes c m = elim (Bool-cases (m.reply.output.udp)) [
  | inl datagram ↦ rw datagram tt
  | inr stream ↦ elim (Option-cases (try_read_network c.env m.input)) [
    | inl ends ↦ rw (stream, ends) tt
    | inr (r, e) ↦ rw (stream, e) tt
  ]
]

pub on_closing-Wakes :
    (c : Calls) (m : Machine) → state_of m ≡ conn_closing → Wakes c conn_closing (on_closing m)
unfolding on_closing state_of set_state conn_set_state
on_closing-Wakes c m e = of_udp m.reply.output.udp refl
  where
    of_udp :
        (t : Bool)
        → m.reply.output.udp ≡ t
        → Wakes c conn_closing (
            if t
            then some (
              record m {
                reply = record m.reply { output = record m.reply.output { state = conn_read } };
              },
              true,
            )
            else some (record m { closed = true }, true))
    of_udp true datagram = inl datagram
    of_udp false stream =
        subst (λ s. Woken c conn_closing s (record m { closed = true })) (sym e) (inl refl)

pub on_new_cmd-Wakes :
    (c : Calls) (m : Machine) → state_of m ≡ conn_new_cmd → Wakes c conn_new_cmd (on_new_cmd c m)
unfolding on_new_cmd state_of set_state conn_set_state
on_new_cmd-Wakes c m e = elim (Bool-cases (m.nreqs == 0)) [
  | inr left ↦ rw left tt
  | inl none_left ↦ elim (Bool-cases (ltb 0 m.input.rbytes)) [
    | inr empty ↦
        rw (none_left, empty) (subst (λ s. Woken c conn_new_cmd s m) (sym e) (inl (ground arith)))
    | inl more ↦ elim (Bool-cases ((update_event c ev_write m).1)) [
      | inl done ↦
          rw (none_left, more, done)
            (subst (λ s. Woken c conn_new_cmd s (update_event c ev_write m).0)
              (sym (ap (λ r. r.output.state) (update_event_kept c ev_write m).0 ∙ e))
              (inr (update_event_done c ev_write m done)))
      | inr not_done ↦
          rw (none_left, more, not_done) (inr (refl, update_event_failed c ev_write m not_done))
    ]
  ]
]
