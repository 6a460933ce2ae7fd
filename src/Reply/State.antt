-- ===== src/Reply/State.antt =====
-- The building of a reply leaves the state of the connection.
use doorhinges.Base.{
  ℕ, zero, suc, ◌-◌, ◌≡◌, refl, ◌∙◌, Bool, true, false, ◌&&◌, ◌||◌, Option, none, some, List, arith,
  length, drop, ltb, leb, ◌==◌, if◌then◌else◌, Bool-cases, inl, inr,
}
use doorhinges.Output.{ConnState, conn_closing}
use doorhinges.Reply.{
  Reply, msgused, take, last_message, ensure_iov_space, append_fragment, grow_msglist, new_message,
  reserve_header, add_msghdr, limit_to_mtu, start_message, leftover, add_iov, build_udp_headers,
  conn_set_state, queue_text,
}

state : Reply → ConnState
state c = c.output.state

module _ (c : Reply) where
  ensure_iov_space_state : state (ensure_iov_space c).1 ≡ state c
  unfolding ensure_iov_space state
  ensure_iov_space_state = ground arith

  grow_msglist_state : state (grow_msglist c).1 ≡ state c
  unfolding grow_msglist state
  grow_msglist_state = ground arith

  append_fragment_state : (b : List ℕ) → state (append_fragment b c) ≡ state c
  unfolding append_fragment state
  append_fragment_state b = refl

  new_message_state : state (new_message c) ≡ state c
  unfolding new_message state
  new_message_state = refl

reserve_header_state : (c : Reply) → state (reserve_header c).1 ≡ state c
unfolding reserve_header
reserve_header_state c = elim (Bool-cases ((ensure_iov_space c).0)) [
  | inl ok ↦ rw ok (append_fragment_state (ensure_iov_space c).1 _ ∙ ensure_iov_space_state c)
  | inr failed ↦ rw failed (ensure_iov_space_state c)
]

add_msghdr_state : (c : Reply) → state (add_msghdr c).1 ≡ state c
unfolding add_msghdr
add_msghdr_state c =
    let g = (grow_msglist c).1 in
    let new = new_message_state g ∙ grow_msglist_state c in
    elim (Bool-cases ((grow_msglist c).0)) [
      | inl ok ↦ elim (Bool-cases (g.output.udp)) [
        | inl datagram ↦ rw (ok, datagram) (reserve_header_state (new_message g) ∙ new)
        | inr stream ↦ rw (ok, stream) new
      ]
      | inr failed ↦ rw failed (grow_msglist_state c)
    ]

start_message_state : (n : ℕ) (c : Reply) → state (start_message n c) ≡ state c
unfolding start_message
start_message_state n c =
    elim (Bool-cases
      ((length (last_message c.output.msglist) == n) || (limit_to_mtu c && leb 1400 c.msgbytes))) [
        | inl full ↦ rw full (add_msghdr_state c)
        | inr room ↦ rw room refl
      ]

-- The result has the state of `c`, if there is one.
abbrev Keeps : Reply → Option (Bool × Reply) → Type 0
Keeps c none = Unit {0}
Keeps c (some (ok, d)) = state d ≡ state c

Keeps-trans : (c d : Reply) (r : Option (Bool × Reply)) → state d ≡ state c → Keeps d r → Keeps c r
Keeps-trans c d none e k = tt
Keeps-trans c d (some (ok, r)) e k = k ∙ e

add_iov-Keeps : (n fuel : ℕ) (buf : List ℕ) (c : Reply) → Keeps c (add_iov n fuel buf c)
unfolding add_iov
add_iov-Keeps n zero buf c = tt
add_iov-Keeps n (suc fuel) buf c =
    let e = (ensure_iov_space (start_message n c)).1 in
    let k = length buf - leftover (limit_to_mtu c) (length buf) e.msgbytes in
    let ready = ensure_iov_space_state (start_message n c) ∙ start_message_state n c in
    let done = append_fragment_state e (take k buf) ∙ ready in
    elim (Bool-cases ((ensure_iov_space (start_message n c)).0)) [
      | inl ok ↦ elim (Bool-cases (ltb 0 (leftover (limit_to_mtu c) (length buf) e.msgbytes))) [
        | inl more ↦
            rw (ok, more)
              (Keeps-trans c (append_fragment (take k buf) e)
                (add_iov n fuel (drop k buf) (append_fragment (take k buf) e)) done
                (add_iov-Keeps n fuel (drop k buf) (append_fragment (take k buf) e)))
        | inr last ↦ rw (ok, last) done
      ]
      | inr failed ↦ rw failed ready
    ]

-- `build_udp_headers` leaves the state.
pub build_udp_headers_state :
    (id hdrsize : ℕ) (given : Bool) (c : Reply)
    → (build_udp_headers id hdrsize given c).2.output.state ≡ c.output.state
unfolding build_udp_headers
build_udp_headers_state id hdrsize given c =
    elim (Bool-cases (ltb hdrsize (msgused c) && (if given then false else true))) [
      | inl failed ↦ rw failed refl
      | inr built ↦ rw built refl
    ]

-- Where a result goes on, it has the state of `c`.
abbrev pub GoesOn : Reply → Option (Bool × Reply) → Type 0
GoesOn c none = Unit {0}
GoesOn c (some (true, d)) = d.output.state ≡ c.output.state
GoesOn c (some (false, d)) = Unit {0}

closing_after : Option (Bool × Reply) → Option (Bool × Reply)
closing_after none = none
closing_after (some (true, d)) = some (true, d)
closing_after (some (false, d)) = some (false, conn_set_state conn_closing d)

closing_after-GoesOn :
    (c : Reply) (r : Option (Bool × Reply)) → Keeps c r → GoesOn c (closing_after r)
unfolding closing_after state
closing_after-GoesOn c none k = tt
closing_after-GoesOn c (some (true, d)) k = k
closing_after-GoesOn c (some (false, d)) k = tt

-- The text that is queued keeps the state, unless the connection closes.
pub queue_text-GoesOn : (n fuel : ℕ) (c : Reply) → GoesOn c (queue_text n fuel c)
unfolding queue_text closing_after
queue_text-GoesOn n fuel c =
    elim (Bool-cases ((c.iovused == 0) || (c.output.udp && (c.iovused == 1)))) [
      | inl nothing_yet ↦ rw nothing_yet (
          closing_after-GoesOn c (add_iov n fuel (take c.wbytes (drop c.wcurr c.wbuf)) c)
            (add_iov-Keeps n fuel (take c.wbytes (drop c.wcurr c.wbuf)) c))
      | inr assembled ↦ rw assembled refl
    ]
