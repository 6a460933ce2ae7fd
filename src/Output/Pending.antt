-- ===== src/Output/Pending.antt =====
-- What `transmit` has still to send.
use mathlib.Core.List.{flatten}
use doorhinges.Base.{
  ℕ, zero, suc, ◌+◌, ◌-◌, ◌≤◌, ◌<◌, ◌≡◌, refl, sym, ap, ◌∙◌, ◌⊎◌, Bool, true, false, not, ◌&&◌,
  ◌||◌, if◌then◌else◌, List, [], ◌∷◌, ◌++◌, arith, length, ltb, leb, get_or, set, drop, Bool-cases,
  inl, inr, append_assoc,
}
use doorhinges.Output.{
  Output, conn_read, conn_closing, TransmitResult, transmit_complete, transmit_incomplete,
  transmit_soft_error, transmit_hard_error, Sent, took, would_block, failed, is_done, advance,
  next_message, taken, fail, after_send, transmit,
}

-- The bytes of the messages from a place on.
abbrev pub bytes_from : List (List (List ℕ)) → ℕ → List ℕ
bytes_from msgs i = flatten (flatten (drop i msgs))

abbrev pub pending : Output → List ℕ
pending o = bytes_from o.msglist o.msgcurr

drop-append_part : (n : ℕ) (xs ys : List ℕ) → n ≤ length xs → drop n (xs ++ ys) ≡ drop n xs ++ ys
drop-append_part zero xs ys h = refl
drop-append_part (suc n) [] ys h = absurd (omega arith)
drop-append_part (suc n) (x ∷ xs) ys h = drop-append_part n xs ys (omega arith)

drop-append_all :
    (n : ℕ) (xs ys : List ℕ) → length xs ≤ n → drop n (xs ++ ys) ≡ drop (n - length xs) ys
drop-append_all n [] ys h = ap (λ k. drop k ys) all
  where
    all : n ≡ n - 0
    all = omega arith
drop-append_all zero (x ∷ xs) ys h = absurd (omega arith)
drop-append_all (suc n) (x ∷ xs) ys h =
    drop-append_all n xs ys (omega arith) ∙ ap (λ k. drop k ys) less
  where
    less : n - length xs ≡ suc n - suc (length xs)
    less = omega arith

drop_nil : (n : ℕ) → drop {A = ℕ} n [] ≡ []
drop_nil zero = refl
drop_nil (suc n) = refl

-- What is left of a message are its bytes behind those that were taken.
flatten-advance : (res : ℕ) (bs : List (List ℕ)) → flatten (advance res bs) ≡ drop res (flatten bs)
unfolding advance flatten
flatten-advance res [] = sym (drop_nil res)
flatten-advance res (b ∷ bs) = elim (Bool-cases (leb (length b) res)) [
  | inl whole ↦ rw whole (
      flatten-advance (res - length b) bs ∙ sym (drop-append_all res b (flatten bs) (ground arith)))
  | inr part ↦ rw part (sym (drop-append_part res b (flatten bs) (ground arith)))
]

pub flatten-append : (xs ys : List (List ℕ)) → flatten (xs ++ ys) ≡ flatten xs ++ flatten ys
unfolding flatten
flatten-append [] ys = refl
flatten-append (x ∷ xs) ys =
    ap (λ l. x ++ l) (flatten-append xs ys) ∙ sym (append_assoc x (flatten xs) (flatten ys))

-- The message at a place comes before the others.
bytes_from-get_or :
    (msgs : List (List (List ℕ))) (i : ℕ)
    → i < length msgs
    → bytes_from msgs i ≡ flatten (get_or msgs i []) ++ bytes_from msgs (i + 1)
unfolding flatten
bytes_from-get_or [] i h = absurd (omega arith)
bytes_from-get_or (m ∷ ms) zero h = flatten-append m (flatten ms)
bytes_from-get_or (m ∷ ms) (suc i) h =
    bytes_from-get_or ms i (omega arith)
    ∙ ap (λ k. flatten (get_or ms i []) ++ bytes_from (m ∷ ms) k) next
  where
    next : suc (i + 1) ≡ suc i + 1
    next = omega arith

bytes_from-set :
    (msgs : List (List (List ℕ))) (i : ℕ) (m : List (List ℕ))
    → i < length msgs
    → bytes_from (set msgs i m) i ≡ flatten m ++ bytes_from msgs (i + 1)
unfolding flatten
bytes_from-set [] i m h = absurd (omega arith)
bytes_from-set (x ∷ ms) zero m h = flatten-append m (flatten ms)
bytes_from-set (x ∷ ms) (suc i) m h =
    bytes_from-set ms i m (omega arith) ∙ ap (λ k. flatten m ++ bytes_from (x ∷ ms) k) next
  where
    next : suc (i + 1) ≡ suc i + 1
    next = omega arith

bytes_from_end : (msgs : List (List (List ℕ))) (i : ℕ) → length msgs ≤ i → bytes_from msgs i ≡ []
unfolding flatten
bytes_from_end [] zero h = refl
bytes_from_end [] (suc i) h = refl
bytes_from_end (m ∷ ms) zero h = absurd (omega arith)
bytes_from_end (m ∷ ms) (suc i) h = bytes_from_end ms i (omega arith)

flatten_done : (m : List (List ℕ)) → is_done m ≡ true → flatten m ≡ []
unfolding flatten
flatten_done [] h = refl
flatten_done (b ∷ bs) h = ground arith

-- The step to the next message skips no bytes.
pending-next_message : (o : Output) → pending (next_message o) ≡ pending o
unfolding next_message
pending-next_message o =
    elim (Bool-cases
      (ltb o.msgcurr (length o.msglist) && is_done (get_or o.msglist o.msgcurr []))) [
        | inl skip ↦ rw skip (
            sym (
              bytes_from-get_or o.msglist o.msgcurr (ground arith)
              ∙ ap (λ l. l ++ bytes_from o.msglist (o.msgcurr + 1))
                  (flatten_done (get_or o.msglist o.msgcurr []) (ground arith))))
        | inr stay ↦ rw stay refl
      ]

-- What the results say: of the bytes to send before the call, in `o`, and after it, in `o'`.
abbrev pub Transmitted : Sent → Output → Output → TransmitResult → Type 0
Transmitted sent o o' transmit_complete = (pending o ≡ []) × (pending o' ≡ [])
Transmitted sent o o' transmit_incomplete =
    (n : ℕ) × (sent ≡ took n)
    × (pending o' ≡ drop n (pending o))
    × (o'.bytes_written ≡ o.bytes_written + n)
Transmitted sent o o' transmit_soft_error =
    (sent ≡ would_block) × (pending o' ≡ pending o) × (o'.bytes_written ≡ o.bytes_written)
Transmitted sent o o' transmit_hard_error =
    (pending o' ≡ pending o)
    × (o'.bytes_written ≡ o.bytes_written)
    × ((o'.state ≡ conn_closing) ⊎ ((o.udp ≡ true) × (o'.state ≡ conn_read)))

-- What follows from what `sendmsg` and `update_event` answer.
abbrev pub answer : Sent → Bool → TransmitResult
answer (took zero) updated = transmit_hard_error
answer (took (suc n)) updated = transmit_incomplete
answer would_block true = transmit_soft_error
answer would_block false = transmit_hard_error
answer failed updated = transmit_hard_error

-- `sendmsg` takes no more bytes than the message has.
abbrev pub Fits : Sent → Output → Type 0
Fits (took n) o = n ≤ length (flatten (get_or o.msglist o.msgcurr []))
Fits would_block o = Unit {0}
Fits failed o = Unit {0}

fail-Transmitted : (sent : Sent) (o : Output) → Transmitted sent o (fail o).0 (fail o).1
unfolding fail
fail-Transmitted sent o = elim (Bool-cases (o.udp)) [
  | inl datagram ↦ (refl, refl, inr (datagram, rw datagram refl))
  | inr stream ↦ (refl, refl, inl (rw stream refl))
]

after_send-Transmitted :
    (sent : Sent) (updated : Bool) (o : Output)
    → o.msgcurr < length o.msglist
    → Fits sent o
    → Transmitted sent o (after_send sent updated o).0 (after_send sent updated o).1
unfolding after_send taken
after_send-Transmitted (took zero) updated o h f = fail-Transmitted (took zero) o
after_send-Transmitted (took (suc n)) updated o h f =
    let m = get_or o.msglist o.msgcurr [] in
    (
      suc n,
      refl,
      bytes_from-set o.msglist o.msgcurr (advance (suc n) m) h
          ∙ ap (λ l. l ++ bytes_from o.msglist (o.msgcurr + 1)) (flatten-advance (suc n) m)
          ∙ sym (drop-append_part (suc n) (flatten m) (bytes_from o.msglist (o.msgcurr + 1)) f)
          ∙ ap (λ l. drop (suc n) l) (sym (bytes_from-get_or o.msglist o.msgcurr h)),
      refl,
    )
after_send-Transmitted would_block true o h f = (refl, refl, refl)
after_send-Transmitted would_block false o h f = (refl, refl, inl refl)
after_send-Transmitted failed updated o h f = fail-Transmitted failed o

next_message_kept :
    (o : Output)
    → ((next_message o).udp ≡ o.udp) × ((next_message o).bytes_written ≡ o.bytes_written)
unfolding next_message
next_message_kept o = (ground arith, ground arith)

-- The bytes before and after the call.
transmit-Transmitted :
    (sent : Sent) (updated : Bool) (o : Output)
    → Fits sent (next_message o)
    → Transmitted sent o (transmit sent updated o).0 (transmit sent updated o).1
unfolding transmit
transmit-Transmitted sent updated o f =
    elim (Bool-cases (ltb (next_message o).msgcurr (length (next_message o).msglist))) [
      | inl more ↦ rw more (
          of_next (after_send sent updated (next_message o)).0
            (after_send sent updated (next_message o)).1
            (after_send-Transmitted sent updated (next_message o) (ground arith) f))
      | inr done ↦
          let nothing : pending (next_message o) ≡ [] =
            bytes_from_end (next_message o).msglist (next_message o).msgcurr (ground arith) in
          rw done (sym (pending-next_message o) ∙ nothing, nothing)
    ]
  where
    of_next :
        (o' : Output) (r : TransmitResult)
        → Transmitted sent (next_message o) o' r
        → Transmitted sent o o' r
    of_next o' transmit_complete (a, b) = (sym (pending-next_message o) ∙ a, b)
    of_next o' transmit_incomplete (n, s, a, b) = (
      n,
      s,
      a ∙ ap (λ l. drop n l) (pending-next_message o),
      b ∙ ap (λ k. k + n) (next_message_kept o).1,
    )
    of_next o' transmit_soft_error (s, a, b) =
        (s, a ∙ pending-next_message o, b ∙ (next_message_kept o).1)
    of_next o' transmit_hard_error (a, b, inl c) =
        (a ∙ pending-next_message o, b ∙ (next_message_kept o).1, inl c)
    of_next o' transmit_hard_error (a, b, inr c) = (
      a ∙ pending-next_message o,
      b ∙ (next_message_kept o).1,
      inr (sym (next_message_kept o).0 ∙ c.0, c.1),
    )

after_send-answer :
    (sent : Sent) (updated : Bool) (o : Output)
    → (after_send sent updated o).1 ≡ answer sent updated
unfolding after_send fail
after_send-answer (took zero) updated o = refl
after_send-answer (took (suc n)) updated o = refl
after_send-answer would_block true o = refl
after_send-answer would_block false o = refl
after_send-answer failed updated o = refl

-- A message is left: the current one has a fragment, or another one follows.
abbrev pub has_message : Output → Bool
has_message o =
    ltb o.msgcurr (length o.msglist)
    && (not (is_done (get_or o.msglist o.msgcurr [])) || ltb (o.msgcurr + 1) (length o.msglist))

next_message-has_message :
    (o : Output) → ltb (next_message o).msgcurr (length (next_message o).msglist) ≡ has_message o
unfolding next_message
next_message-has_message o = ground arith

transmit-answer :
    (sent : Sent) (updated : Bool) (o : Output)
    → (transmit sent updated o).1
      ≡ (if has_message o then answer sent updated else transmit_complete)
unfolding transmit
transmit-answer sent updated o = elim (Bool-cases (has_message o)) [
  | inl more ↦
      rw (next_message-has_message o ∙ more, more) (after_send-answer sent updated (next_message o))
  | inr none_left ↦ rw (next_message-has_message o ∙ none_left, none_left) refl
]

-- `transmit`, where `sendmsg` takes no more than the message has. If a message is left, behind one whose
-- fragments are all sent, the result is TRANSMIT_INCOMPLETE exactly if `sendmsg` took some bytes,
-- TRANSMIT_SOFT_ERROR exactly if it would block and the event is updated, and otherwise
-- TRANSMIT_HARD_ERROR; if none is left it is TRANSMIT_COMPLETE, and nothing is left to send. After
-- TRANSMIT_INCOMPLETE the bytes to send are those behind the ones that were taken, and they are counted;
-- after an error the bytes to send are the same. A hard error closes the connection, or sets a UDP one
-- to reading.
pub transmit_lem :
    (sent : Sent) (updated : Bool) (o : Output)
    → Fits sent (next_message o)
    → ((transmit sent updated o).1
        ≡ (if has_message o then answer sent updated else transmit_complete))
      × Transmitted sent o (transmit sent updated o).0 (transmit sent updated o).1
transmit_lem sent updated o f =
    (transmit-answer sent updated o, transmit-Transmitted sent updated o f)

next_message_state : (o : Output) → (next_message o).state ≡ o.state
unfolding next_message
next_message_state o = ground arith

after_send_soft :
    (sent : Sent) (updated : Bool) (o : Output)
    → (after_send sent updated o).1 ≡ transmit_soft_error
    → (sent ≡ would_block) × (updated ≡ true) × ((after_send sent updated o).0.state ≡ o.state)
unfolding after_send fail
after_send_soft (took zero) updated o h = cc
after_send_soft (took (suc n)) updated o h = cc
after_send_soft would_block true o h = (refl, refl, refl)
after_send_soft would_block false o h = cc
after_send_soft failed updated o h = cc

-- TRANSMIT_SOFT_ERROR is returned only if `sendmsg` would block and the event is updated, and leaves
-- the state.
pub transmit_soft :
    (sent : Sent) (updated : Bool) (o : Output)
    → (transmit sent updated o).1 ≡ transmit_soft_error
    → (sent ≡ would_block) × (updated ≡ true) × ((transmit sent updated o).0.state ≡ o.state)
unfolding transmit
transmit_soft sent updated o =
    either (ltb (next_message o).msgcurr (length (next_message o).msglist))
  where
    same : (next_message o).state ≡ o.state
    same = next_message_state o

    either :
        (more : Bool)
        → let r =
            if more
            then after_send sent updated (next_message o)
            else (next_message o, transmit_complete) in
          r.1 ≡ transmit_soft_error
          → (sent ≡ would_block) × (updated ≡ true) × (r.0.state ≡ o.state)
    either true h =
        let (blocks, told, kept) = after_send_soft sent updated (next_message o) h in
        (blocks, told, kept ∙ same)
    either false h = cc
