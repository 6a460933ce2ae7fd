-- ===== src/Reply/Strings.antt =====
-- `out_string` and the state `conn_write` that sends what it prepares.
use mathlib.Core.List.{flatten}
use doorhinges.Base.{
  ℕ, ◌+◌, ◌≤◌, ◌<◌, ◌≡◌, refl, sym, ap, ◌∙◌, ◌⊎◌, true, false, ◌&&◌, ◌||◌, List, [], ◌∷◌, ◌++◌,
  some, arith, length, drop, ◌==◌, if◌then◌else◌, length-append,
}
use doorhinges.Output.{conn_write, conn_new_cmd}
use doorhinges.Reply.{
  Reply, msgused, take, add_msghdr, conn_set_state, fitting, nuke, store_text, out_string,
  queue_text,
}
use doorhinges.Reply.Messages.{payload}
use doorhinges.Reply.Valid.{IsValid, HasMemory, Counted}
use doorhinges.Reply.Started.{IsStarted, add_msghdr_lem}
use doorhinges.Reply.Fragments.{IsQueued}
use doorhinges.Reply.Queued.{add_iov_lem}

-- The counters and arrays of `c` have room for nothing yet.
nuke-IsValid : (n : ℕ) (c : Reply) → 1 ≤ c.msgsize → 1 ≤ c.iovsize → IsValid n (nuke c)
unfolding nuke flatten
nuke-IsValid n c msgs iovs = record {
  sendable = tt;
  datagrams = tt;
  first = omega arith;
  used = refl;
  iov_room = omega arith;
  msg_room = omega arith;
  iov_some = iovs;
  msg_some = msgs;
}

take_text : (str rest : List ℕ) → take (length str) (str ++ rest) ≡ str
take_text [] rest = refl
take_text (x ∷ xs) rest = ap (λ l. x ∷ l) (take_text xs rest)

-- What `conn_write` finds in `wbuf`.
text_stored :
    (str : List ℕ) (c : Reply)
    → take (store_text str c).wbytes (drop (store_text str c).wcurr (store_text str c).wbuf)
      ≡ str ++ 0 ∷ []
unfolding store_text
text_stored str c =
    ap (λ k. take k ((str ++ 0 ∷ []) ++ drop (length str + 1) c.wbuf))
      (sym (length-append str (0 ∷ [])))
    ∙ take_text (str ++ 0 ∷ []) (drop (length str + 1) c.wbuf)

-- The text in `wbuf` and the state leave the messages as they are.
prepared : List ℕ → Reply → Reply
prepared str c = conn_set_state conn_write (store_text str c)

prepared-IsValid :
    (n : ℕ) (str : List ℕ) (c : Reply)
    → IsValid n c
    → Counted c
    → HasMemory c
    → IsValid n (prepared str c) × Counted (prepared str c) × HasMemory (prepared str c)
unfolding prepared conn_set_state store_text
prepared-IsValid n str c v k mem = (
  record {
    sendable = v.sendable;
    datagrams = v.datagrams;
    first = v.first;
    used = v.used;
    iov_room = v.iov_room;
    msg_room = v.msg_room;
    iov_some = v.iov_some;
    msg_some = v.msg_some;
  },
  k,
  mem,
)

-- `prepared` from the start of an output.
started : Reply → Reply
started c = (add_msghdr (nuke c)).1

module _ (n : ℕ) (c : Reply) where
  nuked : 2 ≤ n → HasMemory c → 1 ≤ c.msgsize → 1 ≤ c.iovsize → IsStarted n (nuke c) (started c)
  unfolding nuke started
  nuked two mem msgs iovs =
      (add_msghdr_lem n (nuke c) (omega arith) (nuke-IsValid n c msgs iovs) mem).1

  -- `conn_write` assembles the output.
  nothing_yet :
      (str : List ℕ)
      → IsStarted n (nuke c) (started c)
      → (((prepared str (started c)).iovused == 0)
          || ((prepared str (started c)).output.udp && ((prepared str (started c)).iovused == 1)))
        ≡ true
  unfolding nuke prepared conn_set_state store_text
  nothing_yet str s = none_used s.opening s.at_most (ap (λ o. o.udp) s.kept)
    where
      none_used :
          (c.output.udp ≡ true) ⊎ ((started c).iovused ≡ 0)
          → (started c).iovused ≤ 0 + 1
          → (started c).output.udp ≡ c.output.udp
          → (((started c).iovused == 0) || ((started c).output.udp && ((started c).iovused == 1)))
            ≡ true
      none_used either few same = ground arith

  prepared_used : (str : List ℕ) → msgused (prepared str (started c)) ≡ msgused (started c)
  unfolding prepared conn_set_state store_text
  prepared_used str = refl

  prepared_text :
      (str : List ℕ)
      → let p = prepared str (started c) in take p.wbytes (drop p.wcurr p.wbuf) ≡ str ++ 0 ∷ []
  unfolding prepared conn_set_state
  prepared_text str = text_stored str (started c)

  -- What the output is before the text.
  prepared_output :
      (str : List ℕ)
      → IsStarted n (nuke c) (started c)
      → let o = (prepared str (started c)).output in
        (payload o.udp o.msglist ≡ [])
        × (o.udp ≡ c.output.udp)
        × (o.state ≡ conn_write)
        × (o.msgcurr ≡ 0)
  unfolding prepared conn_set_state store_text nuke
  prepared_output str s = (s.carries, ap (λ o. o.udp) s.kept, refl, ap (λ o. o.msgcurr) s.kept)

  out_string_loud :
      (str : List ℕ)
      → c.noreply ≡ false
      → out_string str c ≡ prepared (fitting c.wsize str) (started c)
  unfolding out_string prepared started
  out_string_loud str loud = ap {B = Reply} (λ t. if t then silent else answer) loud
    where
      silent : Reply
      silent = conn_set_state conn_new_cmd (record c { noreply = false })

      answer : Reply
      answer = conn_set_state conn_write (store_text (fitting c.wsize str) (add_msghdr (nuke c)).1)

  queue_prepared :
      (fuel : ℕ) (str : List ℕ)
      → length str + 1 < fuel
      → 2 ≤ n
      → IsStarted n (nuke c) (started c)
      → (d : Reply) × (queue_text n fuel (prepared str (started c)) ≡ some (true, d))
        × IsQueued n (prepared str (started c)) d (str ++ 0 ∷ [])
  unfolding queue_text
  queue_prepared fuel str enough two s =
      let (v, k, mem) = prepared-IsValid n str (started c) s.valid s.counted s.memory in
      let (d, e, q) =
        add_iov_lem n fuel (str ++ 0 ∷ []) (prepared str (started c))
          (omega (arith, length-append str (0 ∷ []))) two v k mem
          (omega (arith, s.one_more, prepared_used str)) in
      (d, rw (nothing_yet str s, prepared_text str, e) refl, q)

-- `out_string` and then `conn_write`, where no `realloc` fails and `noreply` is not set: the
-- output carries the text, or the message that it is too long for `wbuf`, with a zero behind it
-- and nothing else, and can be sent, from its first message on.
pub out_string-queue_text :
    (n fuel : ℕ) (str : List ℕ) (c : Reply)
    → length (fitting c.wsize str) + 1 < fuel
    → 2 ≤ n
    → HasMemory c
    → c.noreply ≡ false
    → 1 ≤ c.msgsize
    → 1 ≤ c.iovsize
    → (d : Reply) × (queue_text n fuel (out_string str c) ≡ some (true, d))
      × IsValid n d
      × (payload d.output.udp d.output.msglist ≡ fitting c.wsize str ++ 0 ∷ [])
      × (d.output.udp ≡ c.output.udp)
      × (d.output.state ≡ conn_write)
      × (d.output.msgcurr ≡ 0)
out_string-queue_text n fuel str c enough two mem loud msgs iovs =
    let s = nuked n c two mem msgs iovs in
    let (d, e, q) = queue_prepared n c fuel (fitting c.wsize str) enough two s in
    let o = prepared_output n c (fitting c.wsize str) s in
    (
      d,
      ap (queue_text n fuel) (out_string_loud n c str loud) ∙ e,
      q.valid,
      q.carries ∙ ap (λ l. l ++ (fitting c.wsize str ++ 0 ∷ [])) o.0,
      ap (λ p. p.udp) q.kept ∙ o.1,
      ap (λ p. p.state) q.kept ∙ o.2,
      ap (λ p. p.msgcurr) q.kept ∙ o.3,
    )
