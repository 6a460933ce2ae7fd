-- ===== src/Reply/Started.antt =====
-- `add_msghdr`: the start of a message.
use mathlib.Core.List.{flatten}
use doorhinges.Base.{
  ℕ, ◌+◌, ◌≤◌, ◌<◌, ◌≡◌, refl, sym, ap, ◌∙◌, ◌⊎◌, true, false, List, [], ◌∷◌, ◌++◌, arith, length,
  replicate, Bool-cases, inl, inr, length-append,
}
use doorhinges.Output.{Output}
use doorhinges.Reply.{
  Reply, msgused, last_message, append_last, ensure_iov_space, append_fragment, grow_msglist,
  new_message, reserve_header, add_msghdr, udp_header_size,
}
use doorhinges.Reply.Messages.{
  size, Datagram, body, payload, Each-append, last_message-append, payload-append, fragments-append,
}
use doorhinges.Reply.Valid.{
  IsValid, HasMemory, Counted, IsGrown, ensure_iov_space_lem, grow_msglist_lem, first_size,
}

-- `c'` is `c` with a new message at the end that carries nothing yet.
pub record IsStarted (n : ℕ) (c c' : Reply) : Type 0 where
  pub valid : IsValid n c'
  pub counted : Counted c'
  pub memory : HasMemory c'
  pub few : length (last_message c'.output.msglist) ≤ 1
  pub short : c'.msgbytes ≤ 8
  pub opening : (c.output.udp ≡ true) ⊎ (c'.iovused ≡ c.iovused)
  pub at_most : c'.iovused ≤ c.iovused + 1
  pub one_more : msgused c' ≡ msgused c + 1
  pub carries : payload c'.output.udp c'.output.msglist ≡ payload c.output.udp c.output.msglist
  pub kept : c'.output ≡ record c.output { msglist = c'.output.msglist }

first_size-append :
    (ms : List (List (List ℕ))) (m : List (List ℕ))
    → first_size ms ≤ 1400
    → size m ≤ 8
    → first_size (ms ++ m ∷ []) ≤ 1400
first_size-append [] m h s = omega arith
first_size-append (x ∷ ms) m h s = h

append_last-append :
    (b : List ℕ) (ms : List (List (List ℕ))) (m : List (List ℕ))
    → append_last b (ms ++ m ∷ []) ≡ ms ++ (m ++ b ∷ []) ∷ []
append_last-append b [] m = refl
append_last-append b (x ∷ []) m = refl
append_last-append b (x ∷ y ∷ ms) m = ap (λ l. x ∷ l) (append_last-append b (y ∷ ms) m)

with_message : List (List ℕ) → Output → Output
with_message m o = record o { msglist = o.msglist ++ m ∷ [] }

of_header : List ℕ → Output → Output
of_header b o = record o { msglist = append_last b o.msglist }

-- A new message `m` with its counters.
message_added :
    (n : ℕ) (c g c' : Reply) (m : List (List ℕ))
    → IsValid n c
    → IsGrown c g
    → msgused c < g.msgsize
    → 1 ≤ n
    → (length m ≤ 1)
      × (size m ≤ 8)
      × Datagram c.output.udp m
      × (flatten (body c.output.udp m) ≡ [])
      × ((c.output.udp ≡ true) ⊎ (length m ≡ 0))
    → c'.output ≡ with_message m g.output
    → (c'.msgbytes ≡ size m)
      × (c'.iovused ≡ c.iovused + length m)
      × (c'.iovused ≤ c'.iovsize)
      × (c.iovsize ≤ c'.iovsize)
      × (g.msgsize ≤ c'.msgsize)
      × HasMemory c'
    → IsStarted n c c'
unfolding with_message
message_added n c g c' m v k room pos (few, short, datagram, nothing, either) out
      (by, us, ro, mo, ms, mem) =
    let o : c'.output ≡ with_message m c.output = out ∙ ap (with_message m) k.same in
    record {
      valid = record {
        sendable =
            rw o (Each-append (λ x. length x ≤ n) c.output.msglist m v.sendable (omega arith));
        datagrams =
            rw o (Each-append (Datagram c.output.udp) c.output.msglist m v.datagrams datagram);
        first = rw o (first_size-append c.output.msglist m v.first short);
        used = rw (us, o) (omega (arith, v.used, fragments-append c.output.msglist m));
        iov_room = ro;
        msg_room = rw o (omega (arith, length-append1 c.output.msglist));
        iov_some = omega (arith, v.iov_some);
        msg_some = omega (arith, v.msg_some);
      };
      counted = rw (by, o) (ap size (sym (last_message-append c.output.msglist m)));
      memory = mem;
      few = rw o (rw (last_message-append c.output.msglist m) few);
      short = omega arith;
      opening = unused either;
      at_most = omega (arith, us);
      one_more = rw o (length-append1 c.output.msglist);
      carries = rw o (payload-append c.output.udp c.output.msglist m nothing);
      kept = rw o refl;
    }
  where
    unused :
        (c.output.udp ≡ true) ⊎ (length m ≡ 0) → (c.output.udp ≡ true) ⊎ (c'.iovused ≡ c.iovused)
    unused (inl udp) = inl udp
    unused (inr bare) = inr (omega (arith, us))

    length-append1 : (l : List (List (List ℕ))) → length (l ++ m ∷ []) ≡ length l + 1
    length-append1 l = omega (arith, length-append l (m ∷ []))

abbrev header : List ℕ
header = replicate udp_header_size 0

-- In UDP the room for the header comes with it.
reserve_header_lem :
    (n : ℕ) (c g : Reply)
    → IsValid n c
    → IsGrown c g
    → msgused c < g.msgsize
    → 1 ≤ n
    → HasMemory g
    → c.output.udp ≡ true
    → ((reserve_header (new_message g)).0 ≡ true) × IsStarted n c (reserve_header (new_message g)).1
unfolding reserve_header new_message append_fragment with_message of_header flatten
reserve_header_lem n c g v k room pos mem udp =
    let (ok, mem', g', room') =
      ensure_iov_space_lem (new_message g) (omega (arith, k.more_iov, v.iov_some))
        (omega (arith, k.same_used, k.more_iov, v.iov_room)) mem in
    let e = (ensure_iov_space (new_message g)).1 in
    rw ok (
      refl,
      message_added n c g (append_fragment header e) (header ∷ []) v k room pos
          (omega arith, omega arith, rw udp (omega arith, omega arith), rw udp refl, inl udp)
          (ap (of_header header) g'.same
            ∙ ap {B = Output} (λ l. record g.output { msglist = l })
                (append_last-append header g.output.msglist []))
          (
            ap (λ k. k + 8) g'.same_bytes,
            ap (λ k. k + 1) (g'.same_used ∙ k.same_used),
            ground (arith, g'.same_used, k.same_used, room'),
            ground (arith, g'.more_iov, k.more_iov),
            g'.more_msg,
            mem',
          ),
    )

new_message_lem :
    (n : ℕ) (c g : Reply)
    → IsValid n c
    → IsGrown c g
    → msgused c < g.msgsize
    → 1 ≤ n
    → HasMemory g
    → c.output.udp ≡ false
    → IsStarted n c (new_message g)
unfolding new_message with_message flatten
new_message_lem n c g v k room pos mem tcp =
    message_added n c g (new_message g) [] v k room pos
      (omega arith, omega arith, rw tcp tt, rw tcp refl, inr refl) refl
      (
        refl,
        k.same_used ∙ zero_more,
        omega (arith, k.same_used, k.more_iov, v.iov_room),
        k.more_iov,
        omega arith,
        mem,
      )
  where
    zero_more : c.iovused ≡ c.iovused + 0
    zero_more = omega arith

-- `add_msghdr`, where no `realloc` fails: it returns 0, and there is a message more.
pub add_msghdr_lem :
    (n : ℕ) (c : Reply)
    → 1 ≤ n
    → IsValid n c
    → HasMemory c
    → ((add_msghdr c).0 ≡ true) × IsStarted n c (add_msghdr c).1
unfolding add_msghdr
add_msghdr_lem n c pos v h =
    let (ok, mem, g, room) = grow_msglist_lem n c v h in
    let same : (grow_msglist c).1.output.udp ≡ c.output.udp = ap (λ o. o.udp) g.same in
    elim (Bool-cases (c.output.udp)) [
      | inl udp ↦
          rw (ok, same ∙ udp) (reserve_header_lem n c (grow_msglist c).1 v g room pos mem udp)
      | inr tcp ↦
          rw (ok, same ∙ tcp) (refl, new_message_lem n c (grow_msglist c).1 v g room pos mem tcp)
    ]
