-- ===== src/Reply/Valid.antt =====
-- What the messages of a reply in the making satisfy, and that each operation keeps it.
use doorhinges.Base.{
  ℕ, ◌+◌, ◌≤◌, ◌<◌, ◌≡◌, refl, sym, ap, ◌∙◌, true, List, [], ◌∷◌, arith, length, leb, ◌==◌, ==_iff,
  leb→le, subst, Bool-cases, inl, inr,
}
use doorhinges.Reply.{Reply, msgused, last_message, append_last, ensure_iov_space, grow_msglist}
use doorhinges.Reply.Messages.{size, Each, Datagram, fragments, size-snoc}

-- The bytes of the first message, whose size `add_iov` limits.
abbrev pub first_size : List (List (List ℕ)) → ℕ
first_size [] = 0
first_size (m ∷ ms) = size m

-- The messages of `c` can be sent: none has more than `iov_max` fragments, the first one and every
-- datagram has at most 1400 bytes, and a datagram has the fragment of its header. The counters of
-- `c` agree with them, and the arrays have room for them.
pub record IsValid (iov_max : ℕ) (c : Reply) : Type 0 where
  pub sendable : Each (λ m. length m ≤ iov_max) c.output.msglist
  pub datagrams : Each (Datagram c.output.udp) c.output.msglist
  pub first : first_size c.output.msglist ≤ 1400
  pub used : c.iovused ≡ fragments c.output.msglist
  pub iov_room : c.iovused ≤ c.iovsize
  pub msg_room : msgused c ≤ c.msgsize
  pub iov_some : 1 ≤ c.iovsize
  pub msg_some : 1 ≤ c.msgsize

pub first_size-append_last :
    (b : List ℕ) (ms : List (List (List ℕ)))
    → first_size ms ≤ 1400
    → (length ms ≡ 1 → size (last_message ms) + length b ≤ 1400)
    → first_size (append_last b ms) ≤ 1400
first_size-append_last b [] h s = omega arith
first_size-append_last b (m ∷ []) h s = omega (arith, size-snoc m b, s refl)
first_size-append_last b (m ∷ n ∷ ms) h s = h

-- No call of `realloc` fails.
abbrev pub HasMemory : Reply → Type 0
HasMemory c = c.realloced ≡ []

-- The counter of the bytes of the last message.
abbrev pub Counted : Reply → Type 0
Counted c = c.msgbytes ≡ size (last_message c.output.msglist)

-- `c'` is `c` with the arrays perhaps larger.
pub record IsGrown (c c' : Reply) : Type 0 where
  pub same : c'.output ≡ c.output
  pub same_used : c'.iovused ≡ c.iovused
  pub same_bytes : c'.msgbytes ≡ c.msgbytes
  pub more_iov : c.iovsize ≤ c'.iovsize
  pub more_msg : c.msgsize ≤ c'.msgsize

pub IsGrown-IsValid : (n : ℕ) (c c' : Reply) → IsGrown c c' → IsValid n c → IsValid n c'
IsGrown-IsValid n c c' g v = record {
  sendable = subst (λ o. Each (λ m. length m ≤ n) o.msglist) (sym g.same) v.sendable;
  datagrams = subst (λ o. Each (Datagram o.udp) o.msglist) (sym g.same) v.datagrams;
  first = subst (λ o. first_size o.msglist ≤ 1400) (sym g.same) v.first;
  used = g.same_used ∙ v.used ∙ ap (λ o. fragments o.msglist) (sym g.same);
  iov_room = omega (arith, g.same_used, g.more_iov, v.iov_room);
  msg_room =
      subst (λ o. length o.msglist ≤ c'.msgsize) (sym g.same)
        (omega (arith, g.more_msg, v.msg_room));
  iov_some = omega (arith, g.more_iov, v.iov_some);
  msg_some = omega (arith, g.more_msg, v.msg_some);
}

-- What happens on each branch.
pub ensure_iov_space_lem :
    (c : Reply)
    → 1 ≤ c.iovsize
    → c.iovused ≤ c.iovsize
    → HasMemory c
    → ((ensure_iov_space c).0 ≡ true)
      × HasMemory (ensure_iov_space c).1
      × IsGrown c (ensure_iov_space c).1
      × (c.iovused < (ensure_iov_space c).1.iovsize)
unfolding ensure_iov_space
ensure_iov_space_lem c some_iov room_iov h = elim (Bool-cases (leb c.iovsize c.iovused)) [
  | inl full ↦
      rw (full, h)
        (
          refl,
          refl,
          record {
            same = refl;
            same_used = refl;
            same_bytes = refl;
            more_iov = omega arith;
            more_msg = omega arith;
          },
          omega (arith, leb→le c.iovsize c.iovused full),
        )
  | inr room ↦ rw room (
    refl,
    h,
    record {
      same = refl;
      same_used = refl;
      same_bytes = refl;
      more_iov = omega arith;
      more_msg = omega arith;
    },
    ground arith,
  )
]

pub grow_msglist_lem :
    (n : ℕ) (c : Reply)
    → IsValid n c
    → HasMemory c
    → ((grow_msglist c).0 ≡ true)
      × HasMemory (grow_msglist c).1
      × IsGrown c (grow_msglist c).1
      × (msgused c < (grow_msglist c).1.msgsize)
unfolding grow_msglist
grow_msglist_lem n c v h = elim (Bool-cases (c.msgsize == msgused c)) [
  | inl full ↦
      rw (full, h)
        (
          refl,
          refl,
          record {
            same = refl;
            same_used = refl;
            same_bytes = refl;
            more_iov = omega arith;
            more_msg = omega arith;
          },
          omega (arith, v.msg_some, (==_iff c.msgsize (msgused c)).0 full),
        )
  | inr room ↦ rw room (
    refl,
    h,
    record {
      same = refl;
      same_used = refl;
      same_bytes = refl;
      more_iov = omega arith;
      more_msg = omega arith;
    },
    grind (arith, v.msg_room),
  )
]
