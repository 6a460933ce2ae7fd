-- ===== src/Reply/Fragments.antt =====
-- `add_iov`, where no `realloc` fails: the bytes come behind those that the messages carry.
use doorhinges.Base.{
  ℕ, ◌+◌, ◌≤◌, ◌<◌, ◌≡◌, refl, ap, ◌⊎◌, Bool, true, false, ◌&&◌, ◌||◌, List, [], ◌∷◌, ◌++◌, arith,
  length, leb, ◌==◌, Bool-cases, inl, inr,
}
use doorhinges.Reply.{
  Reply, msgused, last_message, append_fragment, add_msghdr, limit_to_mtu, start_message,
}
use doorhinges.Reply.Messages.{
  size, Datagram, payload, Each-append_last, Each-last_message, length-append_last,
  last_message-append_last, size-snoc, length-snoc, payload-append_last, fragments-append_last,
}
use doorhinges.Reply.Valid.{IsValid, HasMemory, Counted, first_size-append_last}
use doorhinges.Reply.Started.{add_msghdr_lem}

-- `c'` can be sent, and is `c` with the bytes `buf` behind those that its messages carry.
pub record IsQueued (n : ℕ) (c c' : Reply) (buf : List ℕ) : Type 0 where
  pub valid : IsValid n c'
  pub counted : Counted c'
  pub memory : HasMemory c'
  pub more : msgused c ≤ msgused c'
  pub carries :
      payload c'.output.udp c'.output.msglist ≡ payload c.output.udp c.output.msglist ++ buf
  pub kept : c'.output ≡ record c.output { msglist = c'.output.msglist }

Datagram-snoc :
    (udp : Bool) (m : List (List ℕ)) (b : List ℕ)
    → (udp ≡ true → size m + length b ≤ 1400)
    → Datagram udp (m ++ b ∷ [])
Datagram-snoc true m b h = (omega (arith, length-snoc m b), omega (arith, size-snoc m b, h refl))
Datagram-snoc false m b h = tt

-- One fragment, which fits if the message is limited.
pub append_fragment_lem :
    (n : ℕ) (c : Reply) (b : List ℕ)
    → IsValid n c
    → Counted c
    → HasMemory c
    → 1 ≤ msgused c
    → length (last_message c.output.msglist) < n
    → c.iovused < c.iovsize
    → (limit_to_mtu c ≡ true → c.msgbytes + length b ≤ 1400)
    → IsQueued n c (append_fragment b c) b
unfolding append_fragment
append_fragment_lem n c b v k mem pos few room fits =
    let ms = c.output.msglist in
    record {
      valid = record {
        sendable =
            Each-append_last (λ m. length m ≤ n) b ms v.sendable
              (omega (arith, length-snoc (last_message ms) b));
        datagrams = Each-append_last (Datagram c.output.udp) b ms v.datagrams (
            Datagram-snoc c.output.udp (last_message ms) b
              (λ udp. omega (arith, k, fits (ground arith))));
        first = first_size-append_last b ms v.first (λ one. omega (arith, k, fits (ground arith)));
        used = omega (arith, v.used, fragments-append_last b ms pos);
        iov_room = omega arith;
        msg_room = omega (arith, v.msg_room, length-append_last b ms);
        iov_some = v.iov_some;
        msg_some = v.msg_some;
      };
      counted =
          omega
            (arith, k, size-snoc (last_message ms) b, ap size (last_message-append_last b ms pos));
      memory = mem;
      more = omega (arith, length-append_last b ms);
      carries = payload-append_last c.output.udp b ms pos v.datagrams;
      kept = refl;
    }

-- `s` is `c` with room for a fragment in its last message.
pub record IsOpen (n : ℕ) (c s : Reply) : Type 0 where
  pub open_valid : IsValid n s
  pub open_counted : Counted s
  pub open_memory : HasMemory s
  pub open_more : msgused c ≤ msgused s
  pub open_few : length (last_message s.output.msglist) < n
  pub open_limit : (limit_to_mtu c ≡ true) ⊎ (limit_to_mtu s ≡ false)
  pub open_room : (limit_to_mtu c ≡ false) ⊎ (s.msgbytes < 1400)
  pub open_same : payload s.output.udp s.output.msglist ≡ payload c.output.udp c.output.msglist
  pub open_kept : s.output ≡ record c.output { msglist = s.output.msglist }

pub start_message_lem :
    (n : ℕ) (c : Reply)
    → 2 ≤ n
    → IsValid n c
    → Counted c
    → HasMemory c
    → 1 ≤ msgused c
    → IsOpen n c (start_message n c)
unfolding start_message
start_message_lem n c two v k mem pos =
    let ms = c.output.msglist in
    elim (Bool-cases ((length (last_message ms) == n) || (limit_to_mtu c && leb 1400 c.msgbytes))) [
      | inl full ↦
          let s = (add_msghdr_lem n c (omega arith) v mem).1 in
          rw full (record {
            open_valid = s.valid;
            open_counted = s.counted;
            open_memory = s.memory;
            open_more = omega (arith, s.one_more);
            open_few = omega (arith, s.few);
            open_limit = limits (add_msghdr c).1 s.one_more (ap (λ o. o.udp) s.kept);
            open_room = inr (omega (arith, s.short));
            open_same = s.carries;
            open_kept = s.kept;
          })
      | inr room ↦ rw room (record {
        open_valid = v;
        open_counted = k;
        open_memory = mem;
        open_more = omega arith;
        open_few = not_full (Each-last_message (λ m. length m ≤ n) ms pos v.sendable) room;
        open_limit = ground arith;
        open_room = ground arith;
        open_same = refl;
        open_kept = refl;
      })
    ]
  where
    limits :
        (s : Reply)
        → msgused s ≡ msgused c + 1
        → s.output.udp ≡ c.output.udp
        → (limit_to_mtu c ≡ true) ⊎ (limit_to_mtu s ≡ false)
    limits s more same = ground arith

    not_full :
        length (last_message c.output.msglist) ≤ n
        → ((length (last_message c.output.msglist) == n) || (limit_to_mtu c && leb 1400 c.msgbytes))
          ≡ false
        → length (last_message c.output.msglist) < n
    not_full le room = ground arith
