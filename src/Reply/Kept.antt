-- ===== src/Reply/Kept.antt =====
-- What the steps of `add_iov` keep of a reply over TCP (ngix_module/AIS/ais.c).
use mathlib.Core.List.{flatten}
use mathlib.Core.Bool.{true≢false}
use doorhinges.Base.{
  ℕ, ◌≤◌, ◌<◌, ◌≡◌, refl, ◌⊎◌, Bool, false, ◌&&◌, ◌||◌, List, [], ◌∷◌, ◌++◌, arith, length, drop,
  leb, ◌==◌, Bool-cases, inl, inr, length-append,
}
use doorhinges.Reply.{
  Reply, msgused, last_message, next_realloc, ensure_iov_space, grow_msglist, new_message,
  add_msghdr, limit_to_mtu, start_message,
}
use doorhinges.Reply.Messages.{payload, payload-append}

pub fewer : (rs : List Bool) → length (drop 1 rs) ≤ length rs
fewer [] = omega arith
fewer (r ∷ rs) = omega arith

-- `c'` comes of `c` without a fragment more, and with the calls of `realloc` that it has left.
pub record IsKept (c c' : Reply) : Type 0 where
  pub calls : length c'.realloced ≤ length c.realloced
  pub same : payload false c'.output.msglist ≡ payload false c.output.msglist
  pub more : msgused c ≤ msgused c'
  pub tcp : c'.output.udp ≡ false

pub ensure-IsKept : (c : Reply) → c.output.udp ≡ false → IsKept c (ensure_iov_space c).1
unfolding ensure_iov_space
ensure-IsKept c stream = elim (Bool-cases (leb c.iovsize c.iovused)) [
  | inl full ↦ elim (Bool-cases (next_realloc c.realloced)) [
    | inl given ↦
        rw (full, given)
          (record { calls = fewer c.realloced; same = refl; more = omega arith; tcp = stream })
    | inr refused ↦
        rw (full, refused)
          (record { calls = fewer c.realloced; same = refl; more = omega arith; tcp = stream })
  ]
  | inr room ↦
      rw room (record { calls = omega arith; same = refl; more = omega arith; tcp = stream })
]

pub ensure_bytes : (c : Reply) → (ensure_iov_space c).1.msgbytes ≡ c.msgbytes
unfolding ensure_iov_space
ensure_bytes c = ground arith

-- Either there is a new message, or a call of `realloc` has failed.
add-IsKept :
    (c : Reply)
    → c.output.udp ≡ false
    → IsKept c (add_msghdr c).1
      × (((add_msghdr c).1.msgbytes ≡ 0) ⊎ (length (add_msghdr c).1.realloced < length c.realloced))
unfolding add_msghdr grow_msglist new_message flatten
add-IsKept c stream = elim (Bool-cases (c.msgsize == msgused c)) [
  | inl full ↦ elim (Bool-cases (next_realloc c.realloced)) [
    | inl given ↦
        rw (full, given, stream)
          (
            record {
              calls = fewer c.realloced;
              same = payload-append false c.output.msglist [] refl;
              more = longer c.output.msglist;
              tcp = refl;
            },
            inl refl,
          )
    | inr refused ↦
        rw (full, refused)
          (
            record { calls = fewer c.realloced; same = refl; more = omega arith; tcp = stream },
            inr (refused_less c.realloced refused),
          )
  ]
  | inr room ↦
      rw (room, stream)
        (
          record {
            calls = omega arith;
            same = payload-append false c.output.msglist [] refl;
            more = longer c.output.msglist;
            tcp = refl;
          },
          inl refl,
        )
]
  where
    longer : (ms : List (List (List ℕ))) → length ms ≤ length (ms ++ [] ∷ [])
    longer ms = omega (arith, length-append ms ([] ∷ []))

    refused_less : (rs : List Bool) → next_realloc rs ≡ false → length (drop 1 rs) < length rs
    refused_less [] h = absurd (true≢false h)
    refused_less (r ∷ rs) h = omega arith

pub start-IsKept :
    (n : ℕ) (c : Reply)
    → c.output.udp ≡ false
    → IsKept c (start_message n c)
      × ((limit_to_mtu c ≡ false)
          ⊎ ((start_message n c).msgbytes < 1400)
          ⊎ (length (start_message n c).realloced < length c.realloced))
unfolding start_message
start-IsKept n c stream =
    elim (Bool-cases
      ((length (last_message c.output.msglist) == n) || (limit_to_mtu c && leb 1400 c.msgbytes))) [
        | inl full ↦ rw full (let (k, p) = add-IsKept c stream in (k, later p))
        | inr room ↦ rw room (
          record { calls = omega arith; same = refl; more = omega arith; tcp = stream },
          has_room (limit_to_mtu c) c.msgbytes (length (last_message c.output.msglist) == n) room,
        )
      ]
  where
    later :
        ((add_msghdr c).1.msgbytes ≡ 0) ⊎ (length (add_msghdr c).1.realloced < length c.realloced)
        → (limit_to_mtu c ≡ false)
          ⊎ ((add_msghdr c).1.msgbytes < 1400)
          ⊎ (length (add_msghdr c).1.realloced < length c.realloced)
    later (inl nothing) = inr (inl (omega arith))
    later (inr less) = inr (inr less)

    has_room :
        (limit : Bool) (bytes : ℕ) (other : Bool)
        → (other || (limit && leb 1400 bytes)) ≡ false
        → (limit ≡ false) ⊎ (bytes < 1400) ⊎ (length c.realloced < length c.realloced)
    has_room limit bytes other h = ground arith
