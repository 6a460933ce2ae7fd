-- ===== src/Reply/Headers.antt =====
-- `build_udp_headers`: the header of each datagram, and how a datagram is read.
use mathlib.Core.List.{flatten}
use doorhinges.Base.{
  ℕ, zero, suc, ◌+◌, ◌-◌, ◌*◌, ◌/◌, ◌%◌, ◌≤◌, ◌<◌, ◌≡◌, refl, ap, ◌∙◌, Bool, true, false, ◌&&◌,
  ◌||◌, List, [], ◌∷◌, ◌++◌, some, arith, length, get_or, take, head?, ltb, leb, ◌==◌, subst,
  Bool-cases, inl, inr, if◌then◌else◌,
}
use doorhinges.Input.{Input, data_received, no_data_received, try_read_udp}
use doorhinges.Input.Slice.{unread}
use doorhinges.Input.Udp.{try_read_udp_lem}
use doorhinges.Reply.{Reply, msgused, udp_header, put_headers, build_udp_headers}
use doorhinges.Reply.Messages.{Each, Datagram, payload}

payload-put_headers :
    (id used i : ℕ) (ms : List (List (List ℕ)))
    → payload true (put_headers id used i ms) ≡ payload true ms
unfolding put_headers
payload-put_headers id used i [] = refl
payload-put_headers id used i ([] ∷ ms) =
    ap (λ l. flatten [] ++ l) (payload-put_headers id used (i + 1) ms)
payload-put_headers id used i ((b ∷ bs) ∷ ms) =
    ap (λ l. flatten bs ++ l) (payload-put_headers id used (i + 1) ms)

length-put_headers :
    (id used i : ℕ) (ms : List (List (List ℕ))) → length (put_headers id used i ms) ≡ length ms
unfolding put_headers
length-put_headers id used i [] = refl
length-put_headers id used i ([] ∷ ms) = ap suc (length-put_headers id used (i + 1) ms)
length-put_headers id used i ((b ∷ bs) ∷ ms) = ap suc (length-put_headers id used (i + 1) ms)

head-put_headers :
    (id used i j : ℕ) (ms : List (List (List ℕ)))
    → j < length ms
    → Each (Datagram true) ms
    → head? (get_or (put_headers id used i ms) j []) ≡ some (udp_header id (j + i) used)
unfolding put_headers
head-put_headers id used i j [] h d = absurd (omega arith)
head-put_headers id used i j ([] ∷ ms) h d = absurd (omega arith)
head-put_headers id used i zero ((b ∷ bs) ∷ ms) h d =
    ap (λ k. some (udp_header id k used)) (omega arith)
head-put_headers id used i (suc j) ((b ∷ bs) ∷ ms) h d =
    head-put_headers id used (i + 1) j ms (omega arith) d.1
    ∙ ap (λ k. some (udp_header id k used)) (omega arith)

-- What the result is where the headers are built, and where the memory for them is not there.
abbrev pub Headed : ℕ → ℕ → ℕ → Reply → Bool × ℕ × Reply → Type 0
Headed request_id hdrsize j c (true, size, d) =
    (head? (get_or d.output.msglist j []) ≡ some (udp_header request_id j (msgused c)))
    × (msgused c ≤ size)
Headed request_id hdrsize j c (false, size, d) = (d ≡ c) × (size ≡ hdrsize)

-- `build_udp_headers` on datagrams with room for a header each. If the memory for the headers is
-- there it returns 0, the datagrams carry what they did, each has the header with its number, and
-- the buffer has room for the headers of all. Otherwise nothing changes.
pub build_udp_headers_lem :
    (request_id hdrsize j : ℕ) (given : Bool) (c : Reply)
    → Each (Datagram true) c.output.msglist
    → j < msgused c
    → let r = build_udp_headers request_id hdrsize given c in
      (r.0 ≡ given || leb (msgused c) hdrsize)
      × (payload true r.2.output.msglist ≡ payload true c.output.msglist)
      × (msgused r.2 ≡ msgused c)
      × Headed request_id hdrsize j c r
unfolding build_udp_headers
build_udp_headers_lem id hdrsize j given c d h = elim (Bool-cases (ltb hdrsize (msgused c))) [
  | inl larger ↦ elim (Bool-cases given) [
    | inl there ↦
        rw (larger, there)
          (
            refl,
            payload-put_headers id (msgused c) 0 c.output.msglist,
            length-put_headers id (msgused c) 0 c.output.msglist,
            (numbered, omega arith),
          )
    | inr missing ↦ rw (larger, missing) (ground arith, refl, refl, (refl, refl))
  ]
  | inr fits ↦ rw fits (
    ground arith,
    payload-put_headers id (msgused c) 0 c.output.msglist,
    length-put_headers id (msgused c) 0 c.output.msglist,
    (numbered, ground arith),
  )
]
  where
    numbered :
        head? (get_or (put_headers id (msgused c) 0 c.output.msglist) j [])
        ≡ some (udp_header id j (msgused c))
    numbered =
        head-put_headers id (msgused c) 0 j c.output.msglist h d
        ∙ ap (λ k. some (udp_header id k (msgused c))) (omega arith)

-- What `try_read_udp` reads of a datagram with such a header and a body that is not empty, where the
-- buffer has `room` bytes more than a header and a byte: the request ID of the sender, and, if it is the
-- only datagram, the bytes of the body that the buffer holds behind the header.
pub try_read_udp-udp_header :
    (c : Input) (request_id i used b room : ℕ) (text : List ℕ)
    → request_id < 65536
    → used < 65536
    → c.rsize ≡ 9 + room
    → let r = try_read_udp (udp_header request_id i used ++ b ∷ text) c in
      let kept = take (c.rsize - 8) (b ∷ text) in
      (r.1 ≡ (if used == 1 then data_received else no_data_received))
      × (r.0.request_id ≡ request_id)
      × ((if used == 1 then unread r.0 else kept) ≡ kept)
unfolding udp_header
try_read_udp-udp_header c id i used b room text small few size =
    let l =
      try_read_udp_lem c (id / 256 % 256) (id % 256) (i / 256 % 256) (i % 256) (used / 256 % 256)
        (used % 256) 0 0 b room text size in
    let kept = take (c.rsize - 8) (b ∷ text) in
    (
      l.0 ∙ ap (λ t. if t then data_received else no_data_received) single,
      l.2 ∙ whole,
      subst
          (λ t.
            (if t then unread (try_read_udp (udp_header id i used ++ b ∷ text) c).0 else kept)
            ≡ kept)
          single l.1,
    )
  where
    single : (used / 256 % 256 == 0 && used % 256 == 1) ≡ (used == 1)
    single = ground arith

    whole : id / 256 % 256 * 256 + id % 256 ≡ id
    whole = omega arith
