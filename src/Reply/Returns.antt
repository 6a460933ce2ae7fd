-- ===== src/Reply/Returns.antt =====
-- `add_iov`, where a `realloc` may fail.
use doorhinges.Base.{
  ℕ, zero, suc, ◌+◌, ◌-◌, ◌≤◌, ◌<◌, ◌≡◌, refl, sym, ap, ◌∙◌, ◌⊎◌, Bool, true, false, List, [], ◌∷◌,
  ◌++◌, some, arith, length, drop, ltb, Bool-cases, inl, inr, append_assoc, append-nil,
}
use doorhinges.Reply.{
  Reply, msgused, take, ensure_iov_space, append_fragment, limit_to_mtu, start_message, leftover,
  add_iov,
}
use doorhinges.Reply.Messages.{
  Each, Datagram, payload, payload-append_last, length-append_last, take-drop, length-drop,
}
use doorhinges.Reply.Queued.{ready, stored, leftover_less, leftover_none, take_whole}
use doorhinges.Reply.Kept.{IsKept, ensure-IsKept, ensure_bytes, start-IsKept}

-- What the messages carry in `d` when `add_iov` has returned 0, and when it has not.
abbrev pub Stored : Reply → Reply → List ℕ → Bool → Type 0
Stored c d buf true = payload false d.output.msglist ≡ payload false c.output.msglist ++ buf
Stored c d buf false =
    (k : ℕ) × (payload false d.output.msglist ≡ payload false c.output.msglist ++ take k buf)

take_add :
    (m k : ℕ) (xs : List ℕ) → m ≤ length xs → take m xs ++ take k (drop m xs) ≡ take (m + k) xs
take_add zero k xs h = ap (λ i. take i xs) (omega arith)
take_add (suc m) k [] h = absurd (omega arith)
take_add (suc m) k (x ∷ xs) h =
    ap (λ l. x ∷ l) (take_add m k xs (omega arith)) ∙ ap (λ i. take i (x ∷ xs)) next
  where
    next : suc (m + k) ≡ suc m + k
    next = omega arith

-- A part of the bytes, and then the rest.
Stored-append :
    (c d e : Reply) (buf : List ℕ) (m : ℕ) (ok : Bool)
    → m ≤ length buf
    → payload false d.output.msglist ≡ payload false c.output.msglist ++ take m buf
    → Stored d e (drop m buf) ok
    → Stored c e buf ok
Stored-append c d e buf m true h p q =
    q
    ∙ ap (λ l. l ++ drop m buf) p
    ∙ append_assoc (payload false c.output.msglist) (take m buf) (drop m buf)
    ∙ ap (λ l. payload false c.output.msglist ++ l) (take-drop m buf)
Stored-append c d e buf m false h p (k, q) = (
  m + k,
  q
      ∙ ap (λ l. l ++ take k (drop m buf)) p
      ∙ append_assoc (payload false c.output.msglist) (take m buf) (take k (drop m buf))
      ∙ ap (λ l. payload false c.output.msglist ++ l) (take_add m k buf h),
)

streams : (ms : List (List (List ℕ))) → Each (Datagram false) ms
streams [] = tt
streams (m ∷ ms) = (tt, streams ms)

append_kept :
    (c e : Reply) (b : List ℕ)
    → IsKept c e
    → 1 ≤ msgused c
    → (payload false (append_fragment b e).output.msglist ≡ payload false c.output.msglist ++ b)
      × (1 ≤ msgused (append_fragment b e))
      × ((append_fragment b e).output.udp ≡ false)
      × (length (append_fragment b e).realloced ≤ length e.realloced)
unfolding append_fragment
append_kept c e b k pos = (
  payload-append_last false b e.output.msglist (omega (arith, k.more)) (streams e.output.msglist)
      ∙ ap (λ l. l ++ b) k.same,
  omega (arith, k.more, length-append_last b e.output.msglist),
  k.tcp,
  omega arith,
)

module _ (n : ℕ) where
  ready-IsKept :
      (c : Reply)
      → c.output.udp ≡ false
      → IsKept c (ready n c)
        × ((limit_to_mtu c ≡ false)
            ⊎ ((ready n c).msgbytes < 1400)
            ⊎ (length (ready n c).realloced < length c.realloced))
  ready-IsKept c stream =
      let (k, either) = start-IsKept n c stream in
      let g = ensure-IsKept (start_message n c) k.tcp in
      (
        record {
          calls = omega (arith, k.calls, g.calls);
          same = g.same ∙ k.same;
          more = omega (arith, k.more, g.more);
          tcp = g.tcp;
        },
        still g.calls (ensure_bytes (start_message n c)) either,
      )
    where
      still :
          length (ready n c).realloced ≤ length (start_message n c).realloced
          → (ready n c).msgbytes ≡ (start_message n c).msgbytes
          → (limit_to_mtu c ≡ false)
            ⊎ ((start_message n c).msgbytes < 1400)
            ⊎ (length (start_message n c).realloced < length c.realloced)
          → (limit_to_mtu c ≡ false)
            ⊎ ((ready n c).msgbytes < 1400)
            ⊎ (length (ready n c).realloced < length c.realloced)
      still calls same (inl free) = inl free
      still calls same (inr (inl room)) = inr (inl (omega arith))
      still calls same (inr (inr less)) = inr (inr (omega arith))

  -- Another pass has fewer bytes, or fewer calls.
  shorter :
      (limit : Bool) (len bytes left calls fuel : ℕ)
      → ltb 0 (leftover limit len bytes) ≡ true
      → left ≡ len - (len - leftover limit len bytes)
      → (limit ≡ false) ⊎ (bytes < 1400) ⊎ (left + calls < fuel)
      → len + calls < suc fuel
      → left + calls < fuel
  shorter limit len bytes left calls fuel more same (inl free) h = ground arith
  shorter limit len bytes left calls fuel more same (inr (inl room)) h =
      omega (arith, leftover_less limit len bytes (inr room) more)
  shorter limit len bytes left calls fuel more same (inr (inr less)) h = less

  with_less :
      (c : Reply) (buf : List ℕ) (d : Reply) (fuel m : ℕ)
      → length buf + length c.realloced < suc fuel
      → length d.realloced ≤ length (ready n c).realloced
      → (limit_to_mtu c ≡ false)
        ⊎ ((ready n c).msgbytes < 1400)
        ⊎ (length (ready n c).realloced < length c.realloced)
      → (limit_to_mtu c ≡ false)
        ⊎ ((ready n c).msgbytes < 1400)
        ⊎ (length (drop m buf) + length d.realloced < fuel)
  with_less c buf d fuel m h calls (inl free) = inl free
  with_less c buf d fuel m h calls (inr (inl room)) = inr (inl room)
  with_less c buf d fuel m h calls (inr (inr less)) = inr (inr (omega (arith, length-drop m buf)))

  -- `add_iov` on a TCP connection, whichever calls of `realloc` fail, on fuel of more than the
  -- bytes and the calls whose results are given: it returns. If it returns 0, all the bytes are
  -- behind those that the messages carry, and else the first of them are.
  pub add_iov_returns :
      (fuel : ℕ) (buf : List ℕ) (c : Reply)
      → length buf + length c.realloced < fuel
      → c.output.udp ≡ false
      → 1 ≤ msgused c
      → (ok : Bool) × (d : Reply) × (add_iov n fuel buf c ≡ some (ok, d)) × Stored c d buf ok
  unfolding add_iov
  add_iov_returns zero buf c h stream pos = absurd (omega arith)
  add_iov_returns (suc fuel) buf c h stream pos =
      let (k, either) = ready-IsKept c stream in
      let m = stored n c buf in
      let (p, pos', stream', calls) = append_kept c (ready n c) (take m buf) k pos in
      let d = append_fragment (take m buf) (ready n c) in
      elim (Bool-cases ((ensure_iov_space (start_message n c)).0)) [
        | inl ok ↦
            elim (Bool-cases
              (ltb 0 (leftover (limit_to_mtu c) (length buf) (ready n c).msgbytes))) [
                | inl more ↦
                    let (r, e, eq, q) =
                      add_iov_returns fuel (drop m buf) d
                        (shorter (limit_to_mtu c) (length buf) (ready n c).msgbytes
                          (length (drop m buf)) (length d.realloced) fuel more (length-drop m buf)
                          (with_less c buf d fuel m h calls either) (omega (arith, k.calls)))
                        stream' pos' in
                    (r, e, rw (ok, more) eq, Stored-append c d e buf m r (omega arith) p q)
                | inr last ↦ (
                  true,
                  d,
                  rw (ok, last) refl,
                  p
                      ∙ ap (λ l. payload false c.output.msglist ++ l)
                          (take_whole buf
                            (leftover (limit_to_mtu c) (length buf) (ready n c).msgbytes)
                            (leftover_none (limit_to_mtu c) (length buf) (ready n c).msgbytes
                              last)),
                )
              ]
        | inr failed ↦ (
          false,
          ready n c,
          rw failed refl,
          (0, k.same ∙ sym (append-nil (payload false c.output.msglist))),
        )
      ]
