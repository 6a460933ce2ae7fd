-- ===== src/Reply/Queued.antt =====
-- The loop of `add_iov`, where no `realloc` fails.
use doorhinges.Base.{
  ℕ, zero, suc, ◌+◌, ◌-◌, ◌≤◌, ◌<◌, ◌≡◌, refl, sym, ap, ◌∙◌, ◌⊎◌, Bool, true, false, ◌||◌, List, [],
  ◌∷◌, ◌++◌, some, arith, length, drop, ltb, ◌==◌, Bool-cases, inl, inr, subst, append_assoc,
}
use doorhinges.Output.{Output}
use doorhinges.Reply.{
  Reply, msgused, take, last_message, ensure_iov_space, append_fragment, limit_to_mtu,
  start_message, leftover, add_iov,
}
use doorhinges.Reply.Messages.{size, payload, take-drop, length-take, length-drop}
use doorhinges.Reply.Valid.{
  IsValid, HasMemory, Counted, IsGrown, IsGrown-IsValid, ensure_iov_space_lem,
}
use doorhinges.Reply.Fragments.{IsQueued, IsOpen, append_fragment_lem, start_message_lem}

-- Where a message is ready for a fragment.
abbrev pub ready : ℕ → Reply → Reply
ready n c = (ensure_iov_space (start_message n c)).1

-- How many bytes a pass stores.
abbrev pub stored : ℕ → Reply → List ℕ → ℕ
stored n c buf = length buf - leftover (limit_to_mtu c) (length buf) (ready n c).msgbytes

IsGrown-IsOpen : (n : ℕ) (c s e : Reply) → IsGrown s e → HasMemory e → IsOpen n c s → IsOpen n c e
IsGrown-IsOpen n c s e g mem o = record {
  open_valid = IsGrown-IsValid n s e g o.open_valid;
  open_counted =
      g.same_bytes ∙ o.open_counted ∙ ap (λ p. size (last_message p.msglist)) (sym g.same);
  open_memory = mem;
  open_more = subst (λ p. msgused c ≤ length p.msglist) (sym g.same) o.open_more;
  open_few = subst (λ p. length (last_message p.msglist) < n) (sym g.same) o.open_few;
  open_limit =
      subst (λ p. (limit_to_mtu c ≡ true) ⊎ ((p.udp || (1 == length p.msglist)) ≡ false))
        (sym g.same) o.open_limit;
  open_room = subst (λ k. (limit_to_mtu c ≡ false) ⊎ (k < 1400)) (sym g.same_bytes) o.open_room;
  open_same = ap (λ p. payload p.udp p.msglist) g.same ∙ o.open_same;
  open_kept =
      g.same
      ∙ o.open_kept
      ∙ ap {B = Output} (λ p. record c.output { msglist = p.msglist }) (sym g.same);
}

leftover_fits :
    (limit : Bool) (len bytes : ℕ)
    → limit ≡ true
    → (limit ≡ false) ⊎ (bytes < 1400)
    → bytes + (len - leftover limit len bytes) ≤ 1400
leftover_fits limit len bytes on room = ground arith

pub leftover_less :
    (limit : Bool) (len bytes : ℕ)
    → (limit ≡ false) ⊎ (bytes < 1400)
    → ltb 0 (leftover limit len bytes) ≡ true
    → leftover limit len bytes < len
leftover_less limit len bytes room more = ground arith

pub leftover_none :
    (limit : Bool) (len bytes : ℕ)
    → ltb 0 (leftover limit len bytes) ≡ false
    → leftover limit len bytes ≡ 0
leftover_none limit len bytes none_left = ground arith

take_all : (xs : List ℕ) → take (length xs) xs ≡ xs
take_all [] = refl
take_all (x ∷ xs) = ap (λ l. x ∷ l) (take_all xs)

pub take_whole : (xs : List ℕ) (m : ℕ) → m ≡ 0 → take (length xs - m) xs ≡ xs
take_whole xs m none_left = ap (λ k. take k xs) less ∙ take_all xs
  where
    less : length xs - m ≡ length xs
    less = omega arith

-- A fragment with a part of the bytes.
open_pass :
    (n : ℕ) (c e : Reply) (buf : List ℕ)
    → 1 ≤ msgused c
    → IsOpen n c e
    → e.iovused < e.iovsize
    → let k = length buf - leftover (limit_to_mtu c) (length buf) e.msgbytes in
      IsQueued n c (append_fragment (take k buf) e) (take k buf)
open_pass n c e buf pos o room =
    let k = length buf - leftover (limit_to_mtu c) (length buf) e.msgbytes in
    let q =
      append_fragment_lem n e (take k buf) o.open_valid o.open_counted o.open_memory
        (omega (arith, o.open_more)) o.open_few room (λ limit. fits limit o.open_limit) in
    record {
      valid = q.valid;
      counted = q.counted;
      memory = q.memory;
      more = omega (arith, q.more, o.open_more);
      carries = q.carries ∙ ap (λ l. l ++ take k buf) o.open_same;
      kept =
          q.kept
          ∙ ap {B = Output}
              (λ p. record p { msglist = (append_fragment (take k buf) e).output.msglist })
              o.open_kept;
    }
  where
    fits :
        limit_to_mtu e ≡ true
        → (limit_to_mtu c ≡ true) ⊎ (limit_to_mtu e ≡ false)
        → e.msgbytes
            + length (take (length buf - leftover (limit_to_mtu c) (length buf) e.msgbytes) buf)
          ≤ 1400
    fits limit (inl on) = omega (
      arith,
      length-take (length buf - leftover (limit_to_mtu c) (length buf) e.msgbytes) buf
          (omega arith),
      leftover_fits (limit_to_mtu c) (length buf) e.msgbytes on o.open_room,
    )
    fits limit (inr off) = absurd (ground arith)

module _ (n : ℕ) where
  pass_lem :
      (c : Reply)
      → 2 ≤ n
      → IsValid n c
      → Counted c
      → HasMemory c
      → 1 ≤ msgused c
      → ((ensure_iov_space (start_message n c)).0 ≡ true)
        × IsOpen n c (ready n c)
        × ((ready n c).iovused < (ready n c).iovsize)
  pass_lem c two v k mem pos =
      let s = start_message n c in
      let o = start_message_lem n c two v k mem pos in
      let (ok, mem', g, room) =
        ensure_iov_space_lem s o.open_valid.iov_some o.open_valid.iov_room o.open_memory in
      (ok, IsGrown-IsOpen n c s (ready n c) g mem' o, omega (arith, g.same_used))

  -- The passes one after the other.
  IsQueued-trans :
      (c d e : Reply) (buf more : List ℕ)
      → IsQueued n c d buf
      → IsQueued n d e more
      → IsQueued n c e (buf ++ more)
  IsQueued-trans c d e buf more p q = record {
    valid = q.valid;
    counted = q.counted;
    memory = q.memory;
    more = omega (arith, p.more, q.more);
    carries =
        q.carries
        ∙ ap (λ l. l ++ more) p.carries
        ∙ append_assoc (payload c.output.udp c.output.msglist) buf more;
    kept = q.kept ∙ ap {B = Output} (λ o. record o { msglist = e.output.msglist }) p.kept;
  }

  all_stored :
      (c e : Reply) (buf : List ℕ) (m : ℕ)
      → IsQueued n c (append_fragment (take (length buf - m) buf) e) (take (length buf - m) buf)
      → m ≡ 0
      → IsQueued n c (append_fragment (take (length buf - m) buf) e) buf
  all_stored c e buf m q none_left =
      subst (IsQueued n c (append_fragment (take (length buf - m) buf) e))
        (take_whole buf m none_left) q

  -- `add_iov`, where no `realloc` fails and `iov_max` is at least two: on fuel of more than the
  -- bytes it returns 0, the bytes `buf` come behind those that the messages carry, and these can
  -- still be sent.
  pub add_iov_lem :
      (fuel : ℕ) (buf : List ℕ) (c : Reply)
      → length buf < fuel
      → 2 ≤ n
      → IsValid n c
      → Counted c
      → HasMemory c
      → 1 ≤ msgused c
      → (d : Reply) × (add_iov n fuel buf c ≡ some (true, d)) × IsQueued n c d buf
  unfolding add_iov
  add_iov_lem zero buf c h two v k mem pos = absurd (omega arith)
  add_iov_lem (suc fuel) buf c h two v k mem pos =
      let (ok, o, room) = pass_lem c two v k mem pos in
      let m = leftover (limit_to_mtu c) (length buf) (ready n c).msgbytes in
      let q = open_pass n c (ready n c) buf pos o room in
      let t = take (stored n c buf) buf in
      elim (Bool-cases (ltb 0 m)) [
        | inl more ↦
            let (d, e, r) =
              add_iov_lem fuel (drop (stored n c buf) buf) (append_fragment t (ready n c))
                (omega (
                  arith,
                  length-drop (stored n c buf) buf,
                  leftover_less (limit_to_mtu c) (length buf) (ready n c).msgbytes o.open_room more,
                ))
                two q.valid q.counted q.memory (omega (arith, q.more)) in
            (
              d,
              rw (ok, more) e,
              subst (IsQueued n c d) (take-drop (stored n c buf) buf) (
                  IsQueued-trans c (append_fragment t (ready n c)) d t (drop (stored n c buf) buf) q
                    r),
            )
        | inr last ↦ (
          append_fragment t (ready n c),
          rw (ok, last) refl,
          all_stored c (ready n c) buf m q
              (leftover_none (limit_to_mtu c) (length buf) (ready n c).msgbytes last),
        )
      ]
