-- ===== src/CycleQueue/Shrink.antt =====
-- `eg_cq_push` where it first removes the newest bucket, none of whose nodes is in use.
use doorhinges.Base.{
  ℕ, zero, suc, ◌+◌, ◌-◌, ◌≤◌, ◌≡◌, refl, sym, ap, ◌∙◌, ◌≢◌, true, false, Option, none, List, [],
  ◌∷◌, ◌++◌, arith, length, length-append, ◌==◌, ==_iff, ==_refl, append_assoc, append-nil,
  Bool-cases, inl, inr, subst,
}
use doorhinges.CycleQueue.{
  CycleQueue, Bucket, Alloc, update, in_array, eg_cq_push, eg_cq_dec, eg_cq_pop, eg_cq_empty,
  eg_cq_capity, remove_bucket, is_spare, store,
}
use doorhinges.CycleQueue.Ring.{
  Leads, has, Distinct, range, AllNull, IsRing, has-append, has-append_parts, Distinct-right,
  Distinct-apart, has-range, length-range, Leads-append, Leads-update, AllNull-append,
}
use doorhinges.CycleQueue.Push.{IsPushed, store-IsPushed, not_full}

-- Where a list leads, its parts lead.
Leads-split :
    (next : ℕ → ℕ) (p q : ℕ) (as' bs : List ℕ)
    → Leads next p (as' ++ bs) q
    → (m : ℕ) × Leads next p as' m × Leads next m bs q
Leads-split next p q [] bs l = (p, refl, l)
Leads-split next p q (a ∷ as') bs l =
    let (m, left, right) = Leads-split next (next a) q as' bs l.1 in (m, (l.0, left), right)

-- The way behind an array starts at the `next` of its last node.
Leads-behind :
    (next : ℕ → ℕ) (n m base q : ℕ) (post : List ℕ)
    → Leads next m (range base (suc n) ++ post) q
    → Leads next (next (base + n)) post q
unfolding range
Leads-behind next zero m base q post l = let e : base + 0 ≡ base = omega arith in rw e l.1
Leads-behind next (suc n) m base q post l =
    let e : base + suc n ≡ base + 1 + n = omega arith in
    rw e (Leads-behind next n (next base) (base + 1) q post l.1)

-- The first node of a list of distinct nodes is not among those behind another of them.
first_apart :
    (next : ℕ → ℕ) (p q h : ℕ) (pre rest : List ℕ)
    → Leads next p (pre ++ h ∷ rest) q
    → Distinct (pre ++ h ∷ rest)
    → has p rest ≡ false
first_apart next p q h [] rest l d = rw (l.0) d.0
first_apart next p q h (a ∷ pre) rest l d =
    rw (l.0) (ground (arith, has-append a pre (h ∷ rest), d.0))

-- Distinct nodes stay so without those in the middle.
Distinct-without : (as' bs cs : List ℕ) → Distinct (as' ++ (bs ++ cs)) → Distinct (as' ++ cs)
Distinct-without [] bs cs d = Distinct-right bs cs d
Distinct-without (a ∷ as') bs cs d = (
  ground (arith, d.0, has-append a as' (bs ++ cs), has-append a bs cs, has-append a as' cs),
  Distinct-without as' bs cs d.1,
)

two_spare :
    (b : Bucket) (n : ℕ) (pre post : List ℕ)
    → 2 ≤ length (pre ++ b.head ∷ (range b.node (suc n) ++ post))
two_spare b n pre post = omega (
  arith,
  length-append pre (b.head ∷ (range b.node (suc n) ++ post)),
  length-append (range b.node (suc n)) post,
  length-range b.node (suc n),
)

module _ {ℓ} {V : Type ℓ} where
  AllNull-parts :
      (val : ℕ → Option V) (as' bs : List ℕ)
      → AllNull val (as' ++ bs)
      → AllNull val as' × AllNull val bs
  AllNull-parts val [] bs n = (tt, n)
  AllNull-parts val (a ∷ as') bs n =
      let (left, right) = AllNull-parts val as' bs n.1 in ((n.0, left), right)

  AllNull-has :
      (val : ℕ → Option V) (p : ℕ) (as' : List ℕ)
      → AllNull val as'
      → has p as' ≡ true
      → val p ≡ none
  AllNull-has val p [] n h = cc
  AllNull-has val p (a ∷ as') n h = elim (Bool-cases (a == p)) [
    | inl same ↦ rw (← (==_iff a p).0 same) n.0
    | inr other ↦ AllNull-has val p as' n.1 (ground arith)
  ]

  module _ (b : Bucket) (bs : List Bucket) (n : ℕ) (pre post used : List ℕ) {cq : CycleQueue V}
      (r : IsRing cq used (pre ++ b.head ∷ (range b.node (suc n) ++ post)))
      (newest : cq.btlist ≡ b ∷ bs) (size : b.size ≡ suc n) where
    -- The queue without its newest bucket.
    abbrev shrunk : CycleQueue V
    shrunk = record cq {
      btlist = bs;
      next = update cq.next b.head (cq.next (b.node + n));
      size = cq.size - suc n;
      bt_index = cq.bt_index - 1;
    }

    last_node : b.node + b.size - 1 ≡ b.node + n
    last_node = omega arith

    dec-shrunk : eg_cq_dec cq ≡ shrunk
    unfolding eg_cq_dec
    dec-shrunk =
        ap (λ l. remove_bucket l cq) newest
        ∙ (unfold remove_bucket in
            (λ i. record cq {
              btlist = bs;
              next = update cq.next b.head (cq.next (last_node i));
              size = cq.size - size i;
              bt_index = cq.bt_index - 1;
            }))

    spare_out :
        (has b.head pre ≡ false)
        × (has b.head (range b.node (suc n) ++ post) ≡ false)
        × (has b.head used ≡ false)
    spare_out =
        let d = Distinct-right used (pre ++ b.head ∷ (range b.node (suc n) ++ post)) r.distinct in
        (
          Distinct-apart b.head pre (b.head ∷ (range b.node (suc n) ++ post)) d
              (rw (==_refl b.head) refl),
          (Distinct-right pre (b.head ∷ (range b.node (suc n) ++ post)) d).0,
          Distinct-apart b.head used (pre ++ b.head ∷ (range b.node (suc n) ++ post)) r.distinct (
              rw (has-append b.head pre (b.head ∷ (range b.node (suc n) ++ post)), ==_refl b.head)
                (ground arith)),
        )

    regroup :
        (rest : List ℕ) → (used ++ (pre ++ b.head ∷ [])) ++ rest ≡ used ++ (pre ++ b.head ∷ rest)
    regroup rest =
        append_assoc used (pre ++ b.head ∷ []) rest
        ∙ ap (λ l. used ++ l) (append_assoc pre (b.head ∷ []) rest)

    shrunk-Leads : Leads shrunk.next shrunk.tail (pre ++ b.head ∷ post) shrunk.head
    shrunk-Leads =
        let (m, left, right) =
          Leads-split cq.next cq.tail cq.head pre (b.head ∷ (range b.node (suc n) ++ post))
            r.empties in
        let behind = Leads-behind cq.next n (cq.next b.head) b.node cq.head post right.1 in
        let post_out = (has-append_parts b.head (range b.node (suc n)) post spare_out.1).1 in
        let x = cq.next (b.node + n) in
        Leads-append shrunk.next cq.tail m cq.head pre (b.head ∷ post)
          (Leads-update cq.next b.head x cq.tail m pre spare_out.0 left)
          (
            right.0,
            rw (==_refl b.head) (Leads-update cq.next b.head x x cq.head post post_out behind),
          )

    shrunk_cleared : AllNull cq.val (pre ++ b.head ∷ post)
    shrunk_cleared =
        let (left, right) =
          AllNull-parts cq.val pre (b.head ∷ (range b.node (suc n) ++ post)) r.cleared in
        AllNull-append cq.val pre (b.head ∷ post) left
          (right.0, (AllNull-parts cq.val (range b.node (suc n)) post right.1).1)

    shrunk-IsRing : IsRing shrunk used (pre ++ b.head ∷ post)
    shrunk-IsRing = record {
      filled =
          Leads-update cq.next b.head (cq.next (b.node + n)) cq.head cq.tail used spare_out.2
            r.filled;
      empties = shrunk-Leads;
      distinct = subst Distinct (regroup post) (
          Distinct-without (used ++ (pre ++ b.head ∷ [])) (range b.node (suc n)) post
            (subst Distinct (sym (regroup (range b.node (suc n) ++ post))) r.distinct));
      counted = omega (
        arith,
        r.counted,
        length-append pre (b.head ∷ post),
        length-append pre (b.head ∷ (range b.node (suc n) ++ post)),
        length-append (range b.node (suc n)) post,
        length-range b.node (suc n),
      );
      cleared = shrunk_cleared;
    }

    tail_apart : in_array b.node (suc n) cq.tail ≡ false
    tail_apart =
        sym (has-range cq.tail b.node (suc n))
        ∙ (has-append_parts cq.tail (range b.node (suc n)) post (
            first_apart cq.next cq.tail cq.head b.head pre (range b.node (suc n) ++ post) r.empties
              (Distinct-right used (pre ++ b.head ∷ (range b.node (suc n) ++ post)) r.distinct))).0

    in_bucket : (p : ℕ) → in_array b.node (suc n) p ≡ true → cq.val p ≡ none
    in_bucket p h =
        let (left, right) =
          AllNull-parts cq.val pre (b.head ∷ (range b.node (suc n) ++ post)) r.cleared in
        AllNull-has cq.val p (range b.node (suc n))
          (AllNull-parts cq.val (range b.node (suc n)) post right.1).0
          (has-range p b.node (suc n) ∙ h)

    -- The bucket passes the test of `eg_cq_push`.
    bucket_spare : is_spare cq.btlist cq ≡ true
    unfolding is_spare
    bucket_spare =
        ap (λ l. is_spare l cq) newest
        ∙ rw
            (size, in_bucket b.node (ground arith), in_bucket (b.node + (suc n - 1)) (ground arith))
            (ground (arith, tail_apart))

    push-shrunk :
        (a : Alloc) (v : Option V)
        → cq.bt_index ≢ 0
        → (cq.next cq.tail == cq.head) ≡ false
        → eg_cq_push a cq v ≡ (store v shrunk, 1)
    unfolding eg_cq_push
    push-shrunk a v more room =
        let several : (cq.bt_index == 0) ≡ false = ground arith in
        rw (room, several, bucket_spare, dec-shrunk) refl

  -- A ring with two spare nodes or more is not full.
  room :
      (spare used : List ℕ) {cq : CycleQueue V}
      → IsRing cq used spare
      → 2 ≤ length spare
      → (cq.next cq.tail == cq.head) ≡ false
  room [] used r h = absurd (omega arith)
  room (t ∷ []) used r h = absurd (omega arith)
  room (t ∷ f ∷ spare) used r h = not_full t f used spare r

  module _ (a : Alloc) (v : Option V) (b : Bucket) (bs : List Bucket) (n : ℕ)
      {cq : CycleQueue V} where
    -- `eg_cq_push` where the newest bucket has no node in use and the ring keeps another spare
    -- node without it: it removes the bucket, returns 1 and adds the element at the end.
    pub eg_cq_push_shrink :
        (pre post used : List ℕ) (t f : ℕ) (spare : List ℕ)
        → IsRing cq used (pre ++ b.head ∷ (range b.node (suc n) ++ post))
        → cq.btlist ≡ b ∷ bs
        → b.size ≡ suc n
        → cq.bt_index ≢ 0
        → pre ++ b.head ∷ post ≡ t ∷ f ∷ spare
        → ((eg_cq_push a cq v).1 ≡ 1)
          × IsPushed v cq (eg_cq_push a cq v).0 used t (f ∷ spare)
          × (eg_cq_capity (eg_cq_push a cq v).0 + suc n ≡ eg_cq_capity cq)
    unfolding eg_cq_capity
    eg_cq_push_shrink pre post used t f spare r newest size more shape =
        let left : CycleQueue V = shrunk b bs n pre post used r newest size in
        let ring : IsRing left used (t ∷ f ∷ spare) =
          subst (λ l. IsRing left used l) shape
            (shrunk-IsRing b bs n pre post used r newest size) in
        let pushed = store-IsPushed v t f used spare ring in
        rw
          (push-shrunk b bs n pre post used r newest size a v more
            (room _ used r (two_spare b n pre post)))
          (
            refl,
            record { ring = pushed.ring; elements = pushed.elements },
            unfold store in
                omega (
                  arith,
                  r.counted,
                  length-append pre (b.head ∷ (range b.node (suc n) ++ post)),
                  length-append (range b.node (suc n)) post,
                  length-range b.node (suc n),
                ),
          )

    -- Where the tail stands right in front of the bucket, and the head right behind it, the tail
    -- is moved onto the head: `eg_cq_push` returns 1, and the queue is empty, whatever it held.
    pub eg_cq_push_lost :
        (used : List ℕ)
        → IsRing cq used (b.head ∷ range b.node (suc n))
        → cq.btlist ≡ b ∷ bs
        → b.size ≡ suc n
        → cq.bt_index ≢ 0
        → ((eg_cq_push a cq v).1 ≡ 1)
          × (eg_cq_empty (eg_cq_push a cq v).0 ≡ true)
          × ((eg_cq_pop (eg_cq_push a cq v).0).1 ≡ none)
    eg_cq_push_lost used r newest size more =
        rw
          (push-shrunk b bs n [] [] used whole newest size a v more
            (room _ used whole (two_spare b n [] [])))
          (refl, emptied, unfold eg_cq_pop in (rw emptied refl))
      where
        whole : IsRing cq used ([] ++ b.head ∷ (range b.node (suc n) ++ []))
        whole = rw (append-nil (range b.node (suc n))) r

        left : CycleQueue V
        left = shrunk b bs n [] [] used whole newest size

        ring : IsRing left used (b.head ∷ [])
        ring = shrunk-IsRing b bs n [] [] used whole newest size

        emptied : eg_cq_empty (store v left) ≡ true
        emptied =
            unfold eg_cq_empty store in
            ground (arith, ring.empties.0, ring.empties.1, ap left.next ring.empties.0)
