-- ===== src/CycleQueue/Grow.antt =====
-- `eg_cq_create`, and `eg_cq_push` on a ring that is full.
use doorhinges.Base.{
  ℕ, zero, suc, ◌+◌, ◌-◌, ◌*◌, ◌≤◌, ◌<◌, ◌≡◌, refl, sym, ap, ◌∙◌, ◌≢◌, true, false, Option, none,
  some, List, [], ◌∷◌, ◌++◌, arith, ◌==◌, ==_refl, append_assoc, subst,
}
use doorhinges.CycleQueue.{
  CycleQueue, Alloc, update, in_array, eg_cq_create, eg_cq_push, eg_cq_inc, eg_cq_capity,
  eg_cq_empty, allocate, init_next, init_buf, init_val, store, grow_by, newest_size,
}
use doorhinges.CycleQueue.Ring.{
  has, Distinct, range, AllNull, elements_of, IsRing, has-append, Distinct-apart, Distinct-append,
  map_congr, Leads-congr, has-range, length-range, range-Distinct, range-Leads,
}
use doorhinges.CycleQueue.Push.{IsPushed, store-IsPushed}

module _ {ℓ} {V : Type ℓ} where
  init_val-AllNull :
      (base size : ℕ) (val : ℕ → Option V) (n b : ℕ)
      → base ≤ b
      → b + n ≤ base + size
      → AllNull (init_val base size val) (range b n)
  unfolding init_val range
  init_val-AllNull base size val zero b lo hi = tt
  init_val-AllNull base size val (suc n) b lo hi =
      (ground arith, init_val-AllNull base size val n (b + 1) (omega arith) (omega arith))

  -- The queue after `eg_cq_inc` has got an array of `suc n` nodes at `base`.
  abbrev grown : ℕ → ℕ → Option ℕ → CycleQueue V → CycleQueue V
  grown base n buffer cq = record cq {
    size = cq.size + suc n;
    bt_index = cq.bt_index + 1;
    btlist = record { head = cq.tail; node = base; buf = buffer; size = suc n } ∷ cq.btlist;
    next =
        update (update (init_next base (suc n) cq.next) (base + suc n - 1) (cq.next cq.tail))
          cq.tail base;
    buf = init_buf base (suc n) buffer cq.val_size cq.buf;
    val = init_val base (suc n) cq.val;
  }

  -- A ring with one spare node is full.
  is_full :
      (t : ℕ) (used : List ℕ) {cq : CycleQueue V}
      → IsRing cq used (t ∷ [])
      → (cq.next cq.tail == cq.head) ≡ true
  is_full t used {cq} r = ground (arith, ap cq.next r.empties.0, r.empties.1)

  -- What `eg_cq_push` does on a full ring when the growth succeeds.
  push-store :
      (t : ℕ) (used : List ℕ) {cq : CycleQueue V}
      → IsRing cq used (t ∷ [])
      → (a : Alloc) (v : Option V) (cq' : CycleQueue V) → eg_cq_inc a cq ≡ (cq', 1)
      → eg_cq_push a cq v ≡ (store v cq', 1)
  unfolding eg_cq_push
  push-store t used r a v cq' inc = rw (is_full t used r, inc) refl

  module _ (base n : ℕ) (buffer : Option ℕ) (t : ℕ) (used : List ℕ) {cq : CycleQueue V}
      (r : IsRing cq used (t ∷ []))
      (fresh : (p : ℕ) → has p (used ++ t ∷ []) ≡ true → in_array base (suc n) p ≡ false) where
    in_used : (p : ℕ) → has p used ≡ true → (in_array base (suc n) p ≡ false) × (p ≢ t)
    in_used p h = (
      fresh p (rw (has-append p used (t ∷ []), h) refl),
      λ e. ground (arith, Distinct-apart p used (t ∷ []) r.distinct (rw (e, ==_refl t) refl)),
    )

    tail_out : in_array base (suc n) t ≡ false
    tail_out = fresh t (rw (has-append t used (t ∷ []), ==_refl t) (ground arith))

    next_used : (p : ℕ) → has p used ≡ true → (grown base n buffer cq).next p ≡ cq.next p
    unfolding init_next
    next_used p h = ground (arith, in_used p h, r.empties.0)

    next_array : (p : ℕ) → base ≤ p → p < base + n → (grown base n buffer cq).next p ≡ p + 1
    unfolding init_next
    next_array p lo hi = ground (arith, tail_out, r.empties.0)

    next_last : (grown base n buffer cq).next (base + n) ≡ cq.head
    unfolding init_next
    next_last = ground (arith, tail_out, r.empties.0, r.empties.1, ap cq.next r.empties.0)

    next_tail : (grown base n buffer cq).next t ≡ base
    next_tail = ground (arith, r.empties.0)

    -- The full ring with a new array behind its tail: the same elements, and room for `n + 1` more.
    pub grown-IsRing :
        IsRing (grown base n buffer cq) used (t ∷ range base (suc n))
        × (elements_of (grown base n buffer cq).val used ≡ elements_of cq.val used)
    unfolding init_val
    grown-IsRing = (
      record {
        filled =
            Leads-congr cq.next (grown base n buffer cq).next cq.head cq.tail used next_used
              r.filled;
        empties = (
          r.empties.0,
          rw next_tail
              (range-Leads (grown base n buffer cq).next n base cq.head next_array next_last),
        );
        distinct = subst Distinct (append_assoc used (t ∷ []) (range base (suc n))) (
            Distinct-append (used ++ t ∷ []) (range base (suc n)) r.distinct
              (range-Distinct base (suc n)) (λ p h. has-range p base (suc n) ∙ fresh p h));
        counted = omega (arith, r.counted, length-range base (suc n));
        cleared = (
          ground (arith, tail_out, r.cleared.0),
          init_val-AllNull base (suc n) cq.val (suc n) base (omega arith) (omega arith),
        );
      },
      map_congr (init_val base (suc n) cq.val) cq.val used (λ p h. ground (arith, (in_used p h).0)),
    )

    grow_by-grown :
        (a : Alloc)
        → allocate a cq.val_size ≡ some (base, buffer)
        → grow_by (suc n) a cq ≡ (grown base n buffer cq, 1)
    unfolding grow_by
    grow_by-grown a got = rw (got, grow_by) refl

    inc-grown :
        (a : Alloc)
        → newest_size cq.btlist ≡ suc n
        → allocate a cq.val_size ≡ some (base, buffer)
        → eg_cq_inc a cq ≡ (grown base n buffer cq, 1)
    unfolding eg_cq_inc
    inc-grown a size got = ap (λ m. grow_by m a cq) size ∙ grow_by-grown a got

    -- `eg_cq_push` on a full ring, when `malloc` gives an array of nodes that the ring does not
    -- use: it returns 1, adds the element at the end, and the ring has the new nodes to spare.
    pub eg_cq_push_grow :
        (a : Alloc) (v : Option V)
        → newest_size cq.btlist ≡ suc n
        → allocate a cq.val_size ≡ some (base, buffer)
        → ((eg_cq_push a cq v).1 ≡ 1)
          × IsPushed v cq (eg_cq_push a cq v).0 used t (range base (suc n))
          × (eg_cq_capity (eg_cq_push a cq v).0 ≡ eg_cq_capity cq + suc n)
    unfolding eg_cq_capity range
    eg_cq_push_grow a v size got =
        let (ring, same) = grown-IsRing in
        let pushed =
          store-IsPushed v t base used (range (base + 1) n) {cq = grown base n buffer cq}
            (unfold range in ring) in
        rw (push-store t used r a v (grown base n buffer cq) (inc-grown a size got)) (
          refl,
          record { ring = pushed.ring; elements = pushed.elements ∙ ap (λ l. l ++ v ∷ []) same },
          (unfold store in refl),
        )

  -- When there is no memory for them, `eg_cq_push` on a full ring returns 0 and changes nothing.
  pub eg_cq_push_fail :
      (a : Alloc) (v : Option V) (t : ℕ) (used : List ℕ) {cq : CycleQueue V}
      → IsRing cq used (t ∷ [])
      → allocate a cq.val_size ≡ none
      → eg_cq_push a cq v ≡ (cq, 0)
  unfolding eg_cq_push eg_cq_inc grow_by
  eg_cq_push_fail a v t used {cq} r failed = rw (is_full t used r, failed, grow_by) refl

  -- `eg_cq_create` with memory at hand, for one node or more: an empty queue with all nodes of the
  -- array to spare, and as many nodes as were asked for.
  pub eg_cq_create_lem :
      (a : Alloc) (n val_size base : ℕ) (buffer : Option ℕ)
      → allocate a val_size ≡ some (base, buffer)
      → (cq : CycleQueue V) × (eg_cq_create true a (suc n) val_size ≡ some cq)
        × IsRing cq [] (range base (suc n))
        × (eg_cq_capity cq ≡ suc n)
        × (eg_cq_empty cq ≡ true)
  unfolding eg_cq_create eg_cq_capity eg_cq_empty
  eg_cq_create_lem a n val_size base buffer got =
      (created, rw (got, eg_cq_create) refl, ring, refl, ==_refl base)
    where
      created : CycleQueue V
      created = record {
        size = suc n;
        bt_index = 0;
        elements = 0;
        val_size = val_size;
        head = base;
        tail = base;
        btlist = record { head = 0; node = base; buf = buffer; size = suc n } ∷ [];
        next = update (init_next base (suc n) (λ p. 0)) (base + suc n - 1) base;
        buf = init_buf base (suc n) buffer val_size (λ p. none);
        val = init_val base (suc n) (λ p. none);
      }

      along : (p : ℕ) → base ≤ p → p < base + n → created.next p ≡ p + 1
      along p lo hi = unfold init_next in ground arith

      last : created.next (base + n) ≡ base
      last = unfold init_next in ground arith

      ring : IsRing created [] (range base (suc n))
      ring = record {
        filled = refl;
        empties = range-Leads created.next n base base along last;
        distinct = range-Distinct base (suc n);
        counted = omega (arith, length-range base (suc n));
        cleared =
            init_val-AllNull base (suc n) (λ p. none) (suc n) base (omega arith) (omega arith);
      }

  -- A new queue has its first bucket alone.
  pub eg_cq_create-bt_index :
      (a : Alloc) (n val_size base : ℕ) (buffer : Option ℕ) (cq : CycleQueue V)
      → allocate a val_size ≡ some (base, buffer)
      → eg_cq_create true a n val_size ≡ some cq
      → cq.bt_index ≡ 0
  unfolding eg_cq_create
  eg_cq_create-bt_index a n val_size base buffer cq got e =
      ap {A = Option (CycleQueue V)} (λ o. elim o [ none ↦ 0 | some c ↦ c.bt_index ]) (sym e)
      ∙ rw (got, eg_cq_create) refl

  -- Its nodes have the parts of the buffer, one behind the other.
  pub eg_cq_create-buf :
      (a : Alloc) (n val_size base b p : ℕ) (cq : CycleQueue V)
      → allocate a val_size ≡ some (base, some b)
      → eg_cq_create true a n val_size ≡ some cq
      → has p (range base n) ≡ true
      → cq.buf p ≡ some (b + val_size * (p - base))
  unfolding eg_cq_create init_buf
  eg_cq_create-buf a n val_size base b p cq got e h =
      ap {A = Option (CycleQueue V)} (λ o. elim o [ none ↦ none | some c ↦ c.buf p ]) (sym e)
      ∙ rw (got, eg_cq_create, init_buf, sym (has-range p base n) ∙ h) refl
