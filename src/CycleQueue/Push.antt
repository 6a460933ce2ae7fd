-- ===== src/CycleQueue/Push.antt =====
-- `eg_cq_push` on a queue that stays as it is, and on one that grows; `eg_cq_create`.
use doorhinges.Base.{
  ℕ, ◌≡◌, refl, sym, ap, ◌∙◌, false, not, ◌&&◌, Option, List, [], ◌∷◌, ◌++◌, map-append, arith,
  length-append, ◌==◌, ==_refl, append_assoc, subst,
}
use doorhinges.CycleQueue.{CycleQueue, Alloc, update, eg_cq_push, is_spare, store}
use doorhinges.CycleQueue.Ring.{
  has, Distinct, elements_of, IsRing, AllNull-update, Leads-append, has-append_parts,
  Distinct-right, Distinct-apart, map-update,
}

-- The queue with an element in the node `t`, its tail.
abbrev pub stored {ℓ} : {V : Type ℓ} → ℕ → Option V → CycleQueue V → CycleQueue V
stored t v cq = record cq { val = update cq.val t v; tail = cq.next t }

store-stored {ℓ} :
    {V : Type ℓ} (t : ℕ) (v : Option V) (cq : CycleQueue V)
    → cq.tail ≡ t
    → store v cq ≡ stored t v cq
unfolding store
store-stored t v cq e = λ i. stored (e i) v cq

module _ {ℓ} {V : Type ℓ} where
  -- What a push has done: the ring has one node more in use, and the element is the last.
  pub record IsPushed (v : Option V) (cq cq' : CycleQueue V) (used : List ℕ) (t : ℕ)
      (spare : List ℕ) : Type ℓ where
    pub ring : IsRing cq' (used ++ t ∷ []) spare
    pub elements : elements_of cq'.val (used ++ t ∷ []) ≡ elements_of cq.val used ++ v ∷ []

  stored-IsPushed :
      (v : Option V) (t f : ℕ) (used spare : List ℕ) {cq : CycleQueue V}
      → IsRing cq used (t ∷ f ∷ spare)
      → IsPushed v cq (stored t v cq) used t (f ∷ spare)
  stored-IsPushed v t f used spare {cq} r =
      let out = (Distinct-right used (t ∷ f ∷ spare) r.distinct).0 in
      let fresh : has t used ≡ false =
        Distinct-apart t used (t ∷ f ∷ spare) r.distinct (rw (==_refl t) refl) in
      record {
        ring = record {
          filled =
              Leads-append cq.next cq.head cq.tail (cq.next t) used (t ∷ []) r.filled
                (r.empties.0, refl);
          empties = r.empties.1;
          distinct = subst Distinct (sym (append_assoc used (t ∷ []) (f ∷ spare))) r.distinct;
          counted = omega (arith, r.counted, length-append used (t ∷ []));
          cleared = AllNull-update cq.val t v (f ∷ spare) (ground arith) r.cleared.1;
        };
        elements =
            map-append (update cq.val t v) used (t ∷ [])
            ∙ rw (map-update cq.val t v used fresh, ==_refl t) refl;
      }

  -- Writing an element to the tail of a ring with another spare node adds it at the end.
  pub store-IsPushed :
      (v : Option V) (t f : ℕ) (used spare : List ℕ) {cq : CycleQueue V}
      → IsRing cq used (t ∷ f ∷ spare)
      → IsPushed v cq (store v cq) used t (f ∷ spare)
  store-IsPushed v t f used spare {cq} r =
      subst (λ c. IsPushed v cq c used t (f ∷ spare)) (sym (store-stored t v cq r.empties.0))
        (stored-IsPushed v t f used spare r)

  -- A ring with two spare nodes is not full.
  pub not_full :
      (t f : ℕ) (used spare : List ℕ) {cq : CycleQueue V}
      → IsRing cq used (t ∷ f ∷ spare)
      → (cq.next cq.tail == cq.head) ≡ false
  not_full t f [] spare {cq} r = ground (arith, ap cq.next r.empties.0)
  not_full t f (a ∷ used) spare {cq} r =
      ground (arith, ap cq.next r.empties.0, has-append_parts a used (t ∷ f ∷ spare) r.distinct.0)

  -- `eg_cq_push` on a ring with two spare nodes or more, where the newest bucket is in use or is
  -- the first: it returns 1 and adds the element at the end.
  pub eg_cq_push_lem :
      (a : Alloc) (v : Option V) (t f : ℕ) (used spare : List ℕ) {cq : CycleQueue V}
      → IsRing cq used (t ∷ f ∷ spare)
      → (not (cq.bt_index == 0) && is_spare cq.btlist cq) ≡ false
      → ((eg_cq_push a cq v).1 ≡ 1) × IsPushed v cq (eg_cq_push a cq v).0 used t (f ∷ spare)
  unfolding eg_cq_push
  eg_cq_push_lem a v t f used spare r keeps =
      rw (not_full t f used spare r, keeps) (refl, store-IsPushed v t f used spare r)

  -- It leaves the number of the buckets.
  pub eg_cq_push-bt_index :
      (a : Alloc) (v : Option V) (t f : ℕ) (used spare : List ℕ) {cq : CycleQueue V}
      → IsRing cq used (t ∷ f ∷ spare)
      → (not (cq.bt_index == 0) && is_spare cq.btlist cq) ≡ false
      → (eg_cq_push a cq v).0.bt_index ≡ cq.bt_index
  unfolding eg_cq_push store
  eg_cq_push-bt_index a v t f used spare r keeps = rw (not_full t f used spare r, keeps) refl

  -- And it leaves the buffers.
  pub eg_cq_push-buf :
      (a : Alloc) (v : Option V) (t f : ℕ) (used spare : List ℕ) {cq : CycleQueue V}
      → IsRing cq used (t ∷ f ∷ spare)
      → (not (cq.bt_index == 0) && is_spare cq.btlist cq) ≡ false
      → (eg_cq_push a cq v).0.buf ≡ cq.buf
  unfolding eg_cq_push store
  eg_cq_push-buf a v t f used spare r keeps = rw (not_full t f used spare r, keeps) refl
