-- ===== src/CycleQueue/Pop.antt =====
-- `eg_cq_create`, `eg_cq_empty`, `eg_cq_head` and `eg_cq_pop`.
use doorhinges.Base.{
  ℕ, ◌≡◌, refl, ap, true, false, none, List, [], ◌∷◌, ◌++◌, arith, length-append, ==_iff, ==_refl,
  append_assoc, subst, Bool-cases, inl, inr,
}
use doorhinges.CycleQueue.{CycleQueue, update, eg_cq_empty, eg_cq_head, eg_cq_pop}
use doorhinges.CycleQueue.Ring.{
  Distinct, elements_of, IsRing, AllNull-update, AllNull-append, Leads-append, has-append,
  has-append_parts, Distinct-snoc, map-update,
}

-- The queue without the node `a` at its head.
abbrev pub popped {ℓ} : {V : Type ℓ} → ℕ → CycleQueue V → CycleQueue V
popped a cq = record cq { val = update cq.val a none; head = cq.next a }

module _ {ℓ} {V : Type ℓ} {cq : CycleQueue V} where
  -- The test for emptiness compares head and tail: it holds exactly if no element is stored.
  pub eg_cq_empty_used :
      (a : ℕ) (used spare : List ℕ) (t : ℕ)
      → IsRing cq (a ∷ used) (t ∷ spare)
      → eg_cq_empty cq ≡ false
  unfolding eg_cq_empty
  eg_cq_empty_used a used spare t r =
      ground (arith, has-append a used (t ∷ spare), r.filled.0, r.empties.0, r.distinct.0)

  pub eg_cq_empty_nil : (spare : List ℕ) → IsRing cq [] spare → eg_cq_empty cq ≡ true
  unfolding eg_cq_empty
  eg_cq_empty_nil spare r = (==_iff cq.head cq.tail).1 r.filled

  eg_cq_pop-popped :
      (a t : ℕ) (used spare : List ℕ)
      → IsRing cq (a ∷ used) (t ∷ spare)
      → eg_cq_pop cq ≡ (popped a cq, cq.val a)
  unfolding eg_cq_pop
  eg_cq_pop-popped a t used spare r =
      rw (eg_cq_empty_used a used spare t r)
        (λ i. (popped (r.filled.0 i) cq, cq.val (r.filled.0 i)))

  popped-IsRing :
      (a t : ℕ) (used spare : List ℕ)
      → IsRing cq (a ∷ used) (t ∷ spare)
      → IsRing (popped a cq) used (t ∷ (spare ++ a ∷ []))
  popped-IsRing a t used spare r = record {
    filled = r.filled.1;
    empties =
        Leads-append cq.next cq.tail cq.head (cq.next a) (t ∷ spare) (a ∷ []) r.empties
          (r.filled.0, refl);
    distinct =
        subst Distinct (append_assoc used (t ∷ spare) (a ∷ []))
          (Distinct-snoc a (used ++ t ∷ spare) r.distinct.0 r.distinct.1);
    counted = omega (arith, r.counted, length-append spare (a ∷ []));
    cleared =
        AllNull-append (update cq.val a none) (t ∷ spare) (a ∷ [])
          (AllNull-update cq.val a none (t ∷ spare)
            (has-append_parts a used (t ∷ spare) r.distinct.0).1 r.cleared)
          (rw (==_refl a) refl, tt);
  }

  -- `eg_cq_pop` of a queue that stores elements returns the first of them, which `eg_cq_head`
  -- shows; the others stay in their order, and the node of the first is spare and cleared.
  pub eg_cq_pop_lem :
      (a t : ℕ) (used spare : List ℕ)
      → IsRing cq (a ∷ used) (t ∷ spare)
      → ((eg_cq_pop cq).1 ≡ cq.val a)
        × (eg_cq_head cq ≡ cq.val a)
        × IsRing (eg_cq_pop cq).0 used (t ∷ (spare ++ a ∷ []))
        × (elements_of (eg_cq_pop cq).0.val used ≡ elements_of cq.val used)
  unfolding eg_cq_head
  eg_cq_pop_lem a t used spare r = rw (eg_cq_pop-popped a t used spare r) (
    refl,
    rw (eg_cq_empty_used a used spare t r) (ap cq.val r.filled.0),
    popped-IsRing a t used spare r,
    map-update cq.val a none used (has-append_parts a used (t ∷ spare) r.distinct.0).0,
  )

  -- `eg_cq_pop` and `eg_cq_head` of an empty queue return NULL and change nothing.
  pub eg_cq_pop_nil :
      (spare : List ℕ) → IsRing cq [] spare → (eg_cq_pop cq ≡ (cq, none)) × (eg_cq_head cq ≡ none)
  unfolding eg_cq_pop eg_cq_head
  eg_cq_pop_nil spare r = (rw (eg_cq_empty_nil spare r) refl, rw (eg_cq_empty_nil spare r) refl)

pub eg_cq_pop-bt_index {ℓ} :
    {V : Type ℓ} (cq : CycleQueue V) → (eg_cq_pop cq).0.bt_index ≡ cq.bt_index
unfolding eg_cq_pop
eg_cq_pop-bt_index cq = elim (Bool-cases (eg_cq_empty cq)) [
  | inl nothing ↦ rw nothing refl
  | inr something ↦ rw something refl
]

pub eg_cq_pop-buf {ℓ} : {V : Type ℓ} (cq : CycleQueue V) → (eg_cq_pop cq).0.buf ≡ cq.buf
unfolding eg_cq_pop
eg_cq_pop-buf cq = elim (Bool-cases (eg_cq_empty cq)) [
  | inl nothing ↦ rw nothing refl
  | inr something ↦ rw something refl
]

pub eg_cq_pop-size {ℓ} : {V : Type ℓ} (cq : CycleQueue V) → (eg_cq_pop cq).0.size ≡ cq.size
unfolding eg_cq_pop
eg_cq_pop-size cq = elim (Bool-cases (eg_cq_empty cq)) [
  | inl nothing ↦ rw nothing refl
  | inr something ↦ rw something refl
]
