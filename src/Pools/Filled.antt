-- ===== src/Pools/Filled.antt =====
-- A pool whose objects are pushed into its queue.
use doorhinges.Base.{
  ℕ, ◌≡◌, refl, sym, ap, ◌∙◌, false, not, ◌&&◌, some, List, [], ◌∷◌, ◌++◌, map, arith, length, ◌==◌,
  append_assoc, append-nil, subst,
}
use doorhinges.CycleQueue.{CycleQueue, Alloc, eg_cq_push, is_spare}
use doorhinges.CycleQueue.Ring.{IsRing, elements_of}
use doorhinges.CycleQueue.Push.{IsPushed, eg_cq_push_lem, eg_cq_push-bt_index}
use doorhinges.Pools.{push_all}

-- The first push, and then the others.
module _ (cq cq' cq2 : CycleQueue ℕ) (c : ℕ) (cs ts used spare rest : List ℕ) (t : ℕ) where
  after_push :
      IsPushed (some c) cq cq' used t rest
      → IsRing cq2 ((used ++ t ∷ []) ++ ts) spare
        × (elements_of cq2.val ((used ++ t ∷ []) ++ ts)
            ≡ elements_of cq'.val (used ++ t ∷ []) ++ map some cs)
        × (cq2.bt_index ≡ 0)
      → IsRing cq2 (used ++ t ∷ ts) spare
        × (elements_of cq2.val (used ++ t ∷ ts) ≡ elements_of cq.val used ++ map some (c ∷ cs))
        × (cq2.bt_index ≡ 0)
  after_push p (ring, elements, first) =
      let same : (used ++ t ∷ []) ++ ts ≡ used ++ t ∷ ts = append_assoc used (t ∷ []) ts in
      (
        subst (λ l. IsRing cq2 l spare) same ring,
        ap (elements_of cq2.val) (sym same)
            ∙ elements
            ∙ ap (λ l. l ++ map some cs) p.elements
            ∙ append_assoc (elements_of cq.val used) (some c ∷ []) (map some cs),
        first,
      )

-- Into a queue with its first bucket alone, as many pushes as there are nodes, less one, put the
-- objects behind each other.
pub push_all_lem :
    (a : Alloc) (cs ts : List ℕ) (f : ℕ) (used spare : List ℕ) (cq : CycleQueue ℕ)
    → length cs ≡ length ts
    → cq.bt_index ≡ 0
    → IsRing cq used (ts ++ f ∷ spare)
    → IsRing (push_all a cs cq) (used ++ ts) (f ∷ spare)
      × (elements_of (push_all a cs cq).val (used ++ ts) ≡ elements_of cq.val used ++ map some cs)
      × ((push_all a cs cq).bt_index ≡ 0)
unfolding push_all
push_all_lem a [] [] f used spare cq h first r = (
  subst (λ l. IsRing cq l (f ∷ spare)) (sym (append-nil used)) r,
  ap (elements_of cq.val) (append-nil used) ∙ sym (append-nil (elements_of cq.val used)),
  first,
)
push_all_lem a [] (t ∷ ts) f used spare cq h first r = absurd (omega arith)
push_all_lem a (c ∷ cs) [] f used spare cq h first r = absurd (omega arith)
push_all_lem a (c ∷ cs) (t ∷ []) f used spare cq h first r =
    let keeps : (not (cq.bt_index == 0) && is_spare cq.btlist cq) ≡ false = rw first refl in
    let (one, p) = eg_cq_push_lem a (some c) t f used spare r keeps in
    let cq' = (eg_cq_push a cq (some c)).0 in
    let still = eg_cq_push-bt_index a (some c) t f used spare r keeps ∙ first in
    after_push cq cq' (push_all a cs cq') c cs [] used (f ∷ spare) (f ∷ spare) t p
      (push_all_lem a cs [] f (used ++ t ∷ []) spare cq' (omega arith) still p.ring)
push_all_lem a (c ∷ cs) (t ∷ u ∷ ts) f used spare cq h first r =
    let keeps : (not (cq.bt_index == 0) && is_spare cq.btlist cq) ≡ false = rw first refl in
    let (one, p) = eg_cq_push_lem a (some c) t u used (ts ++ f ∷ spare) r keeps in
    let cq' = (eg_cq_push a cq (some c)).0 in
    let still = eg_cq_push-bt_index a (some c) t u used (ts ++ f ∷ spare) r keeps ∙ first in
    after_push cq cq' (push_all a cs cq') c cs (u ∷ ts) used (f ∷ spare) (u ∷ (ts ++ f ∷ spare)) t p
      (push_all_lem a cs (u ∷ ts) f (used ++ t ∷ []) spare cq' (omega arith) still p.ring)
