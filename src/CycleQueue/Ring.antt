-- ===== src/CycleQueue/Ring.antt =====
-- The ring: from the head along the stored nodes to the tail, and on along the spare nodes back to
-- the head.
use doorhinges.Base.{
  ℕ, zero, suc, ◌+◌, ◌≤◌, ◌<◌, ◌≡◌, refl, ap, false, Option, none, List, [], ◌∷◌, ◌++◌, map, arith,
  length,
}
use doorhinges.CycleQueue.{CycleQueue, in_array}
pub use doorhinges.Links.{
  update, Leads, has, Distinct, Leads-append, Leads-update, has-append, has-append_parts,
  Distinct-snoc, Distinct-right, Distinct-apart, map-update, map_congr, Leads-congr,
  Distinct-append, Distinct-left,
}

-- The consecutive addresses of an array.
unfoldable pub range : ℕ → ℕ → List ℕ
range base zero = []
range base (suc n) = base ∷ range (base + 1) n

module _ {ℓ} {V : Type ℓ} where
  -- No node of a list has an element.
  abbrev pub AllNull : (ℕ → Option V) → List ℕ → Type ℓ
  AllNull val [] = Unit
  AllNull val (a ∷ as') = (val a ≡ none) × AllNull val as'

  -- The elements of a list of nodes.
  abbrev pub elements_of : (ℕ → Option V) → List ℕ → List (Option V)
  elements_of val as' = map val as'

  -- The queue `cq` stores its elements in the nodes `used`, the head first, and has the nodes
  -- `spare` left, the tail first. No node is in the ring twice, the ring has as many as `size`
  -- says, and the spare ones have no element.
  pub record IsRing (cq : CycleQueue V) (used spare : List ℕ) : Type ℓ where
    pub filled : Leads cq.next cq.head used cq.tail
    pub empties : Leads cq.next cq.tail spare cq.head
    pub distinct : Distinct (used ++ spare)
    pub counted : cq.size ≡ length used + length spare
    pub cleared : AllNull cq.val spare

  pub AllNull-update :
      (val : ℕ → Option V) (p : ℕ) (v : Option V) (as' : List ℕ)
      → has p as' ≡ false
      → AllNull val as'
      → AllNull (update val p v) as'
  AllNull-update val p v [] h n = tt
  AllNull-update val p v (a ∷ as') h n =
      (ground arith, AllNull-update val p v as' (ground arith) n.1)

  pub AllNull-append :
      (val : ℕ → Option V) (as' bs : List ℕ)
      → AllNull val as'
      → AllNull val bs
      → AllNull val (as' ++ bs)
  AllNull-append val [] bs n m = m
  AllNull-append val (a ∷ as') bs n m = (n.0, AllNull-append val as' bs n.1 m)

pub has-range : (p base n : ℕ) → has p (range base n) ≡ in_array base n p
unfolding range
has-range p base zero = ground arith
has-range p base (suc n) = ground (arith, has-range p (base + 1) n)

pub length-range : (base n : ℕ) → length (range base n) ≡ n
unfolding range
length-range base zero = refl
length-range base (suc n) = ap suc (length-range (base + 1) n)

pub range-Distinct : (base n : ℕ) → Distinct (range base n)
unfolding range
range-Distinct base zero = tt
range-Distinct base (suc n) =
    (ground (arith, has-range base (base + 1) n), range-Distinct (base + 1) n)

-- A `next` that goes along an array, and on to `q` from its last node.
pub range-Leads :
    (next : ℕ → ℕ) (n base q : ℕ)
    → ((p : ℕ) → base ≤ p → p < base + n → next p ≡ p + 1)
    → next (base + n) ≡ q
    → Leads next base (range base (suc n)) q
unfolding range
range-Leads next zero base q along last =
    let e : base + 0 ≡ base = omega arith in (refl, rw e at last)
range-Leads next (suc n) base q along last =
    let e : base + suc n ≡ base + 1 + n = omega arith in
    (
      refl,
      rw (along base (omega arith) (omega arith)) (
          range-Leads next n (base + 1) q (λ p lo hi. along p (omega arith) (omega arith))
            (rw e at last)),
    )
