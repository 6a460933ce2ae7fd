-- ===== src/HashTable/Traverse.antt =====
-- `eg_ht_begin` and `eg_ht_next`: a loop from the first iterator to the end.
use doorhinges.Base.{
  ℕ, zero, suc, ◌<◌, ◌≡◌, refl, ◌∙◌, true, false, Option, none, some, List, [], ◌∷◌, map, arith,
  length, ◌==◌, ap, ==_refl,
}
use doorhinges.Buckets.{Key}
use doorhinges.HashTable.{Node, HashTable, tnext, eg_ht_begin, eg_ht_next}
use doorhinges.HashTable.Valid.{IsValid, has_ptr, PtrsDistinct}

module _ {ℓ} {K V : Type ℓ} where
  -- `for (it = eg_ht_begin(ht); it != eg_ht_end(); eg_ht_next(&it))`: the iterators that it meets.
  pub visit : ℕ → HashTable K V → Option ℕ → List ℕ
  visit zero t it = []
  visit (suc fuel) t none = []
  visit (suc fuel) t (some p) = p ∷ visit fuel t (eg_ht_next t p)

  abbrev first : List (Node K V) → Option ℕ
  first [] = none
  first (n ∷ ns) = some n.ptr

  -- On a list whose head does not have the address, `tnext` is that of the tail.
  tnext_cons :
      (p : ℕ) (n : Node K V) (ns : List (Node K V))
      → (n.ptr == p) ≡ false
      → tnext p (n ∷ ns) ≡ tnext p ns
  unfolding tnext
  tnext_cons p n [] h = refl
  tnext_cons p n (m ∷ ns) h = rw h refl

  tnext_head :
      (n : Node K V) (ns : List (Node K V))
      → PtrsDistinct (n ∷ ns)
      → tnext n.ptr (n ∷ ns) ≡ first ns
  unfolding tnext
  tnext_head n [] d = refl
  tnext_head n (m ∷ ns) d = rw (==_refl n.ptr) refl

  -- The loop, from a suffix `ns` of the table's list on.
  visit_suffix :
      (fuel : ℕ) (t : HashTable K V) (ns : List (Node K V))
      → PtrsDistinct ns
      → ((p : ℕ) → has_ptr p ns ≡ true → tnext p t.tlist ≡ tnext p ns)
      → length ns < fuel
      → visit fuel t (first ns) ≡ map (λ n. n.ptr) ns
  unfolding visit eg_ht_next
  visit_suffix zero t ns d same enough = absurd (omega arith)
  visit_suffix (suc fuel) t [] d same enough = refl
  visit_suffix (suc fuel) t (n ∷ ns) d same enough =
      rw (same n.ptr (rw (==_refl n.ptr) refl), tnext_head n ns d)
        (ap (λ l. n.ptr ∷ l)
          (visit_suffix fuel t ns d.1
            (λ p h. same p (ground arith) ∙ tnext_cons p n ns (ground arith)) (omega arith)))

  -- In a well formed table the loop ends, and meets each node once, in the order of the list.
  pub visit-begin :
      ⦃key : Key K⦄ (t : HashTable K V) (fuel : ℕ)
      → IsValid t
      → length t.tlist < fuel
      → visit fuel t (eg_ht_begin (some t)) ≡ map (λ n. n.ptr) t.tlist
  unfolding eg_ht_begin
  visit-begin t fuel v enough = visit_suffix fuel t t.tlist v.distinct (λ p h. refl) enough
