-- ===== src/Candidates/Smallest.antt =====
-- The numbers that are left of the maps of a request.
use doorhinges.Base.{
  ℕ, suc, ◌≤◌, ◌≡◌, refl, sym, ap, subst, ◌∙◌, Bool, true, ◌&&◌, Option, none, some, List, [], ◌∷◌,
  arith, ltb, if◌then◌else◌, Bool-cases, inl, inr,
}
use doorhinges.HashTable.{Node, HashTable, find_key, eg_ht_elements}
use doorhinges.HashTable.Keys.{num_key}
use doorhinges.HashTable.Valid.{IsValid}
use doorhinges.HashTable.Middle.{eg_ht_find_key}
use doorhinges.Candidates.{as_pointer, in_all, smallest_first, intersect}
use doorhinges.Candidates.Inter.{get_inter_lem}
use doorhinges.Candidates.Maps.{is_some, has}

and_front : (a b c d : Bool) → (a && c) ≡ d → (a && (b && c)) ≡ (b && d)
and_front a b c d h = ground arith

and_inside : (a b c d e : Bool) → (a && c) ≡ (d && e) → (a && (b && c)) ≡ (d && (b && e))
and_inside a b c d e h = ground arith

module _ {V : Type 0} where
  -- Whether every map holds a number.
  abbrev pub all_have : List (HashTable ℕ V) → ℕ → Bool
  all_have [] k = true
  all_have (m ∷ ms) k = has m k && all_have ms k

  abbrev pub AllValid : List (HashTable ℕ V) → Type 0
  AllValid [] = Unit {0}
  AllValid (m ∷ ms) = IsValid m × AllValid ms

  -- No map has fewer elements.
  abbrev pub AllAtLeast : ℕ → List (HashTable ℕ V) → Type 0
  AllAtLeast n [] = Unit {0}
  AllAtLeast n (m ∷ ms) = (n ≤ eg_ht_elements m) × AllAtLeast n ms

  in_all-all_have : (ms : List (HashTable ℕ V)) (k : ℕ) → in_all ms (suc k) ≡ all_have ms (suc k)
  unfolding in_all as_pointer
  in_all-all_have [] k = refl
  in_all-all_have (m ∷ ms) k = ground (arith, in_all-all_have ms k, eg_ht_find_key m (suc k))

  kept :
      (b : Bool) (f : Option (Node ℕ V)) {c : Bool}
      → b ≡ c
      → is_some (if b then f else none) ≡ (is_some f && c)
  kept b f h = ground arith

  -- The same maps, well formed, with one in front that has no more elements than any.
  abbrev pub Moved :
      HashTable ℕ V → List (HashTable ℕ V) → HashTable ℕ V × List (HashTable ℕ V) → Type 0
  Moved t ms r =
      AllValid (r.0 ∷ r.1)
      × ((k : ℕ) → all_have (r.0 ∷ r.1) k ≡ all_have (t ∷ ms) k)
      × (eg_ht_elements r.0 ≤ eg_ht_elements t)
      × AllAtLeast (eg_ht_elements r.0) ms

  pub smallest_first_lem :
      (t : HashTable ℕ V) (ms : List (HashTable ℕ V))
      → AllValid (t ∷ ms)
      → Moved t ms (smallest_first t ms)
  unfolding smallest_first
  smallest_first_lem t [] v = (v, λ k. refl, omega arith, tt)
  smallest_first_lem t (m ∷ ms) (vt, (vm, vs)) =
      elim (Bool-cases (ltb (eg_ht_elements m) (eg_ht_elements t))) [
        | inl smaller ↦
            let r = smallest_first m ms in
            let same : smallest_first t (m ∷ ms) ≡ (r.0, t ∷ r.1) = rw smaller refl in
            let ((v0, v1), all, le, least) = smallest_first_lem m ms (vm, vs) in
            subst (Moved t (m ∷ ms)) (sym same) (
              (v0, (vt, v1)),
              λ k. and_front (has r.0 k) (has t k) _ _ (all k),
              ground (arith, le),
              (le, least),
            )
        | inr not_smaller ↦
            let r = smallest_first t ms in
            let same : smallest_first t (m ∷ ms) ≡ (r.0, m ∷ r.1) = rw not_smaller refl in
            let ((v0, v1), all, le, least) = smallest_first_lem t ms (vt, vs) in
            subst (Moved t (m ∷ ms)) (sym same) (
              (v0, (vm, v1)),
              λ k. and_inside (has r.0 k) (has m k) _ (has t k) _ (all k),
              le,
              (ground (arith, le), least),
            )
      ]

  -- The maps of a request, well formed: what is left is a well formed map that holds the numbers,
  -- other than zero, that all of them hold.
  pub intersect_lem :
      (t : HashTable ℕ V) (ms : List (HashTable ℕ V))
      → AllValid (t ∷ ms)
      → (t' : HashTable ℕ V) × (intersect t ms ≡ some t')
        × IsValid t'
        × ((k : ℕ) → has t' (suc k) ≡ all_have (t ∷ ms) (suc k))
  unfolding intersect
  intersect_lem t ms v =
      let r = smallest_first t ms in
      let ((v0, v1), all, le, least) = smallest_first_lem t ms v in
      let (t', done, v', finds, nodes) = get_inter_lem r.1 v0 in
      (
        t',
        done,
        v',
        λ k.
            ap is_some (finds (suc k))
            ∙ kept (in_all r.1 (suc k)) (find_key r.0 (suc k)) (in_all-all_have r.1 k)
            ∙ all (suc k),
      )
