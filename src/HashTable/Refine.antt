-- ===== src/HashTable/Refine.antt =====
-- The table as a map: any sequence of `eg_ht_insert` and `eg_ht_remove` calls returns what the
-- same calls return on a function from keys to values.
use mathlib.Core.Option
use doorhinges.Base.{
  ℕ, ◌≡◌, refl, sym, ap, ◌∙◌, false, Option, none, some, List, [], ◌∷◌, arith, if◌then◌else◌,
  Option-cases, inl, inr,
}
use doorhinges.Buckets.{Key}
use doorhinges.HashTable.{
  Node, HashTable, find_key, insert_key, erase_node, link_node, eg_ht_resize, eg_ht_insert,
  eg_ht_remove, eg_ht_erase,
}
use doorhinges.HashTable.Valid.{IsValid, has_ptr}
use doorhinges.HashTable.Insert.{insert_key-held, insert_key-Inserted}
use doorhinges.HashTable.Erase.{erase_node-IsValid, find_key-erase_node}

-- A call; an insertion comes with the address that `malloc` gives.
pub data Call {ℓ} (K V : Type ℓ) : Type ℓ where
  insert : ℕ → K → V → Call K V
  remove : K → Call K V

module _ {ℓ} {K V : Type ℓ} ⦃key : Key K⦄ where
  -- A call on a table.
  unfoldable pub perform : Call K V → HashTable K V → HashTable K V × ℕ
  perform (insert p k x) t = insert_key (some p) t k x
  perform (remove k) t = elim (find_key t k) [ none ↦ (t, 0) | some n ↦ (erase_node n.ptr t, 1) ]

  -- The same call on a map.
  pub intend : Call K V → (K → Option V) → (K → Option V) × ℕ
  intend (insert p k x) m = elim (m k) [
    | some y ↦ (m, 0)
    | none ↦ (λ q. if key.compare q k then some x else m q, 1)
  ]
  intend (remove k) m = elim (m k) [
    | some y ↦ (λ q. if key.compare q k then none else m q, 1)
    | none ↦ (m, 0)
  ]

  pub perform_all : List (Call K V) → HashTable K V → List ℕ
  perform_all [] t = []
  perform_all (c ∷ cs) t = (perform c t).1 ∷ perform_all cs (perform c t).0

  pub intend_all : List (Call K V) → (K → Option V) → List ℕ
  intend_all [] m = []
  intend_all (c ∷ cs) m = (intend c m).1 ∷ intend_all cs (intend c m).0

  -- `perform` is what the two functions of the C interface do.
  pub perform-eg_ht :
      (c : Call K V) (t : HashTable K V)
      → (elim c [
        | insert p k x ↦ eg_ht_insert (some p) (some t) (some k) x
        | remove k ↦ eg_ht_remove (some t) (some k)
      ])
        ≡ (some (perform c t).0, (perform c t).1)
  unfolding perform eg_ht_insert eg_ht_remove eg_ht_erase
  perform-eg_ht (insert p k x) t = refl
  perform-eg_ht (remove k) t = ground arith

  abbrev value_of : Option (Node K V) → Option V
  value_of = Option.map (λ n. n.val)

  -- A well formed table that holds what the map holds.
  pub record Models (m : K → Option V) (t : HashTable K V) : Type ℓ where
    pub valid : IsValid t
    pub values : (q : K) → value_of (find_key t q) ≡ m q

  -- The policy of the table keeps its size.
  abbrev pub KeepsSize : HashTable K V → Type 0
  KeepsSize t = t.get_newsize t.size ≡ t.size

  -- `malloc` gives no address that is in use.
  abbrev pub Fresh : Call K V → HashTable K V → Type 0
  Fresh (insert p k x) t = has_ptr p t.tlist ≡ false
  Fresh (remove k) t = Unit {0}

  abbrev pub AllFresh : List (Call K V) → HashTable K V → Type 0
  AllFresh [] t = Unit {0}
  AllFresh (c ∷ cs) t = Fresh c t × AllFresh cs (perform c t).0

  insert_key-stable :
      (p : ℕ) (t : HashTable K V) (k : K) (x : V)
      → t.get_newsize t.size ≡ t.size
      → ((insert_key (some p) t k x).0.size ≡ t.size)
        × ((insert_key (some p) t k x).0.get_newsize ≡ t.get_newsize)
  unfolding insert_key eg_ht_resize link_node
  insert_key-stable p t k x h = ground arith

  erase_node-stable :
      (p : ℕ) (t : HashTable K V)
      → ((erase_node p t).size ≡ t.size) × ((erase_node p t).get_newsize ≡ t.get_newsize)
  unfolding erase_node
  erase_node-stable p t = (refl, refl)

  insert-Models :
      (p : ℕ) (k : K) (x : V) (t : HashTable K V) (m : K → Option V)
      → Models m t
      → KeepsSize t
      → has_ptr p t.tlist ≡ false
      → Models (intend (insert p k x) m).0 (insert_key (some p) t k x).0
        × KeepsSize (insert_key (some p) t k x).0
        × ((insert_key (some p) t k x).1 ≡ (intend (insert p k x) m).1)
  unfolding intend
  insert-Models p k x t m s stable fresh = elim (Option-cases (find_key t k)) [
    | inl new ↦
        let nothing : m k ≡ none = sym (s.values k) ∙ ap value_of new in
        let (one, valid, finds) = insert_key-Inserted p k x s.valid new fresh stable in
        let (size, policy) = insert_key-stable p t k x stable in
        rw (nothing, intend)
          (
            record {
              valid = valid;
              values = λ q. ap value_of (finds q) ∙ ground (arith, s.values q);
            },
            rw (size, policy) stable,
            one,
          )
    | inr (n, old) ↦
        let something : m k ≡ some n.val = sym (s.values k) ∙ ap value_of old in
        rw (something, insert_key-held (some p) k x n old, intend) (s, stable, refl)
  ]

  remove-Models :
      (k : K) (t : HashTable K V) (m : K → Option V)
      → Models m t
      → KeepsSize t
      → Models (intend (remove k) m).0 (perform (remove k) t).0
        × KeepsSize (perform (remove k) t).0
        × ((perform (remove k) t).1 ≡ (intend (remove k) m).1)
  unfolding intend perform
  remove-Models k t m s stable = elim (Option-cases (find_key t k)) [
    | inl new ↦
        let nothing : m k ≡ none = sym (s.values k) ∙ ap value_of new in
        rw (nothing, intend) (rw (new, perform) (s, stable, refl))
    | inr (n, old) ↦
        let something : m k ≡ some n.val = sym (s.values k) ∙ ap value_of old in
        let (size, policy) = erase_node-stable n.ptr t in
        rw (something, intend)
          (rw (old, perform)
            (
              record {
                valid = erase_node-IsValid k n s.valid old;
                values = λ q.
                    ap value_of (find_key-erase_node k n s.valid old q)
                    ∙ ground (arith, s.values q);
              },
              rw (size, policy) stable,
              refl,
            ))
  ]

  -- One call on a table whose policy keeps its size: the table and the map return the same, and the
  -- table still models the map.
  pub perform-Models :
      (c : Call K V) (t : HashTable K V) (m : K → Option V)
      → Models m t
      → KeepsSize t
      → Fresh c t
      → Models (intend c m).0 (perform c t).0
        × KeepsSize (perform c t).0
        × ((perform c t).1 ≡ (intend c m).1)
  unfolding perform
  perform-Models (insert p k x) t m s stable fresh = insert-Models p k x t m s stable fresh
  perform-Models (remove k) t m s stable fresh = remove-Models k t m s stable

  -- A table that models a map, and whose policy `get_newsize` keeps its size, answers every sequence
  -- of calls as the map does, where `malloc` gives fresh addresses.
  pub perform_all-intend_all :
      (cs : List (Call K V)) (t : HashTable K V) (m : K → Option V)
      → Models m t
      → t.get_newsize t.size ≡ t.size
      → AllFresh cs t
      → perform_all cs t ≡ intend_all cs m
  unfolding perform_all intend_all
  perform_all-intend_all [] t m s stable fresh = refl
  perform_all-intend_all (c ∷ cs) t m s stable fresh =
      let (s', stable', same) = perform-Models c t m s stable fresh.0 in
      rw same (ap (λ l. (intend c m).1 ∷ l) (perform_all-intend_all cs _ _ s' stable' fresh.1))
