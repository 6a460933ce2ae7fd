-- ===== src/Candidates/Maps.antt =====
-- The maps of a request: what `init_map` puts in, and which numbers are left of several maps.
use doorhinges.Base.{
  ℕ, ◌+◌, ◌<◌, ◌≤◌, ◌≡◌, refl, ap, ◌∙◌, Bool, true, false, ◌||◌, Option, none, some, List, [], ◌∷◌,
  arith, ◌==◌, length, Option-cases, inl, inr, ==_iff,
}
use doorhinges.HashTable.{Node, HashTable, find_key, ht_insert_bucket}
use doorhinges.HashTable.Keys.{num_key, eg_num_cmp}
use doorhinges.HashTable.Pool.{Pool, get_element_room}
use doorhinges.HashTable.Valid.{IsValid, has_ptr}
use doorhinges.HashTable.Middle.{ht_insert_bucket_new, ht_insert_bucket_held}
use doorhinges.Candidates.{init_map}

abbrev pub is_some : {A : Type 0} → Option A → Bool
is_some none = false
is_some (some a) = true

-- Whether a map holds a number.
abbrev pub has : {V : Type 0} → HashTable ℕ V → ℕ → Bool
has t k = is_some (find_key t k)

-- Whether one of the strings is a number.
abbrev pub reads : (List ℕ → ℕ) → List (List ℕ) → ℕ → Bool
reads atoi [] k = false
reads atoi (s ∷ strs) k = k == atoi s || reads atoi strs k

-- The nodes of a map come from the part of the pool that is handed out.
abbrev pub IsHandedOut : {V : Type 0} → Pool → HashTable ℕ V → Type 0
IsHandedOut pool t = (p : ℕ) → pool.cur ≤ p → has_ptr p t.tlist ≡ false

-- The pool after `n` nodes more.
abbrev pub advance : ℕ → Pool → Pool
advance n pool = record pool { cur = pool.cur + n }

-- `ht_insert_bucket` of the next node of the pool.
insert_lem :
    (pool : Pool) (t : HashTable ℕ (List ℕ)) (k : ℕ) (str : List ℕ)
    → IsValid t
    → IsHandedOut pool t
    → (t' : HashTable ℕ (List ℕ)) × (ht_insert_bucket
          (some t)
          (some (record { ptr = pool.cur; key = k; val = str }))
        ≡ some t')
      × IsValid t'
      × IsHandedOut (advance 1 pool) t'
      × ((q : ℕ) → has t' q ≡ (q == k || has t q))
unfolding eg_num_cmp
insert_lem pool t k str v out =
    let b : Node ℕ (List ℕ) = record { ptr = pool.cur; key = k; val = str } in
    elim (Option-cases (find_key t k)) [
      | inr (n, there) ↦ (
        t,
        ht_insert_bucket_held t b n there,
        v,
        λ p above. out p (omega (arith, above)),
        λ q. known n there q (q == k) refl,
      )
      | inl absent ↦
          let (t', inserted, v', nodes, finds) =
            ht_insert_bucket_new t b v absent (out pool.cur (omega arith)) in
          (
            t',
            inserted,
            v',
            λ p above. ap (has_ptr p) nodes ∙ ground (arith, out p (omega (arith, above))),
            λ q. ap is_some (finds q) ∙ ground arith,
          )
    ]
  where
    known :
        (n : Node ℕ (List ℕ))
        → find_key t k ≡ some n
        → (q : ℕ) (same : Bool) → (q == k) ≡ same
        → has t q ≡ (same || has t q)
    known n there q true e = ap (λ x. has t x) ((==_iff q k).0 e) ∙ ap is_some there
    known n there q false e = refl

module _ (atoi : List ℕ → ℕ) where
  init_map_step :
      (t : HashTable ℕ (List ℕ)) (pool : Pool) (str : List ℕ) (strs : List (List ℕ))
      → pool.cur < pool.size
      → init_map atoi (some t) pool (str ∷ strs)
        ≡ init_map atoi
            (ht_insert_bucket
              (some t)
              (some (record { ptr = pool.cur; key = atoi str; val = str })))
            (advance 1 pool)
            strs
  unfolding init_map
  init_map_step t pool str strs room = ground (arith, get_element_room pool room)

  -- `init_map` on a well formed map whose nodes are of the pool, which has a node for each string: the
  -- map stays well formed, and holds the numbers that it held and those of the strings.
  pub init_map_lem :
      (t : HashTable ℕ (List ℕ)) (pool : Pool) (strs : List (List ℕ))
      → IsValid t
      → IsHandedOut pool t
      → pool.cur + length strs ≤ pool.size
      → (t' : HashTable ℕ (List ℕ)) × (init_map atoi (some t) pool strs
          ≡ (some t', advance (length strs) pool))
        × IsValid t'
        × IsHandedOut (advance (length strs) pool) t'
        × ((k : ℕ) → has t' k ≡ (reads atoi strs k || has t k))
  unfolding init_map
  init_map_lem t pool [] v out room = (
    t,
    ap (λ (c : ℕ). (some t, record pool { cur = c })) (omega arith),
    v,
    λ p above. out p (omega (arith, above)),
    λ k. refl,
  )
  init_map_lem t pool (str ∷ strs) v out room =
      let (u, inserted, vu, uout, uhas) = insert_lem pool t (atoi str) str v out in
      let (t', done, v', out', finds) =
        init_map_lem u (advance 1 pool) strs vu uout (omega arith) in
      (
        t',
        init_map_step t pool str strs (omega arith)
            ∙ ap (λ m. init_map atoi m (advance 1 pool) strs) inserted
            ∙ done
            ∙ ap (λ (c : ℕ). (some t', record pool { cur = c })) (omega arith),
        v',
        λ p above. out' p (omega (arith, above)),
        λ k. finds k ∙ ap (λ x. reads atoi strs k || x) (uhas k) ∙ ground arith,
      )
