-- ===== src/Candidates/Inter.antt =====
-- `get_inter` on well formed maps.
use doorhinges.Base.{
  ℕ, zero, suc, ◌+◌, ◌<◌, ◌≡◌, refl, sym, ap, ◌∙◌, Bool, true, false, Option, none, some, List, [],
  ◌∷◌, ◌++◌, append_assoc, arith, ◌==◌, length, keep, head?, if◌then◌else◌, Bool-cases, inl, inr,
  ==_iff,
}
use doorhinges.HashTable.{Node, HashTable, find_key, eg_ht_next, ht_erase_bucket, node_key}
use doorhinges.HashTable.Keys.{num_key, eg_num_cmp}
use doorhinges.HashTable.Valid.{IsValid, has_ptr, find_key-held}
use doorhinges.HashTable.Middle.{
  first, eg_ht_begin-first, distinct_middle, eg_ht_next_middle, ht_erase_bucket_middle,
}
use doorhinges.Buckets.{matches}
use doorhinges.Candidates.{in_all, key_at, inter_from, get_inter}

module _ {V : Type 0} where
  key_at_middle :
      (pre : List (Node ℕ V)) (n : Node ℕ V) (ns : List (Node ℕ V))
      → has_ptr n.ptr pre ≡ false
      → key_at n.ptr (pre ++ n ∷ ns) ≡ n.key
  unfolding key_at
  key_at_middle [] n ns apart = ground arith
  key_at_middle (m ∷ pre) n ns apart = ground (arith, key_at_middle pre n ns)

  module _ (ms : List (HashTable ℕ V)) where
    -- The nodes that stay.
    abbrev stays : Node ℕ V → Bool
    stays n = in_all ms n.key

    inter_from-next :
        (fuel : ℕ) (t : HashTable ℕ V) (p : ℕ)
        → in_all ms (key_at p t.tlist) ≡ true
        → inter_from (suc fuel) ms t (some p) ≡ inter_from fuel ms t (eg_ht_next t p)
    unfolding inter_from
    inter_from-next fuel t p all = ground arith

    inter_from-erase :
        (fuel : ℕ) (t u : HashTable ℕ V) (p : ℕ) (it : Option ℕ)
        → in_all ms (key_at p t.tlist) ≡ false
        → ht_erase_bucket (some t) (some p) ≡ (some u, it)
        → inter_from (suc fuel) ms t (some p) ≡ inter_from fuel ms u it
    unfolding inter_from
    inter_from-erase fuel t u p it missing erased = ground arith

    -- The loop from the nodes `ns` on, with those before it that have stayed.
    inter_from_lem :
        (fuel : ℕ) (pre ns : List (Node ℕ V)) (t : HashTable ℕ V)
        → IsValid t
        → t.tlist ≡ pre ++ ns
        → length ns < fuel
        → (t' : HashTable ℕ V) × (inter_from fuel ms t (first ns) ≡ some t')
          × IsValid t'
          × (t'.tlist ≡ pre ++ keep stays ns)
    unfolding inter_from
    inter_from_lem zero pre ns t v e enough = absurd (omega arith)
    inter_from_lem (suc fuel) pre [] t v e enough = (t, refl, v, e)
    inter_from_lem (suc fuel) pre (n ∷ ns) t v e enough =
        let here : key_at n.ptr t.tlist ≡ n.key =
          ap (key_at n.ptr) e
          ∙ key_at_middle pre n ns (distinct_middle pre n ns (rw (← e) v.distinct)).0 in
        elim (Bool-cases (stays n)) [
          | inl kept ↦
              let (t', done, v', e') =
                inter_from_lem fuel (pre ++ n ∷ []) ns t v (e ∙ sym (append_assoc pre (n ∷ []) ns))
                  (omega arith) in
              (
                t',
                inter_from-next fuel t n.ptr (ap (in_all ms) here ∙ kept)
                    ∙ ap (inter_from fuel ms t) (eg_ht_next_middle pre n ns v e)
                    ∙ done,
                v',
                rw kept (e' ∙ append_assoc pre (n ∷ []) (keep stays ns)),
              )
          | inr dropped ↦
              let (u, erased, vu, eu) = ht_erase_bucket_middle pre n ns v e in
              let (t', done, v', e') = inter_from_lem fuel pre ns u vu eu (omega arith) in
              (
                t',
                inter_from-erase fuel t u n.ptr (first ns) (ap (in_all ms) here ∙ dropped) erased
                    ∙ done,
                v',
                rw dropped e',
              )
        ]

    head?-matches-keep :
        (k : ℕ) (ns : List (Node ℕ V))
        → head? (matches node_key k (keep stays ns))
          ≡ (if in_all ms k then head? (matches node_key k ns) else none)
    unfolding eg_num_cmp
    head?-matches-keep k [] = ground arith
    head?-matches-keep k (n ∷ ns) = elim (Bool-cases (k == n.key)) [
      | inl same ↦
          let stay : stays n ≡ in_all ms k = ap (in_all ms) (sym ((==_iff k n.key).0 same)) in
          elim (Bool-cases (in_all ms k)) [
            | inl all ↦ rw (stay ∙ all, all, same) refl
            | inr missing ↦ rw (stay ∙ missing, missing) (head?-matches-keep k ns ∙ rw missing refl)
          ]
      | inr apart ↦ elim (Bool-cases (stays n)) [
        | inl kept ↦ rw (kept, apart) (head?-matches-keep k ns)
        | inr dropped ↦ rw (dropped, apart) (head?-matches-keep k ns)
      ]
    ]

    -- `get_inter` with a well formed first map: the loop ends, and leaves a well formed map that
    -- holds what it held under the keys that all other maps hold, and nothing under any other. The
    -- nodes stay in their order.
    pub get_inter_lem :
        {t : HashTable ℕ V}
        → IsValid t
        → (t' : HashTable ℕ V) × (get_inter ms t ≡ some t')
          × IsValid t'
          × ((k : ℕ) → find_key t' k ≡ (if in_all ms k then find_key t k else none))
          × (t'.tlist ≡ keep stays t.tlist)
    unfolding get_inter
    get_inter_lem {t} v =
        let (t', done, v', e) =
          inter_from_lem (length t.tlist + 1) [] t.tlist t v refl (omega arith) in
        (
          t',
          ap (inter_from (length t.tlist + 1) ms t) (eg_ht_begin-first t) ∙ done,
          v',
          λ k.
              find_key-held k v'
              ∙ ap (λ l. head? (matches node_key k l)) e
              ∙ head?-matches-keep k t.tlist
              ∙ ap (λ f. if in_all ms k then f else none) (sym (find_key-held k v)),
          e,
        )
