-- ===== src/HTable/Sequence.antt =====
-- The loops over a whole table: `htable_walk`, `htable_list`, `htable_free`, `htable_sequence`.
use mathlib.Core.List.{flatten, foldl}
use doorhinges.Base.{
  ℕ, zero, suc, ◌+◌, ◌-◌, ◌≤◌, ◌<◌, ◌≡◌, refl, sym, ap, ◌∙◌, none, some, List, [], ◌∷◌, ◌++◌, arith,
  length, drop, Option-cases, inl, inr, append_assoc, append-nil,
}
use doorhinges.Buckets.{chain_at}
use doorhinges.HTable.{
  Entry, HTable, seq_first, seq_next, walk_chain, walk_buckets, htable_walk, htable_list,
  htable_free, seek, at_place, htable_sequence,
}
use doorhinges.HTable.Valid.{IsValid}

module _ {ℓ} {V : Type ℓ} where
  collect_chain : (es acc : List (Entry V)) → walk_chain (λ e l. l ++ e ∷ []) es acc ≡ acc ++ es
  unfolding walk_chain
  collect_chain [] acc = sym (append-nil acc)
  collect_chain (e ∷ es) acc = collect_chain es (acc ++ e ∷ []) ∙ append_assoc acc (e ∷ []) es

  collect_buckets :
      (cs : List (List (Entry V))) (acc : List (Entry V))
      → walk_buckets (λ e l. l ++ e ∷ []) cs acc ≡ acc ++ flatten cs
  unfolding walk_buckets flatten
  collect_buckets [] acc = sym (append-nil acc)
  collect_buckets (c ∷ cs) acc =
      rw (collect_chain c acc) (collect_buckets cs (acc ++ c) ∙ append_assoc acc c (flatten cs))

  htable_list-flatten : (t : HTable V) → htable_list t ≡ flatten t.entries
  unfolding htable_list
  htable_list-flatten t = collect_buckets t.entries []

  -- In a well formed table `htable_list` gives `used` entries, for which its array has room with
  -- the NULL behind them: those of all chains, in order.
  pub htable_list_lem :
      (t : HTable V)
      → IsValid t
      → (htable_list t ≡ flatten t.entries) × (length (htable_list t) ≡ t.used)
  htable_list_lem t v = (htable_list-flatten t, ap length (htable_list-flatten t) ∙ sym v.counted)

  -- What the table still has to give from a place on.
  abbrev remaining : List (List (Entry V)) → ℕ × List (Entry V) → List (Entry V)
  remaining chains place = place.1 ++ flatten (drop (suc place.0) chains)

  drop_next :
      (chains : List (List (Entry V))) (b : ℕ)
      → flatten (drop b chains) ≡ chain_at chains b ++ flatten (drop (suc b) chains)
  unfolding flatten
  drop_next [] zero = refl
  drop_next [] (suc b) = refl
  drop_next (c ∷ cs) zero = refl
  drop_next (c ∷ cs) (suc b) = drop_next cs b

  drop_all :
      (chains : List (List (Entry V))) (b : ℕ) → length chains ≤ b → flatten (drop b chains) ≡ []
  unfolding flatten
  drop_all [] zero h = refl
  drop_all [] (suc b) h = refl
  drop_all (c ∷ cs) zero h = absurd (omega arith)
  drop_all (c ∷ cs) (suc b) h = drop_all cs b (omega arith)

  -- A place where the loop of `htable_sequence` stops: at an entry of a bucket, or at the end.
  abbrev Stopped : List (List (Entry V)) → ℕ × List (Entry V) → Type 0
  Stopped chains (b, []) = length chains ≤ b
  Stopped chains (b, e ∷ es) = b < length chains

  seek-remaining :
      (left : ℕ) (chains : List (List (Entry V))) (b : ℕ) (es : List (Entry V))
      → left + suc b ≡ length chains
      → (remaining chains (seek left chains b es) ≡ remaining chains (b, es))
        × Stopped chains (seek left chains b es)
  unfolding seek
  seek-remaining zero chains b (e ∷ es) h = (refl, omega arith)
  seek-remaining zero chains b [] h = (
    drop_all chains (suc (suc b)) (omega arith) ∙ sym (drop_all chains (suc b) (omega arith)),
    omega arith,
  )
  seek-remaining (suc left) chains b (e ∷ es) h = (refl, omega arith)
  seek-remaining (suc left) chains b [] h =
      let (same, stopped) =
        seek-remaining left chains (suc b) (chain_at chains (suc b)) (omega arith) in
      (same ∙ sym (drop_next chains (suc b)), stopped)

  -- What the caller gets from a sequence in progress: the entry at hand, and then the ones that
  -- `htable_sequence(table, HTABLE_SEQ_NEXT)` returns until NULL.
  pub returned : ℕ → HTable V → List (Entry V)
  returned zero t = []
  returned (suc fuel) t = elim (t.seq_element) [
    | [] ↦ []
    | e ∷ es ↦ e ∷ returned fuel (htable_sequence t seq_next)
  ]

  returned-remaining :
      (fuel : ℕ) (t : HTable V) (place : ℕ × List (Entry V))
      → length t.entries ≡ t.size
      → Stopped t.entries place
      → length (remaining t.entries place) < fuel
      → returned fuel (at_place t place) ≡ remaining t.entries place
  unfolding returned htable_sequence
  returned-remaining zero t place sized stopped enough = absurd (omega arith)
  returned-remaining (suc fuel) t (b, []) sized stopped enough =
      sym (drop_all t.entries (suc b) (omega arith))
  returned-remaining (suc fuel) t (b, e ∷ es) sized stopped enough =
      let (same, stopped') = seek-remaining (t.size - 1 - b) t.entries b es (omega arith) in
      ap (λ l. e ∷ l)
        (returned-remaining fuel t (seek (t.size - 1 - b) t.entries b es) sized stopped'
            (omega (arith, ap length same))
          ∙ same)

  -- A sequence that is not disturbed gives every entry of a well formed table once, in the order
  -- of `htable_list`, and then NULL.
  pub htable_sequence-list :
      (t : HTable V) (fuel : ℕ)
      → IsValid t
      → t.used < fuel
      → returned fuel (htable_sequence t seq_first) ≡ htable_list t
  unfolding htable_sequence
  htable_sequence-list t fuel v enough =
      let first = chain_at t.entries 0 in
      let (same, stopped) =
        seek-remaining (t.size - 1) t.entries 0 first (omega (arith, v.sized, v.pos)) in
      let whole = same ∙ sym (drop_next t.entries 0) in
      returned-remaining fuel t (seek (t.size - 1) t.entries 0 first) v.sized stopped
        (omega (arith, ap length whole, v.counted))
      ∙ whole
      ∙ sym (htable_list-flatten t)

  walk_chain-append {κ} :
      {S : Type κ} (action : Entry V → S → S) (es ds : List (Entry V)) (s : S)
      → walk_chain action (es ++ ds) s ≡ walk_chain action ds (walk_chain action es s)
  unfolding walk_chain
  walk_chain-append action [] ds s = refl
  walk_chain-append action (e ∷ es) ds s = walk_chain-append action es ds (action e s)

  walk_buckets-flatten {κ} :
      {S : Type κ} (action : Entry V → S → S) (cs : List (List (Entry V))) (s : S)
      → walk_buckets action cs s ≡ walk_chain action (flatten cs) s
  unfolding walk_buckets walk_chain flatten
  walk_buckets-flatten action [] s = refl
  walk_buckets-flatten action (c ∷ cs) s =
      walk_buckets-flatten action cs (walk_chain action c s)
      ∙ sym (walk_chain-append action c (flatten cs) s)

  walk_chain-foldl {κ} :
      {S : Type κ} (action : Entry V → S → S) (es : List (Entry V)) (s : S)
      → walk_chain action es s ≡ foldl (λ r e. action e r) s es
  unfolding walk_chain
  walk_chain-foldl action [] s = refl
  walk_chain-foldl action (e ∷ es) s = walk_chain-foldl action es (action e s)

  -- `htable_walk` calls the action on the entries that `htable_list` lists, in that order.
  pub htable_walk-list {κ} :
      {S : Type κ} (t : HTable V) (action : Entry V → S → S) (s : S)
      → htable_walk t action s ≡ foldl (λ r e. action e r) s (htable_list t)
  unfolding htable_walk
  htable_walk-list t action s =
      walk_buckets-flatten action t.entries s
      ∙ walk_chain-foldl action (flatten t.entries) s
      ∙ ap (foldl (λ r e. action e r) s) (sym (htable_list-flatten t))

  -- The values of entries, less NULL.
  pub values : List (Entry V) → List V
  values [] = []
  values (e ∷ es) = elim (e.value) [ none ↦ values es | some v ↦ v ∷ values es ]

  free_chain :
      (es : List (Entry V)) (acc : List V)
      → walk_chain (λ e l. elim (e.value) [ none ↦ l | some v ↦ l ++ v ∷ [] ]) es acc
        ≡ acc ++ values es
  unfolding walk_chain values
  free_chain [] acc = sym (append-nil acc)
  free_chain (e ∷ es) acc = elim (Option-cases e.value) [
    | inl none_there ↦ rw none_there (free_chain es acc)
    | inr (v, there) ↦
        rw there (free_chain es (acc ++ v ∷ []) ∙ append_assoc acc (v ∷ []) (values es))
  ]

  -- `htable_free` calls `free_fn` with every value that is not NULL, once for each entry, in the
  -- order of `htable_list`.
  pub htable_free-list : (t : HTable V) → htable_free t ≡ values (htable_list t)
  unfolding htable_free
  htable_free-list t =
      walk_buckets-flatten (λ e l. elim (e.value) [ none ↦ l | some v ↦ l ++ v ∷ [] ]) t.entries []
      ∙ free_chain (flatten t.entries) []
      ∙ ap values (sym (htable_list-flatten t))
