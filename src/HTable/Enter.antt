-- ===== src/HTable/Enter.antt =====
-- `htable_create`, `htable_grow` and `htable_enter`.
use mathlib.Core.List.{flatten, reverse}
use doorhinges.Base.{
  ℕ, zero, suc, ◌+◌, ◌*◌, ◌%◌, ◌≤◌, ◌<◌, ◌≡◌, refl, ap, ◌∙◌, Bool, true, false, ◌&&◌, Option, none,
  some, List, [], ◌∷◌, arith, length, head?, if◌then◌else◌, leb, ltb, reverse_short,
  length-replicate, append-nil, replicate, get_or-replicate, Bool-cases, inl, inr,
}
use doorhinges.Bytes.{strcmp_eq}
use doorhinges.Buckets.{slot, relink, found, found-relink}
use doorhinges.Buckets.Placed.{replicate-IsPlaced, matches-flatten}
use doorhinges.HTable.{
  Entry, HTable, htable_key, entry_key, make_odd, is_idle, htable_link, link_all, htable_size,
  htable_create, htable_grow, htable_enter, htable_find, htable_locate,
}
use doorhinges.HTable.Valid.{
  IsValid, under, htable_find-under, htable_locate-under, htable_link-IsValid, htable_link-under,
}

module _ {ℓ} {V : Type ℓ} where
  flatten-replicate : (n : ℕ) → flatten {A = Entry V} (replicate n []) ≡ []
  unfolding flatten
  flatten-replicate zero = refl
  flatten-replicate (suc n) = flatten-replicate n

  htable_size-IsValid :
      (size : ℕ) (t : HTable V)
      → 0 < size
      → IsValid (htable_size size t) × ((k : List ℕ) → under k (htable_size size t) ≡ [])
  unfolding htable_size
  htable_size-IsValid size t pos = (
    record {
      sized = length-replicate (make_odd size) [];
      pos = omega arith;
      counted = rw (flatten-replicate (make_odd size)) refl;
      placed = replicate-IsPlaced entry_key (make_odd size) (make_odd size);
    },
    λ k.
        rw (get_or-replicate {A = List (Entry V)} (make_odd size) (slot (make_odd size) k) []) refl,
  )

  link_all-IsValid : (es : List (Entry V)) {t : HTable V} → IsValid t → IsValid (link_all es t)
  unfolding link_all
  link_all-IsValid [] v = v
  link_all-IsValid (e ∷ es) v = link_all-IsValid es (htable_link-IsValid e v)

  -- The loops of `htable_grow` are those of the shared array.
  link_all-relink :
      (es : List (Entry V)) (t : HTable V)
      → ((link_all es t).entries ≡ relink entry_key t.size es t.entries)
        × ((link_all es t).size ≡ t.size)
        × ((link_all es t).used ≡ t.used + length es)
        × ((link_all es t).seq_element ≡ t.seq_element)
  unfolding link_all htable_link relink
  link_all-relink [] t = (refl, refl, omega arith, refl)
  link_all-relink (e ∷ es) t =
      let (entries, size, used, seq) = link_all-relink es (htable_link e t) in
      (entries, size, omega (arith, used), seq)

  -- `htable_grow` gives a well formed table of an odd size of at least twice the old one, with
  -- the same entries; those under one key come in the opposite order.
  pub htable_grow_lem :
      {t : HTable V}
      → IsValid t
      → IsValid (htable_grow t)
        × ((k : List ℕ) → under k (htable_grow t) ≡ reverse (under k t))
        × ((htable_grow t).used ≡ t.used)
        × ((htable_grow t).size ≡ make_odd (2 * t.size))
        × ((htable_grow t).seq_element ≡ t.seq_element)
  unfolding htable_grow
  htable_grow_lem {t} v =
      let (valid, empty) = htable_size-IsValid (2 * t.size) t (omega (arith, v.pos)) in
      let (entries, size, used, seq) =
        link_all-relink (flatten t.entries) (htable_size (2 * t.size) t) in
      (
        link_all-IsValid (flatten t.entries) valid,
        λ k.
            (λ i. found entry_key (size i) k (entries i))
            ∙ found-relink entry_key (htable_size (2 * t.size) t).size k (flatten t.entries)
                (htable_size (2 * t.size) t).entries valid.sized valid.pos
            ∙ rw (empty k, matches-flatten entry_key t.size k t.entries v.placed)
                (append-nil (reverse (under k t))),
        used ∙ (unfold htable_size in omega (arith, v.counted)),
        size ∙ (unfold htable_size in refl),
        seq ∙ (unfold htable_size in refl),
      )

  -- `htable_create` gives a well formed, empty table of an odd size of 13 or more, in which
  -- nothing is found.
  pub htable_create-IsValid :
      (size : ℕ)
      → IsValid (htable_create {V = V} size)
        × ((k : List ℕ) → htable_locate (some (htable_create {V = V} size)) k ≡ none)
        × ((htable_create {V = V} size).used ≡ 0)
        × (13 ≤ (htable_create {V = V} size).size)
        × (size ≤ (htable_create {V = V} size).size)
        × ((htable_create {V = V} size).size % 2 ≡ 1)
  unfolding htable_create
  htable_create-IsValid size =
      let (valid, empty) =
        htable_size-IsValid (if ltb size 13 then 13 else size)
          (record { size = 0; used = 0; entries = []; seq_bucket = 0; seq_element = [] })
          (ground arith) in
      (
        valid,
        λ k. htable_locate-under (htable_create size) k ∙ ap head? (empty k),
        refl,
        ground arith,
        ground arith,
        ground arith,
      )

  -- Whether `htable_enter` grows the table first.
  abbrev pub grows : HTable V → Bool
  grows t = leb t.size t.used && is_idle t.seq_element

  -- The entries under a key when `htable_enter` links the new one.
  abbrev pub before : List ℕ → HTable V → List (Entry V)
  before q t = if grows t then reverse (under q t) else under q t

  used-htable_link : (e : Entry V) (t : HTable V) → (htable_link e t).used ≡ t.used + 1
  unfolding htable_link
  used-htable_link e t = refl

  -- `htable_enter` keeps a table well formed and counts the entry. The new entry stands in front
  -- of those under the same key; all others are as they were, but that those under one key come
  -- in the opposite order if the table grew.
  pub htable_enter_lem :
      {t : HTable V} (k : List ℕ) (x : Option V)
      → IsValid t
      → IsValid (htable_enter t k x)
        × ((htable_enter t k x).used ≡ t.used + 1)
        × ((q : List ℕ)
            → under q (htable_enter t k x)
              ≡ (if strcmp_eq q k then record { key = k; value = x } ∷ before q t else before q t))
  unfolding htable_enter
  htable_enter_lem {t} k x v =
      let e : Entry V = record { key = k; value = x } in
      elim (Bool-cases (grows t)) [
        | inr stays ↦ rw stays (
          htable_link-IsValid e v,
          used-htable_link e t,
          λ q. htable_link-under e t q v.sized v.pos,
        )
        | inl full ↦
            let (valid, turned, used, size, seq) = htable_grow_lem v in
            rw full (
              htable_link-IsValid e valid,
              used-htable_link e (htable_grow t) ∙ ap (λ n. n + 1) used,
              λ q. htable_link-under e (htable_grow t) q valid.sized valid.pos ∙ rw (turned q) refl,
            )
      ]

  -- Where a key has one entry at most, `htable_enter` is the update of a map: the new value is
  -- found under the new key, and what was found before under any other.
  pub htable_find-enter :
      {t : HTable V} (k q : List ℕ) (x : Option V)
      → IsValid t
      → length (under q t) ≤ 1
      → htable_find (some (htable_enter t k x)) q
        ≡ (if strcmp_eq q k then x else htable_find (some t) q)
  htable_find-enter {t} k q x v short =
      let (valid, used, entries) = htable_enter_lem k x v in
      let same : before q t ≡ under q t = elim (Bool-cases (grows t)) [
        | inl full ↦ rw full (reverse_short (under q t) short)
        | inr stays ↦ rw stays refl
      ] in
      htable_find-under (htable_enter t k x) q
      ∙ rw (entries q, same, htable_find-under t q) (ground arith)

  -- Where a key has several entries, growth turns them round: an insertion under another key,
  -- when the table is full, makes a lookup give the entry that was entered first.
  pub htable_locate-enter_turned :
      {t : HTable V} (k q : List ℕ) (x : Option V)
      → IsValid t
      → grows t ≡ true
      → strcmp_eq q k ≡ false
      → htable_locate (some (htable_enter t k x)) q ≡ head? (reverse (under q t))
  htable_locate-enter_turned {t} k q x v full other =
      let (valid, used, entries) = htable_enter_lem k x v in
      htable_locate-under (htable_enter t k x) q ∙ rw (entries q, other, full) refl

  -- While no sequence is in progress, a table that has at most one entry for each chain on
  -- average stays so: this is what the growth is for.
  pub htable_enter-load :
      {t : HTable V} (k : List ℕ) (x : Option V)
      → IsValid t
      → t.seq_element ≡ []
      → t.used ≤ t.size
      → ((htable_enter t k x).used ≤ (htable_enter t k x).size)
        × ((htable_enter t k x).seq_element ≡ [])
  unfolding htable_enter htable_link
  htable_enter-load {t} k x v idle fits =
      let (valid, turned, used, size, seq) = htable_grow_lem v in
      elim (Bool-cases (leb t.size t.used)) [
        | inl full ↦
            let growing : grows t ≡ true = rw (full, idle) refl in
            rw growing (omega (arith, used, size, v.pos), seq ∙ idle)
        | inr roomy ↦
            let staying : grows t ≡ false = rw roomy refl in rw staying (ground arith, idle)
      ]
