-- ===== src/HTable/Valid.antt =====
-- When an `HTABLE` is well formed, and what a lookup in such a table finds.
use mathlib.Core.List.{flatten}
use doorhinges.Base.{
  ℕ, zero, suc, ◌+◌, ◌<◌, ◌≡◌, refl, ap, ◌∙◌, Option, none, some, List, [], ◌∷◌, arith, length,
  head?, set, if◌then◌else◌, length-append,
}
use doorhinges.Buckets.{
  slot, chain_at, push_front, matches, found, found-push_front, length-push_front,
}
use doorhinges.Buckets.Placed.{IsPlaced, push_front-IsPlaced}
use native.Mathlib.Nat.{mod-lt}
use doorhinges.HTable.{
  Entry, HTable, htable_key, entry_key, htable_link, locate_in, htable_locate, htable_find,
}

module _ {ℓ} {V : Type ℓ} where
  -- The array has the table's size, `used` counts the entries, and each stands in its chain.
  pub record IsValid (t : HTable V) : Type ℓ where
    pub sized : length t.entries ≡ t.size
    pub pos : 0 < t.size
    pub counted : t.used ≡ length (flatten t.entries)
    pub placed : IsPlaced entry_key t.size t.entries

  -- The entries under a key, the one that a lookup finds first.
  abbrev pub under : List ℕ → HTable V → List (Entry V)
  under k t = found entry_key t.size k t.entries

  abbrev pub value_of : Option (Entry V) → Option V
  value_of = elim [ none ↦ none | some e ↦ e.value ]

  locate_in-head? :
      (k : List ℕ) (es : List (Entry V)) → locate_in k es ≡ head? (matches entry_key k es)
  unfolding locate_in
  locate_in-head? k [] = refl
  locate_in-head? k (e ∷ es) = ground (arith, locate_in-head? k es)

  -- `htable_locate` gives the first of the entries under the key.
  pub htable_locate-under :
      (t : HTable V) (k : List ℕ) → htable_locate (some t) k ≡ head? (under k t)
  unfolding htable_locate
  htable_locate-under t k = locate_in-head? k (chain_at t.entries (slot t.size k))

  pub htable_find-under :
      (t : HTable V) (k : List ℕ) → htable_find (some t) k ≡ value_of (head? (under k t))
  unfolding htable_find
  htable_find-under t k = ap value_of (htable_locate-under t k)

  -- A write to one chain changes the number of all entries by the difference in that chain.
  pub length-flatten-set :
      (chains : List (List (Entry V))) (i : ℕ) (c : List (Entry V))
      → i < length chains
      → length (flatten (set chains i c)) + length (chain_at chains i)
        ≡ length (flatten chains) + length c
  unfolding flatten
  length-flatten-set [] i c h = elim h [ ]
  length-flatten-set (d ∷ ds) zero c h =
      omega (arith, length-append c (flatten ds), length-append d (flatten ds))
  length-flatten-set (d ∷ ds) (suc i) c h = omega (
    arith,
    length-append d (flatten ds),
    length-append d (flatten (set ds i c)),
    length-flatten-set ds i c (omega arith),
  )

  pub htable_link-under :
      (e : Entry V) (t : HTable V) (k : List ℕ)
      → length t.entries ≡ t.size
      → 0 < t.size
      → under k (htable_link e t)
        ≡ (if htable_key.compare k e.key then e ∷ under k t else under k t)
  unfolding htable_link
  htable_link-under e t k sized pos = found-push_front entry_key t.size k e t.entries sized pos

  pub htable_link-IsValid : (e : Entry V) {t : HTable V} → IsValid t → IsValid (htable_link e t)
  unfolding htable_link push_front
  htable_link-IsValid e {t} v =
      let home = slot t.size e.key in
      let fits : home < length t.entries = rw v.sized (mod-lt (htable_key.hash e.key) v.pos) in
      record {
        sized = length-push_front home e t.entries ∙ v.sized;
        pos = v.pos;
        counted = omega (
          arith,
          v.counted,
          length-flatten-set t.entries home (e ∷ chain_at t.entries home) fits,
        );
        placed = push_front-IsPlaced entry_key t.size e t.entries v.sized v.pos v.placed;
      }
