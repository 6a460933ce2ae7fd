-- ===== src/HTable/Delete.antt =====
-- `htable_delete`.
use mathlib.Core.List.{flatten}
use doorhinges.Base.{
  ℕ, ◌+◌, ◌-◌, ◌<◌, ◌≡◌, refl, sym, ap, ◌∙◌, true, ◌&&◌, none, some, List, [], ◌∷◌, arith, length,
  set, if◌then◌else◌, ◌==◌, length-set,
}
use native.Mathlib.Nat.{mod-lt}
use doorhinges.Bytes.{strcmp_eq, strcmp_eq→eq, strcmp_eq_symm}
use doorhinges.Buckets.{slot, chain_at, matches, chain_at-set, compare_congr_left}
use doorhinges.HTable.{
  Entry, HTable, htable_key, entry_key, locate_in, drop_first, htable_delete, htable_locate,
}
use doorhinges.HTable.Valid.{IsValid, under, length-flatten-set}

module _ {ℓ} {V : Type ℓ} where
  -- All but the first.
  abbrev pub rest : List (Entry V) → List (Entry V)
  rest [] = []
  rest (e ∷ es) = es

  matches-drop_first :
      (q k : List ℕ) (es : List (Entry V))
      → matches entry_key q (drop_first k es)
        ≡ (if strcmp_eq q k then rest (matches entry_key q es) else matches entry_key q es)
  unfolding drop_first
  matches-drop_first q k [] = ground arith
  matches-drop_first q k (e ∷ es) = ground (
    arith,
    matches-drop_first q k es,
    compare_congr_left q k e.key,
    compare_congr_left k e.key q,
    strcmp_eq_symm q k,
    strcmp_eq_symm q e.key,
  )

  length-drop_first :
      (k : List ℕ) (e : Entry V) (es : List (Entry V))
      → locate_in k es ≡ some e
      → length (drop_first k es) + 1 ≡ length es
  unfolding drop_first locate_in
  length-drop_first k e [] h = cc
  length-drop_first k e (d ∷ es) h = ground (arith, length-drop_first k e es)

  module _ {t : HTable V} (k : List ℕ) (v : IsValid t) where
    abbrev emptied : HTable V
    emptied = record t {
      entries = set t.entries (slot t.size k) (drop_first k (chain_at t.entries (slot t.size k)));
      used = t.used - 1;
    }

    home_fits : slot t.size k < length t.entries
    home_fits = rw v.sized (mod-lt (htable_key.hash k) v.pos)

    -- The entries under a key in any chain after the deletion.
    matches-emptied :
        (q : List ℕ) (i : ℕ)
        → matches entry_key q (chain_at emptied.entries i) ≡ (
            if (slot t.size k == i) && strcmp_eq q k
            then rest (matches entry_key q (chain_at t.entries i))
            else matches entry_key q (chain_at t.entries i))
    matches-emptied q i =
        rw (chain_at-set (slot t.size k) i (drop_first k) t.entries home_fits)
          (ground (arith, matches-drop_first q k (chain_at t.entries i)))

    -- The chain has one entry less, and so has the table.
    shorter :
        (e : Entry V)
        → htable_locate (some t) k ≡ some e
        → length (flatten emptied.entries) + 1 ≡ t.used
    unfolding htable_locate
    shorter e found_it = omega (
      arith,
      v.counted,
      length-flatten-set t.entries (slot t.size k)
          (drop_first k (chain_at t.entries (slot t.size k))) home_fits,
      length-drop_first k e (chain_at t.entries (slot t.size k)) found_it,
    )

    emptied-IsValid : (e : Entry V) → htable_locate (some t) k ≡ some e → IsValid emptied
    emptied-IsValid e found_it = record {
      sized = length-set t.entries _ _ ∙ v.sized;
      pos = v.pos;
      counted = omega (arith, shorter e found_it);
      placed = λ q i apart. rw (matches-emptied q i, v.placed q i apart) (ground arith);
    }

    delete-emptied :
        (e : Entry V) → htable_locate (some t) k ≡ some e → htable_delete t k ≡ (emptied, e.value)
    unfolding htable_delete htable_locate
    delete-emptied e found_it = rw (found_it, htable_delete) refl

    same_chain : (q : List ℕ) → strcmp_eq q k ≡ true → slot t.size k ≡ slot t.size q
    same_chain q same = ap (slot t.size) (sym (strcmp_eq→eq q k same))

    -- `htable_delete` of a key that is there: the table stays well formed, `used` falls by one,
    -- `free_fn` gets the value that a lookup found, and of the entries under the key the first is
    -- gone; those under other keys stay.
    pub htable_delete_lem :
        (e : Entry V)
        → htable_locate (some t) k ≡ some e
        → IsValid (htable_delete t k).0
          × ((htable_delete t k).0.used + 1 ≡ t.used)
          × ((htable_delete t k).1 ≡ e.value)
          × ((q : List ℕ)
              → under q (htable_delete t k).0
                ≡ (if strcmp_eq q k then rest (under q t) else under q t))
    htable_delete_lem e found_it = rw (delete-emptied e found_it) (
      emptied-IsValid e found_it,
      omega (arith, shorter e found_it),
      refl,
      λ q. matches-emptied q (slot t.size q) ∙ ground (arith, same_chain q),
    )

  -- `htable_delete` of a key that is not there changes nothing and frees nothing.
  pub htable_delete_absent :
      (t : HTable V) (k : List ℕ) → htable_locate (some t) k ≡ none → htable_delete t k ≡ (t, none)
  unfolding htable_delete htable_locate
  htable_delete_absent t k h = rw (h, htable_delete) refl
