-- ===== src/HTable/Tests.antt =====
-- The theorems on `HTABLE` at concrete tables of numbers.
use mathlib.Core.List.{flatten}
use doorhinges.Base.{ℕ, ◌+◌, ◌≡◌, refl, some, List, [], ◌∷◌, arith, if◌then◌else◌}
use doorhinges.Bytes.{strcmp_eq}
use doorhinges.Buckets.{push_front}
use doorhinges.Buckets.Placed.{replicate-IsPlaced}
use doorhinges.HTable.{
  Entry, HTable, seq_first, htable_key, entry_key, htable_link, htable_enter, htable_find,
  htable_locate, htable_delete, htable_list, htable_sequence, locate_in, htable_hash, hash_from,
  hash_round,
}
use doorhinges.HTable.Valid.{IsValid, under, htable_link-IsValid}
use doorhinges.HTable.Enter.{htable_enter_lem, htable_find-enter, before}
use doorhinges.HTable.Delete.{htable_delete_lem, rest}
use doorhinges.HTable.Sequence.{htable_sequence-list, returned}

-- A table of one chain, and one with an entry in it.
abbrev one_chain : HTable ℕ
one_chain = record { size = 1; used = 0; entries = [] ∷ []; seq_bucket = 0; seq_element = [] }

one_chain-IsValid : IsValid one_chain
unfolding flatten
one_chain-IsValid = record {
  sized = refl;
  pos = omega arith;
  counted = refl;
  placed = replicate-IsPlaced entry_key 1 1;
}

abbrev a_key : List ℕ
a_key = 97 ∷ []

abbrev b_key : List ℕ
b_key = 98 ∷ []

abbrev first_entry : Entry ℕ
first_entry = record { key = a_key; value = some 10 }

abbrev full : HTable ℕ
full = htable_link first_entry one_chain

full-IsValid : IsValid full
full-IsValid = htable_link-IsValid first_entry one_chain-IsValid

htable_enter_lem_example :
    IsValid (htable_enter full b_key (some 20))
    × ((htable_enter full b_key (some 20)).used ≡ full.used + 1)
    × ((q : List ℕ)
        → under q (htable_enter full b_key (some 20)) ≡ (
            if strcmp_eq q b_key
            then record { key = b_key; value = some 20 } ∷ before q full
            else before q full))
htable_enter_lem_example = htable_enter_lem b_key (some 20) full-IsValid

htable_find-enter_example :
    htable_find (some (htable_enter full b_key (some 20))) a_key
    ≡ (if strcmp_eq a_key b_key then some 20 else htable_find (some full) a_key)
unfolding htable_link htable_hash hash_from hash_round push_front strcmp_eq
htable_find-enter_example = htable_find-enter b_key a_key (some 20) full-IsValid (omega arith)

htable_delete_lem_example :
    IsValid (htable_delete full a_key).0
    × ((htable_delete full a_key).0.used + 1 ≡ full.used)
    × ((htable_delete full a_key).1 ≡ some 10)
    × ((q : List ℕ)
        → under q (htable_delete full a_key).0
          ≡ (if strcmp_eq q a_key then rest (under q full) else under q full))
unfolding htable_locate locate_in strcmp_eq htable_link push_front htable_hash hash_from hash_round
htable_delete_lem_example = htable_delete_lem a_key full-IsValid first_entry refl

htable_sequence-list_example : returned 5 (htable_sequence full seq_first) ≡ htable_list full
unfolding htable_link
htable_sequence-list_example = htable_sequence-list full 5 full-IsValid (omega arith)
