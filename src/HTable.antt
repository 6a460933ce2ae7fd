-- ===== src/HTable.antt =====
-- ngix_module/AIS/htable.c and htable.h: the string table in which the server keeps its
-- applications, its kit versions and its prices.
--
-- An entry is its key and its value; `none` is a NULL value. The chains of `data` are lists;
-- `prev` only serves to take an entry out. `malloc` and `mystrdup` are taken to succeed, as the
-- code does. `int` and `unsigned` sizes stay below 2 ^ 31. A sequence in progress is the index
-- of its bucket with the entries that `seq_element` still has before it in the chain; the list
-- is empty where `seq_element` is NULL.
pub mod Valid
pub mod Enter
pub mod Delete
pub mod Sequence
pub mod Tests
use Prim.Native.Nat.{bit_and, bit_xor}
use mathlib.Core.List.{flatten}
use doorhinges.Base.{
  ℕ, zero, suc, ◌+◌, ◌-◌, ◌*◌, ◌/◌, ◌%◌, ◌^◌, ◌≡◌, refl, ap, Bool, true, false, ◌&&◌, Option, none,
  some, List, [], ◌∷◌, ◌++◌, length, get_or, set, replicate, ltb, leb, ◌==◌, if◌then◌else◌,
}
use doorhinges.Bytes.{
  char_value, strcmp_eq, strcmp_eq_refl, strcmp_eq_symm, strcmp_eq_trans, strcmp_eq→eq,
}
use doorhinges.Buckets.{Key, slot, chain_at, push_front, relink}

-- One round of the loop of `htable_hash`: `h = (h << 4U) + *s++` and the folding of the high bits.
pub hash_round : ℕ → ℕ → ℕ
hash_round h c =
    let h' = (h * 16 % 2 ^ 64 + char_value c) % 2 ^ 64 in
    let g = bit_and h' 0xf000_0000 in if g == 0 then h' else bit_xor (bit_xor h' (g / 2 ^ 24)) g

pub hash_from : ℕ → List ℕ → ℕ
unfolding hash_round
hash_from h [] = h
hash_from h (c ∷ cs) = hash_from (hash_round h c) cs

-- `htable_hash` before the last `%`.
pub htable_hash : List ℕ → ℕ
unfolding hash_from
htable_hash s = hash_from 0 s

pub htable_hash-eq : (a b : List ℕ) → strcmp_eq a b ≡ true → htable_hash a ≡ htable_hash b
htable_hash-eq a b h = ap htable_hash (strcmp_eq→eq a b h)

-- `htable_hash` with `STREQ`, whose other tests `strcmp` repeats.
instance abbrev pub htable_key : Key (List ℕ)
htable_key = record {
  hash = htable_hash;
  compare = strcmp_eq;
  compare_refl = strcmp_eq_refl;
  compare_symm = strcmp_eq_symm;
  compare_trans = strcmp_eq_trans;
  hash-compare = htable_hash-eq;
}

-- `HTABLE_INFO`
pub record Entry {ℓ} (V : Type ℓ) : Type ℓ where
  pub key : List ℕ
  pub value : Option V

-- `HTABLE`
pub record HTable {ℓ} (V : Type ℓ) : Type ℓ where
  pub size : ℕ
  pub used : ℕ
  pub entries : List (List (Entry V))
  pub seq_bucket : ℕ
  pub seq_element : List (Entry V)

-- `size |= 1`
abbrev pub make_odd : ℕ → ℕ
make_odd size = size + 1 - size % 2

-- `how` of `htable_sequence`: `HTABLE_SEQ_FIRST`, `HTABLE_SEQ_NEXT`, and any other value.
pub data How : Type 0 where
  seq_first seq_next seq_stop : How

module _ {ℓ} {V : Type ℓ} where
  abbrev pub entry_key : Entry V → List ℕ
  entry_key e = e.key

  -- `htable_link`
  pub htable_link : Entry V → HTable V → HTable V
  htable_link e t = record t {
    entries = push_front (slot t.size e.key) e t.entries;
    used = t.used + 1;
  }

  -- `htable_size`
  pub htable_size : ℕ → HTable V → HTable V
  htable_size size t = record t {
    size = make_odd size;
    used = 0;
    entries = replicate (make_odd size) [];
  }

  -- `htable_create`. The fields that the C code leaves unset are zero.
  pub htable_create : ℕ → HTable V
  unfolding htable_size
  htable_create size =
      htable_size (if ltb size 13 then 13 else size)
        (record { size = 0; used = 0; entries = []; seq_bucket = 0; seq_element = [] })

  -- The loops of `htable_grow`: each chain from its head on, each entry linked anew.
  pub link_all : List (Entry V) → HTable V → HTable V
  unfolding htable_link
  link_all [] t = t
  link_all (e ∷ es) t = link_all es (htable_link e t)

  -- `htable_grow`
  pub htable_grow : HTable V → HTable V
  unfolding link_all htable_size
  htable_grow t = link_all (flatten t.entries) (htable_size (2 * t.size) t)

  -- `seq_element == 0`
  abbrev pub is_idle : List (Entry V) → Bool
  is_idle [] = true
  is_idle (e ∷ es) = false

  -- `htable_enter`
  pub htable_enter : HTable V → List ℕ → Option V → HTable V
  htable_enter t k v =
      htable_link (record { key = k; value = v })
        (if leb t.size t.used && is_idle t.seq_element then htable_grow t else t)

  -- The loop of `htable_find` and `htable_locate`.
  pub locate_in : List ℕ → List (Entry V) → Option (Entry V)
  locate_in k [] = none
  locate_in k (e ∷ es) = if strcmp_eq k e.key then some e else locate_in k es

  -- `htable_locate`, on a table or NULL.
  pub htable_locate : Option (HTable V) → List ℕ → Option (Entry V)
  unfolding locate_in
  htable_locate none k = none
  htable_locate (some t) k = locate_in k (chain_at t.entries (slot t.size k))

  -- `htable_find`
  pub htable_find : Option (HTable V) → List ℕ → Option V
  unfolding htable_locate
  htable_find t k = elim (htable_locate t k) [ none ↦ none | some e ↦ e.value ]

  -- The unlinking of the first entry under a key.
  pub drop_first : List ℕ → List (Entry V) → List (Entry V)
  drop_first k [] = []
  drop_first k (e ∷ es) = if strcmp_eq k e.key then es else e ∷ drop_first k es

  -- `htable_delete`: the table, and the value that `free_fn` is called with.
  pub htable_delete : HTable V → List ℕ → HTable V × Option V
  unfolding drop_first
  htable_delete t k =
      let h = slot t.size k in
      elim (locate_in k (chain_at t.entries h)) [
        | none ↦ (t, none)
        | some e ↦ (
          record t {
            entries = set t.entries h (drop_first k (chain_at t.entries h));
            used = t.used - 1;
          },
          e.value,
        )
      ]

  -- The two loops of `htable_walk`, with what the action changes as a state.
  pub walk_chain {κ} : {S : Type κ} → (Entry V → S → S) → List (Entry V) → S → S
  walk_chain action [] s = s
  walk_chain action (e ∷ es) s = walk_chain action es (action e s)

  pub walk_buckets {κ} : {S : Type κ} → (Entry V → S → S) → List (List (Entry V)) → S → S
  unfolding walk_chain
  walk_buckets action [] s = s
  walk_buckets action (c ∷ cs) s = walk_buckets action cs (walk_chain action c s)

  -- `htable_walk`
  pub htable_walk {κ} : {S : Type κ} → HTable V → (Entry V → S → S) → S → S
  unfolding walk_buckets
  htable_walk t action s = walk_buckets action t.entries s

  -- `htable_list` without the NULL at its end; the array has room for `used + 1` pointers.
  pub htable_list : HTable V → List (Entry V)
  unfolding walk_buckets
  htable_list t = walk_buckets (λ e l. l ++ e ∷ []) t.entries []

  -- `htable_free`: the values that `free_fn` is called with, in order.
  pub htable_free : HTable V → List V
  unfolding walk_buckets
  htable_free t =
      walk_buckets (λ e l. elim (e.value) [ none ↦ l | some v ↦ l ++ v ∷ [] ]) t.entries []

  -- The last loop of `htable_sequence` over `seq_bucket` and `seq_element`, with the count of the
  -- buckets behind `seq_bucket`.
  pub seek : ℕ → List (List (Entry V)) → ℕ → List (Entry V) → ℕ × List (Entry V)
  seek zero chains bucket (e ∷ es) = (bucket, e ∷ es)
  seek zero chains bucket [] = (suc bucket, [])
  seek (suc left) chains bucket (e ∷ es) = (bucket, e ∷ es)
  seek (suc left) chains bucket [] = seek left chains (suc bucket) (chain_at chains (suc bucket))

  -- The table with its sequence at a place.
  abbrev pub at_place : HTable V → ℕ × List (Entry V) → HTable V
  at_place t place = record t { seq_bucket = place.0; seq_element = place.1 }

  -- `htable_sequence`; what it returns is the first of `seq_element`.
  pub htable_sequence : HTable V → How → HTable V
  unfolding seek
  htable_sequence t seq_first = at_place t (seek (t.size - 1) t.entries 0 (chain_at t.entries 0))
  htable_sequence t seq_next = elim (t.seq_element) [
    | [] ↦ record t { seq_element = [] }
    | e ∷ es ↦ at_place t (seek (t.size - 1 - t.seq_bucket) t.entries t.seq_bucket es)
  ]
  htable_sequence t seq_stop = record t { seq_element = [] }
