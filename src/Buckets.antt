-- ===== src/Buckets.antt =====
-- What the two hash tables of ngix_module/AIS share: a key with its hash and its comparison, and
-- an array of chains that is indexed by a key's hash modulo the array's size. A chain is the list
-- of the entries that its `next` pointers reach.
pub mod Placed
use mathlib.Core.List.{reverse, reverse-append}
use doorhinges.Base.{
  ℕ, ◌%◌, ◌<◌, ◌≡◌, refl, sym, ◌∙◌, Bool, true, List, [], ◌∷◌, ◌++◌, arith, length, get_or, set,
  keep, if◌then◌else◌, Bool-cases, ==_iff, ==_refl, ◌==◌, inl, inr, length-set, get_or-set_self,
  get_or-set_ne, append_assoc,
}
use native.Mathlib.Nat.{mod-lt}

-- The function pointers of a table, with what a hashed container asks of them.
pub record Key {ℓ} (K : Type ℓ) : Type ℓ where
  pub hash : K → ℕ
  pub compare : K → K → Bool
  pub compare_refl : (a : K) → compare a a ≡ true
  pub compare_symm : (a b : K) → compare a b ≡ compare b a
  pub compare_trans : (a b c : K) → compare a b ≡ true → compare b c ≡ true → compare a c ≡ true
  pub hash-compare : (a b : K) → compare a b ≡ true → hash a ≡ hash b

module _ {ℓ} {K : Type ℓ} ⦃key : Key K⦄ where
  -- A key may stand for another that compares equal to it.
  pub compare_congr_left : (a b c : K) → key.compare a b ≡ true → key.compare a c ≡ key.compare b c
  compare_congr_left a b c e =
      ground (arith, key.compare_symm a b, key.compare_trans a b c, key.compare_trans b a c)

  -- The index of the chain in which a key belongs.
  abbrev pub slot : ℕ → K → ℕ
  slot size k = key.hash k % size

abbrev pub chain_at {ℓ} : {E : Type ℓ} → List (List E) → ℕ → List E
chain_at chains i = get_or chains i []

-- `e->next = chains[h]; chains[h] = e`
unfoldable pub push_front {ℓ} : {E : Type ℓ} → ℕ → E → List (List E) → List (List E)
push_front h e chains = set chains h (e ∷ chain_at chains h)

pub length-push_front {ℓ} :
    {E : Type ℓ} (h : ℕ) (e : E) (chains : List (List E))
    → length (push_front h e chains) ≡ length chains
unfolding push_front
length-push_front h e chains = length-set chains h _

-- One chain is replaced by a function of it, and the others stay.
pub chain_at-set {ℓ} :
    {E : Type ℓ} (h i : ℕ) (f : List E → List E) (chains : List (List E))
    → h < length chains
    → chain_at (set chains h (f (chain_at chains h))) i
      ≡ (if h == i then f (chain_at chains i) else chain_at chains i)
chain_at-set h i f chains fits = elim (Bool-cases (h == i)) [
  | inl same ↦
      rw same
        (rw (← (==_iff h i).0 same) (get_or-set_self chains h (f (chain_at chains h)) [] fits))
  | inr apart ↦ rw apart (get_or-set_ne chains h i (f (chain_at chains h)) [] (ground arith))
]

pub chain_at-push_front {ℓ} :
    {E : Type ℓ} (h i : ℕ) (e : E) (chains : List (List E))
    → h < length chains
    → chain_at (push_front h e chains) i
      ≡ (if h == i then e ∷ chain_at chains i else chain_at chains i)
unfolding push_front
chain_at-push_front h i e chains fits = chain_at-set h i (λ c. e ∷ c) chains fits

module _ {ℓ κ} {K : Type ℓ} {E : Type κ} ⦃key : Key K⦄ (key_of : E → K) where
  -- Every entry of a list in turn goes in front of its chain.
  unfoldable pub relink : ℕ → List E → List (List E) → List (List E)
  unfolding push_front
  relink size [] chains = chains
  relink size (e ∷ es) chains = relink size es (push_front (slot size (key_of e)) e chains)

  -- The entries under a key, in the order in which a walk along the list meets them.
  abbrev pub matches : K → List E → List E
  matches k = keep (λ e. key.compare k (key_of e))

  -- The entries under a key in the chain where a lookup looks.
  abbrev pub found : ℕ → K → List (List E) → List E
  found size k chains = matches k (chain_at chains (slot size k))

  -- Keys that compare equal have the same entries.
  pub matches_congr : (a b : K) (es : List E) → key.compare a b ≡ true → matches a es ≡ matches b es
  matches_congr a b [] same = refl
  matches_congr a b (e ∷ es) same =
      rw (matches_congr a b es same, compare_congr_left a b (key_of e) same) refl

  pub length-relink :
      (size : ℕ) (es : List E) (chains : List (List E))
      → length (relink size es chains) ≡ length chains
  unfolding relink
  length-relink size [] chains = refl
  length-relink size (e ∷ es) chains =
      length-relink size es (push_front (slot size (key_of e)) e chains)
      ∙ length-push_front (slot size (key_of e)) e chains

  -- An entry that is put in its own chain is found in front of the others under its key.
  pub found-push_front :
      (size : ℕ) (k : K) (e : E) (chains : List (List E))
      → length chains ≡ size
      → 0 < size
      → found size k (push_front (slot size (key_of e)) e chains)
        ≡ (if key.compare k (key_of e) then e ∷ found size k chains else found size k chains)
  found-push_front size k e chains len pos =
      let home = slot size (key_of e) in
      let fits : home < length chains = rw len (mod-lt (key.hash (key_of e)) pos) in
      rw (chain_at-push_front home (slot size k) e chains fits)
        (elim (Bool-cases (key.compare k (key_of e))) [
          | inl same ↦
              rw (same, key.hash-compare k (key_of e) same) (rw (==_refl home) (rw same refl))
          | inr apart ↦ ground arith
        ])

  -- After every entry has been put in its chain, a lookup meets the entries under its key: those
  -- of the list, turned round, and then those that were there.
  pub found-relink :
      (size : ℕ) (k : K) (es : List E) (chains : List (List E))
      → length chains ≡ size
      → 0 < size
      → found size k (relink size es chains) ≡ reverse (matches k es) ++ found size k chains
  unfolding relink
  found-relink size k [] chains len pos = refl
  found-relink size k (e ∷ es) chains len pos =
      let home = slot size (key_of e) in
      found-relink size k es (push_front home e chains) (length-push_front home e chains ∙ len) pos
      ∙ rw (found-push_front size k e chains len pos)
          (elim (Bool-cases (key.compare k (key_of e))) [
            | inl same ↦ rw same (
                rw (reverse-append (e ∷ []) (matches k es))
                  (sym (append_assoc (reverse (matches k es)) (e ∷ []) (found size k chains))))
            | inr apart ↦ rw apart refl
          ])
