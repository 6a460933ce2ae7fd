-- ===== src/Buckets/Placed.antt =====
-- Chains in which every entry stands in the chain of its key.
use mathlib.Core.List.{flatten}
use doorhinges.Base.{
  ℕ, zero, suc, ◌%◌, ◌<◌, ◌≡◌, refl, sym, ap, ◌∙◌, ◌≢◌, List, [], ◌∷◌, arith, length, replicate,
  Bool-cases, inl, inr, ◌==◌, ==_iff, get_or-replicate, keep-append, append-nil,
}
use native.Mathlib.Nat.{mod-lt}
use doorhinges.Buckets.{
  Key, slot, chain_at, push_front, relink, matches, found, chain_at-push_front, length-push_front,
}

module _ {ℓ κ} {K : Type ℓ} {E : Type κ} ⦃key : Key K⦄ (key_of : E → K) where
  -- No chain but its own has an entry under a key.
  abbrev pub IsPlaced : ℕ → List (List E) → Type (ℓ ⊔ κ)
  IsPlaced size chains =
      (k : K) (i : ℕ) → i ≢ slot size k → matches key_of k (chain_at chains i) ≡ []

  pub replicate-IsPlaced : (n size : ℕ) → IsPlaced size (replicate n [])
  replicate-IsPlaced n size k i apart = rw (get_or-replicate {A = List E} n i []) refl

  pub push_front-IsPlaced :
      (size : ℕ) (e : E) (chains : List (List E))
      → length chains ≡ size
      → 0 < size
      → IsPlaced size chains
      → IsPlaced size (push_front (slot size (key_of e)) e chains)
  push_front-IsPlaced size e chains len pos placed k i apart =
      let home = slot size (key_of e) in
      let fits : home < length chains = rw len (mod-lt (key.hash (key_of e)) pos) in
      rw (chain_at-push_front home i e chains fits) (elim (Bool-cases (home == i)) [
        | inr other ↦ rw other (placed k i apart)
        | inl here ↦ elim (Bool-cases (key.compare k (key_of e))) [
          | inl same ↦ absurd (
              apart (
                sym ((==_iff home i).0 here)
                ∙ ap (λ h. h % size) (sym (key.hash-compare k (key_of e) same))))
          | inr differs ↦ rw here (rw differs (placed k i apart))
        ]
      ])

  pub relink-IsPlaced :
      (size : ℕ) (es : List E) (chains : List (List E))
      → length chains ≡ size
      → 0 < size
      → IsPlaced size chains
      → IsPlaced size (relink key_of size es chains)
  unfolding relink
  relink-IsPlaced size [] chains len pos placed = placed
  relink-IsPlaced size (e ∷ es) chains len pos placed =
      let home = slot size (key_of e) in
      relink-IsPlaced size es (push_front home e chains) (length-push_front home e chains ∙ len) pos
        (push_front-IsPlaced size e chains len pos placed)

  matches-flatten_nil :
      (k : K) (chains : List (List E))
      → ((i : ℕ) → matches key_of k (chain_at chains i) ≡ [])
      → matches key_of k (flatten chains) ≡ []
  unfolding flatten
  matches-flatten_nil k [] none_at = refl
  matches-flatten_nil k (c ∷ cs) none_at =
      keep-append _ c (flatten cs)
      ∙ rw (none_at 0, matches-flatten_nil k cs (λ i. none_at (suc i))) refl

  -- Where one chain alone has entries under a key, all entries under it stand there.
  matches-flatten_only :
      (k : K) (j : ℕ) (chains : List (List E))
      → ((i : ℕ) → i ≢ j → matches key_of k (chain_at chains i) ≡ [])
      → matches key_of k (flatten chains) ≡ matches key_of k (chain_at chains j)
  unfolding flatten
  matches-flatten_only k j [] only = refl
  matches-flatten_only k zero (c ∷ cs) only =
      keep-append _ c (flatten cs)
      ∙ rw (matches-flatten_nil k cs (λ i. only (suc i) (omega arith))) (append-nil _)
  matches-flatten_only k (suc j) (c ∷ cs) only =
      keep-append _ c (flatten cs)
      ∙ rw (only 0 (omega arith)) (matches-flatten_only k j cs (λ i ne. only (suc i) (omega arith)))

  -- A walk over all chains meets the entries under a key as a lookup does.
  pub matches-flatten :
      (size : ℕ) (k : K) (chains : List (List E))
      → IsPlaced size chains
      → matches key_of k (flatten chains) ≡ found key_of size k chains
  matches-flatten size k chains placed = matches-flatten_only k (slot size k) chains (placed k)
