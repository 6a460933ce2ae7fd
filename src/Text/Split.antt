-- ===== src/Text/Split.antt =====
-- `split` in ngix_module/AIS/allais.c.
use doorhinges.Base.{
  ℕ, zero, suc, ◌+◌, ◌≤◌, ◌<◌, ◌≡◌, refl, sym, ap, subst, ◌∙◌, false, Option, none, some, List, [],
  ◌∷◌, ◌++◌, arith, length, drop, ◌==◌, if◌then◌else◌, Bool-cases, Option-cases, inl, inr, ==_iff,
}
use doorhinges.Base.{take}

-- `strchr(text, n)`, as an offset; `n` is not the zero at the end.
abbrev pub strchr : List ℕ → ℕ → Option ℕ
strchr [] n = none
strchr (c ∷ cs) n =
    let rest = strchr cs n in
    if c == n then some 0 else elim rest [ none ↦ none | some i ↦ some (suc i) ]

-- The loop of `split`: what is put into `dest`.
pub split_from : ℕ → List ℕ → ℕ → List (List ℕ)
split_from zero ptr n = []
split_from (suc fuel) ptr n = elim (strchr ptr n) [
  | some i ↦ take i ptr ∷ split_from fuel (drop (suc i) ptr) n
  | none ↦ ptr ∷ []
]

-- `split`, which returns the number of the parts; a part has at least the character that ends it.
pub split : List ℕ → ℕ → List (List ℕ)
split str n = split_from (length str + 1) str n

-- The parts with the separator between them.
abbrev pub join : ℕ → List (List ℕ) → List ℕ
join n [] = []
join n (p ∷ []) = p
join n (p ∷ q ∷ ps) = p ++ n ∷ join n (q ∷ ps)

abbrev pub count : ℕ → List ℕ → ℕ
count n [] = 0
count n (c ∷ cs) = if c == n then suc (count n cs) else count n cs

-- No part has a separator.
abbrev pub AllFree : ℕ → List (List ℕ) → Type 0
AllFree n [] = Unit {0}
AllFree n (p ∷ ps) = (strchr p n ≡ none) × AllFree n ps

-- What the result of `strchr` says of a text.
Found : List ℕ → ℕ → Option ℕ → Type 0
Found cs n none = (strchr cs n ≡ none) × (count n cs ≡ 0)
Found cs n (some i) =
    (take i cs ++ n ∷ drop (suc i) cs ≡ cs)
    × (strchr (take i cs) n ≡ none)
    × (count n cs ≡ suc (count n (drop (suc i) cs)))
    × (length (drop (suc i) cs) < length cs)

Found-cons :
    (c : ℕ) (cs : List ℕ) (n : ℕ) (r : Option ℕ)
    → (c == n) ≡ false
    → Found cs n r
    → Found (c ∷ cs) n (elim r [ none ↦ none | some i ↦ some (suc i) ])
unfolding Found
Found-cons c cs n none h f = (rw (h, f.0) refl, rw h f.1)
Found-cons c cs n (some i) h (same, free, counted, less) =
    (ap (λ l. c ∷ l) same, rw (h, free) refl, rw h counted, omega arith)

strchr-Found : (cs : List ℕ) (n : ℕ) → Found cs n (strchr cs n)
unfolding Found
strchr-Found [] n = (refl, refl)
strchr-Found (c ∷ cs) n = elim (Bool-cases (c == n)) [
  | inl here ↦
      rw here (ap (λ k. k ∷ cs) (sym ((==_iff c n).0 here)), refl, rw here refl, omega arith)
  | inr later ↦ rw later (Found-cons c cs n (strchr cs n) later (strchr-Found cs n))
]

join-cons :
    (n : ℕ) (p : List ℕ) (ps : List (List ℕ)) → 1 ≤ length ps → join n (p ∷ ps) ≡ p ++ n ∷ join n ps
join-cons n p [] h = absurd (omega arith)
join-cons n p (q ∷ ps) h = refl

-- What `split` promises of a text.
abbrev pub IsSplit : List ℕ → ℕ → List (List ℕ) → Type 0
IsSplit text n parts = (join n parts ≡ text) × AllFree n parts × (length parts ≡ suc (count n text))

last-IsSplit : (text : List ℕ) (n : ℕ) → Found text n none → IsSplit text n (text ∷ [])
unfolding Found
last-IsSplit text n f = (refl, (f.0, tt), omega (arith, f.1))

more-IsSplit :
    (text : List ℕ) (n i : ℕ) (parts : List (List ℕ))
    → Found text n (some i)
    → IsSplit (drop (suc i) text) n parts
    → IsSplit text n (take i text ∷ parts)
unfolding Found
more-IsSplit text n i parts (same, free, counted, less) (joined, all_free, number) = (
  join-cons n (take i text) parts (omega arith) ∙ ap (λ l. take i text ++ n ∷ l) joined ∙ same,
  (free, all_free),
  omega arith,
)

Found-less :
    (text : List ℕ) (n i : ℕ) → Found text n (some i) → length (drop (suc i) text) < length text
unfolding Found
Found-less text n i f = f.3

split_from-IsSplit :
    (fuel : ℕ) (text : List ℕ) (n : ℕ)
    → length text < fuel
    → IsSplit text n (split_from fuel text n)
unfolding split_from
split_from-IsSplit zero text n h = absurd (omega arith)
split_from-IsSplit (suc fuel) text n h = elim (Option-cases (strchr text n)) [
  | inl last ↦
      rw (last, split_from) (last-IsSplit text n (subst (Found text n) last (strchr-Found text n)))
  | inr (i, more) ↦
      let f = subst (Found text n) more (strchr-Found text n) in
      rw (more, split_from)
        (more-IsSplit text n i (split_from fuel (drop (suc i) text) n) f
          (split_from-IsSplit fuel (drop (suc i) text) n (omega (arith, Found-less text n i f))))
]

-- `split` of a text: the parts with the separator between them are the text, no part has it, and
-- there is a part more than there are separators.
pub split_lem : (text : List ℕ) (n : ℕ) → IsSplit text n (split text n)
unfolding split
split_lem text n = split_from-IsSplit (length text + 1) text n (omega arith)
