-- ===== src/Text/Query/Find.antt =====
-- The loop of `ais_get_var` at the start of a parameter and behind it.
use doorhinges.Base.{
  ℕ, zero, suc, ◌+◌, ◌-◌, ◌≤◌, ◌<◌, ◌≡◌, ◌≢◌, refl, sym, ap, ap₂, lt→ltb, ◌∙◌, Bool, true, false,
  ◌&&◌, none, List, [], ◌∷◌, ◌++◌, arith, ltb, ◌==◌, length, drop, get_or, Bool-cases, inl, inr,
}
use doorhinges.Text.Compare.{ais_strcasecmp_eq, ais_strncasecmp_eq}
use doorhinges.Text.Query.{value_length, take_value, get_var_from}

-- A text without a character.
abbrev pub IsFree : ℕ → List ℕ → Type 0
IsFree b [] = Unit {0}
IsFree b (c ∷ cs) = (c ≢ b) × IsFree b cs

pub IsFree-append : (b : ℕ) (cs ds : List ℕ) → IsFree b cs → IsFree b ds → IsFree b (cs ++ ds)
IsFree-append b [] ds f g = g
IsFree-append b (c ∷ cs) ds f g = (f.0, IsFree-append b cs ds f.1 g)

drop-past : (k v : List ℕ) → drop (suc (length k)) (k ++ 61 ∷ v) ≡ v
drop-past [] v = refl
drop-past (c ∷ k) v = drop-past k v

-- The test of `ais_get_var` at the start of a parameter is that of the whole name.
match_lem :
    (name k more : List ℕ)
    → IsFree 61 name
    → IsFree 61 k
    → (get_or (k ++ 61 ∷ more) (length name) 0 == 61
        && ais_strncasecmp_eq name (k ++ 61 ∷ more) (length name))
      ≡ ais_strcasecmp_eq name k
unfolding ais_strncasecmp_eq ais_strcasecmp_eq
match_lem [] [] more f g = refl
match_lem [] (b ∷ k) more f g = ground (arith, g.0)
match_lem (a ∷ name) [] more f g = ground (arith, f.0)
match_lem (a ∷ name) (b ∷ k) more f g = ground (arith, match_lem name k more f.1 g.1)

pub length-match : (name k : List ℕ) → ais_strcasecmp_eq name k ≡ true → length name ≡ length k
unfolding ais_strcasecmp_eq
length-match [] [] h = refl
length-match [] (b ∷ k) h = cc
length-match (a ∷ name) [] h = cc
length-match (a ∷ name) (b ∷ k) h = ground (arith, length-match name k)

pub value_length-end :
    (v more : List ℕ) → IsFree 38 v → value_length (length v) (v ++ more) ≡ length v
unfolding value_length
value_length-end [] more f = refl
value_length-end (c ∷ v) more f = ground (arith, f.0, value_length-end v more f.1)

pub value_length-next :
    (v more : List ℕ) (n : ℕ)
    → IsFree 38 v
    → length v < n
    → value_length n (v ++ 38 ∷ more) ≡ length v
unfolding value_length
value_length-next v more zero f h = absurd (omega arith)
value_length-next [] more (suc n) f h = refl
value_length-next (c ∷ v) more (suc n) f h =
    ground (arith, f.0, value_length-next v more n f.1 (omega arith))

module _ (name : List ℕ) (dst_len : ℕ) where
  pub get_var_from_short :
      (start : Bool) (n : ℕ) (cs : List ℕ)
      → n ≤ length name
      → get_var_from name dst_len start n cs ≡ none
  unfolding get_var_from
  get_var_from_short start n [] h = refl
  get_var_from_short start n (c ∷ cs) h = ground arith

  -- Behind the start of a parameter, up to the next one.
  pub get_var_from_skip :
      (cs more : List ℕ) (n : ℕ)
      → IsFree 38 cs
      → length cs < n
      → get_var_from name dst_len false n (cs ++ 38 ∷ more)
        ≡ get_var_from name dst_len true (n - suc (length cs)) more
  unfolding get_var_from
  get_var_from_skip [] more n f h = elim (Bool-cases (ltb (length name) n)) [
    | inl long ↦ rw long refl
    | inr short ↦ rw short (sym (get_var_from_short true (n - 1) more (ground arith)))
  ]
  get_var_from_skip (c ∷ cs) more n f h =
      let other : (c == 38) ≡ false = ground (arith, f.0) in
      let left : n - 1 - suc (length cs) ≡ n - suc (suc (length cs)) = omega arith in
      elim (Bool-cases (ltb (length name) n)) [
        | inl long ↦
            rw (long, other)
              (get_var_from_skip cs more (n - 1) f.1 (omega arith)
                ∙ ap (λ m. get_var_from name dst_len true m more) left)
        | inr short ↦
            rw short (sym (get_var_from_short true (n - suc (suc (length cs))) more (ground arith)))
      ]

  pub get_var_from_last :
      (cs more : List ℕ)
      → IsFree 38 cs
      → get_var_from name dst_len false (length cs) (cs ++ more) ≡ none
  unfolding get_var_from
  get_var_from_last [] more f = get_var_from_short false 0 more (omega arith)
  get_var_from_last (c ∷ cs) more f =
      let other : (c == 38) ≡ false = ground (arith, f.0) in
      let left : suc (length cs) - 1 ≡ length cs = omega arith in
      elim (Bool-cases (ltb (length name) (suc (length cs)))) [
        | inl long ↦ rw (long, other, left) (get_var_from_last cs more f.1)
        | inr short ↦ rw short refl
      ]

  -- A place where a parameter starts whose name is another is like any other place.
  pub get_var_from_other :
      (k more : List ℕ) (n : ℕ)
      → IsFree 61 name
      → IsFree 61 k
      → ais_strcasecmp_eq name k ≡ false
      → get_var_from name dst_len true n (k ++ 61 ∷ more)
        ≡ get_var_from name dst_len false n (k ++ 61 ∷ more)
  unfolding get_var_from
  get_var_from_other [] more n f g e = rw (match_lem name [] more f g ∙ e) refl
  get_var_from_other (b ∷ k) more n f g e = rw (match_lem name (b ∷ k) more f g ∙ e) refl

  value_behind :
      (k v : List ℕ) (n : ℕ)
      → ais_strcasecmp_eq name k ≡ true
      → take_value name dst_len (n - (length name + 1)) (drop (length name + 1) (k ++ 61 ∷ v))
        ≡ take_value name dst_len (n - suc (length name)) v
  value_behind k v n e =
      let size : length name + 1 ≡ suc (length k) = omega (arith, length-match name k e) in
      let left : n - (length name + 1) ≡ n - suc (length name) = omega arith in
      ap₂ (take_value name dst_len) left (ap (λ i. drop i (k ++ 61 ∷ v)) size ∙ drop-past k v)

  -- A parameter whose name is the one that is looked for.
  pub get_var_from_match :
      (k v : List ℕ) (n : ℕ)
      → IsFree 61 name
      → IsFree 61 k
      → ais_strcasecmp_eq name k ≡ true
      → length name < n
      → get_var_from name dst_len true n (k ++ 61 ∷ v)
        ≡ take_value name dst_len (n - suc (length name)) v
  unfolding get_var_from
  get_var_from_match [] v n f g e h =
      rw (lt→ltb (length name) n h, match_lem name [] v f g ∙ e) (value_behind [] v n e)
  get_var_from_match (b ∷ k) v n f g e h =
      rw (lt→ltb (length name) n h, match_lem name (b ∷ k) v f g ∙ e) (value_behind (b ∷ k) v n e)
