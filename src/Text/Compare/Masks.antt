-- ===== src/Text/Compare/Masks.antt =====
-- Where the names of parameters are found.
use doorhinges.Base.{
  ℕ, zero, suc, ◌<◌, ◌≡◌, refl, sym, ap, ap₂, ◌↔◌, ◌∙◌, Bool, true, false, ◌&&◌, List, [], ◌∷◌,
  arith, ◌==◌, if◌then◌else◌, map, length, get_or, Bool-cases, inl, inr, ==_iff,
}
use doorhinges.Bytes.{strcmp_eq, strcmp_eq→eq}
use doorhinges.Text.Compare.{
  tolower, ais_strcasecmp_eq, get_mask, params, params_offline, params_report, params_callback,
  ais_get_mask, ais_getoffline_mask, ais_getreport_mask, ais_getcallback_mask,
}

-- It is equality of the texts in lower case.
ais_strcasecmp_eq-strcmp_eq :
    (a b : List ℕ) → ais_strcasecmp_eq a b ≡ strcmp_eq (map tolower a) (map tolower b)
unfolding ais_strcasecmp_eq strcmp_eq
ais_strcasecmp_eq-strcmp_eq [] [] = refl
ais_strcasecmp_eq-strcmp_eq [] (b ∷ bs) = refl
ais_strcasecmp_eq-strcmp_eq (a ∷ as') [] = refl
ais_strcasecmp_eq-strcmp_eq (a ∷ as') (b ∷ bs) =
    ap (λ t. tolower a == tolower b && t) (ais_strcasecmp_eq-strcmp_eq as' bs)

get_mask_congr :
    (ps : List (List ℕ)) (a b : List ℕ)
    → map tolower a ≡ map tolower b
    → get_mask ps a ≡ get_mask ps b
unfolding get_mask
get_mask_congr [] a b h = refl
get_mask_congr (p ∷ ps) a b h =
    ap₂ (λ t k. if t then 0 else suc k)
      (ais_strcasecmp_eq-strcmp_eq p a
        ∙ ap (strcmp_eq (map tolower p)) h
        ∙ sym (ais_strcasecmp_eq-strcmp_eq p b))
      (get_mask_congr ps a b h)

-- What is found is the name that stands there.
get_mask-get_or :
    (ps : List (List ℕ)) (pp : List ℕ)
    → get_mask ps pp < length ps
    → map tolower pp ≡ map tolower (get_or ps (get_mask ps pp) [])
unfolding get_mask
get_mask-get_or [] pp h = absurd (omega arith)
get_mask-get_or (p ∷ ps) pp h = elim (Bool-cases (ais_strcasecmp_eq p pp)) [
  | inl here ↦ rw here (
      sym (
        strcmp_eq→eq (map tolower p) (map tolower pp)
          (sym (ais_strcasecmp_eq-strcmp_eq p pp) ∙ here)))
  | inr later ↦
      rw later (get_mask-get_or ps pp (still (ais_strcasecmp_eq p pp) (get_mask ps pp) later h))
]
  where
    still :
        (t : Bool) (k : ℕ) → t ≡ false → (if t then 0 else suc k) < suc (length ps) → k < length ps
    still t k off less = ground arith

-- Every name of a table is found where it stands.
all_found : List (List ℕ) → ℕ → Bool
all_found table zero = true
all_found table (suc n) =
    let rest = all_found table n in (get_mask table (get_or table n []) == n) && rest

found :
    (table : List (List ℕ)) (n i : ℕ)
    → all_found table n ≡ true
    → i < n
    → get_mask table (get_or table i []) ≡ i
unfolding all_found
found table zero i h less = absurd (omega arith)
found table (suc n) i h less = elim (Bool-cases (i == n)) [
  | inl here ↦
      rw ((==_iff i n).0 here) ((==_iff (get_mask table (get_or table n [])) n).0 (ground arith))
  | inr before ↦ found table n i (ground arith) (ground arith)
]

get_mask_iff :
    (table : List (List ℕ)) (pp : List ℕ) (i : ℕ)
    → all_found table (length table) ≡ true
    → i < length table
    → (get_mask table pp ≡ i) ↔ (map tolower pp ≡ map tolower (get_or table i []))
get_mask_iff table pp i h less = (
  λ e. get_mask-get_or table pp (omega arith) ∙ ap (λ k. map tolower (get_or table k [])) e,
  λ same. get_mask_congr table pp (get_or table i []) same ∙ found table (length table) i h less,
)

-- `ais_get_mask` returns the place of a name if and only if the text is that name, in whatever
-- case.
pub ais_get_mask_iff :
    (pp : List ℕ) (i : ℕ)
    → i < 27
    → (ais_get_mask pp ≡ i) ↔ (map tolower pp ≡ map tolower (get_or params i []))
unfolding all_found get_mask ais_strcasecmp_eq ais_get_mask
ais_get_mask_iff pp i h = get_mask_iff params pp i refl h

pub ais_getoffline_mask_iff :
    (pp : List ℕ) (i : ℕ)
    → i < 8
    → (ais_getoffline_mask pp ≡ i) ↔ (map tolower pp ≡ map tolower (get_or params_offline i []))
unfolding all_found get_mask ais_strcasecmp_eq ais_getoffline_mask
ais_getoffline_mask_iff pp i h = get_mask_iff params_offline pp i refl h

pub ais_getreport_mask_iff :
    (pp : List ℕ) (i : ℕ)
    → i < 7
    → (ais_getreport_mask pp ≡ i) ↔ (map tolower pp ≡ map tolower (get_or params_report i []))
unfolding all_found get_mask ais_strcasecmp_eq ais_getreport_mask
ais_getreport_mask_iff pp i h = get_mask_iff params_report pp i refl h

pub ais_getcallback_mask_iff :
    (pp : List ℕ) (i : ℕ)
    → i < 9
    → (ais_getcallback_mask pp ≡ i) ↔ (map tolower pp ≡ map tolower (get_or params_callback i []))
unfolding all_found get_mask ais_strcasecmp_eq ais_getcallback_mask
ais_getcallback_mask_iff pp i h = get_mask_iff params_callback pp i refl h
