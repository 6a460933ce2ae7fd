-- ===== src/HashTable/Keys.antt =====
-- The hashes and comparisons of ngix_module/AIS/hashtable.c. A string is the list of its bytes up
-- to the terminating zero, and `char` is signed. `strcmp` and `strcasecmp` compare bytes, the
-- second after turning capital ASCII letters into small ones.
use doorhinges.Base.{
  ℕ, ◌+◌, ◌*◌, ◌%◌, ◌^◌, ◌≤◌, ◌≡◌, refl, sym, ◌∙◌, ◌≢◌, Bool, true, false, ◌&&◌, List, [], ◌∷◌,
  ◌++◌, arith, leb, ◌==◌, if◌then◌else◌, ap, ==_refl,
}
use doorhinges.Buckets.{Key}
use doorhinges.Bytes.{
  char_value, strcmp_eq, strcmp_eq_refl, strcmp_eq_symm, strcmp_eq_trans, strcmp_eq→eq,
}

-- `eg_hash_num` and `eg_num_cmp`, on the number that the key pointer holds.
unfoldable pub eg_hash_num : ℕ → ℕ
eg_hash_num k = k

unfoldable pub eg_num_cmp : ℕ → ℕ → Bool
eg_num_cmp a b = a == b

-- The loop of `eg_hash_str`.
pub hash_from : ℕ → List ℕ → ℕ
hash_from sum [] = sum
hash_from sum (c ∷ cs) = hash_from ((5 * sum + char_value c) % 2 ^ 64) cs

pub eg_hash_str : List ℕ → ℕ
unfolding hash_from
eg_hash_str s = hash_from 0 s

-- `strcmp(a, b) ? 0 : 1`
pub eg_str_cpm : List ℕ → List ℕ → Bool
eg_str_cpm a b = strcmp_eq a b

abbrev pub to_lower : ℕ → ℕ
to_lower c = if leb b'A' c && leb c b'Z' then c + 32 else c

-- `strcasecmp(a, b) == 0`
pub eg_str_case_cpm : List ℕ → List ℕ → Bool
eg_str_case_cpm [] [] = true
eg_str_case_cpm [] (b ∷ bs) = false
eg_str_case_cpm (a ∷ as') [] = false
eg_str_case_cpm (a ∷ as') (b ∷ bs) = to_lower a == to_lower b && eg_str_case_cpm as' bs

pub num_cmp_refl : (a : ℕ) → eg_num_cmp a a ≡ true
unfolding eg_num_cmp
num_cmp_refl a = ground arith

pub num_cmp_symm : (a b : ℕ) → eg_num_cmp a b ≡ eg_num_cmp b a
unfolding eg_num_cmp
num_cmp_symm a b = ground arith

pub num_cmp_trans :
    (a b c : ℕ) → eg_num_cmp a b ≡ true → eg_num_cmp b c ≡ true → eg_num_cmp a c ≡ true
unfolding eg_num_cmp
num_cmp_trans a b c h k = ground arith

pub num_hash-cmp : (a b : ℕ) → eg_num_cmp a b ≡ true → eg_hash_num a ≡ eg_hash_num b
unfolding eg_num_cmp eg_hash_num
num_hash-cmp a b h = ground arith

pub str_cpm_refl : (a : List ℕ) → eg_str_cpm a a ≡ true
unfolding eg_str_cpm
str_cpm_refl = strcmp_eq_refl

pub str_cpm_symm : (a b : List ℕ) → eg_str_cpm a b ≡ eg_str_cpm b a
unfolding eg_str_cpm
str_cpm_symm = strcmp_eq_symm

pub str_cpm_trans :
    (a b c : List ℕ) → eg_str_cpm a b ≡ true → eg_str_cpm b c ≡ true → eg_str_cpm a c ≡ true
unfolding eg_str_cpm
str_cpm_trans = strcmp_eq_trans

pub str_hash-cpm : (a b : List ℕ) → eg_str_cpm a b ≡ true → eg_hash_str a ≡ eg_hash_str b
unfolding eg_str_cpm
str_hash-cpm a b h = ap eg_hash_str (strcmp_eq→eq a b h)

-- The defaults of `eg_ht_create`.
instance abbrev pub num_key : Key ℕ
num_key = record {
  hash = eg_hash_num;
  compare = eg_num_cmp;
  compare_refl = num_cmp_refl;
  compare_symm = num_cmp_symm;
  compare_trans = num_cmp_trans;
  hash-compare = num_hash-cmp;
}

-- The case-sensitive string keys.
abbrev pub str_key : Key (List ℕ)
str_key = record {
  hash = eg_hash_str;
  compare = eg_str_cpm;
  compare_refl = str_cpm_refl;
  compare_symm = str_cpm_symm;
  compare_trans = str_cpm_trans;
  hash-compare = str_hash-cpm;
}

hash_from-append :
    (sum c : ℕ) (s : List ℕ)
    → hash_from sum (s ++ c ∷ []) ≡ (5 * hash_from sum s + char_value c) % 2 ^ 64
unfolding hash_from
hash_from-append sum c [] = refl
hash_from-append sum c (d ∷ s) = hash_from-append ((5 * sum + char_value d) % 2 ^ 64) c s

case_cpm-append :
    (s : List ℕ) (a b : ℕ)
    → to_lower a ≡ to_lower b
    → eg_str_case_cpm (s ++ a ∷ []) (s ++ b ∷ []) ≡ true
unfolding eg_str_case_cpm
case_cpm-append [] a b h = rw (h, ==_refl (to_lower b)) refl
case_cpm-append (c ∷ s) a b h = rw (==_refl (to_lower c)) (case_cpm-append s a b h)

-- `eg_hash_str` does not go with `eg_str_case_cpm`: two strings that differ in the case of their
-- last letter compare equal and have different hashes.
pub eg_hash_str-case_cpm :
    (s : List ℕ) (c : ℕ)
    → b'A' ≤ c
    → c ≤ b'Z'
    → (eg_str_case_cpm (s ++ c ∷ []) (s ++ (c + 32) ∷ []) ≡ true)
      × (eg_hash_str (s ++ c ∷ []) ≢ eg_hash_str (s ++ (c + 32) ∷ []))
unfolding eg_hash_str
eg_hash_str-case_cpm s c lo hi = (
  case_cpm-append s c (c + 32) (ground arith),
  λ same.
      letters (hash_from 0 s) (sym (hash_from-append 0 c s) ∙ same ∙ hash_from-append 0 (c + 32) s),
)
  where
    letters : (h : ℕ) → (5 * h + char_value c) % 2 ^ 64 ≡ (5 * h + char_value (c + 32)) % 2 ^ 64 → ⊥
    letters h e = ground arith
