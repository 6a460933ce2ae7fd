-- ===== src/Bytes.antt =====
-- C strings as the lists of their bytes up to the terminating zero, and what <string.h> does.
use doorhinges.Base.{
  ℕ, ◌+◌, ◌-◌, ◌^◌, ◌≡◌, refl, Bool, true, false, ◌&&◌, List, [], ◌∷◌, arith, ltb, ◌==◌,
  if◌then◌else◌, ==_refl,
}

-- A byte as `*str` promotes it in `unsigned long` arithmetic.
abbrev pub char_value : ℕ → ℕ
char_value c = if ltb c 128 then c else c + 2 ^ 64 - 256

-- `strcmp(a, b) == 0`
unfoldable pub strcmp_eq : List ℕ → List ℕ → Bool
strcmp_eq [] [] = true
strcmp_eq [] (b ∷ bs) = false
strcmp_eq (a ∷ as') [] = false
strcmp_eq (a ∷ as') (b ∷ bs) = a == b && strcmp_eq as' bs

-- It is equality of strings.
pub strcmp_eq→eq : (a b : List ℕ) → strcmp_eq a b ≡ true → a ≡ b
unfolding strcmp_eq
strcmp_eq→eq [] [] h = refl
strcmp_eq→eq [] (b ∷ bs) h = cc
strcmp_eq→eq (a ∷ as') [] h = cc
strcmp_eq→eq (a ∷ as') (b ∷ bs) h = ground (arith, strcmp_eq→eq as' bs)

pub strcmp_eq_refl : (a : List ℕ) → strcmp_eq a a ≡ true
unfolding strcmp_eq
strcmp_eq_refl [] = refl
strcmp_eq_refl (a ∷ as') = rw (==_refl a) (strcmp_eq_refl as')

pub strcmp_eq_symm : (a b : List ℕ) → strcmp_eq a b ≡ strcmp_eq b a
unfolding strcmp_eq
strcmp_eq_symm [] [] = refl
strcmp_eq_symm [] (b ∷ bs) = refl
strcmp_eq_symm (a ∷ as') [] = refl
strcmp_eq_symm (a ∷ as') (b ∷ bs) = ground (arith, strcmp_eq_symm as' bs)

pub strcmp_eq_trans :
    (a b c : List ℕ) → strcmp_eq a b ≡ true → strcmp_eq b c ≡ true → strcmp_eq a c ≡ true
strcmp_eq_trans a b c h k = rw (strcmp_eq→eq a b h) k
