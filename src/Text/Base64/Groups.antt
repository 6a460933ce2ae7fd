-- ===== src/Text/Base64/Groups.antt =====
-- A group of four digits, and the `=` signs at the end of a text (ngix_module/AIS/allais.c).
use doorhinges.Base.{
  ℕ, suc, ◌+◌, ◌-◌, ◌*◌, ◌/◌, ◌%◌, ◌≤◌, ◌<◌, ◌≡◌, refl, ap, ◌∙◌, ◌⊎◌, inl, inr, true, some, List,
  [], ◌∷◌, ◌++◌, arith, leb, ◌==◌, if◌then◌else◌, length, get_or,
}
use doorhinges.Base.{take}
use doorhinges.Text.Base64.{
  base, changed, encode_group, base64_encode, push_char, decode_group, decode_chars, is_equal,
  equal_count,
}
use doorhinges.Text.Base64.Digits.{push_char-base}

-- Every item is a byte.
abbrev pub AllBytes : List ℕ → Type 0
AllBytes [] = Unit {0}
AllBytes (b ∷ bs) = (b < 256) × AllBytes bs

-- The zero that follows the bytes if they do not fill the groups of three.
abbrev pub padding : ℕ → List ℕ
padding n = if n % 3 == 0 then [] else 0 ∷ []

-- The text without the '=' at its end.
unfoldable pub strip : List ℕ → List ℕ
strip text = take (length text - equal_count text) text

-- Four digits give the number back, and fewer its high bits.
module _ (p : ℕ) where
  two_digits :
      p < 16777216
      → push_char
          (push_char (some 0) (get_or base (p / 262144 % 64) 0))
          (get_or base (p / 4096 % 64) 0)
        ≡ some (p / 4096)
  two_digits h =
      rw (push_char-base 0 (p / 262144 % 64) (omega arith))
        (push_char-base (0 * 64 + p / 262144 % 64) (p / 4096 % 64) (omega arith) ∙ ap some value)
    where
      value : (0 * 64 + p / 262144 % 64) * 64 + p / 4096 % 64 ≡ p / 4096
      value = omega arith

  three_digits :
      p < 16777216
      → push_char
          (push_char
            (push_char (some 0) (get_or base (p / 262144 % 64) 0))
            (get_or base (p / 4096 % 64) 0))
          (get_or base (p / 64 % 64) 0)
        ≡ some (p / 64)
  three_digits h =
      rw (two_digits h) (push_char-base (p / 4096) (p / 64 % 64) (omega arith) ∙ ap some value)
    where
      value : p / 4096 * 64 + p / 64 % 64 ≡ p / 64
      value = omega arith

  four_digits :
      p < 16777216
      → push_char
          (push_char
            (push_char
              (push_char (some 0) (get_or base (p / 262144 % 64) 0))
              (get_or base (p / 4096 % 64) 0))
            (get_or base (p / 64 % 64) 0))
          (get_or base (p / 1 % 64) 0)
        ≡ some p
  four_digits h =
      rw (three_digits h) (push_char-base (p / 64) (p / 1 % 64) (omega arith) ∙ ap some value)
    where
      value : p / 64 * 64 + p / 1 % 64 ≡ p
      value = omega arith

pub decode_one :
    (a : ℕ) → a < 256 → decode_chars (take 2 (encode_group (a * 65536) 1)) ≡ some (a ∷ 0 ∷ [])
unfolding decode_chars encode_group changed decode_group
decode_one a h = rw (two_digits (a * 65536) (omega arith)) (ap some bytes)
  where
    first : a * 65536 / 4096 * 4096 / 65536 % 256 ≡ a
    first = omega arith

    second : a * 65536 / 4096 * 4096 / 256 % 256 ≡ 0
    second = omega arith

    bytes :
        (a * 65536 / 4096 * 4096 / 65536 % 256) ∷ (a * 65536 / 4096 * 4096 / 256 % 256) ∷ []
        ≡ a ∷ 0 ∷ []
    bytes = rw (first, second) refl

pub decode_two :
    (a b : ℕ)
    → a < 256
    → b < 256
    → decode_chars (take 3 (encode_group ((a * 256 + b) * 256) 2)) ≡ some (a ∷ b ∷ 0 ∷ [])
unfolding decode_chars encode_group changed decode_group
decode_two a b h k = rw (three_digits ((a * 256 + b) * 256) (omega arith)) (ap some bytes)
  where
    first : (a * 256 + b) * 256 / 64 * 64 / 65536 % 256 ≡ a
    first = omega arith

    second : (a * 256 + b) * 256 / 64 * 64 / 256 % 256 ≡ b
    second = omega arith

    third : (a * 256 + b) * 256 / 64 * 64 % 256 ≡ 0
    third = omega arith

    bytes :
        ((a * 256 + b) * 256 / 64 * 64 / 65536 % 256)
          ∷ ((a * 256 + b) * 256 / 64 * 64 / 256 % 256)
          ∷ ((a * 256 + b) * 256 / 64 * 64 % 256)
          ∷ []
        ≡ a ∷ b ∷ 0 ∷ []
    bytes = rw (first, second, third) refl

pub decode_three :
    (a b c : ℕ) (rest : List ℕ) (out : List ℕ)
    → a < 256
    → b < 256
    → c < 256
    → decode_chars rest ≡ some out
    → decode_chars (encode_group ((a * 256 + b) * 256 + c) 3 ++ rest) ≡ some (a ∷ b ∷ c ∷ out)
unfolding decode_chars encode_group changed decode_group
decode_three a b c rest out h k l e =
    rw (four_digits ((a * 256 + b) * 256 + c) (omega arith), e) (ap some bytes)
  where
    first : ((a * 256 + b) * 256 + c) / 65536 % 256 ≡ a
    first = omega arith

    second : ((a * 256 + b) * 256 + c) / 256 % 256 ≡ b
    second = omega arith

    third : ((a * 256 + b) * 256 + c) % 256 ≡ c
    third = omega arith

    bytes :
        (((a * 256 + b) * 256 + c) / 65536 % 256)
          ∷ (((a * 256 + b) * 256 + c) / 256 % 256)
          ∷ (((a * 256 + b) * 256 + c) % 256)
          ∷ out
        ≡ a ∷ b ∷ c ∷ out
    bytes = rw (first, second, third) refl

-- An encoded text is empty or has at least four characters.
pub length-base64_encode : (bs : List ℕ) → (base64_encode bs ≡ []) ⊎ (4 ≤ length (base64_encode bs))
unfolding base64_encode encode_group
length-base64_encode [] = inl refl
length-base64_encode (a ∷ []) = inr (omega arith)
length-base64_encode (a ∷ b ∷ []) = inr (omega arith)
length-base64_encode (a ∷ b ∷ c ∷ ds) = inr (omega arith)

-- A group in front of others has no '=' that counts.
module _ (w x y z : ℕ) (rest : List ℕ) where
  is_equal-front :
      (k : ℕ) → 1 ≤ k → k ≤ length rest → is_equal (w ∷ x ∷ y ∷ z ∷ rest) k ≡ is_equal rest k
  is_equal-front k some_k h =
      let at : suc (suc (suc (suc (length rest)))) - k ≡ suc (suc (suc (suc (length rest - k)))) =
        omega arith in
      let in_front : leb k (suc (suc (suc (suc (length rest))))) ≡ true = ground arith in
      let inside : leb k (length rest) ≡ true = ground arith in rw (in_front, inside, at) refl

  pub strip-front : 4 ≤ length rest → strip (w ∷ x ∷ y ∷ z ∷ rest) ≡ w ∷ x ∷ y ∷ z ∷ strip rest
  unfolding strip equal_count
  strip-front h =
      let few : is_equal rest 1 + is_equal rest 2 + is_equal rest 3 ≤ 3 = ground arith in
      let less : suc (suc (suc (suc (length rest))))
            - (is_equal rest 1 + is_equal rest 2 + is_equal rest 3)
          ≡ suc (
              suc
                (suc (suc (length rest - (is_equal rest 1 + is_equal rest 2 + is_equal rest 3))))) =
        omega arith in
      rw
        (
          is_equal-front 1 (omega arith) (omega arith),
          is_equal-front 2 (omega arith) (omega arith),
          is_equal-front 3 (omega arith) (omega arith),
          less,
        )
        refl
