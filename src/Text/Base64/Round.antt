-- ===== src/Text/Base64/Round.antt =====
-- What `base64_decode` makes of what `base64_encode` makes.
use doorhinges.Base.{
  ℕ, suc, ◌+◌, ◌-◌, ◌*◌, ◌/◌, ◌%◌, ◌≤◌, ◌≡◌, refl, sym, ap, ◌∙◌, ◌⊎◌, inl, inr, some, List, [], ◌∷◌,
  ◌++◌, arith, ◌==◌, if◌then◌else◌, length, get_or, append-nil, Bool-cases,
}
use doorhinges.Base.{take}
use doorhinges.Text.Base64.{
  base, changed, encode_group, base64_encode, decode_chars, is_equal, equal_count, base64_decode,
}
use doorhinges.Text.Base64.Digits.{find_pos-base}
use doorhinges.Text.Base64.Groups.{
  AllBytes, padding, strip, decode_one, decode_two, decode_three, length-base64_encode, strip-front,
}

-- A single group, of which the last characters may be '='.
strip_one :
    (w x y z : ℕ) (e : ℕ)
    → is_equal (w ∷ x ∷ y ∷ z ∷ []) 1
        + is_equal (w ∷ x ∷ y ∷ z ∷ []) 2
        + is_equal (w ∷ x ∷ y ∷ z ∷ []) 3
      ≡ e
    → strip (w ∷ x ∷ y ∷ z ∷ []) ≡ take (4 - e) (w ∷ x ∷ y ∷ z ∷ [])
unfolding strip equal_count
strip_one w x y z e h = ap (λ k. take (4 - k) (w ∷ x ∷ y ∷ z ∷ [])) h

-- The groups that are full, and those that are not.
strip_three : (p : ℕ) → strip (encode_group p 3) ≡ encode_group p 3
unfolding encode_group changed
strip_three p =
    strip_one (get_or base (p / 262144 % 64) 0) (get_or base (p / 4096 % 64) 0)
      (get_or base (p / 64 % 64) 0) (get_or base (p / 1 % 64) 0) 0
      (rw
        (
          (find_pos-base (p / 1 % 64) (omega arith)).1,
          (find_pos-base (p / 64 % 64) (omega arith)).1,
          (find_pos-base (p / 4096 % 64) (omega arith)).1,
        )
        refl)

strip_two : (p : ℕ) → strip (encode_group p 2) ≡ take 3 (encode_group p 2)
unfolding encode_group changed
strip_two p =
    strip_one (get_or base (p / 262144 % 64) 0) (get_or base (p / 4096 % 64) 0)
      (get_or base (p / 64 % 64) 0) 61 1
      (rw
        (
          (find_pos-base (p / 64 % 64) (omega arith)).1,
          (find_pos-base (p / 4096 % 64) (omega arith)).1,
        )
        refl)

strip_single : (p : ℕ) → strip (encode_group p 1) ≡ take 2 (encode_group p 1)
unfolding encode_group changed
strip_single p =
    strip_one (get_or base (p / 262144 % 64) 0) (get_or base (p / 4096 % 64) 0) 61 61 2
      (rw ((find_pos-base (p / 4096 % 64) (omega arith)).1) refl)

strip_more :
    (p : ℕ) (rest : List ℕ)
    → 4 ≤ length rest
    → strip (encode_group p 3 ++ rest) ≡ encode_group p 3 ++ strip rest
unfolding encode_group
strip_more p rest h =
    strip-front (get_or base (changed p 3 0) 0) (get_or base (changed p 3 1) 0)
      (get_or base (changed p 3 2) 0) (get_or base (changed p 3 3) 0) rest h

padding_three : (n : ℕ) → padding (suc (suc (suc n))) ≡ padding n
padding_three n = ap (λ k. if k == 0 then [] else 0 ∷ []) same
  where
    same : suc (suc (suc n)) % 3 ≡ n % 3
    same = omega arith

strip_nothing : decode_chars (strip []) ≡ some []
unfolding strip equal_count decode_chars
strip_nothing = refl

no_text : strip [] ≡ []
unfolding strip equal_count
no_text = refl

strip_group :
    (p : ℕ) (rest : List ℕ)
    → (rest ≡ []) ⊎ (4 ≤ length rest)
    → strip (encode_group p 3 ++ rest) ≡ encode_group p 3 ++ strip rest
strip_group p rest (inr more) = strip_more p rest more
strip_group p rest (inl nothing) =
    rw nothing (ap strip (append-nil (encode_group p 3)) ∙ strip_three p ∙ sym behind)
  where
    behind : encode_group p 3 ++ strip [] ≡ encode_group p 3
    behind = ap (λ l. encode_group p 3 ++ l) no_text ∙ append-nil (encode_group p 3)

decode-strip :
    (bs : List ℕ)
    → AllBytes bs
    → decode_chars (strip (base64_encode bs)) ≡ some (bs ++ padding (length bs))
unfolding base64_encode
decode-strip [] h = strip_nothing
decode-strip (a ∷ []) h = rw (strip_single (a * 65536)) (decode_one a h.0)
decode-strip (a ∷ b ∷ []) h = rw (strip_two ((a * 256 + b) * 256)) (decode_two a b h.0 h.1.0)
decode-strip (a ∷ b ∷ c ∷ ds) h =
    rw
      (
        strip_group ((a * 256 + b) * 256 + c) (base64_encode ds) (length-base64_encode ds),
        padding_three (length ds),
      )
      (decode_three a b c (strip (base64_encode ds)) (ds ++ padding (length ds)) h.0 h.1.0 h.1.1.0
        (decode-strip ds h.1.1.1))

-- The text up to the first zero, as the callers see it.
abbrev pub c_string : List ℕ → List ℕ
c_string [] = []
c_string (b ∷ bs) = if b == 0 then [] else b ∷ c_string bs

c_string-padding : (bs : List ℕ) (n : ℕ) → c_string (bs ++ padding n) ≡ c_string bs
c_string-padding [] n = elim (Bool-cases (n % 3 == 0)) [
  | inl full ↦ rw full refl
  | inr part ↦ rw part refl
]
c_string-padding (b ∷ bs) n = ap (λ l. if b == 0 then [] else b ∷ l) (c_string-padding bs n)

-- `base64_decode` of what `base64_encode` makes of bytes, zeros among them or not: the bytes, and a
-- zero behind them if their number is not a multiple of three. Up to the first zero of it that is what
-- the bytes are up to their first zero.
pub base64_decode-encode :
    (bs : List ℕ)
    → AllBytes bs
    → (out : List ℕ) × (base64_decode (base64_encode bs) ≡ some out)
      × (out ≡ bs ++ padding (length bs))
      × (c_string out ≡ c_string bs)
unfolding base64_decode strip
base64_decode-encode bs h =
    (bs ++ padding (length bs), decode-strip bs h, refl, c_string-padding bs (length bs))

-- What `base64_encode` makes has four characters for every three bytes, or a part of them.
pub length-encode : (bs : List ℕ) → length (base64_encode bs) ≡ (length bs + 2) / 3 * 4
unfolding base64_encode encode_group
length-encode [] = omega arith
length-encode (a ∷ []) = omega arith
length-encode (a ∷ b ∷ []) = omega arith
length-encode (a ∷ b ∷ c ∷ ds) = omega (arith, length-encode ds)
