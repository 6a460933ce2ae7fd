-- ===== src/Text/Query/Decode.antt =====
-- `url_decode` undoes `url_encode`.
use doorhinges.Base.{
  ℕ, suc, ◌+◌, ◌-◌, ◌*◌, ◌/◌, ◌%◌, ◌^◌, ◌≤◌, ◌<◌, ◌≡◌, refl, ap, ap₂, ◌∙◌, Bool, true, false, ◌||◌,
  List, [], ◌∷◌, ◌++◌, arith, ltb, leb, ◌==◌, length, Bool-cases, inl, inr,
}
use doorhinges.Text.Compare.{tolower}
use doorhinges.Text.Url.{is_escaped, hex, encode_from, url_encode, AllChars}
use doorhinges.Text.Query.{is_xdigit, hextoi, plain_char, decode_from, url_decode}

hextoi-hex : (d : ℕ) → d < 16 → hextoi (tolower (hex d)) ≡ d
unfolding hex
hextoi-hex d h = ground arith

is_xdigit-hex : (d : ℕ) → d < 16 → is_xdigit (hex d) ≡ true
unfolding hex
is_xdigit-hex d h = ground arith

-- What is not escaped is decoded as it is.
plain_char-kept :
    (commas form : Bool) (c : ℕ)
    → is_escaped true c ≡ false
    → (plain_char commas form c ≡ c) × ((c == 37) ≡ false)
unfolding is_escaped
plain_char-kept commas form c h = (ground arith, ground arith)

module _ (commas form : Bool) where
  decode_escape :
      (c k room : ℕ) (rest : List ℕ)
      → c < 256
      → 1 ≤ room
      → decode_from commas form (suc (suc (suc k))) room (37 ∷ hex (c / 16) ∷ hex (c % 16) ∷ rest)
        ≡ c ∷ decode_from commas form k (room - 1) rest
  unfolding decode_from
  decode_escape c k room rest h some_room =
      let full : (suc (suc (suc k)) == 0 || room == 0) ≡ false = ground arith in
      rw
        (
          full,
          is_xdigit-hex (c / 16) (omega arith),
          is_xdigit-hex (c % 16) (omega arith),
          hextoi-hex (c / 16) (omega arith),
          hextoi-hex (c % 16) (omega arith),
        )
        (ap₂ (λ b n. b ∷ decode_from commas form n (room - 1) rest) whole three)
    where
      whole : c / 16 * 16 + c % 16 ≡ c
      whole = omega arith

      three : suc (suc (suc k)) - 3 ≡ k
      three = omega arith

  decode_nothing : (room : ℕ) (cs : List ℕ) → decode_from commas form 0 room cs ≡ []
  unfolding decode_from
  decode_nothing room [] = refl
  decode_nothing room (c ∷ []) = refl
  decode_nothing room (c ∷ h ∷ []) = refl
  decode_nothing room (c ∷ h ∷ l ∷ rest) = refl

  one : (k : ℕ) → suc k - 1 ≡ k
  one k = omega arith

  decode_plain :
      (c k room : ℕ) (rest : List ℕ)
      → is_escaped true c ≡ false
      → 1 ≤ room
      → decode_from commas form (suc k) room (c ∷ rest)
        ≡ c ∷ decode_from commas form k (room - 1) rest
  unfolding decode_from
  decode_plain c k room [] h some_room =
      let full : (suc k == 0 || room == 0) ≡ false = ground arith in
      rw (full, (plain_char-kept commas form c h).0) refl
  decode_plain c k room (d ∷ []) h some_room =
      let full : (suc k == 0 || room == 0) ≡ false = ground arith in
      rw (full, (plain_char-kept commas form c h).0)
        (ap (λ n. c ∷ decode_from commas form n (room - 1) (d ∷ [])) (one k))
  decode_plain c k room (d ∷ e ∷ rest) h some_room =
      let full : (suc k == 0 || room == 0) ≡ false = ground arith in
      rw (full, (plain_char-kept commas form c h).1, (plain_char-kept commas form c h).0)
        (ap (λ n. c ∷ decode_from commas form n (room - 1) (d ∷ e ∷ rest)) (one k))

  -- A text that `url_encode` has written whole, with anything behind it.
  decode_from-encode_from :
      (buflen out room : ℕ) (cs tail : List ℕ)
      → AllChars cs
      → out + 3 * length cs + 1 ≤ buflen
      → length cs ≤ room
      → let text = encode_from buflen true out cs in
        decode_from commas form (length text) room (text ++ tail) ≡ cs
  unfolding encode_from
  decode_from-encode_from buflen out room [] tail a fits space = decode_nothing room tail
  decode_from-encode_from buflen out room (c ∷ cs) tail a fits space =
      let near_end : ltb out (buflen - 1) ≡ true = ground arith in
      elim (Bool-cases (is_escaped true c)) [
        | inl esc ↦
            let cut : leb (buflen - 3) out ≡ false = ground arith in
            let text = encode_from buflen true (out + 3) cs in
            rw (near_end, esc, cut)
              (decode_escape c (length text) room (text ++ tail) a.0 (omega arith)
                ∙ ap (λ l. c ∷ l)
                    (decode_from-encode_from buflen (out + 3) (room - 1) cs tail a.1 (omega arith)
                      (omega arith)))
        | inr plain ↦
            let text = encode_from buflen true (out + 1) cs in
            rw (near_end, plain)
              (decode_plain c (length text) room (text ++ tail) plain (omega arith)
                ∙ ap (λ l. c ∷ l)
                    (decode_from-encode_from buflen (out + 1) (room - 1) cs tail a.1 (omega arith)
                      (omega arith)))
      ]

-- `url_decode`, and `url_decode1`, of what `url_encode` writes with its flag set into a buffer of more
-- than three bytes for each character: the string, where `dst` has room for it and its zero, whatever
-- lies behind it.
pub url_decode-url_encode :
    (commas form : Bool) (string tail : List ℕ) (buflen dst_len : ℕ)
    → AllChars string
    → 3 * length string < buflen
    → length string < dst_len
    → dst_len < 2 ^ 64
    → let text = url_encode string buflen true in
      url_decode commas (text ++ tail) (length text) dst_len form ≡ string
unfolding url_decode url_encode
url_decode-url_encode commas form string tail buflen dst_len a fits space small =
    decode_from-encode_from commas form buflen 0 ((dst_len + 2 ^ 64 - 1) % 2 ^ 64) string tail a
      (omega arith) (omega arith)
