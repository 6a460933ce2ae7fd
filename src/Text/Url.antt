-- ===== src/Text/Url.antt =====
-- `url_encode` in ngix_module/AIS/allais.c.
use doorhinges.Base.{
  ℕ, suc, ◌+◌, ◌-◌, ◌*◌, ◌/◌, ◌%◌, ◌≤◌, ◌<◌, ◌≡◌, refl, ap, ◌∙◌, Bool, true, false, not, ◌&&◌, ◌||◌,
  List, [], ◌∷◌, arith, ltb, leb, ◌==◌, if◌then◌else◌, length, Bool-cases, inl, inr,
}
use doorhinges.Base.{take}

-- `mark`: "-_.!~*'()"
abbrev pub is_mark : ℕ → Bool
is_mark c =
    c == 45 || c == 95 || c == 46 || c == 33 || c == 126 || c == 42 || c == 39 || c == 40 || c == 41

-- Whether a character is written as '%' and two digits; one from 128 on is negative.
unfoldable pub is_escaped : Bool → ℕ → Bool
is_escaped do_special_char c =
    ltb c 32
    || leb 128 c
    || c == 127
    || c == 37
    || (do_special_char
        && not ((leb 48 c && leb c 57) || (leb 65 c && leb c 90) || (leb 97 c && leb c 122))
        && not (is_mark c))

-- A digit of "%02X".
unfoldable pub hex : ℕ → ℕ
hex d = if ltb d 10 then 48 + d else 55 + d

-- The loop of `url_encode`, with `out - outbuf`: what it writes.
unfoldable pub encode_from : ℕ → Bool → ℕ → List ℕ → List ℕ
encode_from buflen special out [] = []
encode_from buflen special out (c ∷ cs) =
    let escaped = encode_from buflen special (out + 3) cs in
    let plain = encode_from buflen special (out + 1) cs in
    if ltb out (buflen - 1)
    then (if is_escaped special c
        then (if leb (buflen - 3) out then [] else 37 ∷ hex (c / 16) ∷ hex (c % 16) ∷ escaped)
        else c ∷ plain)
    else []

-- `url_encode`: the text in `outbuf`.
unfoldable pub url_encode : List ℕ → ℕ → Bool → List ℕ
url_encode string buflen do_special_char = encode_from buflen do_special_char 0 string

-- The digit that a character stands for.
abbrev pub unhex : ℕ → ℕ
unhex h = if ltb h 65 then h - 48 else h - 55

-- What a text stands for in which '%' and two digits are a character.
pub percent_decode : List ℕ → List ℕ
percent_decode [] = []
percent_decode (c ∷ []) = c ∷ []
percent_decode (c ∷ d ∷ []) = c ∷ d ∷ []
percent_decode (c ∷ h ∷ l ∷ rest) =
    let behind = percent_decode rest in
    let next = percent_decode (h ∷ l ∷ rest) in
    if c == 37 then (unhex h * 16 + unhex l) ∷ behind else c ∷ next

-- A text of characters.
abbrev pub AllChars : List ℕ → Type 0
AllChars [] = Unit {0}
AllChars (c ∷ cs) = (c < 256) × AllChars cs

unhex-hex : (d : ℕ) → d < 16 → unhex (hex d) ≡ d
unfolding hex
unhex-hex d h = ground arith

percent_decode-escape :
    (c : ℕ) (rest : List ℕ)
    → c < 256
    → percent_decode (37 ∷ hex (c / 16) ∷ hex (c % 16) ∷ rest) ≡ c ∷ percent_decode rest
unfolding percent_decode
percent_decode-escape c rest h =
    rw (unhex-hex (c / 16) (omega arith), unhex-hex (c % 16) (omega arith))
      (ap (λ k. k ∷ percent_decode rest) whole)
  where
    whole : c / 16 * 16 + c % 16 ≡ c
    whole = omega arith

percent_decode-plain :
    (c : ℕ) (rest : List ℕ)
    → (c == 37) ≡ false
    → percent_decode (c ∷ rest) ≡ c ∷ percent_decode rest
unfolding percent_decode
percent_decode-plain c [] h = refl
percent_decode-plain c (d ∷ []) h = refl
percent_decode-plain c (d ∷ e ∷ rest) h = rw h refl

plain-not_percent : (special : Bool) (c : ℕ) → is_escaped special c ≡ false → (c == 37) ≡ false
unfolding is_escaped
plain-not_percent special c h = ground arith

nothing : percent_decode [] ≡ []
unfolding percent_decode
nothing = refl

-- From any place: the text fits, and stands for the first characters.
encode_from_lem :
    (buflen : ℕ) (special : Bool) (out : ℕ) (cs : List ℕ)
    → AllChars cs
    → out + 1 ≤ buflen
    → (out + length (encode_from buflen special out cs) + 1 ≤ buflen)
      × (k : ℕ) × (percent_decode (encode_from buflen special out cs) ≡ take k cs)
unfolding encode_from
encode_from_lem buflen special out [] a h = (omega arith, 0, nothing)
encode_from_lem buflen special out (c ∷ cs) a h = elim (Bool-cases (ltb out (buflen - 1))) [
  | inl room ↦ elim (Bool-cases (is_escaped special c)) [
    | inl esc ↦ elim (Bool-cases (leb (buflen - 3) out)) [
      | inl full ↦ rw (room, esc, full) (omega arith, 0, nothing)
      | inr fits ↦
          let (bound, k, e) = encode_from_lem buflen special (out + 3) cs a.1 (ground arith) in
          rw (room, esc, fits)
            (
              omega arith,
              suc k,
              percent_decode-escape c (encode_from buflen special (out + 3) cs) a.0
                  ∙ ap (λ l. c ∷ l) e,
            )
    ]
    | inr plain ↦
        let (bound, k, e) = encode_from_lem buflen special (out + 1) cs a.1 (ground arith) in
        rw (room, plain)
          (
            omega arith,
            suc k,
            percent_decode-plain c (encode_from buflen special (out + 1) cs)
                  (plain-not_percent special c plain)
                ∙ ap (λ l. c ∷ l) e,
          )
  ]
  | inr full ↦ rw full (omega arith, 0, nothing)
]

-- With room for three characters for each, all of them.
encode_from-whole :
    (buflen : ℕ) (special : Bool) (out : ℕ) (cs : List ℕ)
    → AllChars cs
    → out + 3 * length cs + 1 ≤ buflen
    → percent_decode (encode_from buflen special out cs) ≡ cs
unfolding encode_from
encode_from-whole buflen special out [] a h = nothing
encode_from-whole buflen special out (c ∷ cs) a h =
    let room : ltb out (buflen - 1) ≡ true = ground arith in
    elim (Bool-cases (is_escaped special c)) [
      | inl esc ↦
          let fits : leb (buflen - 3) out ≡ false = ground arith in
          rw (room, esc, fits)
            (percent_decode-escape c (encode_from buflen special (out + 3) cs) a.0
              ∙ ap (λ l. c ∷ l) (encode_from-whole buflen special (out + 3) cs a.1 (omega arith)))
      | inr plain ↦
          rw (room, plain)
            (percent_decode-plain c (encode_from buflen special (out + 1) cs)
                (plain-not_percent special c plain)
              ∙ ap (λ l. c ∷ l) (encode_from-whole buflen special (out + 1) cs a.1 (omega arith)))
    ]

-- `url_encode` into a buffer of at least one byte: the text with its zero fits, and stands for the
-- first characters of the string.
pub url_encode-take :
    (string : List ℕ) (buflen : ℕ) (do_special_char : Bool)
    → AllChars string
    → 1 ≤ buflen
    → (length (url_encode string buflen do_special_char) + 1 ≤ buflen)
      × (k : ℕ) × (percent_decode (url_encode string buflen do_special_char) ≡ take k string)
unfolding url_encode
url_encode-take string buflen special a h =
    let (bound, k, e) = encode_from_lem buflen special 0 string a (omega arith) in
    (omega arith, k, e)

-- `url_encode` into a buffer of more than three bytes for each character stands for the string.
pub percent_decode-url_encode :
    (string : List ℕ) (buflen : ℕ) (do_special_char : Bool)
    → AllChars string
    → 3 * length string < buflen
    → percent_decode (url_encode string buflen do_special_char) ≡ string
unfolding url_encode
percent_decode-url_encode string buflen special a h =
    encode_from-whole buflen special 0 string a (omega arith)
