-- ===== src/Text/Query.antt =====
-- `url_decode`, `url_decode1` and `ais_get_var` in ngix_module/AIS/allais.c, which find a parameter in
-- a query string.
--
-- A pointer into the query string is the list of the bytes from there on; what lies behind the
-- buffer is part of it, since the decoding looks at two bytes behind a '%'.
pub mod Decode
pub mod Find
pub mod Params
use doorhinges.Base.{
  ℕ, zero, suc, ◌+◌, ◌-◌, ◌*◌, ◌%◌, ◌^◌, Bool, true, false, ◌&&◌, ◌||◌, Option, none, some, List,
  [], ◌∷◌, ltb, leb, ◌==◌, if◌then◌else◌, length, drop, get_or,
}
use doorhinges.Base.{take}
use doorhinges.Text.Compare.{tolower, ais_strncasecmp_eq}

-- `isxdigit` in the locale of C.
abbrev pub is_xdigit : ℕ → Bool
is_xdigit c = (leb 48 c && leb c 57) || (leb 65 c && leb c 70) || (leb 97 c && leb c 102)

-- `HEXTOI` of a small letter or a digit.
abbrev pub hextoi : ℕ → ℕ
hextoi x = if leb 48 x && leb x 57 then x - 48 else x - 87

-- A byte that is not decoded as two digits: '+' is a space, and so is ',' in `url_decode1`.
abbrev pub plain_char : Bool → Bool → ℕ → ℕ
plain_char commas form c = if form && c == 43 then 32 else if commas && c == 44 then 32 else c

-- The loop of both functions, with `n` bytes of the source left and room for `room` bytes.
pub decode_from : Bool → Bool → ℕ → ℕ → List ℕ → List ℕ
decode_from commas form n room [] = []
decode_from commas form n room (c ∷ []) =
    if n == 0 || room == 0 then [] else plain_char commas form c ∷ []
decode_from commas form n room (c ∷ h ∷ []) =
    let next = decode_from commas form (n - 1) (room - 1) (h ∷ []) in
    if n == 0 || room == 0 then [] else plain_char commas form c ∷ next
decode_from commas form n room (c ∷ h ∷ l ∷ rest) =
    let next = decode_from commas form (n - 1) (room - 1) (h ∷ l ∷ rest) in
    let behind = decode_from commas form (n - 3) (room - 1) rest in
    if n == 0 || room == 0
    then []
    else if c == 37 && is_xdigit h && is_xdigit l
    then (hextoi (tolower h) * 16 + hextoi (tolower l)) ∷ behind
    else plain_char commas form c ∷ next

-- `url_decode`, and with `commas` `url_decode1`: the text in `dst`.
pub url_decode : Bool → List ℕ → ℕ → ℕ → Bool → List ℕ
url_decode commas src src_len dst_len form =
    decode_from commas form src_len ((dst_len + 2 ^ 64 - 1) % 2 ^ 64) src

-- `memchr(p, '&', n)`, and `n` if there is none: the length of a value.
pub value_length : ℕ → List ℕ → ℕ
value_length zero cs = 0
value_length (suc n) [] = suc n
value_length (suc n) (c ∷ cs) = if c == 38 then 0 else suc (value_length n cs)

-- "groupby"
abbrev pub groupby : List ℕ
groupby = 103 ∷ 114 ∷ 111 ∷ 117 ∷ 112 ∷ 98 ∷ 121 ∷ []

-- What `ais_get_var` does with the value that starts at `p`, `n` bytes before the end: `none` is the
-- length -1, with an empty text in `dst`.
pub take_value : List ℕ → ℕ → ℕ → List ℕ → Option (List ℕ)
unfolding value_length url_decode
take_value name dst_len n p =
    let len = value_length n p in
    if ltb len dst_len
    then some
        (url_decode (if ais_strncasecmp_eq name groupby 7 then false else true) p len dst_len true)
    else none

-- The loop of `ais_get_var`, at a place where a parameter may start if the flag is set.
pub get_var_from : List ℕ → ℕ → Bool → ℕ → List ℕ → Option (List ℕ)
get_var_from name dst_len start n [] = none
get_var_from name dst_len start n (c ∷ cs) =
    let rest = get_var_from name dst_len (c == 38) (n - 1) cs in
    let value = take_value name dst_len (n - (length name + 1)) (drop (length name + 1) (c ∷ cs)) in
    if ltb (length name) n
    then (if start
          && get_or (c ∷ cs) (length name) 0 == 61
          && ais_strncasecmp_eq name (c ∷ cs) (length name)
        then value
        else rest)
    else none

-- `ais_get_var`
pub ais_get_var : List ℕ → ℕ → List ℕ → ℕ → Option (List ℕ)
unfolding get_var_from
ais_get_var buf buf_len name dst_len = get_var_from name dst_len true buf_len buf
