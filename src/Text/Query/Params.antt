-- ===== src/Text/Query/Params.antt =====
-- `ais_get_var` on a query string of names and encoded values.
use doorhinges.Base.{
  ℕ, suc, ◌+◌, ◌-◌, ◌*◌, ◌/◌, ◌%◌, ◌^◌, ◌≤◌, ◌<◌, ◌≡◌, ◌≢◌, refl, sym, ap, ap₂, ◌∙◌, true, false,
  Option, none, some, List, [], ◌∷◌, ◌++◌, append_assoc, arith, ltb, leb, if◌then◌else◌, length,
  length-append, Bool-cases, inl, inr, ltb→lt,
}
use doorhinges.Text.Compare.{ais_strcasecmp_eq, ais_strncasecmp_eq}
use doorhinges.Text.Url.{is_escaped, hex, encode_from, url_encode, AllChars}
use doorhinges.Text.Query.{value_length, groupby, take_value, get_var_from, ais_get_var}
use doorhinges.Text.Query.Decode.{url_decode-url_encode}
use doorhinges.Text.Query.Find.{
  IsFree, IsFree-append, length-match, value_length-end, value_length-next, get_var_from_short,
  get_var_from_skip, get_var_from_last, get_var_from_other, get_var_from_match,
}

-- Names and values as a query string, the values encoded by `url_encode`.
abbrev pub encoded : List ℕ → List ℕ
encoded v = url_encode v (3 * length v + 1) true

abbrev pub query : List (List ℕ × List ℕ) → List ℕ
query [] = []
query ((k, v) ∷ []) = k ++ 61 ∷ encoded v
query ((k, v) ∷ p ∷ ps) = (k ++ 61 ∷ encoded v) ++ 38 ∷ query (p ∷ ps)

-- The names have neither '&' nor '=', and the values are of bytes.
abbrev pub AreParams : List (List ℕ × List ℕ) → Type 0
AreParams [] = Unit {0}
AreParams ((k, v) ∷ ps) = (IsFree 38 k × IsFree 61 k × AllChars v) × AreParams ps

-- The first value whose name compares equal without case, if it fits when it is encoded.
abbrev pub first_value : List ℕ → ℕ → List (List ℕ × List ℕ) → Option (List ℕ)
first_value name dst_len [] = none
first_value name dst_len ((k, v) ∷ ps) =
    let rest = first_value name dst_len ps in
    if ais_strcasecmp_eq name k
    then (if ltb (length (encoded v)) dst_len then some v else none)
    else rest

plain-ne-and : (c : ℕ) → is_escaped true c ≡ false → c ≢ 38
unfolding is_escaped
plain-ne-and c h = ground arith

hex-ne-and : (d : ℕ) → d < 16 → hex d ≢ 38
unfolding hex
hex-ne-and d h = ground arith

encode_from-IsFree :
    (buflen out : ℕ) (cs : List ℕ) → AllChars cs → IsFree 38 (encode_from buflen true out cs)
unfolding encode_from
encode_from-IsFree buflen out [] a = tt
encode_from-IsFree buflen out (c ∷ cs) a =
    let far = encode_from-IsFree buflen (out + 3) cs a.1 in
    let near = encode_from-IsFree buflen (out + 1) cs a.1 in
    elim (Bool-cases (ltb out (buflen - 1))) [
      | inr end ↦ rw end tt
      | inl room ↦ elim (Bool-cases (is_escaped true c)) [
        | inr plain ↦ rw (room, plain) (plain-ne-and c plain, near)
        | inl esc ↦ elim (Bool-cases (leb (buflen - 3) out)) [
          | inl cut ↦ rw (room, esc, cut) tt
          | inr fits ↦
              rw (room, esc, fits)
                (
                  omega arith,
                  (hex-ne-and (c / 16) (omega arith), (hex-ne-and (c % 16) (omega arith), far)),
                )
        ]
      ]
    ]

length-encode_from :
    (buflen out : ℕ) (cs : List ℕ)
    → out + 3 * length cs + 1 ≤ buflen
    → length cs ≤ length (encode_from buflen true out cs)
unfolding encode_from
length-encode_from buflen out [] h = omega arith
length-encode_from buflen out (c ∷ cs) h =
    let far = length-encode_from buflen (out + 3) cs (omega arith) in
    let near = length-encode_from buflen (out + 1) cs (omega arith) in
    let room : ltb out (buflen - 1) ≡ true = ground arith in
    elim (Bool-cases (is_escaped true c)) [
      | inr plain ↦ rw (room, plain) (omega (arith, near))
      | inl esc ↦
          let fits : leb (buflen - 3) out ≡ false = ground arith in
          rw (room, esc, fits) (omega (arith, far))
    ]

module _ (name : List ℕ) (dst_len : ℕ) (free : IsFree 61 name) (small : dst_len < 2 ^ 64) where
  take_value-encoded :
      (v tail : List ℕ) (n : ℕ)
      → AllChars v
      → value_length n (encoded v ++ tail) ≡ length (encoded v)
      → take_value name dst_len n (encoded v ++ tail)
        ≡ (if ltb (length (encoded v)) dst_len then some v else none)
  unfolding take_value url_encode
  take_value-encoded v tail n a len =
      let commas = if ais_strncasecmp_eq name groupby 7 then false else true in
      let long = length-encode_from (3 * length v + 1) 0 v (omega arith) in
      elim (Bool-cases (ltb (length (encoded v)) dst_len)) [
        | inl room ↦
            rw (len, room)
              (ap some (
                url_decode-url_encode commas true v tail (3 * length v + 1) dst_len a (omega arith)
                  (omega (arith, long, ltb→lt _ _ room)) small))
        | inr full ↦ rw (len, full) refl
      ]

  module _ (k v : List ℕ) (free_and : IsFree 38 k) (free_eq : IsFree 61 k) (a : AllChars v) where
    abbrev piece : List ℕ
    piece = k ++ 61 ∷ encoded v

    encoded-IsFree : IsFree 38 (encoded v)
    unfolding url_encode
    encoded-IsFree = encode_from-IsFree (3 * length v + 1) 0 v a

    piece-IsFree : IsFree 38 piece
    piece-IsFree = IsFree-append 38 k (61 ∷ encoded v) free_and (omega arith, encoded-IsFree)

    abbrev value : Option (List ℕ)
    value = if ltb (length (encoded v)) dst_len then some v else none

    -- A parameter with `n` bytes to go, and `more` behind it.
    piece_match :
        (more : List ℕ) (n : ℕ)
        → ais_strcasecmp_eq name k ≡ true
        → length piece ≤ n
        → value_length (n - suc (length k)) (encoded v ++ more) ≡ length (encoded v)
        → get_var_from name dst_len true n (piece ++ more) ≡ value
    piece_match more n same room len =
        let size = length-match name k same in
        let all = length-append {0} k (61 ∷ encoded v) in
        ap (get_var_from name dst_len true n) (append_assoc k (61 ∷ encoded v) more)
        ∙ get_var_from_match name dst_len k (encoded v ++ more) n free free_eq same
            (omega (arith, size, all))
        ∙ take_value-encoded v more (n - suc (length name)) a
            (ap (λ (l : ℕ). value_length (n - suc l) (encoded v ++ more)) size ∙ len)

    piece_other :
        (more : List ℕ) (n : ℕ)
        → ais_strcasecmp_eq name k ≡ false
        → get_var_from name dst_len true n (piece ++ more)
          ≡ get_var_from name dst_len false n (piece ++ more)
    piece_other more n other =
        let assoc = append_assoc k (61 ∷ encoded v) more in
        ap (get_var_from name dst_len true n) assoc
        ∙ get_var_from_other name dst_len k (encoded v ++ more) n free free_eq other
        ∙ ap (get_var_from name dst_len false n) (sym assoc)

    piece_last :
        (tail : List ℕ)
        → get_var_from name dst_len true (length piece) (piece ++ tail)
          ≡ (if ais_strcasecmp_eq name k then value else none)
    piece_last tail = elim (Bool-cases (ais_strcasecmp_eq name k)) [
      | inl same ↦
          let left : length piece - suc (length k) ≡ length (encoded v) =
            omega (arith, length-append {0} k (61 ∷ encoded v)) in
          piece_match tail (length piece) same (omega arith) (
            ap (λ m. value_length m (encoded v ++ tail)) left
            ∙ value_length-end (encoded v) tail encoded-IsFree)
          ∙ rw same refl
      | inr other ↦
          piece_other tail (length piece) other
          ∙ get_var_from_last name dst_len piece tail piece-IsFree
          ∙ rw other refl
    ]

    piece_next :
        (m : ℕ) (more : List ℕ)
        → get_var_from name dst_len true (length piece + suc m) (piece ++ 38 ∷ more)
          ≡ (if ais_strcasecmp_eq name k then value else get_var_from name dst_len true m more)
    piece_next m more = elim (Bool-cases (ais_strcasecmp_eq name k)) [
      | inl same ↦
          piece_match (38 ∷ more) (length piece + suc m) same (omega arith) (
            value_length-next (encoded v) more (length piece + suc m - suc (length k))
              encoded-IsFree (omega (arith, length-append {0} k (61 ∷ encoded v))))
          ∙ rw same refl
      | inr other ↦
          let left : length piece + suc m - suc (length piece) ≡ m = omega arith in
          piece_other (38 ∷ more) (length piece + suc m) other
          ∙ get_var_from_skip name dst_len piece more (length piece + suc m) piece-IsFree
              (omega arith)
          ∙ ap (λ i. get_var_from name dst_len true i more) left
          ∙ rw other refl
    ]

  -- `ais_get_var` of a name without '=', with `dst_len` a `size_t`, on a query string of names without
  -- '&' and '=', whose values `url_encode` has encoded, whatever lies behind it: the first value whose
  -- name compares equal without case, or -1 if there is none, or if the encoded value with its zero
  -- does not fit.
  pub ais_get_var-query :
      (ps : List (List ℕ × List ℕ)) (tail : List ℕ)
      → AreParams ps
      → ais_get_var (query ps ++ tail) (length (query ps)) name dst_len
        ≡ first_value name dst_len ps
  unfolding ais_get_var
  ais_get_var-query [] tail a = get_var_from_short name dst_len true 0 tail (omega arith)
  ais_get_var-query ((k, v) ∷ []) tail ((f, g, chars), a) = piece_last k v f g chars tail
  ais_get_var-query ((k, v) ∷ p ∷ ps) tail ((f, g, chars), a) =
      let next = query (p ∷ ps) in
      ap₂ (get_var_from name dst_len true) (length-append {0} (k ++ 61 ∷ encoded v) (38 ∷ next))
        (append_assoc (k ++ 61 ∷ encoded v) (38 ∷ next) tail)
      ∙ piece_next k v f g chars (length next) (next ++ tail)
      ∙ ap
          (λ r.
            if ais_strcasecmp_eq name k
            then (if ltb (length (encoded v)) dst_len then some v else none)
            else r)
          (ais_get_var-query (p ∷ ps) tail a)
