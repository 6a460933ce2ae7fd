-- ===== src/Text/Tests.antt =====
-- Texts through the functions.
use doorhinges.Base.{ℕ, ◌+◌, ◌≤◌, ◌≡◌, ◌++◌, true, some, List, [], ◌∷◌, arith, length}
use doorhinges.Base.{take}
use doorhinges.Text.Base64.{base64_encode, base64_decode}
use doorhinges.Text.Base64.Round.{c_string, base64_decode-encode}
use doorhinges.Text.Base64.Groups.{padding}
use doorhinges.Text.Query.{url_decode, ais_get_var}
use doorhinges.Text.Query.Decode.{url_decode-url_encode}
use doorhinges.Text.Query.Params.{query, first_value, ais_get_var-query}
use doorhinges.Text.Url.{url_encode, percent_decode, url_encode-take}

-- Bytes with a zero among them.
abbrev four : List ℕ
four = 65 ∷ 73 ∷ 0 ∷ 33 ∷ []

base64_decode-encode_example :
    (out : List ℕ) × (base64_decode (base64_encode four) ≡ some out)
    × (out ≡ four ++ padding 4)
    × (c_string out ≡ 65 ∷ 73 ∷ [])
base64_decode-encode_example =
    base64_decode-encode four (omega arith, (omega arith, (omega arith, (omega arith, tt))))

url_encode-take_example :
    (length (url_encode (97 ∷ 37 ∷ []) 3 true) + 1 ≤ 3)
    × (k : ℕ) × (percent_decode (url_encode (97 ∷ 37 ∷ []) 3 true) ≡ take k (97 ∷ 37 ∷ []))
url_encode-take_example =
    url_encode-take (97 ∷ 37 ∷ []) 3 true (omega arith, (omega arith, tt)) (omega arith)

-- "a%" and a byte behind it.
url_decode-url_encode_example :
    let text = url_encode (97 ∷ 37 ∷ []) 7 true in
    url_decode true (text ++ 65 ∷ []) (length text) 3 true ≡ 97 ∷ 37 ∷ []
url_decode-url_encode_example =
    url_decode-url_encode true true (97 ∷ 37 ∷ []) (65 ∷ []) 7 3 (omega arith, (omega arith, tt))
      (omega arith) (omega arith) (omega arith)

-- "A=%25&b=x"
abbrev two_params : List (List ℕ × List ℕ)
two_params = (65 ∷ [], 37 ∷ []) ∷ (98 ∷ [], 120 ∷ []) ∷ []

ais_get_var-query_example :
    ais_get_var (query two_params ++ 0 ∷ []) (length (query two_params)) (98 ∷ []) 8
    ≡ first_value (98 ∷ []) 8 two_params
ais_get_var-query_example =
    ais_get_var-query (98 ∷ []) 8 (omega arith, tt) (omega arith) two_params (0 ∷ [])
      (
        ((omega arith, tt), (omega arith, tt), (omega arith, tt)),
        (((omega arith, tt), (omega arith, tt), (omega arith, tt)), tt),
      )
