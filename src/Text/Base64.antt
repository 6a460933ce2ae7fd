-- ===== src/Text/Base64.antt =====
-- `base64_encode`, `find_pos` and `base64_decode` in ngix_module/AIS/allais.c.
--
-- A shift to the left is a multiplication, one to the right a division, and a mask a remainder; an
-- `|` of bits that do not meet is a sum. The memory is taken to be given, as the program ends
-- where it is not.
pub mod Digits
pub mod Groups
pub mod Round
use doorhinges.Base.{
  ℕ, zero, suc, ◌+◌, ◌-◌, ◌*◌, ◌/◌, ◌%◌, ◌^◌, Bool, true, false, Option, none, some, List, [], ◌∷◌,
  ◌++◌, ltb, leb, ◌==◌, if◌then◌else◌, length, get_or, ◌>>=◌,
}
use doorhinges.Base.{take}

-- `base`, and the zero behind it.
abbrev pub base : List ℕ
base =
    65 ∷ 66 ∷ 67 ∷ 68 ∷ 69 ∷ 70 ∷ 71 ∷ 72 ∷ 73 ∷ 74 ∷ 75 ∷ 76 ∷ 77 ∷ 78 ∷ 79 ∷ 80 ∷ 81 ∷ 82 ∷ 83
    ∷ 84 ∷ 85 ∷ 86 ∷ 87 ∷ 88 ∷ 89 ∷ 90 ∷ 97 ∷ 98 ∷ 99 ∷ 100 ∷ 101 ∷ 102 ∷ 103 ∷ 104 ∷ 105 ∷ 106
    ∷ 107 ∷ 108 ∷ 109 ∷ 110 ∷ 111 ∷ 112 ∷ 113 ∷ 114 ∷ 115 ∷ 116 ∷ 117 ∷ 118 ∷ 119 ∷ 120 ∷ 121 ∷ 122
    ∷ 48 ∷ 49 ∷ 50 ∷ 51 ∷ 52 ∷ 53 ∷ 54 ∷ 55 ∷ 56 ∷ 57 ∷ 43 ∷ 47 ∷ 61 ∷ 0 ∷ []

-- The characters of a group of `temp` bytes.
pub changed : ℕ → ℕ → ℕ → ℕ
changed prepare temp i = if ltb temp i then 64 else prepare / 64 ^ (3 - i) % 64

pub encode_group : ℕ → ℕ → List ℕ
encode_group prepare temp =
    get_or base (changed prepare temp 0) 0
    ∷ get_or base (changed prepare temp 1) 0
    ∷ get_or base (changed prepare temp 2) 0
    ∷ get_or base (changed prepare temp 3) 0
    ∷ []

-- `base64_encode`, three bytes in each pass of the loop, or what is left.
pub base64_encode : List ℕ → List ℕ
base64_encode [] = []
base64_encode (a ∷ []) = encode_group (a * 65536) 1
base64_encode (a ∷ b ∷ []) = encode_group ((a * 256 + b) * 256) 2
base64_encode (a ∷ b ∷ c ∷ ds) = encode_group ((a * 256 + b) * 256 + c) 3 ++ base64_encode ds

-- The place of a character, the last one if there are several.
abbrev pub last_place : List ℕ → ℕ → Option ℕ
last_place [] ch = none
last_place (b ∷ bs) ch = elim (last_place bs ch) [
  | some i ↦ some (suc i)
  | none ↦ if b == ch then some 0 else none
]

-- `find_pos`: `none` is where `strrchr` returns NULL, and the source subtracts from that.
pub find_pos : ℕ → Option ℕ
find_pos ch = last_place base ch

-- `(prepare << 6) | pos` with a `pos` below 128, of which the highest bit meets the lowest one of
-- `prepare`.
abbrev pub push_digit : ℕ → ℕ → ℕ
push_digit prepare pos =
    (if pos / 64 == 0 then prepare else prepare + (1 - prepare % 2)) * 64 + pos % 64

-- A pass of the inner loop of `base64_decode`.
pub push_char : Option ℕ → ℕ → Option ℕ
push_char prepare ch = do p ← prepare; pos ← find_pos ch; some (push_digit p pos)

-- The bytes of a group of `temp` characters.
pub decode_group : ℕ → ℕ → List ℕ
decode_group prepare temp =
    take temp (prepare / 65536 % 256 ∷ prepare / 256 % 256 ∷ prepare % 256 ∷ [])

-- The loop of `base64_decode`, four characters in each pass, or what is left.
pub decode_chars : List ℕ → Option (List ℕ)
decode_chars [] = some []
decode_chars (a ∷ []) = do p ← push_char (some 0) a; some (decode_group (p * 64 ^ 3) 1)
decode_chars (a ∷ b ∷ []) = do
  p ← push_char (push_char (some 0) a) b
  some (decode_group (p * 64 ^ 2) 2)
decode_chars (a ∷ b ∷ c ∷ []) = do
  p ← push_char (push_char (push_char (some 0) a) b) c
  some (decode_group (p * 64) 3)
decode_chars (a ∷ b ∷ c ∷ d ∷ es) = do
  p ← push_char (push_char (push_char (push_char (some 0) a) b) c) d
  rest ← decode_chars es
  some (decode_group p 4 ++ rest)

-- Whether the character `k` from the end is '='. The source reads before the text if it is shorter;
-- such a byte is taken to be another one.
abbrev pub is_equal : List ℕ → ℕ → ℕ
is_equal text k =
    if leb k (length text) then (if get_or text (length text - k) 0 == 61 then 1 else 0) else 0

-- `equal_count`
pub equal_count : List ℕ → ℕ
equal_count text = is_equal text 1 + is_equal text 2 + is_equal text 3

-- The size of the buffer of `base64_decode`.
pub ret_len : List ℕ → ℕ
ret_len text =
    length text / 4 * 3
    + (if ltb (equal_count text) 2 then 4 else if equal_count text == 2 then 3 else 2)

-- `base64_decode`: the bytes that it writes, less the zero at the end.
pub base64_decode : List ℕ → Option (List ℕ)
base64_decode text = decode_chars (take (length text - equal_count text) text)
