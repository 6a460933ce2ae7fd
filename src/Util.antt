-- ===== src/Util.antt =====
-- ngix_module/AIS/util.c: `mc_swap64`, `htonll` and `ntohll`, and the safe parsers of numbers.
--
-- A `uint64_t` is a number below 2 ^ 64, and an `int64_t` the number with the same bits; `long` has 64
-- bits. What `strtoull`, `strtoll`, `strtoul` and `strtol` make of a text is an argument.
pub mod Swap
pub mod Parsers
pub mod Tests
use doorhinges.Base.{
  ℕ, zero, suc, ◌+◌, ◌*◌, ◌/◌, ◌%◌, ◌^◌, Bool, true, false, not, ◌&&◌, ◌||◌, List, [], ◌∷◌, ltb,
  leb, ◌==◌, if◌then◌else◌, get_or,
}

-- The loop of `mc_swap64`. The low byte of `rv << 8` is zero, so `|` adds.
pub swap_from : ℕ → ℕ → ℕ → ℕ
swap_from zero rv n = rv
swap_from (suc i) rv n = swap_from i (rv * 2 ^ 8 % 2 ^ 64 + n % 256) (n / 2 ^ 8)

-- `mc_swap64`; the flag is ENDIAN_LITTLE.
pub mc_swap64 : Bool → ℕ → ℕ
mc_swap64 little n = if little then swap_from 8 0 n else n

pub ntohll : Bool → ℕ → ℕ
unfolding mc_swap64
ntohll little val = mc_swap64 little val

pub htonll : Bool → ℕ → ℕ
unfolding mc_swap64
htonll little val = mc_swap64 little val

-- `isspace` in the locale of C.
abbrev pub is_space : ℕ → Bool
is_space c = c == 32 || (leb 9 c && leb c 13)

-- `strchr(str, '-') != NULL`
abbrev pub has_minus : List ℕ → Bool
has_minus [] = false
has_minus (c ∷ cs) = c == 45 || has_minus cs

-- What a parser of the library answers: the number, the offset of `endptr`, and whether it has set
-- ERANGE.
pub record Parsed : Type 0 where
  pub value : ℕ
  pub endptr : ℕ
  pub erange : Bool

-- The tests that the four functions share.
pub accepted : List ℕ → Parsed → Bool
accepted str p =
    let c = get_or str p.endptr 0 in
    if p.erange || p.endptr == 0 then false else is_space c || c == 0

-- Whether a number that is negative as a signed one comes from a text with a sign.
pub is_negative : List ℕ → Parsed → Bool
is_negative str p = leb (2 ^ 63) p.value && has_minus str

-- The result and `*out`, of `safe_strtoull`.
pub safe_strtoull : (List ℕ → Parsed) → List ℕ → Bool × ℕ
unfolding accepted is_negative
safe_strtoull strtoull str =
    let p = strtoull str in
    if accepted str p
    then (if is_negative str p then (false, 0) else (true, p.value))
    else (false, 0)

-- `safe_strtoll`
pub safe_strtoll : (List ℕ → Parsed) → List ℕ → Bool × ℕ
unfolding accepted
safe_strtoll strtoll str =
    let p = strtoll str in if accepted str p then (true, p.value) else (false, 0)

-- `safe_strtoul`: `*out` has 32 bits.
pub safe_strtoul : (List ℕ → Parsed) → List ℕ → Bool × ℕ
unfolding accepted is_negative
safe_strtoul strtoul str =
    let p = strtoul str in
    if accepted str p
    then (if is_negative str p then (false, 0) else (true, p.value % 2 ^ 32))
    else (false, 0)

-- `safe_strtol`: `*out` has 32 bits.
pub safe_strtol : (List ℕ → Parsed) → List ℕ → Bool × ℕ
unfolding accepted
safe_strtol strtol str =
    let p = strtol str in if accepted str p then (true, p.value % 2 ^ 32) else (false, 0)
