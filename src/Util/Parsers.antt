-- ===== src/Util/Parsers.antt =====
-- What the safe parsers of 32 bits do with numbers of 64.
use doorhinges.Base.{ℕ, ◌%◌, ◌^◌, ◌≡◌, List, arith}
use doorhinges.Util.{Parsed, safe_strtoull, safe_strtoul}

-- Where `long` has 64 bits `strtoul` is `strtoull`, and `safe_strtoul` accepts what `safe_strtoull` does
-- and keeps the low 32 bits, so a number that is too large is accepted as another one.
pub safe_strtoul-safe_strtoull :
    (strtoul : List ℕ → Parsed) (str : List ℕ)
    → (safe_strtoul strtoul str).0 ≡ (safe_strtoull strtoul str).0
      × ((safe_strtoul strtoul str).1 ≡ (safe_strtoull strtoul str).1 % 2 ^ 32)
unfolding safe_strtoul safe_strtoull
safe_strtoul-safe_strtoull strtoul str = ground arith
