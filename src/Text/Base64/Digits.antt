-- ===== src/Text/Base64/Digits.antt =====
-- The digits of a number to the base 64, and that the table is read back.
use doorhinges.Base.{
  ℕ, zero, suc, ◌+◌, ◌*◌, ◌<◌, ◌≡◌, refl, ap, Bool, true, false, not, ◌&&◌, Option, none, some,
  arith, ◌==◌, get_or, ==_iff, Bool-cases, inl, inr,
}
use doorhinges.Text.Base64.{base, find_pos, push_digit, push_char}

is_some : Option ℕ → ℕ → Bool
is_some none j = false
is_some (some i) j = i == j

is_some→eq : (o : Option ℕ) (j : ℕ) → is_some o j ≡ true → o ≡ some j
unfolding is_some
is_some→eq none j h = ground arith
is_some→eq (some i) j h = ap some ((==_iff i j).0 h)

-- The first characters of the table are found where they stand, and are not '='.
is_read_back : ℕ → Bool
is_read_back zero = true
is_read_back (suc n) =
    let rest = is_read_back n in
    is_some (find_pos (get_or base n 0)) n && (not (get_or base n 0 == 61) && rest)

all_read_back : is_read_back 64 ≡ true
unfolding is_read_back is_some find_pos
all_read_back = refl

read_back :
    (n j : ℕ)
    → is_read_back n ≡ true
    → j < n
    → (find_pos (get_or base j 0) ≡ some j) × ((get_or base j 0 == 61) ≡ false)
unfolding is_read_back
read_back zero j h small = absurd (omega arith)
read_back (suc n) j h small = elim (Bool-cases (j == n)) [
  | inl here ↦
      rw ((==_iff j n).0 here)
        (is_some→eq (find_pos (get_or base n 0)) n (ground arith), ground arith)
  | inr before ↦ read_back n j (ground arith) (ground arith)
]

-- A digit is found where it stands in the table.
pub find_pos-base :
    (j : ℕ) → j < 64 → (find_pos (get_or base j 0) ≡ some j) × ((get_or base j 0 == 61) ≡ false)
find_pos-base j h = read_back 64 j all_read_back h

pub push_char-base : (p j : ℕ) → j < 64 → push_char (some p) (get_or base j 0) ≡ some (p * 64 + j)
unfolding push_char
push_char-base p j h = rw ((find_pos-base j h).0) (ap some low)
  where
    low : push_digit p j ≡ p * 64 + j
    low = ground arith
