-- ===== src/Input/Command.antt =====
-- `try_read_command`: the first line of the buffer is taken from it.
use doorhinges.Base.{
  ℕ, zero, suc, ◌+◌, ◌-◌, ◌≤◌, ◌<◌, ◌≡◌, refl, sym, ap, ap₂, ◌∙◌, false, ◌&&◌, some, List, [], ◌∷◌,
  ◌++◌, arith, length, get_or, drop, ltb, ◌==◌, if◌then◌else◌, Bool-cases, inl, inr,
}
use doorhinges.Links.{has}
use doorhinges.Input.{Input, line, slice, find_newline, take_line, try_read_command}
use doorhinges.Input.Slice.{unread, slice_congr}

-- The first characters of a text.
abbrev pub first : ℕ → List ℕ → List ℕ
first zero xs = []
first (suc n) [] = []
first (suc n) (x ∷ xs) = x ∷ first n xs

-- A text less the '\r' at its end, if something is before it.
abbrev pub chomp : List ℕ → List ℕ
chomp text =
    if ltb 1 (length text) && get_or text (length text - 1) 0 == 13
    then first (length text - 1) text
    else text

module _ (f : ℕ → ℕ) where
  slice_parts :
      (a n : ℕ) (x : ℕ) (xs : List ℕ)
      → slice f a n ≡ x ∷ xs
      → (m : ℕ) × (n ≡ suc m) × (f a ≡ x) × (slice f (a + 1) m ≡ xs)
  slice_parts a zero x xs e = absurd (omega (arith, ap length e))
  slice_parts a (suc m) x xs e = (m, refl, ap (λ l. get_or l 0 0) e, ap (drop 1) e)

  find_newline-slice :
      (text : List ℕ) (a n : ℕ) (rest : List ℕ)
      → has 10 text ≡ false
      → slice f a n ≡ text ++ 10 ∷ rest
      → find_newline f a n ≡ some (length text)
  unfolding find_newline
  find_newline-slice [] a n rest h e =
      let (m, size, at, more) = slice_parts a n 10 rest e in rw (size, at) refl
  find_newline-slice (x ∷ text) a n rest h e =
      let (m, size, at, more) = slice_parts a n x (text ++ 10 ∷ rest) e in
      let other : (x == 10) ≡ false = ground arith in
      rw (size, at, other, find_newline-slice text (a + 1) m rest (ground arith) more) refl

  slice-first :
      (text : List ℕ) (a n k : ℕ) (rest : List ℕ)
      → slice f a n ≡ text ++ rest
      → k ≤ length text
      → slice f a k ≡ first k text
  slice-first text a n zero rest e h = refl
  slice-first [] a n (suc k) rest e h = absurd (omega arith)
  slice-first (x ∷ text) a n (suc k) rest e h =
      let (m, size, at, more) = slice_parts a n x (text ++ rest) e in
      rw (at, slice-first text (a + 1) m k rest more (omega arith)) refl

  slice-get :
      (text : List ℕ) (a n k : ℕ) (rest : List ℕ)
      → slice f a n ≡ text ++ rest
      → k < length text
      → f (a + k) ≡ get_or text k 0
  slice-get [] a n k rest e h = absurd (omega arith)
  slice-get (x ∷ text) a n zero rest e h =
      let (m, size, at, more) = slice_parts a n x (text ++ rest) e in ap f here ∙ at
    where
      here : a + 0 ≡ a
      here = omega arith
  slice-get (x ∷ text) a n (suc k) rest e h =
      let (m, size, at, more) = slice_parts a n x (text ++ rest) e in
      ap f next ∙ slice-get text (a + 1) m k rest more (omega arith)
    where
      next : a + suc k ≡ a + 1 + k
      next = omega arith

  length-slice : (a n : ℕ) → length (slice f a n) ≡ n
  length-slice a zero = refl
  length-slice a (suc n) = ap suc (length-slice (a + 1) n)

  slice-behind :
      (text : List ℕ) (a n : ℕ) (rest : List ℕ)
      → slice f a n ≡ text ++ rest
      → (slice f (a + length text) (n - length text) ≡ rest) × (n ≡ length text + length rest)
  slice-behind [] a n rest e =
      (ap₂ (slice f) none_passed all_left ∙ e, sym (length-slice a n) ∙ ap length e ∙ size)
    where
      none_passed : a + 0 ≡ a
      none_passed = omega arith

      all_left : n - 0 ≡ n
      all_left = omega arith

      size : length rest ≡ 0 + length rest
      size = omega arith
  slice-behind (x ∷ text) a n rest e =
      let (m, size, at, more) = slice_parts a n x (text ++ rest) e in
      let (behind, count) = slice-behind text (a + 1) m rest more in
      (ap₂ (slice f) passed (left m size) ∙ behind, omega (arith, size, count))
    where
      passed : a + suc (length text) ≡ a + 1 + length text
      passed = omega arith

      left : (m : ℕ) → n ≡ suc m → n - suc (length text) ≡ m - length text
      left m size = omega (arith, size)

first_all : (xs : List ℕ) → first (length xs) xs ≡ xs
first_all [] = refl
first_all (x ∷ xs) = ap (λ l. x ∷ l) (first_all xs)

-- The write of the NUL is in front of the rest.
slice-nul :
    (f : ℕ → ℕ) (a el i m : ℕ)
    → el ≤ i
    → slice (λ p. if p == a + el then 0 else f p) (a + (i + 1)) m ≡ slice f (a + (i + 1)) m
slice-nul f a el i m h =
    slice_congr (λ p. if p == a + el then 0 else f p) f (a + (i + 1)) (a + (i + 1)) m
      (λ j small. ground arith)

module _ (c : Input) (text rest : List ℕ) (has_line : unread c ≡ text ++ 10 ∷ rest) where
  -- The line behind which the rest starts.
  take_line-rest : slice c.rbuf (c.rcurr + (length text + 1)) (c.rbytes - (length text + 1)) ≡ rest
  take_line-rest =
      let (behind, count) = slice-behind c.rbuf text c.rcurr c.rbytes (10 ∷ rest) has_line in
      let (m, size, at, more) =
        slice_parts c.rbuf (c.rcurr + length text) (c.rbytes - length text) 10 rest behind in
      ap₂ (slice c.rbuf) next (omega (arith, size)) ∙ more
    where
      next : c.rcurr + (length text + 1) ≡ c.rcurr + length text + 1
      next = omega arith

  take_line-chomp : (take_line (length text) c).1 ≡ line (chomp text)
  unfolding take_line
  take_line-chomp = elim (Bool-cases (ltb 1 (length text))) [
    | inr short ↦ rw short (
        ap line (
          slice-first c.rbuf text c.rcurr c.rbytes (length text) (10 ∷ rest) has_line (omega arith)
          ∙ first_all text))
    | inl long ↦
        let last =
          slice-get c.rbuf text c.rcurr c.rbytes (length text - 1) (10 ∷ rest) has_line
            (ground arith) in
        elim (Bool-cases (get_or text (length text - 1) 0 == 13)) [
          | inl cr ↦
              rw (long, last, cr)
                (ap line (
                  slice-first c.rbuf text c.rcurr c.rbytes (length text - 1) (10 ∷ rest) has_line
                    (omega arith)))
          | inr plain ↦
              rw (long, last, plain)
                (ap line (
                  slice-first c.rbuf text c.rcurr c.rbytes (length text) (10 ∷ rest) has_line
                    (omega arith)
                  ∙ first_all text))
        ]
  ]

  unread-take_line : unread (take_line (length text) c).0 ≡ rest
  unfolding take_line
  unread-take_line =
      slice-nul c.rbuf c.rcurr
        (if ltb 1 (length text) && c.rbuf (c.rcurr + (length text - 1)) == 13
          then length text - 1
          else length text)
        (length text) (c.rbytes - (length text + 1)) (ground arith)
      ∙ take_line-rest

  -- `try_read_command` on a buffer whose unread bytes are a text without a newline, a newline and
  -- the rest: it takes the text, less a '\r' at its end if that is not all, and the rest is unread.
  pub try_read_command_lem :
      has 10 text ≡ false
      → ((try_read_command c).1 ≡ line (chomp text)) × (unread (try_read_command c).0 ≡ rest)
  unfolding try_read_command
  try_read_command_lem plain =
      let found = find_newline-slice c.rbuf text c.rcurr c.rbytes rest plain has_line in
      let count = (slice-behind c.rbuf text c.rcurr c.rbytes (10 ∷ rest) has_line).1 in
      let some_bytes : (c.rbytes == 0) ≡ false = ground (arith, count) in
      rw (some_bytes, found) (take_line-chomp, unread-take_line)
