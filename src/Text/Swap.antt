-- ===== src/Text/Swap.antt =====
-- `head_tail_swap`, `replace_decode_char` and `replace_encode_char` in ngix_module/AIS/allais.c. The
-- buffer is the list of its `buf_len` bytes.
use doorhinges.Base.{
  ℕ, zero, suc, ◌+◌, ◌-◌, ◌*◌, ◌%◌, ◌≤◌, ◌<◌, ◌≡◌, refl, ap, ap₂, ==_iff, ◌∙◌, Bool, true, false,
  ◌&&◌, ◌||◌, List, [], ◌∷◌, arith, ltb, leb, ◌==◌, if◌then◌else◌, length, get_or, set, length-set,
  get_or-set_self, get_or-set_ne, Bool-cases, inl, inr,
}

-- A pass of the loop of `head_tail_swap`.
pub swap_at : ℕ → List ℕ → List ℕ
swap_at i buf = let j = length buf - 3 - i in set (set buf i (get_or buf j 0)) j (get_or buf i 0)

-- The `n` passes from `i` on.
pub swap_from : ℕ → ℕ → List ℕ → List ℕ
swap_from i zero buf = buf
swap_from i (suc n) buf = swap_from (i + 1) n (swap_at i buf)

-- `head_tail_swap`
pub head_tail_swap : List ℕ → ℕ → List ℕ
head_tail_swap buf swap_len =
    if ltb (length buf) (swap_len * 2 + 2) then buf else swap_from 0 swap_len buf

length-swap_at : (i : ℕ) (buf : List ℕ) → length (swap_at i buf) ≡ length buf
unfolding swap_at
length-swap_at i buf =
    let j = length buf - 3 - i in
    length-set (set buf i (get_or buf j 0)) j (get_or buf i 0) ∙ length-set buf i (get_or buf j 0)

length-swap_from : (i n : ℕ) (buf : List ℕ) → length (swap_from i n buf) ≡ length buf
unfolding swap_from
length-swap_from i zero buf = refl
length-swap_from i (suc n) buf = length-swap_from (i + 1) n (swap_at i buf) ∙ length-swap_at i buf

-- Which places the passes change, in a buffer of `len` bytes.
abbrev is_moved : ℕ → ℕ → ℕ → ℕ → Bool
is_moved len i n p =
    (leb i p && ltb p (i + n))
    || (leb p (len - 3) && (leb i (len - 3 - p) && ltb (len - 3 - p) (i + n)))

-- Which item is at a place after two writes.
get_or-set_two :
    (buf : List ℕ) (i j p v w : ℕ)
    → i < length buf
    → j < length buf
    → get_or (set (set buf i v) j w) p 0
      ≡ (if p == j then w else if p == i then v else get_or buf p 0)
get_or-set_two buf i j p v w h k = elim (Bool-cases (p == j)) [
  | inl at_j ↦ rw at_j (
      ap (λ q. get_or (set (set buf i v) j w) q 0) ((==_iff p j).0 at_j)
      ∙ get_or-set_self (set buf i v) j w 0 (omega (arith, length-set buf i v)))
  | inr off_j ↦ elim (Bool-cases (p == i)) [
    | inl at_i ↦
        rw (off_j, at_i)
          (get_or-set_ne (set buf i v) j p w 0 (ground arith)
            ∙ ap (λ q. get_or (set buf i v) q 0) ((==_iff p i).0 at_i)
            ∙ get_or-set_self buf i v 0 h)
    | inr off_i ↦
        rw (off_j, off_i)
          (get_or-set_ne (set buf i v) j p w 0 (ground arith)
            ∙ get_or-set_ne buf i p v 0 (ground arith))
  ]
]

get_or-swap_at :
    (i : ℕ) (buf : List ℕ) (p : ℕ)
    → (i + 1) * 2 + 2 ≤ length buf
    → get_or (swap_at i buf) p 0
      ≡ (if is_moved (length buf) i 1 p then get_or buf (length buf - 3 - p) 0 else get_or buf p 0)
unfolding swap_at
get_or-swap_at i buf p h =
    let j = length buf - 3 - i in
    get_or-set_two buf i j p (get_or buf j 0) (get_or buf i 0) (omega arith) (omega arith)
    ∙ elim (Bool-cases (p == j)) [
      | inl at_j ↦
          let moved : is_moved (length buf) i 1 p ≡ true = ground arith in
          rw (at_j, moved) (ap (λ q. get_or buf q 0) (ground arith))
      | inr off_j ↦ elim (Bool-cases (p == i)) [
        | inl at_i ↦
            let moved : is_moved (length buf) i 1 p ≡ true = ground arith in
            rw (off_j, at_i, moved) (ap (λ q. get_or buf q 0) (ground arith))
        | inr off_i ↦
            let still : is_moved (length buf) i 1 p ≡ false = ground arith in
            rw (off_j, off_i, still) refl
      ]
    ]

get_or-swap_from :
    (i n : ℕ) (buf : List ℕ) (p : ℕ)
    → (i + n) * 2 + 2 ≤ length buf
    → get_or (swap_from i n buf) p 0
      ≡ (if is_moved (length buf) i n p then get_or buf (length buf - 3 - p) 0 else get_or buf p 0)
unfolding swap_from
get_or-swap_from i zero buf p h =
    let still : is_moved (length buf) i 0 p ≡ false = ground arith in rw still refl
get_or-swap_from i (suc n) buf p h =
    let l = length buf in
    let same : length (swap_at i buf) ≡ l = length-swap_at i buf in
    get_or-swap_from (i + 1) n (swap_at i buf) p (omega arith)
    ∙ rw same (elim (Bool-cases (is_moved l (i + 1) n p)) [
      | inl later ↦
          let moved : is_moved l i (suc n) p ≡ true = ground arith in
          let untouched : is_moved l i 1 (l - 3 - p) ≡ false = ground arith in
          rw (later, moved) (get_or-swap_at i buf (l - 3 - p) (omega arith) ∙ rw untouched refl)
      | inr not_later ↦
          let now : is_moved l i (suc n) p ≡ is_moved l i 1 p = ground arith in
          rw (not_later, now) (get_or-swap_at i buf p (omega arith))
    ])

list_ext :
    (xs ys : List ℕ) → length xs ≡ length ys → ((p : ℕ) → get_or xs p 0 ≡ get_or ys p 0) → xs ≡ ys
list_ext [] [] h e = refl
list_ext [] (y ∷ ys) h e = absurd (omega arith)
list_ext (x ∷ xs) [] h e = absurd (omega arith)
list_ext (x ∷ xs) (y ∷ ys) h e =
    ap₂ (λ a l. a ∷ l) (e 0) (list_ext xs ys (omega arith) (λ p. e (suc p)))

get_or-swap_twice :
    (n : ℕ) (buf : List ℕ) (p : ℕ)
    → (0 + n) * 2 + 2 ≤ length buf
    → get_or (swap_from 0 n (swap_from 0 n buf)) p 0 ≡ get_or buf p 0
get_or-swap_twice n buf p h =
    let l = length buf in
    let s = swap_from 0 n buf in
    let once : length s ≡ l = length-swap_from 0 n buf in
    get_or-swap_from 0 n s p (omega arith)
    ∙ rw once (elim (Bool-cases (is_moved l 0 n p)) [
      | inl moved ↦
          let back : is_moved l 0 n (l - 3 - p) ≡ true = ground arith in
          rw moved (
            get_or-swap_from 0 n buf (l - 3 - p) h
            ∙ rw back (ap (λ q. get_or buf q 0) (ground arith)))
      | inr still ↦ rw still (get_or-swap_from 0 n buf p h ∙ rw still refl)
    ])

-- `head_tail_swap` twice is the buffer that there was.
pub head_tail_swap_involutive :
    (buf : List ℕ) (swap_len : ℕ) → head_tail_swap (head_tail_swap buf swap_len) swap_len ≡ buf
unfolding head_tail_swap
head_tail_swap_involutive buf n = elim (Bool-cases (ltb (length buf) (n * 2 + 2))) [
  | inl short ↦ rw (short, short) refl
  | inr long ↦
      let once : length (swap_from 0 n buf) ≡ length buf = length-swap_from 0 n buf in
      rw (long, once, long)
        (list_ext (swap_from 0 n (swap_from 0 n buf)) buf
          (length-swap_from 0 n (swap_from 0 n buf) ∙ once)
          (λ p. get_or-swap_twice n buf p (ground arith)))
]

-- `isalpha(c) || isdigit(c)` in the locale of C.
abbrev pub is_alnum : ℕ → Bool
is_alnum c = (leb 65 c && leb c 90) || (leb 97 c && leb c 122) || (leb 48 c && leb c 57)

-- A letter or digit becomes the one before it, and the first the last.
abbrev pub one_before : ℕ → ℕ
one_before c = if c == 65 then 90 else if c == 97 then 122 else if c == 48 then 57 else c - 1

-- What becomes of a character in `replace_decode_char` and in `replace_encode_char`.
abbrev pub decoded : ℕ → ℕ
decoded c = if is_alnum c then one_before c else (c + 255) % 256

abbrev pub encoded : ℕ → ℕ
encoded c = if is_alnum c then one_before c else c

-- The loop of both, from `i` on, on fuel.
pub replace_from : (ℕ → ℕ) → ℕ → ℕ → ℕ → List ℕ → ℕ → List ℕ
replace_from f step limit zero buf i = buf
replace_from f step limit (suc fuel) buf i =
    let rest = replace_from f step limit fuel (set buf i (f (get_or buf i 0))) (i + step) in
    if ltb i limit then rest else buf

pub replace_decode_char : List ℕ → ℕ → List ℕ
replace_decode_char buf step_len =
    replace_from decoded step_len (length buf - length buf % step_len) (length buf) buf 0

pub replace_encode_char : List ℕ → ℕ → List ℕ
replace_encode_char buf step_len =
    replace_from encoded step_len (length buf - length buf % step_len) (length buf) buf 0

-- More fuel than there are places left changes nothing.
replace_from_enough :
    (f : ℕ → ℕ) (step limit fuel : ℕ) (buf : List ℕ) (i : ℕ)
    → 1 ≤ step
    → limit ≤ i + fuel
    → replace_from f step limit (suc fuel) buf i ≡ replace_from f step limit fuel buf i
unfolding replace_from
replace_from_enough f step limit zero buf i pos h =
    let done : ltb i limit ≡ false = ground arith in rw done refl
replace_from_enough f step limit (suc fuel) buf i pos h =
    ap (λ rest. if ltb i limit then rest else buf)
      (replace_from_enough f step limit fuel (set buf i (f (get_or buf i 0))) (i + step) pos
        (omega arith))

-- Every character is a letter or a digit.
abbrev pub AllAlnum : List ℕ → Type 0
AllAlnum [] = Unit {0}
AllAlnum (c ∷ cs) = (is_alnum c ≡ true) × AllAlnum cs

one_before-is_alnum : (c : ℕ) → is_alnum c ≡ true → is_alnum (one_before c) ≡ true
one_before-is_alnum c h = ground arith

AllAlnum-set : (buf : List ℕ) (i v : ℕ) → AllAlnum buf → is_alnum v ≡ true → AllAlnum (set buf i v)
AllAlnum-set [] i v a h = tt
AllAlnum-set (c ∷ cs) zero v a h = (h, a.1)
AllAlnum-set (c ∷ cs) (suc i) v a h = (a.0, AllAlnum-set cs i v a.1 h)

AllAlnum-get_or :
    (buf : List ℕ) (i : ℕ) → i < length buf → AllAlnum buf → is_alnum (get_or buf i 0) ≡ true
AllAlnum-get_or [] i h a = absurd (omega arith)
AllAlnum-get_or (c ∷ cs) zero h a = a.0
AllAlnum-get_or (c ∷ cs) (suc i) h a = AllAlnum-get_or cs i (omega arith) a.1

replace_from_same :
    (step limit fuel : ℕ) (buf : List ℕ) (i : ℕ)
    → limit ≤ length buf
    → AllAlnum buf
    → replace_from encoded step limit fuel buf i ≡ replace_from decoded step limit fuel buf i
unfolding replace_from
replace_from_same step limit zero buf i h a = refl
replace_from_same step limit (suc fuel) buf i h a = elim (Bool-cases (ltb i limit)) [
  | inl inside ↦
      let alnum : is_alnum (get_or buf i 0) ≡ true = AllAlnum-get_or buf i (ground arith) a in
      let v = one_before (get_or buf i 0) in
      rw (inside, alnum)
        (replace_from_same step limit fuel (set buf i v) (i + step)
          (omega (arith, length-set buf i v))
          (AllAlnum-set buf i v a (one_before-is_alnum (get_or buf i 0) alnum)))
  | inr done ↦ rw done refl
]

-- On letters and digits `replace_encode_char` does what `replace_decode_char` does, instead of
-- undoing it.
pub replace_encode_char-replace_decode_char :
    (buf : List ℕ) (step_len : ℕ)
    → AllAlnum buf
    → replace_encode_char buf step_len ≡ replace_decode_char buf step_len
unfolding replace_encode_char replace_decode_char
replace_encode_char-replace_decode_char buf step a =
    replace_from_same step (length buf - length buf % step) (length buf) buf 0 (omega arith) a
