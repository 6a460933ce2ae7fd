-- ===== src/Input/Slice.antt =====
-- Parts of a buffer as lists.
use doorhinges.Base.{
  ℕ, zero, suc, ◌+◌, ◌-◌, ◌<◌, ◌≡◌, refl, sym, ap, ap₂, ◌∙◌, List, [], ◌∷◌, ◌++◌, arith, length,
  get_or, lt→ltb, Bool-cases, inl, inr, ◌==◌,
}
pub use doorhinges.Input.{slice}
use doorhinges.Input.{Input, write_bytes, move_down, receive, to_start}

-- The bytes in the read buffer that no command has taken.
abbrev pub unread : Input → List ℕ
unread c = slice c.rbuf c.rcurr c.rbytes

pub slice_congr :
    (g f : ℕ → ℕ) (a b n : ℕ)
    → ((i : ℕ) → i < n → g (a + i) ≡ f (b + i))
    → slice g a n ≡ slice f b n
slice_congr g f a b zero same = refl
slice_congr g f a b (suc n) same = ap₂ ◌∷◌ (ap g first ∙ same 0 (omega arith) ∙ ap f (sym other)) (
    slice_congr g f (a + 1) (b + 1) n
      (λ i h. ap g (behind a i) ∙ same (suc i) (omega arith) ∙ ap f (sym (behind b i))))
  where
    first : a ≡ a + 0
    first = omega arith

    other : b ≡ b + 0
    other = omega arith

    behind : (x i : ℕ) → x + 1 + i ≡ x + suc i
    behind x i = omega arith

pub slice-get_or :
    (g : ℕ → ℕ) (a : ℕ) (bs : List ℕ)
    → ((i : ℕ) → i < length bs → g (a + i) ≡ get_or bs i 0)
    → slice g a (length bs) ≡ bs
slice-get_or g a [] same = refl
slice-get_or g a (x ∷ bs) same =
    ap₂ ◌∷◌ (ap g first ∙ same 0 (omega arith))
      (slice-get_or g (a + 1) bs (λ i h. ap g (behind i) ∙ same (suc i) (omega arith)))
  where
    first : a ≡ a + 0
    first = omega arith

    behind : (i : ℕ) → a + 1 + i ≡ a + suc i
    behind i = omega arith

pub slice-append : (f : ℕ → ℕ) (a n m : ℕ) → slice f a (n + m) ≡ slice f a n ++ slice f (a + n) m
slice-append f a zero m = ap₂ (λ x y. slice f x y) first more
  where
    first : a ≡ a + 0
    first = omega arith

    more : 0 + m ≡ m
    more = omega arith
slice-append f a (suc n) m =
    ap (λ k. slice f a k) size
    ∙ ap (λ xs. f a ∷ xs)
        (slice-append f (a + 1) n m ∙ ap (λ x. slice f (a + 1) n ++ slice f x m) start)
  where
    size : suc n + m ≡ suc (n + m)
    size = omega arith

    start : a + 1 + n ≡ a + suc n
    start = omega arith

-- Bytes written behind the unread ones.
pub unread-receive :
    (bs : List ℕ) (c : Input) → c.rcurr ≡ 0 → unread (receive bs c) ≡ unread c ++ bs
unfolding receive write_bytes
unread-receive bs c e =
    slice-append (write_bytes c.rbuf c.rbytes bs) c.rcurr c.rbytes (length bs)
    ∙ ap₂ ◌++◌
        (slice_congr (write_bytes c.rbuf c.rbytes bs) c.rbuf c.rcurr c.rcurr c.rbytes
          (λ i h. ground (arith, e)))
        (slice-get_or (write_bytes c.rbuf c.rbytes bs) (c.rcurr + c.rbytes) bs (λ i h. written i h))
  where
    written :
        (i : ℕ)
        → i < length bs
        → write_bytes c.rbuf c.rbytes bs (c.rcurr + c.rbytes + i) ≡ get_or bs i 0
    written i h =
        let at : c.rcurr + c.rbytes + i ≡ c.rbytes + i = omega (arith, e) in
        let back : c.rbytes + i - c.rbytes ≡ i = omega arith in
        rw (at, lt→ltb (c.rbytes + i) (c.rbytes + length bs) (omega arith)) (rw back (ground arith))

pub unread-to_start : (c : Input) → unread (to_start c) ≡ unread c
unfolding to_start move_down
unread-to_start c = elim (Bool-cases (c.rcurr == 0)) [
  | inl here ↦ rw here refl
  | inr there ↦ elim (Bool-cases (c.rbytes == 0)) [
    | inl nothing ↦
        rw (there, nothing)
          (slice_congr c.rbuf c.rbuf 0 c.rcurr c.rbytes (λ i h. absurd (ground arith)))
    | inr much ↦
        rw (there, much)
          (slice_congr (move_down c.rbuf c.rcurr c.rbytes) c.rbuf 0 c.rcurr c.rbytes
            (λ i h. let at : 0 + i ≡ i = omega arith in rw (at, lt→ltb i c.rbytes h) refl))
  ]
]

pub to_start_lem :
    (c : Input)
    → ((to_start c).rcurr ≡ 0)
      × ((to_start c).rbytes ≡ c.rbytes)
      × ((to_start c).rsize ≡ c.rsize)
      × ((to_start c).bytes_read ≡ c.bytes_read)
unfolding to_start
to_start_lem c = ground arith
