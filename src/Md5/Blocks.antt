-- ===== src/Md5/Blocks.antt =====
-- Writing into a block, and messages as blocks.
use mathlib.Core.List.{flatten}
use doorhinges.Base.{
  ℕ, zero, suc, ◌+◌, ◌-◌, ◌*◌, ◌≤◌, ◌≡◌, refl, sym, ap, ◌∙◌, List, [], ◌∷◌, ◌++◌, append_assoc,
  append-nil, arith, length, drop, length-append,
}
use doorhinges.Base.{take}
use doorhinges.Md5.{Words, transform, write_at}

module _ {A : Type 0} where
  pub length-take : (n : ℕ) (xs : List A) → n ≤ length xs → length (take n xs) ≡ n
  length-take zero xs h = refl
  length-take (suc n) [] h = absurd (omega arith)
  length-take (suc n) (x ∷ xs) h = omega (arith, length-take n xs (omega arith))

  pub length-drop : (n : ℕ) (xs : List A) → length (drop n xs) ≡ length xs - n
  length-drop zero xs = omega arith
  length-drop (suc n) [] = omega arith
  length-drop (suc n) (x ∷ xs) = omega (arith, length-drop n xs)

  pub take-append-drop : (n : ℕ) (xs : List A) → take n xs ++ drop n xs ≡ xs
  take-append-drop zero xs = refl
  take-append-drop (suc n) [] = refl
  take-append-drop (suc n) (x ∷ xs) = ap (λ l. x ∷ l) (take-append-drop n xs)

  pub take-length_append : (xs ys : List A) → take (length xs) (xs ++ ys) ≡ xs
  take-length_append [] ys = refl
  take-length_append (x ∷ xs) ys = ap (λ l. x ∷ l) (take-length_append xs ys)

  pub take_whole : (xs : List A) → take (length xs) xs ≡ xs
  take_whole [] = refl
  take_whole (x ∷ xs) = ap (λ l. x ∷ l) (take_whole xs)

  pub take-append_le : (n : ℕ) (xs ys : List A) → n ≤ length xs → take n (xs ++ ys) ≡ take n xs
  take-append_le zero xs ys h = refl
  take-append_le (suc n) [] ys h = absurd (omega arith)
  take-append_le (suc n) (x ∷ xs) ys h = ap (λ l. x ∷ l) (take-append_le n xs ys (omega arith))

-- After a write, the block begins with what it began with, and then the bytes.
pub take-write_at :
    (t : ℕ) (bs block : List ℕ)
    → t ≤ length block
    → take (t + length bs) (write_at t bs block) ≡ take t block ++ bs
unfolding write_at
take-write_at t bs block h =
    let behind = drop (t + length bs) block in
    let size : t + length bs ≡ length (take t block ++ bs) =
      omega (arith, length-append {0} (take t block) bs, length-take t block h) in
    rw (← append_assoc (take t block) bs behind) (
      ap (λ (n : ℕ). take n ((take t block ++ bs) ++ behind)) size
      ∙ take-length_append (take t block ++ bs) behind)

pub length-write_at :
    (t : ℕ) (bs block : List ℕ)
    → t + length bs ≤ length block
    → length (write_at t bs block) ≡ length block
unfolding write_at
length-write_at t bs block h = omega (
  arith,
  length-append {0} (take t block) (bs ++ drop (t + length bs) block),
  length-append {0} bs (drop (t + length bs) block),
  length-take t block (omega arith),
  length-drop (t + length bs) block,
)

-- Writing to the end of a block.
pub write_at_end :
    (t : ℕ) (bs block : List ℕ)
    → t + length bs ≡ length block
    → write_at t bs block ≡ take t block ++ bs
write_at_end t bs block h =
    let size : t + length bs ≡ length (write_at t bs block) =
      omega (arith, length-write_at t bs block (omega arith)) in
    sym (take_whole (write_at t bs block))
    ∙ ap (λ (n : ℕ). take n (write_at t bs block)) (sym size)
    ∙ take-write_at t bs block (omega arith)

-- The words after some blocks.
unfoldable pub compress : Words → List (List ℕ) → Words
compress w [] = w
compress w (b ∷ bs) = compress (transform w b) bs

pub compress-append :
    (w : Words) (bs : List (List ℕ)) (b : List ℕ)
    → compress w (bs ++ b ∷ []) ≡ transform (compress w bs) b
unfolding compress
compress-append w [] b = refl
compress-append w (c ∷ bs) b = compress-append (transform w c) bs b

-- Whole blocks.
abbrev pub AreBlocks : List (List ℕ) → Type 0
AreBlocks [] = Unit {0}
AreBlocks (b ∷ bs) = (length b ≡ 64) × AreBlocks bs

pub AreBlocks-append :
    (bs : List (List ℕ)) (b : List ℕ) → AreBlocks bs → length b ≡ 64 → AreBlocks (bs ++ b ∷ [])
AreBlocks-append [] b a h = (h, tt)
AreBlocks-append (c ∷ bs) b a h = (a.0, AreBlocks-append bs b a.1 h)

pub length-flatten_blocks :
    (bs : List (List ℕ)) → AreBlocks bs → length (flatten bs) ≡ 64 * length bs
unfolding flatten
length-flatten_blocks [] a = refl
length-flatten_blocks (b ∷ bs) a =
    omega (arith, length-append {0} b (flatten bs), length-flatten_blocks bs a.1)

pub flatten-append_block :
    (bs : List (List ℕ)) (b : List ℕ) → flatten (bs ++ b ∷ []) ≡ flatten bs ++ b
unfolding flatten
flatten-append_block [] b = append-nil b
flatten-append_block (c ∷ bs) b =
    ap (λ l. c ++ l) (flatten-append_block bs b) ∙ sym (append_assoc c (flatten bs) b)
