-- ===== src/Util/Swap.antt =====
-- `mc_swap64` turns the eight bytes of a number around.
use doorhinges.Base.{
  ℕ, zero, suc, ◌+◌, ◌*◌, ◌/◌, ◌%◌, ◌^◌, ◌≤◌, ◌<◌, ◌≡◌, refl, sym, ap, ◌∙◌, Bool, true, false, List,
  [], ◌∷◌, arith,
}
use doorhinges.Util.{swap_from, mc_swap64, ntohll, htonll}

-- The bytes of a number, the lowest first, and the number of such bytes.
abbrev pub bytes_of : ℕ → ℕ → List ℕ
bytes_of zero n = []
bytes_of (suc i) n = n % 256 ∷ bytes_of i (n / 256)

abbrev pub number : List ℕ → ℕ
number [] = 0
number (b ∷ bs) = b + 256 * number bs

-- The bytes turned around, in front of others.
abbrev pub turned : List ℕ → List ℕ → List ℕ
turned [] acc = acc
turned (b ∷ bs) acc = turned bs (b ∷ acc)

-- There are `i` bytes.
abbrev AreBytes : ℕ → List ℕ → Type 0
AreBytes zero [] = Unit {0}
AreBytes zero (b ∷ bs) = 1 ≤ 0
AreBytes (suc i) [] = 1 ≤ 0
AreBytes (suc i) (b ∷ bs) = (b < 256) × AreBytes i bs

bytes_of-number : (i : ℕ) (bs : List ℕ) → AreBytes i bs → bytes_of i (number bs) ≡ bs
bytes_of-number zero [] a = refl
bytes_of-number zero (b ∷ bs) a = absurd (omega (arith, a))
bytes_of-number (suc i) [] a = absurd (omega (arith, a))
bytes_of-number (suc i) (b ∷ bs) (small, a) =
    let low : (b + 256 * number bs) % 256 ≡ b = omega (arith, small) in
    let high : (b + 256 * number bs) / 256 ≡ number bs = omega (arith, small) in
    rw (low, high) (ap (λ l. b ∷ l) (bytes_of-number i bs a))

-- A number that has no more than `i` bytes.
abbrev Fits : ℕ → ℕ → Type 0
Fits zero n = n ≡ 0
Fits (suc i) n = Fits i (n / 256)

number-bytes_of : (i n : ℕ) → Fits i n → number (bytes_of i n) ≡ n
number-bytes_of zero n f = sym f
number-bytes_of (suc i) n f = omega (arith, number-bytes_of i (n / 256) f)

-- In a number below `b` there is room for `i` more bytes.
abbrev HasRoom : ℕ → ℕ → Type 0
HasRoom zero b = Unit {0}
HasRoom (suc i) b = (b * 256 ≤ 2 ^ 64) × HasRoom i (b * 256)

swap_from-turned :
    (i b n : ℕ) (acc : List ℕ)
    → number acc < b
    → HasRoom i b
    → swap_from i (number acc) n ≡ number (turned (bytes_of i n) acc)
unfolding swap_from
swap_from-turned zero b n acc below room = refl
swap_from-turned (suc i) b n acc below (fits, room) =
    let same : number acc * 2 ^ 8 % 2 ^ 64 + n % 256 ≡ number (n % 256 ∷ acc) =
      omega (arith, below, fits) in
    ap (λ r. swap_from i r (n / 256)) same
    ∙ swap_from-turned i (b * 256) (n / 256) (n % 256 ∷ acc) (omega (arith, below, fits)) room

pub mc_swap64-turned : (n : ℕ) → mc_swap64 true n ≡ number (turned (bytes_of 8 n) [])
unfolding mc_swap64
mc_swap64-turned n = swap_from-turned 8 1 n [] (omega arith) (
  omega arith,
  (
    omega arith,
    (omega arith, (omega arith, (omega arith, (omega arith, (omega arith, (omega arith, tt)))))),
  ),
)

turned-AreBytes : (n : ℕ) → AreBytes 8 (turned (bytes_of 8 n) [])
turned-AreBytes n = (
  omega arith,
  (
    omega arith,
    (omega arith, (omega arith, (omega arith, (omega arith, (omega arith, (omega arith, tt)))))),
  ),
)

-- On either kind of machine `ntohll` undoes `htonll`.
pub ntohll-htonll : (little : Bool) (n : ℕ) → n < 2 ^ 64 → ntohll little (htonll little n) ≡ n
unfolding ntohll htonll mc_swap64
ntohll-htonll false n below = refl
ntohll-htonll true n below =
    ap (mc_swap64 true) (mc_swap64-turned n)
    ∙ mc_swap64-turned (number (turned (bytes_of 8 n) []))
    ∙ ap (λ l. number (turned l []))
        (bytes_of-number 8 (turned (bytes_of 8 n) []) (turned-AreBytes n))
    ∙ number-bytes_of 8 n (omega arith)
