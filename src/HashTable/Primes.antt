-- ===== src/HashTable/Primes.antt =====
-- `eg_prime_list` and `eg_next_prime` of ngix_module/AIS/hashtable.h and hashtable.c: the sizes of
-- the `eg_ht_*` tables.
use doorhinges.Base.{
  ℕ, zero, suc, ◌+◌, ◌-◌, ◌/◌, ◌≤◌, ◌<◌, ◌≡◌, refl, Bool, true, false, ◌⊎◌, inl, inr, List, [], ◌∷◌,
  arith, get_or, ltb, leb, ◌==◌, if◌then◌else◌, Bool-cases, leb→le, ==_iff, ltb→lt,
}

-- `EG_NUM_PRIMES`
abbrev pub num_primes : ℕ
num_primes = 28

abbrev pub eg_prime_list : List ℕ
eg_prime_list =
    53 ∷ 97 ∷ 193 ∷ 389 ∷ 769 ∷ 1543 ∷ 3079 ∷ 6151 ∷ 12289 ∷ 24593 ∷ 49157 ∷ 98317 ∷ 196613 ∷ 393241
    ∷ 786433 ∷ 1572869 ∷ 3145739 ∷ 6291469 ∷ 12582917 ∷ 25165843 ∷ 50331653 ∷ 100663319 ∷ 201326611
    ∷ 402653189 ∷ 805306457 ∷ 1610612741 ∷ 3221225473 ∷ 4294967291 ∷ []

pub prime_at : ℕ → ℕ
prime_at i = get_or eg_prime_list i 0

-- The loop of `eg_next_prime` over `f`, as an index, and `len`. It halves `len`: fuel 28 is enough.
pub search_primes : ℕ → ℕ → ℕ → ℕ → ℕ
unfolding prime_at
search_primes zero n f len = f
search_primes (suc fuel) n f len =
    let half = len / 2 in
    let m = f + half in
    let right = search_primes fuel n (m + 1) (len - half - 1) in
    let left = search_primes fuel n f half in
    if ltb 0 len then (if ltb (prime_at m) n then right else left) else f

unfoldable pub eg_next_prime : ℕ → ℕ
unfolding search_primes
eg_next_prime n = prime_at (search_primes num_primes n 0 (num_primes - 1))

-- Whether a test holds of the first numbers.
passes : (ℕ → Bool) → ℕ → Bool
passes test zero = true
passes test (suc m) = if test m then passes test m else false

passes_at : (test : ℕ → Bool) (j m : ℕ) → j < m → passes test m ≡ true → test j ≡ true
unfolding passes
passes_at test j zero small all = absurd (omega arith)
passes_at test j (suc m) small all = ground (arith, passes_at test j m)

primes_sorted : passes (λ j. leb (prime_at j) (prime_at (j + 1))) 27 ≡ true
unfolding passes prime_at
primes_sorted = refl

prime_at_step : (i : ℕ) → i < 27 → prime_at i ≤ prime_at (i + 1)
prime_at_step i h =
    leb→le (prime_at i) (prime_at (i + 1))
      (passes_at (λ j. leb (prime_at j) (prime_at (j + 1))) i 27 h primes_sorted)

-- The list is sorted.
prime_at_mono : (d i k : ℕ) → i + d ≡ k → k ≤ 27 → prime_at i ≤ prime_at k
prime_at_mono zero i k e h = let same : i ≡ k = omega arith in rw same (omega arith)
prime_at_mono (suc d) i k e h =
    omega (arith, prime_at_step i (omega arith), prime_at_mono d (i + 1) k (omega arith) h)

-- All before the index are less than `n`, and the prime there is not, unless it is the last.
pub record IsLower (n i : ℕ) : Type 0 where
  pub bound : i ≤ 27
  pub below : (j : ℕ) → j < i → prime_at j < n
  pub reached : (i ≡ 27) ⊎ (n ≤ prime_at i)

search_primes-IsLower :
    (fuel n f len : ℕ)
    → len ≤ fuel
    → f + len ≤ 27
    → ((j : ℕ) → j < f → prime_at j < n)
    → (f + len ≡ 27) ⊎ (n ≤ prime_at (f + len))
    → IsLower n (search_primes fuel n f len)
unfolding search_primes
search_primes-IsLower zero n f len enough fits low high =
    let e : f + len ≡ f = omega arith in
    record { bound = omega arith; below = low; reached = rw e at high }
search_primes-IsLower (suc fuel) n f len enough fits low high = elim (Bool-cases (ltb 0 len)) [
  | inr done ↦
      let e : f + len ≡ f = ground arith in
      rw done (record { bound = omega arith; below = low; reached = rw e at high })
  | inl more ↦ elim (Bool-cases (ltb (prime_at (f + len / 2)) n)) [
    | inl less ↦
        let middle : prime_at (f + len / 2) < n = ltb→lt _ _ less in
        let some_left : 0 < len = ltb→lt _ _ more in
        let e : f + len / 2 + 1 + (len - len / 2 - 1) ≡ f + len = omega arith in
        rw (more, less)
          (search_primes-IsLower fuel n (f + len / 2 + 1) (len - len / 2 - 1) (omega arith)
            (omega arith)
            (λ j h.
              omega (
                arith,
                prime_at_mono (f + len / 2 - j) j (f + len / 2) (omega arith) (omega arith),
              ))
            (rw e high))
    | inr right ↦
        let some_left : 0 < len = ltb→lt _ _ more in
        rw (more, right)
          (search_primes-IsLower fuel n f (len / 2) (omega arith) (omega arith) low
            (inr (ground arith)))
  ]
]

-- `eg_next_prime n` is the first prime of the list that is not less than `n`, and the last one
-- where all are less.
pub eg_next_prime-IsLower : (n : ℕ) → (i : ℕ) × (eg_next_prime n ≡ prime_at i) × IsLower n i
unfolding eg_next_prime
eg_next_prime-IsLower n = (
  search_primes num_primes n 0 (num_primes - 1),
  refl,
  search_primes-IsLower 28 n 0 27 (omega arith) (omega arith) (λ j h. absurd (omega arith))
      (inl (omega arith)),
)

primes_fixed : passes (λ j. eg_next_prime (prime_at j) == prime_at j) 28 ≡ true
unfolding passes eg_next_prime prime_at
primes_fixed = refl

-- The size that `eg_next_prime` gives is its own next size: a table of such a size never gets
-- another one from it.
pub eg_next_prime_idem : (n : ℕ) → eg_next_prime (eg_next_prime n) ≡ eg_next_prime n
eg_next_prime_idem n =
    let (i, e, lower) = eg_next_prime-IsLower n in
    rw e (
      (==_iff _ _).0 (
        passes_at (λ j. eg_next_prime (prime_at j) == prime_at j) i 28 (omega (arith, lower.bound))
          primes_fixed))

first_prime : prime_at 0 ≡ 53
unfolding prime_at
first_prime = refl

pub eg_next_prime_pos : (n : ℕ) → 0 < eg_next_prime n
eg_next_prime_pos n =
    let (i, e, lower) = eg_next_prime-IsLower n in
    omega (arith, e, first_prime, prime_at_mono i 0 i (omega arith) lower.bound)
