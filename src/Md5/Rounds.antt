-- ===== src/Md5/Rounds.antt =====
-- The steps of `MD5Transform` in ngix_module/AIS/allais.c.
use doorhinges.Base.{ℕ, ◌-◌, ◌^◌, List, [], ◌∷◌}
use Prim.Native.Nat.{bit_and, bit_or, bit_xor}

-- `F1` to `F4`.
pub data Mix : Type 0 where
  f1 : Mix
  f2 : Mix
  f3 : Mix
  f4 : Mix

-- `~z` of a `uint32_t`.
abbrev pub complement : ℕ → ℕ
complement z = 2 ^ 32 - 1 - z

unfoldable pub mix : Mix → ℕ → ℕ → ℕ → ℕ
mix f1 x y z = bit_xor z (bit_and x (bit_xor y z))
mix f2 x y z = bit_xor y (bit_and z (bit_xor x y))
mix f3 x y z = bit_xor (bit_xor x y) z
mix f4 x y z = bit_xor y (bit_or x (complement z))

-- A call of `MD5STEP`: the function, the word of the block, its constant, and the rotation.
pub record Step : Type 0 where
  pub f : Mix
  pub word : ℕ
  pub constant : ℕ
  pub shift : ℕ

abbrev pub step : Mix → ℕ → ℕ → ℕ → Step
step f word constant shift = record { f = f; word = word; constant = constant; shift = shift }

abbrev pub first_round : List Step
first_round =
    step f1 0 0xd76aa478 7
    ∷ step f1 1 0xe8c7b756 12
    ∷ step f1 2 0x242070db 17
    ∷ step f1 3 0xc1bdceee 22
    ∷ step f1 4 0xf57c0faf 7
    ∷ step f1 5 0x4787c62a 12
    ∷ step f1 6 0xa8304613 17
    ∷ step f1 7 0xfd469501 22
    ∷ step f1 8 0x698098d8 7
    ∷ step f1 9 0x8b44f7af 12
    ∷ step f1 10 0xffff5bb1 17
    ∷ step f1 11 0x895cd7be 22
    ∷ step f1 12 0x6b901122 7
    ∷ step f1 13 0xfd987193 12
    ∷ step f1 14 0xa679438e 17
    ∷ step f1 15 0x49b40821 22
    ∷ []

abbrev pub second_round : List Step
second_round =
    step f2 1 0xf61e2562 5
    ∷ step f2 6 0xc040b340 9
    ∷ step f2 11 0x265e5a51 14
    ∷ step f2 0 0xe9b6c7aa 20
    ∷ step f2 5 0xd62f105d 5
    ∷ step f2 10 0x02441453 9
    ∷ step f2 15 0xd8a1e681 14
    ∷ step f2 4 0xe7d3fbc8 20
    ∷ step f2 9 0x21e1cde6 5
    ∷ step f2 14 0xc33707d6 9
    ∷ step f2 3 0xf4d50d87 14
    ∷ step f2 8 0x455a14ed 20
    ∷ step f2 13 0xa9e3e905 5
    ∷ step f2 2 0xfcefa3f8 9
    ∷ step f2 7 0x676f02d9 14
    ∷ step f2 12 0x8d2a4c8a 20
    ∷ []

abbrev pub third_round : List Step
third_round =
    step f3 5 0xfffa3942 4
    ∷ step f3 8 0x8771f681 11
    ∷ step f3 11 0x6d9d6122 16
    ∷ step f3 14 0xfde5380c 23
    ∷ step f3 1 0xa4beea44 4
    ∷ step f3 4 0x4bdecfa9 11
    ∷ step f3 7 0xf6bb4b60 16
    ∷ step f3 10 0xbebfbc70 23
    ∷ step f3 13 0x289b7ec6 4
    ∷ step f3 0 0xeaa127fa 11
    ∷ step f3 3 0xd4ef3085 16
    ∷ step f3 6 0x04881d05 23
    ∷ step f3 9 0xd9d4d039 4
    ∷ step f3 12 0xe6db99e5 11
    ∷ step f3 15 0x1fa27cf8 16
    ∷ step f3 2 0xc4ac5665 23
    ∷ []

abbrev pub fourth_round : List Step
fourth_round =
    step f4 0 0xf4292244 6
    ∷ step f4 7 0x432aff97 10
    ∷ step f4 14 0xab9423a7 15
    ∷ step f4 5 0xfc93a039 21
    ∷ step f4 12 0x655b59c3 6
    ∷ step f4 3 0x8f0ccc92 10
    ∷ step f4 10 0xffeff47d 15
    ∷ step f4 1 0x85845dd1 21
    ∷ step f4 8 0x6fa87e4f 6
    ∷ step f4 15 0xfe2ce6e0 10
    ∷ step f4 6 0xa3014314 15
    ∷ step f4 13 0x4e0811a1 21
    ∷ step f4 4 0xf7537e82 6
    ∷ step f4 11 0xbd3af235 10
    ∷ step f4 2 0x2ad7d2bb 15
    ∷ step f4 9 0xeb86d391 21
    ∷ []
