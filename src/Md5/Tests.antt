-- ===== src/Md5/Tests.antt =====
-- The digests of RFC 1321.
use mathlib.Core.List.{flatten}
use doorhinges.Base.{ℕ, ◌≡◌, refl, List, [], ◌∷◌, ◌++◌, arith, replicate}
use doorhinges.Md5.{
  init, update_all, md5_update, update_at, count_bits, write_at, add_block, add_blocks, md5_final,
  final_at, transform, digest_of, le_bytes, bin2str, ais_md5,
}
use doorhinges.Md5.Rounds.{mix}
use doorhinges.Md5.Final.{IsDigest, ais_md5-IsDigest}

abbrev no_stack : List ℕ
no_stack = replicate 64 0

abbrev ab : List ℕ
ab = 97 ∷ 98 ∷ []

-- "900150983cd24fb0d6963f7d28e17f72"
abbrev abc_digest : List ℕ
abc_digest =
    57 ∷ 48 ∷ 48 ∷ 49 ∷ 53 ∷ 48 ∷ 57 ∷ 56 ∷ 51 ∷ 99 ∷ 100 ∷ 50 ∷ 52 ∷ 102 ∷ 98 ∷ 48 ∷ 100 ∷ 54 ∷ 57
    ∷ 54 ∷ 51 ∷ 102 ∷ 55 ∷ 100 ∷ 50 ∷ 56 ∷ 101 ∷ 49 ∷ 55 ∷ 102 ∷ 55 ∷ 50 ∷ []

-- "abc", in two parts.
md5_abc : ais_md5 no_stack (ab ∷ []) (99 ∷ []) ≡ abc_digest
unfolding ais_md5 init update_all md5_update update_at count_bits write_at add_block add_blocks
    md5_final final_at transform digest_of le_bytes bin2str mix
md5_abc = refl

ais_md5-IsDigest_example :
    (d : List ℕ) × (ais_md5 no_stack (ab ∷ []) (99 ∷ []) ≡ bin2str d)
    × IsDigest (flatten (ab ∷ []) ++ 99 ∷ []) d
ais_md5-IsDigest_example =
    ais_md5-IsDigest no_stack (ab ∷ []) (99 ∷ []) refl (omega arith, tt) (omega arith)
