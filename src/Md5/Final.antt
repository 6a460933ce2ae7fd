-- ===== src/Md5/Final.antt =====
-- `MD5Final`: the digest is that of the padded message.
use mathlib.Core.List.{flatten}
use doorhinges.Base.{
  ℕ, zero, suc, ◌+◌, ◌-◌, ◌*◌, ◌/◌, ◌%◌, ◌^◌, ◌≤◌, ◌<◌, ◌≡◌, refl, sym, ap, ap₂, subst, ◌∙◌, true,
  false, List, [], ◌∷◌, ◌++◌, append_assoc, arith, ltb, ltb→lt, length, length-append, Bool-cases,
  inl, inr, replicate, length-replicate,
}
use doorhinges.Base.{take}
use doorhinges.Md5.{
  Context, transform, initial, init, write_at, final_at, le_bytes, digest_of, md5_update, md5_final,
  bin2str, update_all, ais_md5,
}
use doorhinges.Md5.Blocks.{
  take_whole, take-write_at, length-write_at, write_at_end, compress, compress-append, AreBlocks,
  AreBlocks-append, length-flatten_blocks, flatten-append_block,
}
use doorhinges.Md5.Update.{AreShort, md5_update-Absorbed, update_all-Absorbed}
use doorhinges.Md5.Held.{not_lt, Holds, Absorbed, init-Absorbed, length-rest}

-- The padding of RFC 1321: a byte 0x80, zeros up to eight bytes before the end of a block, and the
-- number of the bits in eight bytes with the lowest first.
abbrev pub padded : List ℕ → List ℕ
padded msg =
    msg
    ++ (0x80 ∷ replicate ((119 - length msg % 64) % 64) 0)
    ++ (le_bytes (8 * length msg % 2 ^ 32) ++ le_bytes (8 * length msg / 2 ^ 32 % 2 ^ 32))

-- The digest of a message by its blocks.
abbrev pub IsDigest : List ℕ → List ℕ → Type 0
IsDigest msg d =
    (blocks : List (List ℕ)) × AreBlocks blocks
    × (flatten blocks ≡ padded msg)
    × (d ≡ digest_of (compress initial blocks))

module _ (rest block : List ℕ) (short : length rest < 64) (size : length block ≡ 64)
    (held : take (length rest) block ≡ rest) where
  abbrev t : ℕ
  t = length rest

  abbrev marked : List ℕ
  marked = write_at t (0x80 ∷ []) block

  marked-take : take (t + 1) marked ≡ rest ++ 0x80 ∷ []
  marked-take =
      take-write_at t (0x80 ∷ []) block (omega (arith, short, size)) ∙ ap (λ l. l ++ 0x80 ∷ []) held

  length-marked : length marked ≡ 64
  length-marked = length-write_at t (0x80 ∷ []) block (omega (arith, short, size)) ∙ size

  -- Zeros behind the mark.
  zeros-take :
      (n : ℕ)
      → t + 1 + n ≤ 64
      → take (t + 1 + n) (write_at (t + 1) (replicate n 0) marked)
        ≡ (rest ++ 0x80 ∷ []) ++ replicate n 0
  zeros-take n fits =
      ap (λ (k : ℕ). take (t + 1 + k) (write_at (t + 1) (replicate n 0) marked))
        (sym (length-replicate {A = ℕ} n 0))
      ∙ take-write_at (t + 1) (replicate n 0) marked (omega (arith, length-marked))
      ∙ ap (λ l. l ++ replicate n 0) marked-take

  length-zeros : (n : ℕ) → t + 1 + n ≤ 64 → length (write_at (t + 1) (replicate n 0) marked) ≡ 64
  length-zeros n fits =
      length-write_at (t + 1) (replicate n 0) marked
        (omega (arith, length-marked, length-replicate {A = ℕ} n 0))
      ∙ length-marked

-- The count of the bits at the end of a block.
last_words :
    (block : List ℕ) (low high : ℕ)
    → length block ≡ 64
    → write_at 60 (le_bytes high) (write_at 56 (le_bytes low) block)
      ≡ take 56 block ++ (le_bytes low ++ le_bytes high)
unfolding le_bytes
last_words block low high size =
    let one = write_at 56 (le_bytes low) block in
    let long : length one ≡ 64 =
      length-write_at 56 (le_bytes low) block (omega (arith, size)) ∙ size in
    write_at_end 60 (le_bytes high) one (omega (arith, long))
    ∙ ap (λ l. l ++ le_bytes high) (take-write_at 56 (le_bytes low) block (omega (arith, size)))
    ∙ append_assoc (take 56 block) (le_bytes low) (le_bytes high)

length-last :
    (block : List ℕ) (low high : ℕ)
    → length block ≡ 64
    → length (write_at 60 (le_bytes high) (write_at 56 (le_bytes low) block)) ≡ 64
unfolding le_bytes
length-last block low high size =
    let one = length-write_at 56 (le_bytes low) block (omega (arith, size)) ∙ size in
    length-write_at 60 (le_bytes high) (write_at 56 (le_bytes low) block) (omega (arith, one)) ∙ one

replicate-append : (m n k : ℕ) → m + n ≡ k → replicate {A = ℕ} k 0 ≡ replicate m 0 ++ replicate n 0
replicate-append zero n k e = ap (λ (j : ℕ). replicate {A = ℕ} j 0) (omega (arith, e))
replicate-append (suc m) n zero e = absurd (omega (arith, e))
replicate-append (suc m) n (suc k) e = ap (λ l. 0 ∷ l) (replicate-append m n k (omega (arith, e)))

regroup : (f c z y l : List ℕ) → (f ++ (c ++ z)) ++ (y ++ l) ≡ f ++ ((c ++ (z ++ y)) ++ l)
regroup f c z y l = simp (append_assoc)

module _ (msg : List ℕ) (ctx : Context) (a : Absorbed msg ctx) where
  abbrev h : Holds msg ctx
  h = a.holds

  abbrev used : ℕ
  used = length h.rest

  abbrev lengths : List ℕ
  lengths = le_bytes ctx.bits0 ++ le_bytes ctx.bits1

  used_mod : length msg % 64 ≡ used
  used_mod = omega (
    arith,
    ap length h.message,
    length-append {0} (flatten h.blocks) h.rest,
    length-flatten_blocks h.blocks h.whole,
    h.short,
  )

  -- The padded message by what the context holds.
  padded_lem :
      (n : ℕ)
      → (119 - used) % 64 ≡ n
      → padded msg ≡ flatten h.blocks ++ (((h.rest ++ 0x80 ∷ []) ++ replicate n 0) ++ lengths)
  padded_lem n e =
      let zeros : (119 - length msg % 64) % 64 ≡ n = ap (λ (u : ℕ). (119 - u) % 64) used_mod ∙ e in
      ap
        (λ (z : ℕ).
          msg
          ++ (0x80 ∷ replicate z 0)
          ++ (le_bytes (8 * length msg % 2 ^ 32) ++ le_bytes (8 * length msg / 2 ^ 32 % 2 ^ 32)))
        zeros
      ∙ ap₂ (λ lo hi. msg ++ (0x80 ∷ replicate n 0) ++ (le_bytes lo ++ le_bytes hi))
          (sym a.counts.low) (sym a.counts.high)
      ∙ ap (λ m. m ++ (0x80 ∷ replicate n 0) ++ lengths) h.message
      ∙ simp (append_assoc)

  abbrev mark : List ℕ
  mark = write_at used (0x80 ∷ []) ctx.block

  -- The count fits behind the mark.
  final_one : (test : ltb (63 - used) 8 ≡ false) → IsDigest msg (final_at used ctx)
  unfolding final_at
  final_one test =
      let n = 63 - used - 8 in
      let room : 8 ≤ 63 - used = not_lt (63 - used) 8 test in
      let cleared = write_at (used + 1) (replicate n 0) mark in
      let last = write_at 60 (le_bytes ctx.bits1) (write_at 56 (le_bytes ctx.bits0) cleared) in
      let size = length-zeros h.rest ctx.block h.short h.size h.held n (omega (arith, room)) in
      let upto : used + 1 + n ≡ 56 = omega (arith, room) in
      let same : last ≡ ((h.rest ++ 0x80 ∷ []) ++ replicate n 0) ++ lengths =
        last_words cleared ctx.bits0 ctx.bits1 size
        ∙ ap (λ (k : ℕ). take k cleared ++ lengths) (sym upto)
        ∙ ap (λ l. l ++ lengths)
            (zeros-take h.rest ctx.block h.short h.size h.held n (omega (arith, room))) in
      (
        h.blocks ++ last ∷ [],
        AreBlocks-append h.blocks last h.whole (length-last cleared ctx.bits0 ctx.bits1 size),
        flatten-append_block h.blocks last
            ∙ ap (λ l. flatten h.blocks ++ l) same
            ∙ sym (padded_lem n (omega (arith, room, h.short))),
        rw test (
            ap (λ w. digest_of (transform w last)) h.words
            ∙ ap digest_of (sym (compress-append initial h.blocks last))),
      )

  -- The count takes a block of its own.
  final_two : (test : ltb (63 - used) 8 ≡ true) → IsDigest msg (final_at used ctx)
  unfolding final_at
  final_two test =
      let n = 63 - used in
      let full : 63 - used < 8 = ltb→lt (63 - used) 8 test in
      let first = write_at (used + 1) (replicate n 0) mark in
      let size = length-zeros h.rest ctx.block h.short h.size h.held n (omega (arith, h.short)) in
      let upto : used + 1 + n ≡ 64 = omega (arith, h.short) in
      let same : first ≡ (h.rest ++ 0x80 ∷ []) ++ replicate n 0 =
        sym (take_whole first)
        ∙ ap (λ (k : ℕ). take k first) (size ∙ sym upto)
        ∙ zeros-take h.rest ctx.block h.short h.size h.held n (omega (arith, h.short)) in
      let blank : List ℕ = replicate 56 0 in
      let cleared = write_at 0 blank first in
      let last = write_at 60 (le_bytes ctx.bits1) (write_at 56 (le_bytes ctx.bits0) cleared) in
      let size' : length cleared ≡ 64 =
        length-write_at 0 blank first (omega (arith, size)) ∙ size in
      let same' : last ≡ blank ++ lengths =
        last_words cleared ctx.bits0 ctx.bits1 size'
        ∙ ap (λ l. l ++ lengths) (take-write_at 0 blank first (omega arith)) in
      (
        (h.blocks ++ first ∷ []) ++ last ∷ [],
        AreBlocks-append (h.blocks ++ first ∷ []) last
            (AreBlocks-append h.blocks first h.whole size)
            (length-last cleared ctx.bits0 ctx.bits1 size'),
        flatten-append_block (h.blocks ++ first ∷ []) last
            ∙ ap (λ l. l ++ last) (flatten-append_block h.blocks first)
            ∙ ap₂ (λ l m. (flatten h.blocks ++ l) ++ m) same same'
            ∙ regroup (flatten h.blocks) (h.rest ++ 0x80 ∷ []) (replicate n 0) blank lengths
            ∙ ap (λ z. flatten h.blocks ++ (((h.rest ++ 0x80 ∷ []) ++ z) ++ lengths))
                (sym (replicate-append n 56 (119 - used) (omega (arith, h.short))))
            ∙ sym (padded_lem (119 - used) (omega (arith, full))),
        rw test (
            ap (λ w. digest_of (transform (transform w first) last)) h.words
            ∙ ap (λ w. digest_of (transform w last)) (sym (compress-append initial h.blocks first))
            ∙ ap digest_of (sym (compress-append initial (h.blocks ++ first ∷ []) last))),
      )

  -- `MD5Final` of a context that has taken in a message.
  pub md5_final-IsDigest : IsDigest msg (md5_final ctx)
  unfolding md5_final
  md5_final-IsDigest =
      subst (λ t. IsDigest msg (final_at t ctx)) (sym (length-rest msg ctx a))
        (elim (Bool-cases (ltb (63 - used) 8)) [
          | inl full ↦ final_two full
          | inr room ↦ final_one room
        ])

-- `ais_md5` is the text of the MD5 digest of the parts one behind the other and of `ads`, each shorter
-- than 2 ^ 32 bytes: the digest is that of the blocks of the message with the padding and the number of
-- bits, modulo 2 ^ 64, that RFC 1321 puts behind it.
pub ais_md5-IsDigest :
    (stack : List ℕ) (parts : List (List ℕ)) (ads : List ℕ)
    → length stack ≡ 64
    → AreShort parts
    → length ads < 2 ^ 32
    → (d : List ℕ) × (ais_md5 stack parts ads ≡ bin2str d) × IsDigest (flatten parts ++ ads) d
unfolding ais_md5
ais_md5-IsDigest stack parts ads size small short =
    let ctx = update_all parts (init stack) in
    let a = update_all-Absorbed [] parts (init stack) small (init-Absorbed stack size) in
    (
      md5_final (md5_update ctx ads),
      refl,
      md5_final-IsDigest (flatten parts ++ ads) (md5_update ctx ads)
          (md5_update-Absorbed (flatten parts) ads ctx short a),
    )
