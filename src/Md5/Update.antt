-- ===== src/Md5/Update.antt =====
-- `MD5Update`: the message goes on with the bytes that it is given (ngix_module/AIS/allais.c).
use mathlib.Core.List.{flatten}
use doorhinges.Base.{
  ℕ, ◌+◌, ◌-◌, ◌/◌, ◌^◌, ◌≤◌, ◌<◌, ◌≡◌, refl, sym, ap, subst, ◌∙◌, List, [], ◌∷◌, ◌++◌,
  append_assoc, append-nil, arith, ltb, ltb→lt, ◌==◌, length, drop, length-append, Bool-cases, inl,
  inr, ==_iff, eq_nil_of_length,
}
use doorhinges.Base.{take}
use doorhinges.Md5.{
  Context, write_at, count_bits, add_block, add_blocks, update_at, md5_update, update_all,
}
use doorhinges.Md5.Blocks.{
  length-take, take-append-drop, take-write_at, length-write_at, write_at_end, AreBlocks-append,
  flatten-append_block,
}
use doorhinges.Md5.Held.{
  Holds, Counts, Absorbed, not_lt, count_bits-Counts, length-rest, add_block-words,
  add_blocks-Holds, bits-add_blocks,
}

module _ (msg buf : List ℕ) (ctx : Context) (small : length buf < 2 ^ 32)
    (a : Absorbed msg ctx) where
  abbrev h : Holds msg ctx
  h = a.holds

  abbrev counted : Context
  counted = count_bits (length buf) ctx

  counted-Counts : Counts (length (msg ++ buf)) counted
  counted-Counts =
      subst (λ n. Counts n counted) (sym (length-append {0} msg buf))
        (count_bits-Counts (length msg) (length buf) ctx small a.counts)

  message : msg ++ buf ≡ flatten h.blocks ++ (h.rest ++ buf)
  message = ap (λ l. l ++ buf) h.message ∙ append_assoc (flatten h.blocks) h.rest buf

  update_aligned :
      length h.rest ≡ 0 → Absorbed (msg ++ buf) (add_blocks (length buf / 64) buf counted)
  unfolding count_bits
  update_aligned none = record {
    holds =
        subst (λ m. Holds m (add_blocks (length buf / 64) buf counted))
          (sym (message ∙ ap (λ l. flatten h.blocks ++ (l ++ buf)) (eq_nil_of_length h.rest none)))
          (add_blocks-Holds (length buf / 64) buf counted h.blocks h.whole h.words h.size refl);
    counts = bits-add_blocks (length (msg ++ buf)) (length buf / 64) buf counted counted-Counts;
  }

  update_short :
      length h.rest + length buf < 64
      → Absorbed (msg ++ buf) (record counted { block = write_at (length h.rest) buf ctx.block })
  unfolding count_bits
  update_short fits = record {
    holds = record {
      blocks = h.blocks;
      rest = h.rest ++ buf;
      whole = h.whole;
      short = omega (arith, length-append {0} h.rest buf);
      message = message;
      words = h.words;
      size = length-write_at (length h.rest) buf ctx.block (omega (arith, h.size)) ∙ h.size;
      held =
          ap (λ (n : ℕ). take n (write_at (length h.rest) buf ctx.block))
            (length-append {0} h.rest buf)
          ∙ take-write_at (length h.rest) buf ctx.block (omega (arith, h.size))
          ∙ ap (λ l. l ++ buf) h.held;
    };
    counts = record { low = counted-Counts.low; high = counted-Counts.high };
  }

  update_filled :
      64 ≤ length h.rest + length buf
      → let room = 64 - length h.rest in
        Absorbed (msg ++ buf) (
          add_blocks
            (length (drop room buf) / 64)
            (drop room buf)
            (add_block (write_at (length h.rest) (take room buf) ctx.block) counted))
  unfolding count_bits add_block
  update_filled enough =
      let room = 64 - length h.rest in
      let part = take room buf in
      let behind = drop room buf in
      let size : length part ≡ room = length-take room buf (omega arith) in
      let b = write_at (length h.rest) part ctx.block in
      let same : b ≡ h.rest ++ part =
        write_at_end (length h.rest) part ctx.block (omega (arith, size, h.size, h.short))
        ∙ ap (λ l. l ++ part) h.held in
      let long : length b ≡ 64 =
        length-write_at (length h.rest) part ctx.block (omega (arith, size, h.size, h.short))
        ∙ h.size in
      let whole : flatten (h.blocks ++ b ∷ []) ++ behind ≡ msg ++ buf =
        ap (λ l. l ++ behind) (flatten-append_block h.blocks b)
        ∙ ap (λ l. (flatten h.blocks ++ l) ++ behind) same
        ∙ append_assoc (flatten h.blocks) (h.rest ++ part) behind
        ∙ ap (λ l. flatten h.blocks ++ l) (append_assoc h.rest part behind)
        ∙ ap (λ l. flatten h.blocks ++ (h.rest ++ l)) (take-append-drop room buf)
        ∙ sym message in
      let next = add_block b counted in
      record {
        holds =
            subst (λ m. Holds m (add_blocks (length behind / 64) behind next)) whole
              (add_blocks-Holds (length behind / 64) behind next (h.blocks ++ b ∷ [])
                (AreBlocks-append h.blocks b h.whole long)
                (add_block-words h.blocks b counted h.words) long refl);
        counts =
            bits-add_blocks (length (msg ++ buf)) (length behind / 64) behind next
              (record { low = counted-Counts.low; high = counted-Counts.high });
      }

  update_at-Absorbed : Absorbed (msg ++ buf) (update_at (length h.rest) ctx buf)
  unfolding update_at
  update_at-Absorbed = elim (Bool-cases (length h.rest == 0)) [
    | inl none ↦ rw none (update_aligned ((==_iff (length h.rest) 0).0 none))
    | inr some_rest ↦ elim (Bool-cases (ltb (length buf) (64 - length h.rest))) [
      | inl fits ↦
          rw (some_rest, fits)
            (update_short (omega (arith, ltb→lt (length buf) (64 - length h.rest) fits)))
      | inr fills ↦
          rw (some_rest, fills)
            (update_filled (omega (arith, not_lt (length buf) (64 - length h.rest) fills)))
    ]
  ]

  -- `MD5Update` takes in what it is given: the message goes on with it.
  pub md5_update-Absorbed : Absorbed (msg ++ buf) (md5_update ctx buf)
  unfolding md5_update
  md5_update-Absorbed =
      subst (λ t. Absorbed (msg ++ buf) (update_at t ctx buf)) (sym (length-rest msg ctx a))
        update_at-Absorbed

-- Each part is short of 2 ^ 32 bytes.
abbrev pub AreShort : List (List ℕ) → Type 0
AreShort [] = Unit {0}
AreShort (p ∷ ps) = (length p < 2 ^ 32) × AreShort ps

pub update_all-Absorbed :
    (msg : List ℕ) (parts : List (List ℕ)) (ctx : Context)
    → AreShort parts
    → Absorbed msg ctx
    → Absorbed (msg ++ flatten parts) (update_all parts ctx)
unfolding update_all flatten
update_all-Absorbed msg [] ctx small a = subst (λ m. Absorbed m ctx) (sym (append-nil msg)) a
update_all-Absorbed msg (p ∷ ps) ctx small a =
    subst (λ m. Absorbed m (update_all ps (md5_update ctx p))) (append_assoc msg p (flatten ps))
      (update_all-Absorbed (msg ++ p) ps (md5_update ctx p) small.1
        (md5_update-Absorbed msg p ctx small.0 a))
