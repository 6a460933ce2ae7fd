-- ===== src/Md5/Held.antt =====
-- What a context of MD5 holds of a message, and what whole blocks add to it (ngix_module/AIS/allais.c).
use mathlib.Core.List.{flatten}
use doorhinges.Base.{
  ℕ, zero, suc, ◌+◌, ◌*◌, ◌/◌, ◌%◌, ◌^◌, ◌≤◌, ◌<◌, ◌≡◌, refl, sym, ap, subst, ◌∙◌, false, List, [],
  ◌∷◌, ◌++◌, append_assoc, arith, ltb, ltb→lt, length, drop, length-append, Bool-cases, inl, inr,
}
use doorhinges.Base.{take}
use doorhinges.Md5.{
  Context, add32, transform, initial, init, write_at, count_bits, add_block, add_blocks,
}
use doorhinges.Md5.Blocks.{
  length-take, length-drop, take-append-drop, take-write_at, length-write_at, write_at_end,
  compress, compress-append, AreBlocks, AreBlocks-append, length-flatten_blocks,
  flatten-append_block,
}

-- The words are those after the whole blocks of the message, and the block begins with the rest.
pub record Holds (msg : List ℕ) (ctx : Context) : Type 0 where
  pub blocks : List (List ℕ)
  pub rest : List ℕ
  pub whole : AreBlocks blocks
  pub short : length rest < 64
  pub message : msg ≡ flatten blocks ++ rest
  pub words : ctx.buf ≡ compress initial blocks
  pub size : length ctx.block ≡ 64
  pub held : take (length rest) ctx.block ≡ rest

-- The bits of the message, in two words.
pub record Counts (n : ℕ) (ctx : Context) : Type 0 where
  pub low : ctx.bits0 ≡ 8 * n % 2 ^ 32
  pub high : ctx.bits1 ≡ 8 * n / 2 ^ 32 % 2 ^ 32

pub record Absorbed (msg : List ℕ) (ctx : Context) : Type 0 where
  pub holds : Holds msg ctx
  pub counts : Counts (length msg) ctx

pub init-Absorbed : (stack : List ℕ) → length stack ≡ 64 → Absorbed [] (init stack)
unfolding init compress flatten
init-Absorbed stack h = record {
  holds = record {
    blocks = [];
    rest = [];
    whole = tt;
    short = omega arith;
    message = refl;
    words = refl;
    size = h;
    held = refl;
  };
  counts = record { low = refl; high = refl };
}

pub not_lt : (a b : ℕ) → ltb a b ≡ false → b ≤ a
not_lt a b h = ground arith

pub count_bits-Counts :
    (n len : ℕ) (ctx : Context)
    → len < 2 ^ 32
    → Counts n ctx
    → Counts (n + len) (count_bits len ctx)
unfolding count_bits
count_bits-Counts n len ctx h k = record { low = omega (arith, k.low); high = high }
  where
    high : (count_bits len ctx).bits1 ≡ 8 * (n + len) / 2 ^ 32 % 2 ^ 32
    high = elim (Bool-cases (ltb (add32 ctx.bits0 (len * 2 ^ 3 % 2 ^ 32)) ctx.bits0)) [
      | inl carry ↦ rw carry (omega (arith, k.low, k.high, ltb→lt _ _ carry))
      | inr no_carry ↦ rw no_carry (omega (arith, k.low, k.high, not_lt _ _ no_carry))
    ]

-- The bytes that the block holds, by the count.
pub length-rest :
    (msg : List ℕ) (ctx : Context) (a : Absorbed msg ctx)
    → ctx.bits0 / 2 ^ 3 % 64 ≡ length a.holds.rest
length-rest msg ctx a = omega (
  arith,
  a.counts.low,
  ap length a.holds.message,
  length-append {0} (flatten a.holds.blocks) a.holds.rest,
  length-flatten_blocks a.holds.blocks a.holds.whole,
  a.holds.short,
)

module _ (bs : List (List ℕ)) where
  -- A whole block more.
  pub add_block-words :
      (b : List ℕ) (ctx : Context)
      → ctx.buf ≡ compress initial bs
      → (add_block b ctx).buf ≡ compress initial (bs ++ b ∷ [])
  unfolding add_block
  add_block-words b ctx w = ap (λ v. transform v b) w ∙ sym (compress-append initial bs b)

pub add_blocks-Holds :
    (turns : ℕ) (buf : List ℕ) (ctx : Context) (bs : List (List ℕ))
    → AreBlocks bs
    → ctx.buf ≡ compress initial bs
    → length ctx.block ≡ 64
    → length buf / 64 ≡ turns
    → Holds (flatten bs ++ buf) (add_blocks turns buf ctx)
unfolding add_blocks
add_blocks-Holds zero buf ctx bs whole words size e = record {
  blocks = bs;
  rest = buf;
  whole = whole;
  short = omega (arith, e);
  message = refl;
  words = words;
  size = length-write_at 0 buf ctx.block (omega (arith, e, size)) ∙ size;
  held =
      ap (λ (n : ℕ). take n (write_at 0 buf ctx.block)) zero_add
      ∙ take-write_at 0 buf ctx.block (omega arith);
}
  where
    zero_add : length buf ≡ 0 + length buf
    zero_add = omega arith
add_blocks-Holds (suc turns) buf ctx bs whole words size e =
    let b = take 64 buf in
    let long : length b ≡ 64 = length-take 64 buf (omega (arith, e)) in
    let same : write_at 0 b ctx.block ≡ b =
      write_at_end 0 b ctx.block (omega (arith, long, size)) in
    let behind : flatten (bs ++ b ∷ []) ++ drop 64 buf ≡ flatten bs ++ buf =
      ap (λ l. l ++ drop 64 buf) (flatten-append_block bs b)
      ∙ append_assoc (flatten bs) b (drop 64 buf)
      ∙ ap (λ l. flatten bs ++ l) (take-append-drop 64 buf) in
    subst (λ c. Holds (flatten bs ++ buf) (add_blocks turns (drop 64 buf) (add_block c ctx)))
      (sym same)
      (subst (λ m. Holds m (add_blocks turns (drop 64 buf) (add_block b ctx))) behind
        (add_blocks-Holds turns (drop 64 buf) (add_block b ctx) (bs ++ b ∷ [])
          (AreBlocks-append bs b whole long) (add_block-words bs b ctx words) long
          (omega (arith, e, length-drop 64 buf))))

pub bits-add_blocks :
    (n turns : ℕ) (buf : List ℕ) (ctx : Context)
    → Counts n ctx
    → Counts n (add_blocks turns buf ctx)
unfolding add_blocks
bits-add_blocks n zero buf ctx k = record { low = k.low; high = k.high }
bits-add_blocks n (suc turns) buf ctx k =
    bits-add_blocks n turns (drop 64 buf) (add_block (write_at 0 (take 64 buf) ctx.block) ctx)
      (record { low = k.low; high = k.high })
