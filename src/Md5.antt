-- ===== src/Md5.antt =====
-- MD5 in ngix_module/AIS/allais.c: `MD5Init`, `MD5Transform`, `MD5Update`, `MD5Final`, `bin2str`,
-- `ais_md5` and `ais_md5_`, by which requests are signed.
--
-- A `uint32_t` is a number below 2 ^ 32, and a block the list of its 64 bytes. Whichever the byte
-- order of the machine, a word of a block is that of its four bytes with the lowest first:
-- `byteReverse` is left out.
pub mod Rounds
pub mod Blocks
pub mod Held
pub mod Update
pub mod Final
pub mod Tests
use doorhinges.Base.{
  ℕ, zero, suc, ◌+◌, ◌-◌, ◌*◌, ◌/◌, ◌%◌, ◌^◌, List, [], ◌∷◌, ◌++◌, ltb, leb, ◌==◌, if◌then◌else◌,
  length, drop, get_or, replicate,
}
use Prim.Native.Nat.{bit_or}
use doorhinges.Base.{take}
use doorhinges.Md5.Rounds.{Step, mix, first_round, second_round, third_round, fourth_round}

-- `ctx->buf`
pub record Words : Type 0 where
  pub a : ℕ
  pub b : ℕ
  pub c : ℕ
  pub d : ℕ

-- `MD5_CTX`
pub record Context : Type 0 where
  pub buf : Words
  pub bits0 : ℕ
  pub bits1 : ℕ
  pub block : List ℕ

abbrev pub add32 : ℕ → ℕ → ℕ
add32 x y = (x + y) % 2 ^ 32

-- `w << s | w >> (32 - s)`
pub rotate : ℕ → ℕ → ℕ
rotate w s = bit_or (w * 2 ^ s % 2 ^ 32) (w / 2 ^ (32 - s))

-- `((uint32_t *) block)[i]`
pub word_at : List ℕ → ℕ → ℕ
word_at block i =
    get_or block (4 * i) 0
    + 2 ^ 8 * get_or block (4 * i + 1) 0
    + 2 ^ 16 * get_or block (4 * i + 2) 0
    + 2 ^ 24 * get_or block (4 * i + 3) 0

-- `MD5STEP`. The calls take the words in turn, so the words move on by one.
pub md5_step : List ℕ → Step → Words → Words
unfolding mix rotate word_at
md5_step block s w =
    let sum = add32 w.a (add32 (mix s.f w.b w.c w.d) (add32 (word_at block s.word) s.constant)) in
    record { a = w.d; b = add32 (rotate sum s.shift) w.b; c = w.b; d = w.c }

pub run_steps : List ℕ → List Step → Words → Words
unfolding md5_step
run_steps block [] w = w
run_steps block (s ∷ steps) w = run_steps block steps (md5_step block s w)

-- `MD5Transform`
pub transform : Words → List ℕ → Words
unfolding run_steps
transform w block =
    let r = run_steps block fourth_round (
      run_steps block third_round (run_steps block second_round (run_steps block first_round w))) in
    record { a = add32 w.a r.a; b = add32 w.b r.b; c = add32 w.c r.c; d = add32 w.d r.d }

abbrev pub initial : Words
initial = record { a = 0x67452301; b = 0xefcdab89; c = 0x98badcfe; d = 0x10325476 }

-- `MD5Init`, of a context whose block is not set.
pub init : List ℕ → Context
init block = record { buf = initial; bits0 = 0; bits1 = 0; block = block }

-- `memcpy` and `memset` into a block, from a place on.
pub write_at : ℕ → List ℕ → List ℕ → List ℕ
write_at t bs block = take t block ++ (bs ++ drop (t + length bs) block)

-- The count of the bits.
pub count_bits : ℕ → Context → Context
count_bits len ctx =
    let sum = add32 ctx.bits0 (len * 2 ^ 3 % 2 ^ 32) in
    let carried = if ltb sum ctx.bits0 then add32 ctx.bits1 1 else ctx.bits1 in
    record ctx { bits0 = sum; bits1 = add32 carried (len / 2 ^ 29) }

-- The context after a whole block.
pub add_block : List ℕ → Context → Context
add_block block ctx = record ctx { buf = transform ctx.buf block; block = block }

-- The loop over whole blocks, with a turn for each, and what follows it.
pub add_blocks : ℕ → List ℕ → Context → Context
unfolding write_at add_block
add_blocks zero buf ctx = record ctx { block = write_at 0 buf ctx.block }
add_blocks (suc turns) buf ctx =
    add_blocks turns (drop 64 buf) (add_block (write_at 0 (take 64 buf) ctx.block) ctx)

-- `MD5Update` where the block holds `t` bytes of the message.
pub update_at : ℕ → Context → List ℕ → Context
update_at t ctx buf =
    let room = 64 - t in
    let counted = count_bits (length buf) ctx in
    let filled = add_block (write_at t (take room buf) ctx.block) counted in
    if t == 0
    then add_blocks (length buf / 64) buf counted
    else if ltb (length buf) room
    then record counted { block = write_at t buf ctx.block }
    else add_blocks (length (drop room buf) / 64) (drop room buf) filled

-- `MD5Update`
pub md5_update : Context → List ℕ → Context
md5_update ctx buf = update_at (ctx.bits0 / 2 ^ 3 % 64) ctx buf

-- The bytes of a word.
pub le_bytes : ℕ → List ℕ
le_bytes w = w % 256 ∷ w / 2 ^ 8 % 256 ∷ w / 2 ^ 16 % 256 ∷ w / 2 ^ 24 % 256 ∷ []

pub digest_of : Words → List ℕ
unfolding le_bytes
digest_of w = le_bytes w.a ++ (le_bytes w.b ++ (le_bytes w.c ++ le_bytes w.d))

-- `MD5Final` where the block holds `count` bytes of the message: the digest. The context is cleared.
pub final_at : ℕ → Context → List ℕ
final_at count ctx =
    let left = 63 - count in
    let marked = write_at count (0x80 ∷ []) ctx.block in
    let short = write_at (count + 1) (replicate left 0) marked in
    let padded = write_at (count + 1) (replicate (left - 8) 0) marked in
    let buf = if ltb left 8 then transform ctx.buf short else ctx.buf in
    let cleared = if ltb left 8 then write_at 0 (replicate 56 0) short else padded in
    let last = write_at 60 (le_bytes ctx.bits1) (write_at 56 (le_bytes ctx.bits0) cleared) in
    digest_of (transform buf last)

pub md5_final : Context → List ℕ
md5_final ctx = final_at (ctx.bits0 / 2 ^ 3 % 64) ctx

-- A digit of "0123456789abcdef".
abbrev pub hex_digit : ℕ → ℕ
hex_digit d = if ltb d 10 then 48 + d else 87 + d

-- `bin2str`
pub bin2str : List ℕ → List ℕ
bin2str [] = []
bin2str (p ∷ ps) = hex_digit (p / 2 ^ 4) ∷ hex_digit (p % 16) ∷ bin2str ps

-- The loop over the parts of a message.
pub update_all : List (List ℕ) → Context → Context
update_all [] ctx = ctx
update_all (p ∷ ps) ctx = update_all ps (md5_update ctx p)

-- `ais_md5`; `stack` is what is on the stack where the context is.
pub ais_md5 : List ℕ → List (List ℕ) → List ℕ → List ℕ
ais_md5 stack parts ads = bin2str (md5_final (md5_update (update_all parts (init stack)) ads))

-- `ais_md5_`
pub ais_md5_all : List ℕ → List (List ℕ) → List ℕ
ais_md5_all stack parts = bin2str (md5_final (update_all parts (init stack)))
