-- ===== src/Input/Turns.antt =====
-- What a turn of the loop in `try_read_network` comes to (ngix_module/AIS/ais.c).
use doorhinges.Base.{
  ℕ, zero, suc, ◌+◌, ◌*◌, ◌≤◌, ◌<◌, ◌≡◌, refl, sym, ap, subst, ◌∙◌, ◌⊎◌, inl, inr, Option, some,
  List, [], ◌++◌, arith, length, length-append, append_assoc, append-nil,
}
use doorhinges.Input.{
  Input, TryReadResult, data_received, no_data_received, read_error, memory_error, bytes, Env,
  receive, grow,
}
use doorhinges.Input.Slice.{unread, unread-receive}

-- What `read` promises: at least one byte and at most as many as were asked for.
pub record IsSocket (env : Env) : Type 0 where
  pub some_bytes : (i avail : ℕ) (bs : List ℕ) → env.read i avail ≡ bytes bs → 0 < length bs
  pub no_more : (i avail : ℕ) (bs : List ℕ) → env.read i avail ≡ bytes bs → length bs ≤ avail

-- What the result says of the bytes that were received, after `gotdata`.
abbrev pub Tells : TryReadResult → TryReadResult → List ℕ → Type 0
Tells gotdata data_received more = (0 < length more) ⊎ (gotdata ≡ data_received)
Tells gotdata no_data_received more = (more ≡ []) × (gotdata ≡ no_data_received)
Tells gotdata read_error more = Unit {0}
Tells gotdata memory_error more = Unit {0}

-- What becomes of the unread bytes.
abbrev pub Keeps : TryReadResult → Input → List ℕ → Input → Type 0
Keeps data_received c more c' = unread c' ≡ unread c ++ more
Keeps no_data_received c more c' = unread c' ≡ unread c
Keeps read_error c more c' = unread c' ≡ unread c ++ more
Keeps memory_error c more c' = c'.rbytes ≡ 0

-- A size that is doubled `n` times.
abbrev pub doubled : ℕ → ℕ → ℕ
doubled zero s = s
doubled (suc n) s = doubled n (s * 2)

pub doubled_le : (n s : ℕ) → s ≤ doubled n s
doubled_le zero s = omega arith
doubled_le (suc n) s = omega (arith, doubled_le n (s * 2))

-- The buffer after a call that may double its size `n` times.
pub record IsRead (gotdata : TryReadResult) (n : ℕ) (c : Input) (r : TryReadResult) (c' : Input)
    : Type 0 where
  pub more : List ℕ
  pub tells : Tells gotdata r more
  pub keeps : Keeps r c more c'
  pub start : c'.rcurr ≡ 0
  pub fits : c'.rbytes ≤ c'.rsize
  pub small : c'.rsize ≤ doubled n c.rsize
  pub counted : c'.bytes_read ≡ c.bytes_read + length more

-- What the later turns of the loop return, for the bytes of this one.
pub then_more :
    {gotdata : TryReadResult} {n : ℕ} {c : Input} (bs : List ℕ) (r : TryReadResult) {c' : Input}
    → c.rcurr ≡ 0
    → 0 < length bs
    → IsRead data_received n (receive bs c) r c'
    → IsRead gotdata n c r c'
unfolding receive
then_more {gotdata} {n} {c} bs data_received e long w = record {
  more = bs ++ w.more;
  tells = inl (omega (arith, long, length-append bs w.more));
  keeps =
      w.keeps ∙ ap (λ xs. xs ++ w.more) (unread-receive bs c e) ∙ append_assoc (unread c) bs w.more;
  start = w.start;
  fits = w.fits;
  small = w.small;
  counted = omega (arith, w.counted, length-append bs w.more);
}
then_more {gotdata} {n} {c} bs no_data_received e long w = ground (arith, w.tells.1)
then_more {gotdata} {n} {c} bs read_error e long w = record {
  more = bs ++ w.more;
  tells = tt;
  keeps =
      w.keeps ∙ ap (λ xs. xs ++ w.more) (unread-receive bs c e) ∙ append_assoc (unread c) bs w.more;
  start = w.start;
  fits = w.fits;
  small = w.small;
  counted = omega (arith, w.counted, length-append bs w.more);
}
then_more {gotdata} {n} {c} bs memory_error e long w = record {
  more = bs ++ w.more;
  tells = tt;
  keeps = w.keeps;
  start = w.start;
  fits = w.fits;
  small = w.small;
  counted = omega (arith, w.counted, length-append bs w.more);
}

-- The values that `gotdata` has.
abbrev pub IsGotdata : TryReadResult → Type 0
IsGotdata g = (g ≡ no_data_received) ⊎ (g ≡ data_received)

abbrev pub Returns : TryReadResult → ℕ → Input → Option (TryReadResult × Input) → Type 0
Returns gotdata n c o =
    (r : TryReadResult) × (c' : Input) × (o ≡ some (r, c')) × IsRead gotdata n c r c'

pub nothing_more :
    (g : TryReadResult) (n : ℕ) (c : Input)
    → IsGotdata g
    → c.rcurr ≡ 0
    → c.rbytes ≤ c.rsize
    → IsRead g n c g c
nothing_more data_received n c got e f = record {
  more = [];
  tells = inr refl;
  keeps = sym (append-nil (unread c));
  start = e;
  fits = f;
  small = doubled_le n c.rsize;
  counted = omega arith;
}
nothing_more no_data_received n c got e f = record {
  more = [];
  tells = (refl, refl);
  keeps = refl;
  start = e;
  fits = f;
  small = doubled_le n c.rsize;
  counted = omega arith;
}
nothing_more read_error n c got e f = record {
  more = [];
  tells = tt;
  keeps = sym (append-nil (unread c));
  start = e;
  fits = f;
  small = doubled_le n c.rsize;
  counted = omega arith;
}
nothing_more memory_error n c got e f = ground arith

-- A failed read leaves the buffer as it is.
pub as_error :
    {g : TryReadResult} {n : ℕ} (c : Input)
    → c.rcurr ≡ 0
    → c.rbytes ≤ c.rsize
    → IsRead g n c read_error c
as_error {g} {n} c e f = record {
  more = [];
  tells = tt;
  keeps = sym (append-nil (unread c));
  start = e;
  fits = f;
  small = doubled_le n c.rsize;
  counted = omega arith;
}

grown :
    {g : TryReadResult} {n : ℕ} {c : Input} (r : TryReadResult) {c' : Input}
    → c.rcurr ≡ 0
    → IsRead g n (grow c) r c'
    → IsRead g (suc n) c r c'
unfolding grow
grown {c = c} r {c'} e w = record {
  more = w.more;
  tells = w.tells;
  keeps = subst (λ p. Keeps r (record c { rcurr = p }) w.more c') (sym e) (go r w.keeps);
  start = w.start;
  fits = w.fits;
  small = w.small;
  counted = w.counted;
}
  where
    go :
        (r : TryReadResult)
        → Keeps r (grow c) w.more c'
        → Keeps r (record c { rcurr = 0 }) w.more c'
    go data_received k = k
    go no_data_received k = k
    go read_error k = k
    go memory_error k = k

pub grown-Returns :
    {g : TryReadResult} {n : ℕ} {c : Input} {o o' : Option (TryReadResult × Input)}
    → c.rcurr ≡ 0
    → o' ≡ o
    → Returns g n (grow c) o
    → Returns g (suc n) c o'
grown-Returns e same (r, c', returned, w) = (r, c', same ∙ returned, grown r e w)

pub grow_lem :
    (c : Input)
    → c.rbytes ≤ c.rsize
    → 0 < c.rsize
    → ((grow c).rcurr ≡ 0) × ((grow c).rbytes ≤ (grow c).rsize) × (0 < (grow c).rsize)
unfolding grow
grow_lem c f pos = (refl, omega arith, omega arith)
