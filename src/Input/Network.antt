-- ===== src/Input/Network.antt =====
-- `try_read_network`: the unread bytes stay and the received ones follow them.
use doorhinges.Base.{
  ℕ, zero, suc, ◌+◌, ◌-◌, ◌*◌, ◌≤◌, ◌<◌, ◌≡◌, refl, ap, ◌∙◌, inl, inr, true, false, Option, some,
  List, [], ◌++◌, arith, length, leb, if◌then◌else◌, ◌==◌, Bool-cases,
}
use doorhinges.Input.{
  Input, TryReadResult, data_received, no_data_received, read_error, memory_error, Got, bytes,
  end_of_file, would_block, failed, Env, receive, grow, to_start, read_some, read_loop,
  try_read_network,
}
use doorhinges.Input.Slice.{unread-to_start, to_start_lem}
use doorhinges.Input.Turns.{
  IsSocket, Tells, Keeps, doubled_le, IsRead, then_more, IsGotdata, Returns, nothing_more, as_error,
  grown-Returns, grow_lem,
}

module _ {env : Env} (socket : IsSocket env) where
  read_some_lem :
      (i n : ℕ) (g : TryReadResult) (again : Input → Option (TryReadResult × Input)) (c : Input)
      → IsGotdata g
      → c.rcurr ≡ 0
      → c.rbytes ≤ c.rsize
      → 0 < c.rsize
      → ((d : Input)
          → d.rcurr ≡ 0
          → d.rbytes ≡ d.rsize
          → 0 < d.rsize
          → Returns data_received n d (again d))
      → Returns g n c (read_some env i g again c)
  unfolding read_some
  read_some_lem i n g again c got e f pos more = go (env.read i (c.rsize - c.rbytes)) refl
    where
      one :
          (bs : List ℕ)
          → env.read i (c.rsize - c.rbytes) ≡ bytes bs
          → IsRead data_received n (receive bs c) data_received (receive bs c)
      one bs h =
          unfold receive in
          nothing_more data_received n (receive bs c) (inr refl) e
            (omega (arith, socket.no_more i (c.rsize - c.rbytes) bs h, f))

      full :
          (bs : List ℕ)
          → (length bs == c.rsize - c.rbytes) ≡ true
          → Returns data_received n (receive bs c) (again (receive bs c))
      full bs h = unfold receive in more (receive bs c) e (ground (arith, f)) pos

      go :
          (got' : Got)
          → env.read i (c.rsize - c.rbytes) ≡ got'
          → Returns g n c (read_some env i g again c)
      go (bytes bs) h = elim (Bool-cases (length bs == c.rsize - c.rbytes)) [
        | inl all ↦
            let rest = full bs all in
            (
              rest.0,
              rest.1,
              rw (h, all, read_some) rest.2,
              then_more bs rest.0 e (socket.some_bytes i (c.rsize - c.rbytes) bs h) rest.3,
            )
        | inr part ↦ (
          data_received,
          receive bs c,
          rw (h, part, read_some) refl,
          then_more bs data_received e (socket.some_bytes i (c.rsize - c.rbytes) bs h) (one bs h),
        )
      ]
      go end_of_file h = (read_error, c, rw (h, read_some) refl, as_error c e f)
      go would_block h = (g, c, rw (h, read_some) refl, nothing_more g n c got e f)
      go failed h = (read_error, c, rw (h, read_some) refl, as_error c e f)

  read_loop_lem :
      (fuel n i num_allocs : ℕ) (g : TryReadResult) (c : Input)
      → num_allocs + n ≡ 4
      → IsGotdata g
      → c.rcurr ≡ 0
      → c.rbytes ≤ c.rsize
      → 0 < c.rsize
      → 1 + n + (if leb c.rsize c.rbytes then 0 else 1) ≤ fuel
      → Returns g n c (read_loop env fuel i num_allocs g c)
  unfolding read_loop
  read_loop_lem zero n i k g c four got e f pos enough = absurd (ground arith)
  read_loop_lem (suc fuel) zero i k g c four got e f pos enough =
      elim (Bool-cases (leb c.rsize c.rbytes)) [
        | inl full ↦ (g, c, rw full (ground arith), nothing_more g zero c got e f)
        | inr room ↦
            rw (room, read_loop)
              (read_some_lem i zero g (read_loop env fuel (i + 1) k data_received) c got e f pos
                (λ d z x p.
                  read_loop_lem fuel zero (i + 1) k data_received d four (inr refl) z
                    (omega (arith, x)) p (ground arith)))
      ]
  read_loop_lem (suc fuel) (suc n) i k g c four got e f pos enough =
      elim (Bool-cases (leb c.rsize c.rbytes)) [
        | inl full ↦ elim (Bool-cases (env.realloc i)) [
          | inl got_it ↦ grown-Returns e (rw (full, more_allocs, got_it, read_loop) refl) (
              read_some_lem i n g (read_loop env fuel (i + 1) (k + 1) data_received) (grow c) got
                (grow_lem c f pos).0 (grow_lem c f pos).1 (grow_lem c f pos).2
                (λ d z x p.
                  read_loop_lem fuel n (i + 1) (k + 1) data_received d (omega arith) (inr refl) z
                    (omega (arith, x)) p (ground arith)))
          | inr refused ↦ (
            memory_error,
            record c { rbytes = 0 },
            rw (full, more_allocs, refused, read_loop) refl,
            record {
              more = [];
              tells = tt;
              keeps = refl;
              start = e;
              fits = omega arith;
              small = doubled_le (suc n) c.rsize;
              counted = omega arith;
            },
          )
        ]
        | inr room ↦
            rw (room, read_loop)
              (read_some_lem i (suc n) g (read_loop env fuel (i + 1) k data_received) c got e f pos
                (λ d z x p.
                  read_loop_lem fuel (suc n) (i + 1) k data_received d four (inr refl) z
                    (omega (arith, x)) p (ground arith)))
      ]
    where
      more_allocs : (k == 4) ≡ false
      more_allocs = ground arith

-- `try_read_network`, on a buffer with room for at least one byte, returns after at most six turns
-- of its loop. The unread bytes are moved to the start of the buffer and the received bytes follow
-- them, unless memory runs out, when all are dropped; `bytes_read` counts the received ones. The
-- result is READ_DATA_RECEIVED only if there are some, and READ_NO_DATA_RECEIVED only if there are
-- none. The buffer grows to at most sixteen times its size and holds what is in it. The socket
-- returns at least one byte and at most as many as it is asked for, or an error.
pub try_read_network_lem :
    {env : Env} (socket : IsSocket env) (c : Input)
    → c.rbytes ≤ c.rsize
    → 0 < c.rsize
    → (r : TryReadResult) × (c' : Input) × (more : List ℕ) × (try_read_network env c ≡ some (r, c'))
      × Tells no_data_received r more
      × Keeps r c more c'
      × (c'.rcurr ≡ 0)
      × (c'.rbytes ≤ c'.rsize)
      × (c'.rsize ≤ c.rsize * 16)
      × (c'.bytes_read ≡ c.bytes_read + length more)
unfolding try_read_network
try_read_network_lem {env} socket c f pos =
    let kept = to_start_lem c in
    let (r, c', returned, w) =
      read_loop_lem socket 6 4 0 0 no_data_received (to_start c) refl (inl refl) kept.0
        (omega (arith, kept.1, kept.2, f)) (omega (arith, kept.2, pos)) (ground arith) in
    (
      r,
      c',
      w.more,
      returned,
      w.tells,
      from_start r w.more c' w.keeps,
      w.start,
      w.fits,
      omega (arith, w.small, kept.2),
      omega (arith, w.counted, kept.3),
    )
  where
    from_start :
        (r : TryReadResult) (more : List ℕ) (c' : Input)
        → Keeps r (to_start c) more c'
        → Keeps r c more c'
    from_start data_received more c' k = k ∙ ap (λ xs. xs ++ more) (unread-to_start c)
    from_start no_data_received more c' k = k ∙ unread-to_start c
    from_start read_error more c' k = k ∙ ap (λ xs. xs ++ more) (unread-to_start c)
    from_start memory_error more c' k = k
