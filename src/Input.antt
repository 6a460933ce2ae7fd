-- ===== src/Input.antt =====
-- ngix_module/AIS/ais.c, the read side of a connection: `try_read_network` and `try_read_udp`, which
-- fill the read buffer from the socket, and `try_read_command`, which takes one line from it.
--
-- `rcurr` is an offset into the buffer at `rbuf`, whose bytes are a function of the offset. What
-- `read` and `realloc` return is a parameter, by the number of the call. The reply that
-- `out_string` prepares after an error belongs to the write side and is not in this state, nor is what
-- `process_command` does with a line.
pub mod Slice
pub mod Turns
pub mod Network
pub mod Command
pub mod Udp
pub mod Tests
use doorhinges.Base.{
  ℕ, zero, suc, ◌+◌, ◌-◌, ◌*◌, Bool, true, false, not, ◌&&◌, ◌||◌, Option, none, some, List, [],
  ◌∷◌, ltb, leb, ◌==◌, if◌then◌else◌, length, get_or, take,
}

-- The fields of `conn` that the two functions use, and `stats.bytes_read` of the thread. `closing`
-- says that the state was set to `conn_closing`.
pub record Input : Type 0 where
  pub rbuf : ℕ → ℕ
  pub rcurr : ℕ
  pub rbytes : ℕ
  pub rsize : ℕ
  pub bytes_read : ℕ
  pub request_id : ℕ
  pub closing : Bool

-- `enum try_read_result`
pub data TryReadResult : Type 0 where
  data_received : TryReadResult
  no_data_received : TryReadResult
  read_error : TryReadResult
  memory_error : TryReadResult

-- The result of `read`: some bytes, 0, -1 with EAGAIN or EWOULDBLOCK, or -1 with another error.
pub data Got : Type 0 where
  bytes : List ℕ → Got
  end_of_file : Got
  would_block : Got
  failed : Got

-- The socket and the allocator: the result of the `i`-th `read` of at most `avail` bytes, and
-- whether the `i`-th `realloc` succeeds.
pub record Env : Type 0 where
  pub read : ℕ → ℕ → Got
  pub realloc : ℕ → Bool

-- Writing bytes to the buffer from an offset on.
pub write_bytes : (ℕ → ℕ) → ℕ → List ℕ → ℕ → ℕ
write_bytes buf from bs p =
    if leb from p && ltb p (from + length bs) then get_or bs (p - from) 0 else buf p

-- `memmove` of `n` bytes from the offset `from` to the start.
pub move_down : (ℕ → ℕ) → ℕ → ℕ → ℕ → ℕ
move_down buf from n p = if ltb p n then buf (from + p) else buf p

-- Moving the unread bytes to the start of the buffer.
pub to_start : Input → Input
to_start c = if c.rcurr == 0 then c else record c {
  rbuf = if c.rbytes == 0 then c.rbuf else move_down c.rbuf c.rcurr c.rbytes;
  rcurr = 0;
}

-- `realloc` of the buffer to twice its size, which keeps its bytes.
pub grow : Input → Input
grow c = record c { rcurr = 0; rsize = c.rsize * 2 }

-- `res > 0`
pub receive : List ℕ → Input → Input
receive bs c = record c {
  rbuf = write_bytes c.rbuf c.rbytes bs;
  rbytes = c.rbytes + length bs;
  bytes_read = c.bytes_read + length bs;
}

-- The `n` bytes from an offset on.
abbrev pub slice : (ℕ → ℕ) → ℕ → ℕ → List ℕ
slice f from zero = []
slice f from (suc n) = f from ∷ slice f (from + 1) n

-- What `try_read_udp` does with the bytes that `recvfrom` has written.
pub received_udp : List ℕ → Input → Input × TryReadResult
received_udp packet c =
    let got = record c { rbuf = write_bytes c.rbuf 0 packet } in
    if ltb 8 (length packet)
    then (let d = record got {
      bytes_read = got.bytes_read + length packet;
      request_id = got.rbuf 0 * 256 + got.rbuf 1;
    } in
        if got.rbuf 4 == 0 && got.rbuf 5 == 1
        then (
          record d {
            rbuf = move_down d.rbuf 8 (length packet - 8);
            rbytes = length packet - 8;
            rcurr = 0;
          },
          data_received,
        )
        else (d, no_data_received))
    else (got, no_data_received)

-- `try_read_udp` of a packet, of which `recvfrom` writes no more than the buffer holds; an error of
-- `recvfrom` is an empty one.
pub try_read_udp : List ℕ → Input → Input × TryReadResult
unfolding received_udp
try_read_udp packet c = received_udp (take c.rsize packet) c

-- `memchr(.., '\n', n)`, as an offset from where it starts.
pub find_newline : (ℕ → ℕ) → ℕ → ℕ → Option ℕ
find_newline f from zero = none
find_newline f from (suc n) =
    let rest = find_newline f (from + 1) n in
    if f from == 10 then some 0 else elim rest [ none ↦ none | some i ↦ some (suc i) ]

-- How many spaces there are, up to a bound.
pub skip_spaces : (ℕ → ℕ) → ℕ → ℕ → ℕ
skip_spaces f from zero = 0
skip_spaces f from (suc n) =
    let rest = skip_spaces f (from + 1) n in if f from == 32 then suc rest else 0

-- `strncmp` with a string, to its end.
pub starts_with : (ℕ → ℕ) → ℕ → List ℕ → Bool
starts_with f from [] = true
starts_with f from (c ∷ cs) = f from == c && starts_with f (from + 1) cs

-- What `try_read_command` finds: too little, too much without a newline, or a line, with the bytes
-- that go to `process_command`.
pub data Line : Type 0 where
  need_more : Line
  give_up : Line
  line : List ℕ → Line

-- The line that ends at the newline `i` bytes behind `rcurr`, less a '\r'.
pub take_line : ℕ → Input → Input × Line
take_line i c =
    let el = if ltb 1 i && c.rbuf (c.rcurr + (i - 1)) == 13 then i - 1 else i in
    (
      record c {
        rbuf = λ p. if p == c.rcurr + el then 0 else c.rbuf p;
        rbytes = c.rbytes - (i + 1);
        rcurr = c.rcurr + (i + 1);
      },
      line (slice c.rbuf c.rcurr el),
    )

-- More than 1024 bytes without a newline: unless they start with a "get " or "gets " behind at most
-- 100 spaces, the connection closes. A hundred and one spaces are enough to tell.
pub give_up_long : Input → Input × Line
unfolding skip_spaces starts_with
give_up_long c =
    let skip = skip_spaces c.rbuf c.rcurr 101 in
    let p = c.rcurr + skip in
    if ltb 100 skip
      || not (
          starts_with c.rbuf p (103 ∷ 101 ∷ 116 ∷ 32 ∷ [])
          || starts_with c.rbuf p (103 ∷ 101 ∷ 116 ∷ 115 ∷ 32 ∷ []))
    then (record c { closing = true }, give_up)
    else (c, need_more)

-- `try_read_command`
pub try_read_command : Input → Input × Line
try_read_command c =
    if c.rbytes == 0 then (c, need_more) else elim (find_newline c.rbuf c.rcurr c.rbytes) [
      | none ↦ if ltb 1024 c.rbytes then give_up_long c else (c, need_more)
      | some i ↦ take_line i c
    ]

module _ (env : Env) where
  -- From the call of `read` on; `again` is the next turn of the loop.
  pub read_some :
      ℕ
      → TryReadResult
      → (Input → Option (TryReadResult × Input))
      → Input
      → Option (TryReadResult × Input)
  read_some i gotdata again c = elim (env.read i (c.rsize - c.rbytes)) [
    | bytes bs ↦
        if length bs == c.rsize - c.rbytes
        then again (receive bs c)
        else some (data_received, receive bs c)
    | end_of_file ↦ some (read_error, c)
    | would_block ↦ some (gotdata, c)
    | failed ↦ some (read_error, c)
  ]

  -- The loop, on fuel: `i` counts its turns and `num_allocs` is the code's counter.
  pub read_loop : ℕ → ℕ → ℕ → TryReadResult → Input → Option (TryReadResult × Input)
  unfolding read_some
  read_loop zero i num_allocs gotdata c = none
  read_loop (suc fuel) i num_allocs gotdata c =
      if leb c.rsize c.rbytes
      then if num_allocs == 4
        then some (gotdata, c)
        else if env.realloc i
        then read_some i gotdata (read_loop fuel (i + 1) (num_allocs + 1) data_received) (grow c)
        else some (memory_error, record c { rbytes = 0 })
      else read_some i gotdata (read_loop fuel (i + 1) num_allocs data_received) c

  -- `try_read_network`. The loop takes at most six turns.
  pub try_read_network : Input → Option (TryReadResult × Input)
  try_read_network c = read_loop 6 0 0 no_data_received (to_start c)
