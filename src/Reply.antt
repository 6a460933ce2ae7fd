-- ===== src/Reply.antt =====
-- ngix_module/AIS/ais.c, the building of a reply: `add_msghdr`, `ensure_iov_space`, `add_iov`,
-- `build_udp_headers` and `out_string`.
--
-- The messages are those of Output: `msgused` is the length of `msglist`, and a message is the list
-- of its fragments, so that the pointers `msg_iov` into the array of fragments stay implicit. The
-- results of the calls of `realloc` to come are a part of the state.
pub mod Messages
pub mod Valid
pub mod Started
pub mod Fragments
pub mod Queued
pub mod Kept
pub mod Returns
pub mod Headers
pub mod Strings
pub mod State
pub mod Tests
use doorhinges.Base.{
  ℕ, zero, suc, ◌+◌, ◌-◌, ◌*◌, ◌/◌, ◌%◌, Bool, true, false, ◌&&◌, ◌||◌, Option, none, some, List,
  [], ◌∷◌, ◌++◌, ltb, leb, ◌==◌, if◌then◌else◌, length, replicate, drop, take,
}
use doorhinges.Output.{Output, ConnState, conn_new_cmd, conn_write, conn_closing}

-- The fields of `conn` that the building of a reply uses. `realloced` are the results of the calls
-- of `realloc` to come, of which it returns memory from the end of the list on.
pub record Reply : Type 0 where
  pub output : Output
  pub msgsize : ℕ
  pub iovsize : ℕ
  pub iovused : ℕ
  pub msgbytes : ℕ
  pub realloced : List Bool
  pub noreply : Bool
  pub wbuf : List ℕ
  pub wsize : ℕ
  pub wcurr : ℕ
  pub wbytes : ℕ
  pub write_and_go : ConnState

-- `UDP_MAX_PAYLOAD_SIZE` and `UDP_HEADER_SIZE`
abbrev pub udp_max_payload_size : ℕ
udp_max_payload_size = 1400

abbrev pub udp_header_size : ℕ
udp_header_size = 8

abbrev pub msgused : Reply → ℕ
msgused c = length c.output.msglist

abbrev pub with_msglist : List (List (List ℕ)) → Reply → Reply
with_msglist msgs c = record c { output = record c.output { msglist = msgs } }

-- `msglist + msgused - 1`
abbrev pub last_message : List (List (List ℕ)) → List (List ℕ)
last_message [] = []
last_message (m ∷ []) = m
last_message (m ∷ n ∷ ms) = last_message (n ∷ ms)

abbrev pub append_last : List ℕ → List (List (List ℕ)) → List (List (List ℕ))
append_last b [] = []
append_last b (m ∷ []) = (m ++ b ∷ []) ∷ []
append_last b (m ∷ n ∷ ms) = m ∷ append_last b (n ∷ ms)

abbrev pub next_realloc : List Bool → Bool
next_realloc [] = true
next_realloc (r ∷ rs) = r

-- `ensure_iov_space`: whether there is room, that is, whether it returns 0.
pub ensure_iov_space : Reply → Bool × Reply
ensure_iov_space c =
    if leb c.iovsize c.iovused
    then (if next_realloc c.realloced
        then (true, record c { iovsize = c.iovsize * 2; realloced = drop 1 c.realloced })
        else (false, record c { realloced = drop 1 c.realloced }))
    else (true, c)

-- The fragment that a pass of the loop in `add_iov` stores.
pub append_fragment : List ℕ → Reply → Reply
append_fragment b c = record c {
  output = record c.output { msglist = append_last b c.output.msglist };
  msgbytes = c.msgbytes + length b;
  iovused = c.iovused + 1;
}

-- The room in `msglist`.
pub grow_msglist : Reply → Bool × Reply
grow_msglist c =
    if c.msgsize == msgused c
    then (if next_realloc c.realloced
        then (true, record c { msgsize = c.msgsize * 2; realloced = drop 1 c.realloced })
        else (false, record c { realloced = drop 1 c.realloced }))
    else (true, c)

-- The call `add_iov(c, NULL, UDP_HEADER_SIZE)` for a message that has nothing yet, which is one
-- pass of the loop. The bytes are those that `build_udp_headers` puts there later.
pub reserve_header : Reply → Bool × Reply
reserve_header c =
    let e = ensure_iov_space c in
    if e.0 then (true, append_fragment (replicate udp_header_size 0) e.1) else e

-- The message behind the others, which has nothing yet.
pub new_message : Reply → Reply
new_message c = record (with_msglist (c.output.msglist ++ [] ∷ []) c) { msgbytes = 0 }

-- `add_msghdr`: whether it returns 0.
pub add_msghdr : Reply → Bool × Reply
add_msghdr c =
    let g = grow_msglist c in
    if g.0
    then (if g.1.output.udp then reserve_header (new_message g.1) else (true, new_message g.1))
    else g

-- `limit_to_mtu`
abbrev pub limit_to_mtu : Reply → Bool
limit_to_mtu c = c.output.udp || (1 == msgused c)

-- The start of a message when the last one is full; `add_iov` ignores what `add_msghdr` returns.
pub start_message : ℕ → Reply → Reply
start_message iov_max c =
    if (length (last_message c.output.msglist) == iov_max)
      || (limit_to_mtu c && leb udp_max_payload_size c.msgbytes)
    then (add_msghdr c).1
    else c

-- How many bytes do not fit in the datagram.
abbrev pub leftover : Bool → ℕ → ℕ → ℕ
leftover limit len msgbytes =
    if limit && ltb udp_max_payload_size (len + msgbytes)
    then len + msgbytes - udp_max_payload_size
    else 0

-- The loop of `add_iov` on fuel, which is `none` where there is too little: whether it returns 0.
-- `len - leftover` stops at 0, as `len` does in the source unless more than 1400 bytes are in the
-- message.
pub add_iov : ℕ → ℕ → List ℕ → Reply → Option (Bool × Reply)
add_iov iov_max zero buf c = none
add_iov iov_max (suc fuel) buf c =
    let e = ensure_iov_space (start_message iov_max c) in
    let more = leftover (limit_to_mtu c) (length buf) e.1.msgbytes in
    let n = length buf - more in
    let done = append_fragment (take n buf) e.1 in
    let rest = add_iov iov_max fuel (drop n buf) done in
    if e.0 then (if ltb 0 more then rest else some (true, done)) else some (false, e.1)

-- The header of the message `i` in `build_udp_headers`; what is stored in an `unsigned char` wraps.
pub udp_header : ℕ → ℕ → ℕ → List ℕ
udp_header request_id i used =
    (request_id / 256 % 256)
    ∷ (request_id % 256)
    ∷ (i / 256 % 256)
    ∷ (i % 256)
    ∷ (used / 256 % 256)
    ∷ (used % 256)
    ∷ 0
    ∷ 0
    ∷ []

-- The loop of `build_udp_headers`: the first fragment of each message becomes its header. Where a
-- message has no fragment left, the source writes behind it, which is no part of a message or is
-- written again for the next one.
pub put_headers : ℕ → ℕ → ℕ → List (List (List ℕ)) → List (List (List ℕ))
put_headers request_id used i [] = []
put_headers request_id used i ([] ∷ ms) = [] ∷ put_headers request_id used (i + 1) ms
put_headers request_id used i ((b ∷ bs) ∷ ms) =
    (udp_header request_id i used ∷ bs) ∷ put_headers request_id used (i + 1) ms

-- `build_udp_headers`, with the size of the buffer of headers and whether the memory for a larger
-- one is given: whether it returns 0.
pub build_udp_headers : ℕ → ℕ → Bool → Reply → Bool × ℕ × Reply
build_udp_headers request_id hdrsize given c =
    if ltb hdrsize (msgused c) && (if given then false else true) then (false, hdrsize, c) else (
      true,
      if ltb hdrsize (msgused c) then msgused c * 2 else hdrsize,
      with_msglist (put_headers request_id (msgused c) 0 c.output.msglist) c,
    )

-- "SERVER_ERROR output line too long"
abbrev pub too_long : List ℕ
too_long =
    83 ∷ 69 ∷ 82 ∷ 86 ∷ 69 ∷ 82 ∷ 95 ∷ 69 ∷ 82 ∷ 82 ∷ 79 ∷ 82 ∷ 32 ∷ 111 ∷ 117 ∷ 116 ∷ 112 ∷ 117
    ∷ 116 ∷ 32 ∷ 108 ∷ 105 ∷ 110 ∷ 101 ∷ 32 ∷ 116 ∷ 111 ∷ 111 ∷ 32 ∷ 108 ∷ 111 ∷ 110 ∷ 103 ∷ []

-- `conn_set_state`, less its log line and the timestamps.
unfoldable pub conn_set_state : ConnState → Reply → Reply
conn_set_state s c = record c { output = record c.output { state = s } }

-- The text that `out_string` sends: one that does not fit is another.
pub fitting : ℕ → List ℕ → List ℕ
fitting wsize str = if ltb wsize (length str + 1) then too_long else str

-- The start of an output: what was left of the last one is gone.
pub nuke : Reply → Reply
nuke c = record c { output = record c.output { msglist = []; msgcurr = 0 }; iovused = 0 }

-- The text in `wbuf`, with the zero behind it.
pub store_text : List ℕ → Reply → Reply
store_text str c = record c {
  wbuf = (str ++ 0 ∷ []) ++ drop (length str + 1) c.wbuf;
  wbytes = length str + 1;
  wcurr = 0;
  write_and_go = conn_new_cmd;
}

-- `out_string`; `str` has no zero byte.
pub out_string : List ℕ → Reply → Reply
out_string str c =
    if c.noreply
    then conn_set_state conn_new_cmd (record c { noreply = false })
    else conn_set_state conn_write (store_text (fitting c.wsize str) (add_msghdr (nuke c)).1)

-- `conn_write` in `drive_machine`, up to where it falls through to `conn_mwrite`: the text becomes
-- the output, unless there is one already. Whether it goes on.
pub queue_text : ℕ → ℕ → Reply → Option (Bool × Reply)
queue_text iov_max fuel c =
    if (c.iovused == 0) || (c.output.udp && (c.iovused == 1))
    then elim (add_iov iov_max fuel (take c.wbytes (drop c.wcurr c.wbuf)) c) [
      | some (true, d) ↦ some (true, d)
      | some (false, d) ↦ some (false, conn_set_state conn_closing d)
      | none ↦ none
    ]
    else some (true, c)
