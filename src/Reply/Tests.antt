-- ===== src/Reply/Tests.antt =====
-- Replies on a TCP and on a UDP connection.
use mathlib.Core.List.{flatten}
use doorhinges.Base.{
  Option, none, replicate, get_or, ℕ, ◌≡◌, ◌++◌, refl, true, false, some, List, [], ◌∷◌, arith,
  Bool,
}
use doorhinges.Output.{conn_new_cmd, conn_write}
use doorhinges.Input.{Input, data_received, try_read_udp}
use doorhinges.Input.Slice.{unread}
use doorhinges.Reply.{
  Reply, msgused, start_message, add_msghdr, grow_msglist, new_message, reserve_header, put_headers,
  append_fragment, ensure_iov_space, add_iov, build_udp_headers, udp_header, fitting, out_string,
  queue_text,
}
use doorhinges.Reply.Messages.{payload}
use doorhinges.Reply.Valid.{IsValid}
use doorhinges.Reply.Fragments.{IsQueued}
use doorhinges.Reply.Queued.{add_iov_lem}
use doorhinges.Reply.Returns.{Stored, add_iov_returns}
use doorhinges.Reply.Headers.{Headed, build_udp_headers_lem, try_read_udp-udp_header}
use doorhinges.Reply.Strings.{out_string-queue_text}

abbrev reply_of : Bool → List (List (List ℕ)) → ℕ → ℕ → List Bool → Reply
reply_of udp msgs used bytes results = record {
  output = record { msglist = msgs; msgcurr = 0; udp = udp; state = conn_write; bytes_written = 0 };
  msgsize = 2;
  iovsize = 1;
  iovused = used;
  msgbytes = bytes;
  realloced = results;
  noreply = false;
  wbuf = 0 ∷ 0 ∷ 0 ∷ 0 ∷ [];
  wsize = 4;
  wcurr = 0;
  wbytes = 0;
  write_and_go = conn_new_cmd;
}

-- One message, with a byte.
abbrev one_byte : List Bool → Reply
one_byte results = reply_of false (((7 ∷ []) ∷ []) ∷ []) 1 1 results

one_byte-IsValid : IsValid 16 (one_byte [])
unfolding flatten
one_byte-IsValid = record {
  sendable = (omega arith, tt);
  datagrams = (tt, tt);
  first = omega arith;
  used = refl;
  iov_room = omega arith;
  msg_room = omega arith;
  iov_some = omega arith;
  msg_some = omega arith;
}

add_iov_lem_example :
    (d : Reply) × (add_iov 16 3 (8 ∷ 9 ∷ []) (one_byte []) ≡ some (true, d))
    × IsQueued 16 (one_byte []) d (8 ∷ 9 ∷ [])
unfolding flatten
add_iov_lem_example =
    add_iov_lem 16 3 (8 ∷ 9 ∷ []) (one_byte []) (omega arith) (omega arith) one_byte-IsValid refl
      refl (omega arith)

add_iov_returns_example :
    (ok : Bool) × (d : Reply) × (add_iov 16 4 (8 ∷ 9 ∷ []) (one_byte (false ∷ [])) ≡ some (ok, d))
    × Stored (one_byte (false ∷ [])) d (8 ∷ 9 ∷ []) ok
add_iov_returns_example =
    add_iov_returns 16 4 (8 ∷ 9 ∷ []) (one_byte (false ∷ [])) (omega arith) refl (omega arith)

-- Two datagrams, with room for their headers.
abbrev zeros : List ℕ
zeros = 0 ∷ 0 ∷ 0 ∷ 0 ∷ 0 ∷ 0 ∷ 0 ∷ 0 ∷ []

abbrev two_datagrams : Reply
two_datagrams = reply_of true ((zeros ∷ (7 ∷ []) ∷ []) ∷ (zeros ∷ (8 ∷ []) ∷ []) ∷ []) 4 9 []

build_udp_headers_lem_example :
    let r = build_udp_headers 515 1 true two_datagrams in
    (r.0 ≡ true)
    × (payload true r.2.output.msglist ≡ payload true two_datagrams.output.msglist)
    × (msgused r.2 ≡ 2)
    × Headed 515 1 1 two_datagrams r
unfolding flatten
build_udp_headers_lem_example =
    build_udp_headers_lem 515 1 1 true two_datagrams
      ((omega arith, omega arith), ((omega arith, omega arith), tt)) (omega arith)

abbrev empty_input : Input
empty_input = record {
  rbuf = λ i. 0;
  rcurr = 0;
  rbytes = 0;
  rsize = 2048;
  bytes_read = 0;
  request_id = 0;
  closing = false;
}

try_read_udp-udp_header_example :
    let r = try_read_udp (udp_header 515 0 1 ++ 97 ∷ 98 ∷ []) empty_input in
    (r.1 ≡ data_received) × (r.0.request_id ≡ 515) × (unread r.0 ≡ 97 ∷ 98 ∷ [])
try_read_udp-udp_header_example =
    try_read_udp-udp_header empty_input 515 0 1 97 2039 (98 ∷ []) (omega arith) (omega arith) refl

out_string-queue_text_example :
    (d : Reply) × (queue_text 16 4 (out_string (79 ∷ 75 ∷ []) (one_byte [])) ≡ some (true, d))
    × IsValid 16 d
    × (payload d.output.udp d.output.msglist ≡ fitting 4 (79 ∷ 75 ∷ []) ++ 0 ∷ [])
    × (d.output.udp ≡ false)
    × (d.output.state ≡ conn_write)
    × (d.output.msgcurr ≡ 0)
unfolding fitting
out_string-queue_text_example =
    out_string-queue_text 16 4 (79 ∷ 75 ∷ []) (one_byte []) (omega arith) (omega arith) refl refl
      (omega arith) (omega arith)

-- A full datagram. The next one gets no memory for its header, and then gets it for the byte, which
-- is now where the header is expected: `build_udp_headers` writes over it.
abbrev full : Reply
full = record (reply_of true ((zeros ∷ replicate 1392 7 ∷ []) ∷ []) 2 1400 (false ∷ [])) {
  iovsize = 2;
}

abbrev headed : Option (Bool × Reply) → List (List (List ℕ))
headed none = []
headed (some (ok, d)) = (build_udp_headers 515 4 true d).2.output.msglist

byte_lost : get_or (headed (add_iov 16 3 (9 ∷ []) full)) 1 [] ≡ udp_header 515 1 2 ∷ []
unfolding add_iov start_message add_msghdr grow_msglist new_message reserve_header ensure_iov_space
    append_fragment build_udp_headers put_headers
byte_lost = refl
