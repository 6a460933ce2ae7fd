-- ===== src/Input/Tests.antt =====
-- The theorems on the read side: a socket that sends one byte at each call, a buffer with a line, and
-- a packet.
use doorhinges.Base.{
  refl, ◌==◌, if◌then◌else◌, ℕ, zero, suc, ap, ◌+◌, ◌*◌, ◌≤◌, ◌<◌, ◌≡◌, true, false, some, List, [],
  ◌∷◌, arith, length,
}
use doorhinges.Input.{
  Input, Env, Got, bytes, would_block, end_of_file, failed, TryReadResult, no_data_received,
  try_read_network, try_read_command, line,
}
use doorhinges.Input.Slice.{unread}
use doorhinges.Input.Command.{chomp, try_read_command_lem}
use doorhinges.Input.Network.{try_read_network_lem}
use doorhinges.Input.Turns.{IsSocket, Tells, Keeps}

abbrev send : ℕ → Got
send zero = would_block
send (suc n) = bytes (65 ∷ [])

abbrev one_byte : Env
one_byte = record { read = λ i avail. send avail; realloc = λ i. true }

abbrev count : Got → ℕ
count (bytes bs) = length bs
count end_of_file = 0
count would_block = 0
count failed = 0

send_bytes :
    (avail : ℕ) (bs : List ℕ) → send avail ≡ bytes bs → (0 < length bs) × (length bs ≤ avail)
send_bytes zero bs h = ground arith
send_bytes (suc n) bs h =
    let one : 1 ≡ length bs = ap count h in (omega (arith, one), omega (arith, one))

one_byte-IsSocket : IsSocket one_byte
one_byte-IsSocket = record {
  some_bytes = λ i avail bs h. (send_bytes avail bs h).0;
  no_more = λ i avail bs h. (send_bytes avail bs h).1;
}

-- A buffer of four bytes with one byte behind its start.
abbrev some_read : Input
some_read = record {
  rbuf = λ p. p;
  rcurr = 2;
  rbytes = 1;
  rsize = 4;
  bytes_read = 3;
  request_id = 0;
  closing = false;
}

try_read_network_lem_example :
    (r : TryReadResult) × (c' : Input) × (more : List ℕ) × (try_read_network one_byte some_read
      ≡ some (r, c'))
    × Tells no_data_received r more
    × Keeps r some_read more c'
    × (c'.rcurr ≡ 0)
    × (c'.rbytes ≤ c'.rsize)
    × (c'.rsize ≤ 4 * 16)
    × (c'.bytes_read ≡ 3 + length more)
try_read_network_lem_example =
    try_read_network_lem one_byte-IsSocket some_read (omega arith) (omega arith)

-- A buffer with the bytes "a\r\nb".
abbrev two_lines : Input
two_lines = record some_read {
  rbuf = λ p. if p == 2 then 97 else if p == 3 then 13 else if p == 4 then 10 else 98;
  rbytes = 4;
  rsize = 8;
}

try_read_command_lem_example :
    ((try_read_command two_lines).1 ≡ line (chomp (97 ∷ 13 ∷ [])))
    × (unread (try_read_command two_lines).0 ≡ 98 ∷ [])
try_read_command_lem_example = try_read_command_lem two_lines (97 ∷ 13 ∷ []) (98 ∷ []) refl refl
