-- ===== src/Input/Udp.antt =====
-- `try_read_udp`: the request in a packet.
use doorhinges.Base.{
  ℕ, ◌+◌, ◌-◌, ◌*◌, ◌<◌, ◌≡◌, refl, sym, ap, ◌∙◌, true, ◌&&◌, List, ◌∷◌, arith, length, get_or,
  take, suc, ltb, ◌==◌, if◌then◌else◌, Bool-cases, inl, inr, lt→ltb,
}
use doorhinges.Input.{
  Input, data_received, no_data_received, slice, write_bytes, move_down, received_udp, try_read_udp,
}
use doorhinges.Input.Slice.{unread, slice_congr, slice-get_or}

-- The body of a packet, moved to the start of the buffer.
slice-body :
    (f : ℕ → ℕ) (body : List ℕ) (n : ℕ)
    → ((i : ℕ) → i < length body → f (8 + i) ≡ get_or body i 0)
    → n ≡ length body
    → slice (move_down f 8 n) 0 n ≡ body
unfolding move_down
slice-body f body n same e =
    slice_congr (move_down f 8 n) f 0 8 n
      (λ i small. let at : 0 + i ≡ i = omega arith in rw (at, lt→ltb i n small) refl)
    ∙ ap (λ k. slice f 8 k) e
    ∙ slice-get_or f 8 body same

write_bytes-get_or :
    (buf : ℕ → ℕ) (bs : List ℕ) (i : ℕ) → i < length bs → write_bytes buf 0 bs i ≡ get_or bs i 0
unfolding write_bytes
write_bytes-get_or buf bs i h =
    let at : i - 0 ≡ i = omega arith in
    rw (lt→ltb i (0 + length bs) (omega arith), at) (ground arith)

-- What is done with a packet with a header of eight bytes and a body: the first two bytes are the
-- request ID and all bytes are counted; a packet that is the only one of its request leaves the
-- body to be read, and any other is dropped.
pub received_udp_lem :
    (c : Input) (h0 h1 h2 h3 h4 h5 h6 h7 b : ℕ) (body : List ℕ)
    → let packet = h0 ∷ h1 ∷ h2 ∷ h3 ∷ h4 ∷ h5 ∷ h6 ∷ h7 ∷ b ∷ body in
      let single = h4 == 0 && h5 == 1 in
      let c' = (received_udp packet c).0 in
      ((received_udp packet c).1 ≡ (if single then data_received else no_data_received))
      × ((if single then unread c' else b ∷ body) ≡ b ∷ body)
      × (c'.request_id ≡ h0 * 256 + h1)
      × (c'.bytes_read ≡ c.bytes_read + length packet)
unfolding received_udp
received_udp_lem c h0 h1 h2 h3 h4 h5 h6 h7 b body =
    let packet : List ℕ = h0 ∷ h1 ∷ h2 ∷ h3 ∷ h4 ∷ h5 ∷ h6 ∷ h7 ∷ b ∷ body in
    let long : ltb 8 (length packet) ≡ true = lt→ltb 8 (length packet) (omega arith) in
    let byte : (i : ℕ) → i < length packet → write_bytes c.rbuf 0 packet i ≡ get_or packet i 0 =
      write_bytes-get_or c.rbuf packet in
    let size : length packet - 8 ≡ length (b ∷ body) = omega arith in
    elim (Bool-cases (h4 == 0 && h5 == 1)) [
      | inl one ↦
          rw (long, byte 4 (omega arith), byte 5 (omega arith), one)
            (
              refl,
              slice-body (write_bytes c.rbuf 0 packet) (b ∷ body) (length packet - 8)
                  (λ i h. byte (8 + i) (omega arith) ∙ ap (λ k. get_or packet k 0) (behind i)) size,
              rw (byte 0 (omega arith), byte 1 (omega arith)) refl,
              refl,
            )
      | inr several ↦
          rw (long, byte 4 (omega arith), byte 5 (omega arith), several)
            (refl, refl, rw (byte 0 (omega arith), byte 1 (omega arith)) refl, refl)
    ]
  where
    behind : (i : ℕ) → 8 + i ≡ suc (suc (suc (suc (suc (suc (suc (suc i)))))))
    behind i = omega arith

-- `try_read_udp` of such a packet, where the buffer holds more than a header: a body that is longer than
-- the rest of the buffer is cut off there.
pub try_read_udp_lem :
    (c : Input) (h0 h1 h2 h3 h4 h5 h6 h7 b room : ℕ) (body : List ℕ)
    → c.rsize ≡ 9 + room
    → let packet = h0 ∷ h1 ∷ h2 ∷ h3 ∷ h4 ∷ h5 ∷ h6 ∷ h7 ∷ b ∷ body in
      let single = h4 == 0 && h5 == 1 in
      let c' = (try_read_udp packet c).0 in
      let kept = take (c.rsize - 8) (b ∷ body) in
      ((try_read_udp packet c).1 ≡ (if single then data_received else no_data_received))
      × ((if single then unread c' else kept) ≡ kept)
      × (c'.request_id ≡ h0 * 256 + h1)
      × (c'.bytes_read ≡ c.bytes_read + length (take c.rsize packet))
unfolding try_read_udp
try_read_udp_lem c h0 h1 h2 h3 h4 h5 h6 h7 b room body size =
    let all : c.rsize ≡ suc (suc (suc (suc (suc (suc (suc (suc (suc room)))))))) =
      omega (arith, size) in
    let rest : c.rsize - 8 ≡ suc room = omega (arith, size) in
    let l = received_udp_lem c h0 h1 h2 h3 h4 h5 h6 h7 b (take room body) in
    let packet : List ℕ = h0 ∷ h1 ∷ h2 ∷ h3 ∷ h4 ∷ h5 ∷ h6 ∷ h7 ∷ b ∷ body in
    let cut : try_read_udp packet c
        ≡ received_udp (h0 ∷ h1 ∷ h2 ∷ h3 ∷ h4 ∷ h5 ∷ h6 ∷ h7 ∷ b ∷ take room body) c =
      ap (λ n. received_udp (take n packet) c) all in
    rw (cut, rest) (l.0, l.1, l.2, l.3 ∙ ap (λ n. c.bytes_read + length (take n packet)) (sym all))
