-- ===== src/Pools/Items.antt =====
-- Where the objects of `create_conn` and `create_conn_item` lie.
use doorhinges.Base.{ℕ, suc, ◌+◌, ◌*◌, ◌≡◌, refl, arith, get_or}
use doorhinges.Pools.{Sizes, conn_size, place_conn, items_from}

-- `create_conn_item` with five items or more, each of `item` bytes: the first two are the same one,
-- and the fifth begins six sizes behind the start of the block.
pub items_from_lem :
    (item buf n : ℕ)
    → let items = items_from item buf 0 (suc (suc (suc (suc (suc n))))) in
      (get_or items 0 0 ≡ get_or items 1 0) × (get_or items 4 0 ≡ buf + item * 6)
unfolding items_from
items_from_lem item buf n = (omega arith, omega arith)

-- The parts of an object of `create_conn` lie one behind the other, each with its whole size, from
-- behind the `conn` to the end of the memory for the object, where the next one begins.
pub place_conn_lem :
    (s : Sizes) (buf : ℕ)
    → let c = place_conn s buf in
      (c.rbuf ≡ buf + s.conn)
      × (c.wbuf ≡ c.rbuf + s.data_buffer)
      × (c.iov ≡ c.wbuf + s.data_buffer)
      × (c.msglist ≡ c.iov + s.iov_list)
      × (c.bulk ≡ c.msglist + s.msg_list)
      × (c.next_conn ≡ c.bulk + s.ais_connection + s.request_buf)
      × (c.next_conn ≡ buf + conn_size s)
unfolding place_conn conn_size
place_conn_lem s buf =
    (refl, omega arith, omega arith, omega arith, omega arith, omega arith, omega arith)
