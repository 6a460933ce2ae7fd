-- ===== src/Dispatch/Fresh.antt =====
-- What `conn_new` gives.
use doorhinges.Base.{
  ℕ, ◌+◌, ◌≤◌, ◌≡◌, refl, Bool, true, false, Option, none, some, List, [], ◌∷◌, ◌++◌, arith, length,
  ==_refl, if◌then◌else◌,
}
use mathlib.Core.List.{flatten}
use doorhinges.CycleQueue.{Alloc}
use doorhinges.Reply.Valid.{IsValid}
use doorhinges.Machine.{Machine}
use doorhinges.Pools.{CachePool, cp_pop}
use doorhinges.Pools.Refill.{cp_pop_lem, cp_pop-room, cp_push_lem}
use doorhinges.Pools.Created.{Contains, Holds}
use doorhinges.Dispatch.{ConnItem, Worker, is_udp, start_conn, Opened, set_up, conn_new}

-- A connection as it starts: in the state of the item and with the protocol of the
-- settings, with nothing read and not parsed, and with a
-- reply without messages to which `add_iov` and `add_msghdr` may add.
pub record IsFresh (iov_max : ℕ) (binary : Bool) (item : ConnItem) (m : Machine) : Type 0 where
  pub state : m.reply.output.state ≡ item.init_state
  pub events : m.ev_flags ≡ item.event_flags
  pub protocol : m.binary ≡ binary
  pub transport : m.reply.output.udp ≡ is_udp item.transport
  pub nothing_read : m.input.rbytes ≡ 0
  pub no_message : m.reply.output.msglist ≡ []
  pub reply : IsValid iov_max m.reply

-- Whatever a connection was left in, `conn_new` makes it fresh.
start_conn-IsFresh :
    (iov_max : ℕ) (binary : Bool) (item : ConnItem) (m : Machine)
    → 1 ≤ m.reply.iovsize
    → 1 ≤ m.reply.msgsize
    → IsFresh iov_max binary item (start_conn binary item m)
unfolding start_conn flatten
start_conn-IsFresh iov_max binary item m some_iov some_msg = record {
  state = refl;
  events = refl;
  protocol = refl;
  transport = refl;
  nothing_read = refl;
  no_message = refl;
  reply = record {
    sendable = tt;
    datagrams = tt;
    first = omega arith;
    used = refl;
    iov_room = omega arith;
    msg_room = omega arith;
    iov_some = some_iov;
    msg_some = some_msg;
  };
}

-- What `conn_new` has done with the connection `c`, the first of the pool's; the flag says whether
-- `event_add` is done.
pub record IsOpened (iov_max : ℕ) (item : ConnItem) (w : Worker) (c : ℕ) (cs : List ℕ)
    (added binary : Bool) (r : Worker × Option ℕ) : Type 0 where
  pub given : r.1 ≡ (if added then some c else none)
  pub pool : Holds r.0.pool (if added then cs else cs ++ c ∷ [])
  pub count : r.0.curr_conns ≡ (if added then w.curr_conns + 1 else w.curr_conns)
  pub fresh : IsFresh iov_max binary item (r.0.conns c)

set_up-IsOpened :
    (iov_max : ℕ) (binary : Bool) (a : Alloc) (item : ConnItem) (w : Worker) (popped : CachePool)
    (c : ℕ) (cs : List ℕ) (added : Bool)
    → Holds popped cs
    → length cs + 2 ≤ popped.cq.size
    → 1 ≤ (w.conns c).reply.iovsize
    → 1 ≤ (w.conns c).reply.msgsize
    → IsOpened iov_max item w c cs added binary (set_up binary a item w popped c added)
unfolding set_up
set_up-IsOpened iov_max binary a item w popped c cs true h room some_iov some_msg = record {
  given = refl;
  pool = h;
  count = refl;
  fresh = rw (==_refl c) (start_conn-IsFresh iov_max binary item (w.conns c) some_iov some_msg);
}
set_up-IsOpened iov_max binary a item w popped c cs false h room some_iov some_msg = record {
  given = refl;
  pool = (cp_push_lem a popped c cs h room).1;
  count = refl;
  fresh = rw (==_refl c) (start_conn-IsFresh iov_max binary item (w.conns c) some_iov some_msg);
}

-- `conn_new` with a pool that has a connection and whose queue has not grown since it was made, where
-- the first connection has room for a message and a fragment: if `event_add` succeeds it gives the
-- first one, which the pool has no longer, and counts it; if not, it gives nothing, and the connection
-- is the last one of the pool again. Either way its queue has not grown, and the connection is fresh,
-- whatever it was left in.
pub conn_new_lem :
    (iov_max : ℕ) (o : Opened) (item : ConnItem) (w : Worker) (c : ℕ) (cs : List ℕ)
    → Contains w.pool (c ∷ cs)
    → w.pool.cq.bt_index ≡ 0
    → 1 ≤ (w.conns c).reply.iovsize
    → 1 ≤ (w.conns c).reply.msgsize
    → IsOpened iov_max item w c cs o.event_add o.binary (conn_new o item w)
unfolding conn_new
conn_new_lem iov_max o item w c cs k first some_iov some_msg =
    let h : Holds w.pool (c ∷ cs) = record { contained = k; not_grown = first } in
    let (given, left) = cp_pop_lem o.bucket o.create_obj w.pool c cs h in
    rw (conn_new, given)
      (set_up-IsOpened iov_max o.binary o.memory item w (cp_pop o.bucket o.create_obj w.pool).0 c cs
        o.event_add left (cp_pop-room o.bucket o.create_obj w.pool c cs h) some_iov some_msg)
