-- ===== src/Dispatch/Served.antt =====
-- Connections reach the worker in the order in which they are given to it.
use doorhinges.Base.{
  ℕ, zero, suc, ◌-◌, ◌≡◌, refl, sym, ap, ◌∙◌, Bool, true, false, Option, none, some, List, [], ◌∷◌,
  ◌++◌, arith, length, length-append, append_assoc, append-nil, subst,
}
use doorhinges.CycleQueue.{Alloc}
use doorhinges.Dispatch.{
  ConnItem, Worker, is_udp, offer, Opened, Processed, idle, opened, refused, exited, exits,
  drop_item, after_new, thread_libevent_process, Event, offers, turn, log_turn, serve,
}
use doorhinges.Dispatch.Held.{opens, process_lem, process_nil}
use doorhinges.Dispatch.Offers.{Lined, Waiting, offer_lem}

-- The connections that are given, and those that the turns have taken.
abbrev pub given : List Event → List ConnItem
given [] = []
given (offers a written item ∷ es) = item ∷ given es
given (turn o ∷ es) = given es

abbrev pub item_of : Processed → List ConnItem
item_of idle = []
item_of (opened item c) = item ∷ []
item_of (refused item) = item ∷ []
item_of (exited item) = item ∷ []

abbrev pub taken : List Processed → List ConnItem
taken [] = []
taken (d ∷ ds) = item_of d ++ taken ds

-- There is a place for each connection when it is given, where `waiting` connections are in the queue
-- and `room` places are left.
abbrev pub fits : ℕ → ℕ → List Event → Bool
fits waiting room [] = true
fits waiting zero (offers a written item ∷ es) = false
fits waiting (suc room) (offers a written item ∷ es) = fits (suc waiting) room es
fits zero room (turn o ∷ es) = fits zero room es
fits (suc waiting) room (turn o ∷ es) = fits waiting (suc room) es

abbrev pub AreStreams : List ConnItem → Type 0
AreStreams [] = Unit {0}
AreStreams (item ∷ items) = (is_udp item.transport ≡ false) × AreStreams items

-- A run from `w`: it returns, and the connections it has taken and those that wait at its end are
-- those that waited and those that were given.
abbrev pub Serves : List Event → Worker → List ConnItem → Type 0
Serves es w pending =
    (w' : Worker) × (log : List Processed) × (left : List ConnItem) × (room : ℕ) × (serve es w
      ≡ some (w', log))
    × (taken log ++ left ≡ pending ++ given es)
    × Waiting w' left room

serve_offer :
    (a : Alloc) (written : Bool) (item : ConnItem) (es : List Event) (w w' : Worker)
    (pending : List ConnItem)
    → offer a written item w ≡ some w'
    → Serves es w' (pending ++ item ∷ [])
    → Serves (offers a written item ∷ es) w pending
unfolding serve
serve_offer a written item es w w' pending e (v, log, left, room, ran, order, waits) = (
  v,
  log,
  left,
  room,
  rw (serve, e) ran,
  order ∙ append_assoc pending (item ∷ []) (given es),
  waits,
)

serve_turn :
    (o : Opened) (done : Processed) (es : List Event) (w w' : Worker)
    (pending before : List ConnItem)
    → thread_libevent_process o w ≡ (w', done)
    → exits done ≡ false
    → before ≡ item_of done ++ pending
    → Serves es w' pending
    → Serves (turn o ∷ es) w before
unfolding serve
serve_turn o done es w w' pending before e goes split (v, log, left, room, ran, order, waits) = (
  v,
  done ∷ log,
  left,
  room,
  subst (λ d. log_turn d (serve es d.0) ≡ some (v, done ∷ log)) (sym e) (rw (ran, goes) refl),
  append_assoc (item_of done) (taken log) left
      ∙ ap (λ l. item_of done ++ l) order
      ∙ sym (append_assoc (item_of done) pending (given es))
      ∙ ap (λ l. l ++ given es) (sym split),
  waits,
)

-- Whatever `conn_new` gives, the connection of a stream is taken and the process goes on.
after_new_stream :
    (item : ConnItem) (made : Worker × Option ℕ)
    → is_udp item.transport ≡ false
    → (done : Processed) × (after_new item made ≡ (drop_item made.0, done))
      × (exits done ≡ false)
      × (item_of done ≡ item ∷ [])
unfolding after_new
after_new_stream item (w, some c) stream = (opened item c, refl, refl, refl)
after_new_stream item (w, none) stream = (refused item, rw stream refl, refl, refl)

AreStreams-append :
    (items : List ConnItem) (item : ConnItem)
    → AreStreams items
    → is_udp item.transport ≡ false
    → AreStreams (items ++ item ∷ [])
AreStreams-append [] item a s = (s, tt)
AreStreams-append (i ∷ items) item a s = (a.0, AreStreams-append items item a.1 s)

serves :
    (es : List Event) (w : Worker) (pending : List ConnItem) (room : ℕ)
    → Waiting w pending room
    → AreStreams pending
    → AreStreams (given es)
    → fits (length pending) room es ≡ true
    → Serves es w pending
unfolding serve
serves [] w pending room h s g places = (w, [], pending, room, refl, sym (append-nil pending), h)
serves (offers a written item ∷ es) w pending zero h s g places = absurd (ground arith)
serves (offers a written item ∷ es) w pending (suc room) h s g places =
    let (w', e, h') = offer_lem a written item w pending room h in
    serve_offer a written item es w w' pending e (
      serves es w' (pending ++ item ∷ []) room h' (AreStreams-append pending item s g.0) g.1
        (ap (λ n. fits n room es) (length-append pending (item ∷ []) ∙ omega arith) ∙ places))
serves (turn o ∷ es) w [] room h s g places =
    let w' = record w { notified = w.notified - 1 } in
    serve_turn o idle es w w' [] [] (process_nil o w room h) refl refl
      (serves es w' [] room h tt g places)
serves (turn o ∷ es) w (item ∷ pending) room h s g places =
    let (e, h') = process_lem o w item pending room h in
    let (done, after, goes, it) = after_new_stream item (opens o item w) s.0 in
    serve_turn o done es w (drop_item (opens o item w).0) pending (item ∷ pending) (e ∙ after) goes
      (ap (λ l. l ++ pending) (sym it))
      (serves es (drop_item (opens o item w).0) pending (suc room) h' s.1 g places)

-- A run of a worker whose queue has not grown since it was made and has a buffer of its own in each
-- node, with connections over streams, for each of which there is a place when it is given: it
-- returns, and the connections that the turns have taken, and behind them those that wait at its end,
-- are those that waited at its start and behind them those that were given: none is lost, none is
-- taken twice, and each in its turn. The queue still has not grown.
pub serve_lem :
    (es : List Event) (w : Worker) (pending : List ConnItem) (room : ℕ)
    → Lined w.queue w.items pending room
    → w.queue.bt_index ≡ 0
    → AreStreams pending
    → AreStreams (given es)
    → fits (length pending) room es ≡ true
    → Serves es w pending
serve_lem es w pending room h first s g places =
    serves es w pending room (record { lined = h; not_grown = first }) s g places
