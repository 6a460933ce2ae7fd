-- ===== src/Dispatch/Held.antt =====
-- The turns of a worker: the connection that waits longest is taken (ngix_module/AIS/thread.c).
use doorhinges.Base.{
  ℕ, suc, ◌-◌, ◌≡◌, refl, sym, ap, ◌∙◌, Option, none, some, List, [], ◌∷◌, ◌++◌, map, arith, length,
  length-append, drop, get_or, subst, eq_nil_of_length, length-map,
}
use mathlib.Core.Path.{subst₂}
use doorhinges.CycleQueue.{CycleQueue, eg_cq_head, eg_cq_pop}
use doorhinges.CycleQueue.Ring.{IsRing, has, elements_of, has-append}
use doorhinges.CycleQueue.Pop.{eg_cq_pop_lem, eg_cq_pop_nil, eg_cq_pop-bt_index, eg_cq_pop-buf}
use doorhinges.Dispatch.{
  ConnItem, Worker, Opened, conn_new, idle, drop_item, after_new, thread_libevent_process,
}
use doorhinges.Dispatch.Offers.{OwnBuffers, Apart, Queued, Waiting}

-- `conn_new` as `thread_libevent_process` calls it.
abbrev pub opens : Opened → ConnItem → Worker → Worker × Option ℕ
opens o item w = conn_new o item (record w { notified = w.notified - 1 })

-- `conn_new` leaves the queue as it is.
conn_new-queue :
    (o : Opened) (item : ConnItem) (w : Worker)
    → ((conn_new o item w).0.queue ≡ w.queue) × ((conn_new o item w).0.items ≡ w.items)
unfolding conn_new
conn_new-queue o item w = ground arith

-- The pop of the oldest connection.
popped-Queued :
    (queue : CycleQueue ℕ) (items : ℕ → ConnItem) (item : ConnItem) (pending : List ConnItem)
    (t room : ℕ) (used spare : List ℕ) (own : ℕ → ℕ)
    → IsRing queue used (t ∷ spare)
    → queue.bt_index ≡ 0
    → OwnBuffers queue own (used ++ t ∷ spare)
    → Apart own (used ++ t ∷ spare)
    → elements_of queue.val used ≡ map (λ p. some (own p)) used
    → map (λ p. items (own p)) used ≡ item ∷ pending
    → length spare ≡ room
    → Queued (eg_cq_pop queue).0 items pending (suc room)
      × (b : ℕ) × (eg_cq_head queue ≡ some b)
      × (items b ≡ item)
popped-Queued queue items item pending t room [] spare own ring first buffers apart pushed contents
      places =
    absurd (ground arith)
popped-Queued queue items item pending t room (a ∷ used) spare own ring first buffers apart pushed
      contents places =
    let (got, head, ring', left) = eg_cq_pop_lem a t used spare ring in
    let moved : (p : ℕ) → has p (used ++ t ∷ (spare ++ a ∷ [])) ≡ has p (a ∷ (used ++ t ∷ spare)) =
      λ p. ground (
        arith,
        has-append p used (t ∷ (spare ++ a ∷ [])),
        has-append p spare (a ∷ []),
        has-append p used (t ∷ spare),
      ) in
    (
      record {
        lined = record {
          used = used;
          next_node = t;
          spare = spare ++ a ∷ [];
          own = own;
          ring = ring';
          buffers = λ p h. ap (λ b. b p) (eg_cq_pop-buf queue) ∙ buffers p (sym (moved p) ∙ h);
          apart = λ p q h h'. apart p q (sym (moved p) ∙ h) (sym (moved q) ∙ h');
          pushed = left ∙ ap (drop 1) pushed;
          contents = ap (drop 1) contents;
          places = length-append spare (a ∷ []) ∙ omega (arith, places);
        };
        not_grown = eg_cq_pop-bt_index queue ∙ first;
      },
      own a,
      head ∙ ap (λ l. get_or l 0 none) pushed,
      ap (λ l. get_or l 0 item) contents,
    )

-- `thread_libevent_process` where a connection waits: the oldest goes to `conn_new`, and is gone from the
-- queue unless the process ends.
pub process_lem :
    (o : Opened) (w : Worker) (item : ConnItem) (pending : List ConnItem) (room : ℕ)
    → Waiting w (item ∷ pending) room
    → (thread_libevent_process o w ≡ after_new item (opens o item w))
      × Waiting (drop_item (opens o item w).0) pending (suc room)
unfolding thread_libevent_process
process_lem o w item pending room h =
    let l = h.lined in
    let (q, b, at, it) =
      popped-Queued w.queue w.items item pending l.next_node room l.used l.spare l.own l.ring
        h.not_grown l.buffers l.apart l.pushed l.contents l.places in
    let (queue, items) = conn_new-queue o item (record w { notified = w.notified - 1 }) in
    (
      rw (thread_libevent_process, at, it) refl,
      subst₂ (λ c i. Queued (eg_cq_pop c).0 i pending (suc room)) (sym queue) (sym items) q,
    )

-- Where none waits it does nothing.
pub process_nil :
    (o : Opened) (w : Worker) (room : ℕ)
    → Waiting w [] room
    → thread_libevent_process o w ≡ (record w { notified = w.notified - 1 }, idle)
unfolding thread_libevent_process
process_nil o w room h =
    let l = h.lined in
    let size : length l.used ≡ 0 =
      sym (length-map (λ p. w.items (l.own p)) l.used) ∙ ap length l.contents in
    let ring =
      subst (λ u. IsRing w.queue u (l.next_node ∷ l.spare)) (eq_nil_of_length l.used size) l.ring in
    rw (thread_libevent_process, (eg_cq_pop_nil (l.next_node ∷ l.spare) ring).1) refl
