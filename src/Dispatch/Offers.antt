-- ===== src/Dispatch/Offers.antt =====
-- The connections that wait in the queue of a worker, and one that is given to it
-- (ngix_module/AIS/thread.c).
use doorhinges.Base.{
  ℕ, suc, ◌+◌, ◌≡◌, refl, sym, ap, ap₂, ==_refl, ==_iff, ◌∙◌, Bool, true, false, not, ◌&&◌, some,
  List, [], ◌∷◌, ◌++◌, map, map-append, arith, length, ◌==◌, if◌then◌else◌, append_assoc, subst,
  Bool-cases, inl, inr,
}
use doorhinges.CycleQueue.{CycleQueue, Alloc, update, eg_cq_get_cur_buf, eg_cq_push, is_spare}
use doorhinges.CycleQueue.Ring.{IsRing, has, elements_of, has-append, Distinct-apart, map_congr}
use doorhinges.CycleQueue.Push.{eg_cq_push_lem, eg_cq_push-bt_index, eg_cq_push-buf}
use doorhinges.Dispatch.{ConnItem, Worker, offer}

-- The nodes have the buffers `own`, and no two of them the same one.
abbrev pub OwnBuffers : CycleQueue ℕ → (ℕ → ℕ) → List ℕ → Type 0
OwnBuffers queue own nodes = (p : ℕ) → has p nodes ≡ true → queue.buf p ≡ some (own p)

abbrev pub Apart : (ℕ → ℕ) → List ℕ → Type 0
Apart own nodes = (p q : ℕ) → has p nodes ≡ true → has q nodes ≡ true → own p ≡ own q → p ≡ q

-- A queue has the connections `pending` waiting, the oldest first, and a place for `room` more
-- without another bucket: each node has a buffer of its own, in which the connection is that the node
-- was pushed for.
pub record Lined (queue : CycleQueue ℕ) (items : ℕ → ConnItem) (pending : List ConnItem) (room : ℕ)
    : Type 0 where
  pub used : List ℕ
  pub next_node : ℕ
  pub spare : List ℕ
  pub own : ℕ → ℕ
  pub ring : IsRing queue used (next_node ∷ spare)
  pub buffers : OwnBuffers queue own (used ++ next_node ∷ spare)
  pub apart : Apart own (used ++ next_node ∷ spare)
  pub pushed : elements_of queue.val used ≡ map (λ p. some (own p)) used
  pub contents : map (λ p. items (own p)) used ≡ pending
  pub places : length spare ≡ room

-- The same of a queue that has not grown since it was made.
pub record Queued (queue : CycleQueue ℕ) (items : ℕ → ConnItem) (pending : List ConnItem) (room : ℕ)
    : Type 0 where
  pub lined : Lined queue items pending room
  pub not_grown : queue.bt_index ≡ 0

-- The worker after the push of a buffer.
abbrev pub offered : Alloc → Bool → ConnItem → ℕ → Worker → Worker
offered a written item b w = record w {
  queue = (eg_cq_push a w.queue (some b)).0;
  items = update w.items b item;
  notified = if written then w.notified + 1 else w.notified;
}

abbrev pub Waiting : Worker → List ConnItem → ℕ → Type 0
Waiting w pending room = Queued w.queue w.items pending room

-- The buffer of the tail is not that of a node in use.
other :
    (used spare : List ℕ) (t f : ℕ) (own : ℕ → ℕ) (items : ℕ → ConnItem) (item : ConnItem) (q : ℕ)
    → has q used ≡ true
    → has t used ≡ false
    → Apart own (used ++ t ∷ f ∷ spare)
    → update items (own t) item (own q) ≡ items (own q)
other used spare t f own items item q h fresh apart = elim (Bool-cases (own t == own q)) [
  | inl same ↦
      let e : t ≡ q =
        apart t q (ground (arith, has-append t used (t ∷ f ∷ spare)))
          (ground (arith, has-append q used (t ∷ f ∷ spare))) ((==_iff (own t) (own q)).0 same) in
      absurd (ground (arith, ap (λ x. has x used) e))
  | inr differ ↦ rw differ refl
]

module _ (a : Alloc) (written : Bool) (item : ConnItem) (w : Worker) (pending : List ConnItem) where
  -- The node `t` is the tail, and `f` the next one.
  offered-Waiting :
      (used spare : List ℕ) (t f : ℕ) (own : ℕ → ℕ)
      → IsRing w.queue used (t ∷ f ∷ spare)
      → w.queue.bt_index ≡ 0
      → OwnBuffers w.queue own (used ++ t ∷ f ∷ spare)
      → Apart own (used ++ t ∷ f ∷ spare)
      → elements_of w.queue.val used ≡ map (λ p. some (own p)) used
      → map (λ p. w.items (own p)) used ≡ pending
      → Waiting (offered a written item (own t) w) (pending ++ item ∷ []) (length spare)
  offered-Waiting used spare t f own ring first buffers apart pushed contents =
      let keeps : (not (w.queue.bt_index == 0) && is_spare w.queue.btlist w.queue) ≡ false =
        rw first refl in
      let p = (eg_cq_push_lem a (some (own t)) t f used spare ring keeps).1 in
      let same : (used ++ t ∷ []) ++ f ∷ spare ≡ used ++ t ∷ f ∷ spare =
        append_assoc used (t ∷ []) (f ∷ spare) in
      let fresh : has t used ≡ false =
        Distinct-apart t used (t ∷ f ∷ spare) ring.distinct (rw (==_refl t) refl) in
      record {
        lined = record {
          used = used ++ t ∷ [];
          next_node = f;
          spare = spare;
          own = own;
          ring = p.ring;
          buffers = λ q h.
              ap (λ b. b q) (eg_cq_push-buf a (some (own t)) t f used spare ring keeps)
              ∙ buffers q (ap (has q) (sym same) ∙ h);
          apart = λ q r h h'. apart q r (ap (has q) (sym same) ∙ h) (ap (has r) (sym same) ∙ h');
          pushed =
              p.elements
              ∙ ap (λ l. l ++ some (own t) ∷ []) pushed
              ∙ sym (map-append (λ q. some (own q)) used (t ∷ []));
          contents =
              map-append (λ q. update w.items (own t) item (own q)) used (t ∷ [])
              ∙ ap₂ (λ l x. l ++ x ∷ [])
                  (map_congr (λ q. update w.items (own t) item (own q)) (λ q. w.items (own q)) used
                      (λ q h. other used spare t f own w.items item q h fresh apart)
                    ∙ contents)
                  (rw (==_refl (own t)) refl);
          places = refl;
        };
        not_grown = eg_cq_push-bt_index a (some (own t)) t f used spare ring keeps ∙ first;
      }

  offer_at :
      (room t : ℕ) (used spare : List ℕ) (own : ℕ → ℕ)
      → IsRing w.queue used (t ∷ spare)
      → w.queue.bt_index ≡ 0
      → OwnBuffers w.queue own (used ++ t ∷ spare)
      → Apart own (used ++ t ∷ spare)
      → elements_of w.queue.val used ≡ map (λ p. some (own p)) used
      → map (λ p. w.items (own p)) used ≡ pending
      → length spare ≡ suc room
      → (w' : Worker) × (offer a written item w ≡ some w') × Waiting w' (pending ++ item ∷ []) room
  unfolding offer eg_cq_get_cur_buf
  offer_at room t used [] own ring first buffers apart pushed contents places = absurd (omega arith)
  offer_at room t used (f ∷ spare) own ring first buffers apart pushed contents places =
      let buffer : w.queue.buf w.queue.tail ≡ some (own t) =
        ap w.queue.buf ring.empties.0
        ∙ buffers t (ground (arith, has-append t used (t ∷ f ∷ spare))) in
      (
        offered a written item (own t) w,
        rw (offer, buffer) refl,
        subst (λ n. Waiting (offered a written item (own t) w) (pending ++ item ∷ []) n)
            (omega (arith, places))
            (offered-Waiting used spare t f own ring first buffers apart pushed contents),
      )

  -- `offer` where another place is left: the connection waits behind the others.
  pub offer_lem :
      (room : ℕ)
      → Waiting w pending (suc room)
      → (w' : Worker) × (offer a written item w ≡ some w') × Waiting w' (pending ++ item ∷ []) room
  offer_lem room h =
      let l = h.lined in
      offer_at room l.next_node l.used l.spare l.own l.ring h.not_grown l.buffers l.apart l.pushed
        l.contents l.places
