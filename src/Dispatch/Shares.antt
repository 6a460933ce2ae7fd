-- ===== src/Dispatch/Shares.antt =====
-- The round over the workers.
use doorhinges.Base.{
  ℕ, ◌+◌, ◌-◌, ◌%◌, ◌≤◌, ◌<◌, ◌≡◌, refl, sym, ap, ◌∙◌, Bool, false, Option, none, some, List, [],
  ◌∷◌, ◌++◌, arith, length, length-append, ◌==◌, ==_iff, ==_refl, if◌then◌else◌, append_assoc,
  append-nil, subst, Bool-cases, inl, inr,
}
use mathlib.Core.Path.{subst₂}
use native.Mathlib.Nat.{mod-lt, mod-add-mod}
use doorhinges.CycleQueue.{Alloc, update}
use doorhinges.Dispatch.{ConnItem, Worker, Dispatcher, offer, dispatch_to, dispatch_conn_new}
use doorhinges.Dispatch.Offers.{Lined, Waiting, offer_lem}

-- The calls of `dispatch_conn_new` for connections that come one after the other.
abbrev pub dispatch_all : List (Alloc × Bool × ConnItem) → Dispatcher → Option Dispatcher
dispatch_all [] d = some d
dispatch_all ((a, written, item) ∷ calls) d = elim (dispatch_conn_new a written item d) [
  | none ↦ none
  | some d' ↦ dispatch_all calls d'
]

-- Of connections that come as the `k`-th and the ones behind it, those whose number has the
-- remainder `i` by the number of the workers.
abbrev pub share : ℕ → ℕ → ℕ → List (Alloc × Bool × ConnItem) → List ConnItem
share n i k [] = []
share n i k ((a, written, item) ∷ calls) =
    if k % n == i then item ∷ share n i (k + 1) calls else share n i (k + 1) calls

-- Each of the `n` workers has connections waiting and room for as many more.
abbrev pub AllWaiting : ℕ → Dispatcher → (ℕ → List ConnItem) → (ℕ → ℕ) → Type 0
AllWaiting n d pending room = (i : ℕ) → i < n → Waiting (d.workers i) (pending i) (room i)

-- What one call adds to a worker.
abbrev pub added : ℕ → ℕ → ConnItem → List ConnItem
added tid i item = if tid == i then item ∷ [] else []

length_mine : (tid : ℕ) (item : ConnItem) → length (added tid tid item) ≡ 1
length_mine tid item = rw (==_refl tid) refl

added-share :
    (n i k : ℕ) (a : Alloc) (written : Bool) (item : ConnItem)
    (calls : List (Alloc × Bool × ConnItem))
    → share n i k ((a, written, item) ∷ calls) ≡ added (k % n) i item ++ share n i (k + 1) calls
added-share n i k a written item calls = elim (Bool-cases (k % n == i)) [
  | inl mine ↦ rw mine refl
  | inr other ↦ rw other refl
]

update-Waiting :
    (workers : ℕ → Worker) (tid i : ℕ) (w' : Worker) (item : ConnItem) (pending : ℕ → List ConnItem)
    (room : ℕ → ℕ)
    → Waiting w' (pending tid ++ item ∷ []) (room tid - 1)
    → Waiting (workers i) (pending i) (room i)
    → Waiting
        (update workers tid w' i)
        (pending i ++ added tid i item)
        (room i - length (added tid i item))
update-Waiting workers tid i w' item pending room h g = elim (Bool-cases (tid == i)) [
  | inl mine ↦
      rw mine
        (subst (λ j. Waiting w' (pending j ++ item ∷ []) (room j - 1)) ((==_iff tid i).0 mine) h)
  | inr other ↦
      rw other
        (subst₂ (λ p r. Waiting (workers i) p r) (sym (append-nil (pending i))) (omega arith) g)
]

dispatch_to_lem :
    (a : Alloc) (written : Bool) (item : ConnItem) (tid : ℕ) (d : Dispatcher) (w : Worker)
    → offer a written item (d.workers tid) ≡ some w
    → dispatch_to a written item tid d
      ≡ some (record d { last_thread = tid + 1; workers = update d.workers tid w })
unfolding dispatch_to
dispatch_to_lem a written item tid d w e = rw (dispatch_to, e) refl

-- A call where the next worker has room.
dispatch_step :
    (n tid : ℕ) (a : Alloc) (written : Bool) (item : ConnItem) (d : Dispatcher)
    (pending : ℕ → List ConnItem) (room : ℕ → ℕ)
    → 0 < n
    → d.num_threads ≡ n
    → d.last_thread % n ≡ tid
    → AllWaiting n d pending room
    → 0 < room tid
    → (w : Worker) × (let d' = record d {
      last_thread = tid + 1;
      workers = update d.workers tid w;
    } in
        (dispatch_conn_new a written item d ≡ some d')
        × AllWaiting n d'
            (λ i. pending i ++ added tid i item)
            (λ i. room i - length (added tid i item)))
unfolding dispatch_conn_new
dispatch_step n tid a written item d pending room some_thread threads turn h places =
    let below : tid < n = subst (λ t. t < n) turn (mod-lt d.last_thread some_thread) in
    let here = h tid below in
    let (w, e, waits) =
      offer_lem a written item (d.workers tid) (pending tid) (room tid - 1)
        (subst (λ r. Waiting (d.workers tid) (pending tid) r) (omega (arith, places)) here) in
    let there : (d.num_threads == 0) ≡ false = ground (arith, some_thread, threads) in
    let which : d.last_thread % d.num_threads ≡ tid = ap (λ m. d.last_thread % m) threads ∙ turn in
    (
      w,
      (
        rw (dispatch_conn_new, there)
            (ap (λ t. dispatch_to a written item t d) which
              ∙ dispatch_to_lem a written item tid d w e),
        λ i less. update-Waiting d.workers tid i w item pending room waits (h i less),
      ),
    )

-- What a run of calls comes to: each of the `n` workers has its share of the connections behind those
-- that waited.
abbrev Shared :
    ℕ → List (Alloc × Bool × ConnItem) → ℕ → Dispatcher → (ℕ → List ConnItem) → (ℕ → ℕ) → Type 0
Shared n calls k d pending room =
    (d' : Dispatcher) × (dispatch_all calls d ≡ some d')
    × (d'.num_threads ≡ n)
    × ((i : ℕ)
        → i < n
        → Waiting (d'.workers i) (pending i ++ share n i k calls)
            (room i - length (share n i k calls)))

shared_step :
    (n : ℕ) (a : Alloc) (written : Bool) (item : ConnItem) (calls : List (Alloc × Bool × ConnItem))
    (k : ℕ) (d d1 : Dispatcher) (pending : ℕ → List ConnItem) (room : ℕ → ℕ)
    → dispatch_conn_new a written item d ≡ some d1
    → Shared n calls
        (k + 1)
        d1
        (λ i. pending i ++ added (k % n) i item)
        (λ i. room i - length (added (k % n) i item))
    → Shared n ((a, written, item) ∷ calls) k d pending room
shared_step n a written item calls k d d1 pending room e (d', ran, same, waits) = (
  d',
  subst (λ r. (elim r [ none ↦ none | some c ↦ dispatch_all calls c ]) ≡ some d') (sym e) ran,
  same,
  λ i below.
      let one = added (k % n) i item in
      let rest = share n i (k + 1) calls in
      let split = added-share n i k a written item calls in
      let fewer : room i - length one - length rest
          ≡ room i - length (share n i k ((a, written, item) ∷ calls)) =
        omega (arith, ap length split, length-append one rest) in
      subst₂ (λ p r. Waiting (d'.workers i) p r)
        (append_assoc (pending i) one rest ∙ ap (λ l. pending i ++ l) (sym split)) fewer
        (waits i below),
)

-- A worker has a place for each of its connections.
abbrev pub HasRoom : ℕ → List (Alloc × Bool × ConnItem) → ℕ → (ℕ → ℕ) → Type 0
HasRoom n calls k room = (i : ℕ) → i < n → length (share n i k calls) ≤ room i

shares_from :
    (n : ℕ) (calls : List (Alloc × Bool × ConnItem)) (k : ℕ) (d : Dispatcher)
    (pending : ℕ → List ConnItem) (room : ℕ → ℕ)
    → 0 < n
    → d.num_threads ≡ n
    → d.last_thread % n ≡ k % n
    → AllWaiting n d pending room
    → HasRoom n calls k room
    → Shared n calls k d pending room
shares_from n [] k d pending room some_thread threads turn h places = (
  d,
  refl,
  threads,
  λ i below.
      subst₂ (λ p r. Waiting (d.workers i) p r) (sym (append-nil (pending i))) (omega arith)
        (h i below),
)
shares_from n ((a, written, item) ∷ calls) k d pending room some_thread threads turn h places =
    let tid = k % n in
    let mine : 0 < room tid = omega (
      arith,
      places tid (mod-lt k some_thread),
      ap length (added-share n tid k a written item calls),
      length-append (added tid tid item) (share n tid (k + 1) calls),
      length_mine tid item,
    ) in
    let (w, (e, h')) =
      dispatch_step n tid a written item d pending room some_thread threads turn h mine in
    let d1 = record d { last_thread = tid + 1; workers = update d.workers tid w } in
    shared_step n a written item calls k d d1 pending room e (
      shares_from n calls (k + 1) d1 (λ i. pending i ++ added tid i item)
        (λ i. room i - length (added tid i item)) some_thread threads (mod-add-mod k n 1) h'
        (λ i below. omega (
          arith,
          places i below,
          ap length (added-share n i k a written item calls),
          length-append (added tid i item) (share n i (k + 1) calls),
        )))

-- Each of the `n` workers has connections in its queue and room for as many more, and its queue has not
-- grown since it was made.
abbrev pub AllLined : ℕ → Dispatcher → (ℕ → List ConnItem) → (ℕ → ℕ) → Type 0
AllLined n d pending room =
    (i : ℕ) → i < n → Lined (d.workers i).queue (d.workers i).items (pending i) (room i)

abbrev pub NoneGrown : ℕ → Dispatcher → Type 0
NoneGrown n d = (i : ℕ) → i < n → (d.workers i).queue.bt_index ≡ 0

-- Calls of `dispatch_conn_new` with `n` threads, where the queue of no worker has grown since it was
-- made, each node of a queue has a buffer of its own, and each worker has a place for each of its
-- connections: they return, and at the worker `i` the connections with a number `j` wait, behind those
-- that waited before, for which `last_thread + j` has the remainder `i` by `n`, and no others.
pub dispatch_all-share :
    (n : ℕ) (calls : List (Alloc × Bool × ConnItem)) (d : Dispatcher) (pending : ℕ → List ConnItem)
    (room : ℕ → ℕ) (i : ℕ)
    → 0 < n
    → d.num_threads ≡ n
    → AllLined n d pending room
    → NoneGrown n d
    → HasRoom n calls d.last_thread room
    → i < n
    → let mine = share n i d.last_thread calls in
      (d' : Dispatcher) × (dispatch_all calls d ≡ some d')
      × Waiting (d'.workers i) (pending i ++ mine) (room i - length mine)
dispatch_all-share n calls d pending room i some_thread threads h first places below =
    let (d', ran, same, waits) =
      shares_from n calls d.last_thread d pending room some_thread threads refl
        (λ j less. record { lined = h j less; not_grown = first j less }) places in
    (d', ran, waits i below)
