-- ===== src/XList/Threads.antt =====
-- The threads that share a list. A thread in `x_list_pop(ptr, true)` first takes one from the
-- semaphore, then, at any later time, locks the list and takes an item; in between it holds a
-- ticket. Every other call is one step, since it works under the lock.
use doorhinges.Base.{
  ℕ, zero, suc, ◌+◌, ◌-◌, ◌≤◌, ◌<◌, ◌≡◌, refl, sym, ap, subst, ◌∙◌, Bool, true, false, Option, none,
  some, List, [], ◌∷◌, ◌++◌, arith, length, length-append, if◌then◌else◌, ◌==◌, ltb, Bool-cases,
  inl, inr,
}
use doorhinges.Links.{has}
use doorhinges.XList.{
  XList, ℤ, push_item, pop_item, wait_item, wake_count, post, drain, clear, u64_mod, x_list_create,
  success,
}
use doorhinges.XList.Queue.{
  IsQueue, nodes_of, IsQueue-sem, push_item-IsPushed, pop_item-IsQueue, pop_item-IsQueue_nil,
  push_item_full,
}

-- The list, and how many threads hold a ticket. `lost` counts the pushes whose `sem_post` failed, and
-- the pops that had their ticket and could not lock the list.
pub record Shared : Type 0 where
  pub list : XList
  pub tickets : ℕ
  pub lost : ℕ

-- A push of an item that is not in the list, with the flag for its `sem_post`; the two parts of a pop
-- that waits; and such a pop whose lock fails. A call that waits for nothing and whose lock fails, and
-- a pop whose `sem_wait` fails, change nothing.
pub data Step (s : Shared) : Shared → Type 0 where
  push :
      (item : ℕ) (posted : Bool) (xs : List ℕ)
      → IsQueue s.list xs
      → has (item + s.list.off_node) (0 ∷ nodes_of s.list.off_node xs) ≡ false
      → Step s (record s {
        list = (push_item item posted s.list).0;
        lost = if posted then s.lost else s.lost + 1;
      })
  wait :
      (l : XList)
      → wait_item s.list ≡ some l
      → Step s (record s { list = l; tickets = s.tickets + 1 })
  take : (n : ℕ) → s.tickets ≡ suc n → Step s (record s { list = (pop_item s.list).0; tickets = n })
  unlocked : (n : ℕ) → s.tickets ≡ suc n → Step s (record s { tickets = n; lost = s.lost + 1 })

-- The other calls too: a pop that does not wait, `x_list_wakeup`, of whose calls of `sem_post` `posted`
-- succeed, and `x_list_reset`.
pub data AnyStep (s : Shared) : Shared → Type 0 where
  paired : {t : Shared} → Step s t → AnyStep s t
  poll : AnyStep s (record s { list = (pop_item s.list).0 })
  wake :
      (n : ℤ) (posted : ℕ)
      → posted ≤ wake_count n
      → AnyStep s (record s { list = post posted s.list })
  reset : AnyStep s (record s { list = clear s.list })

-- A list that was just created, and what the steps make of it.
pub data Reach (start : XList) : Shared → Type 0 where
  here : Reach start (record { list = start; tickets = 0; lost = 0 })
  later : {s t : Shared} → Reach start s → AnyStep s t → Reach start t

pub data Paired (start : XList) : Shared → Type 0 where
  here : Paired start (record { list = start; tickets = 0; lost = 0 })
  later : {s t : Shared} → Paired start s → Step s t → Paired start t

abbrev pub Holds : Shared → Type 0
Holds s = (xs : List ℕ) × IsQueue s.list xs

-- Of the items, all but those that `lost` counts have a ticket or a count of the semaphore.
abbrev pub IsAwake : Shared → Type 0
IsAwake s = Holds s × (s.list.len ≤ s.list.sem + s.tickets + s.lost)

-- There is an item for each ticket and each count of the semaphore.
abbrev pub IsPaired : Shared → Type 0
IsPaired s = Holds s × (s.list.sem + s.tickets ≤ s.list.len)

drain_zero : (n : ℕ) → drain n ≡ 0
unfolding drain
drain_zero zero = refl
drain_zero (suc n) = drain_zero n

post_sem : (n : ℕ) (l : XList) → post n l ≡ record l { sem = l.sem + n }
unfolding post
post_sem zero l = λ i. record l { sem = none_more i }
  where
    none_more : l.sem ≡ l.sem + 0
    none_more = omega arith
post_sem (suc n) l = post_sem n (record l { sem = l.sem + 1 }) ∙ (λ i. record l { sem = plus i })
  where
    plus : l.sem + 1 + n ≡ l.sem + suc n
    plus = omega arith

module _ {m : XList} where
  -- The push of an item: one more item and, if it is posted, one more to take, or nothing.
  push_counts :
      (item : ℕ) (posted : Bool) (xs : List ℕ)
      → IsQueue m xs
      → has (item + m.off_node) (0 ∷ nodes_of m.off_node xs) ≡ false
      → (let l = (push_item item posted m).0 in
          (ys : List ℕ) × IsQueue l ys
          × (l.len + m.sem ≤ m.len + l.sem + (if posted then 0 else 1))
          × (m.len + l.sem ≤ l.len + m.sem))
  push_counts item posted xs q fresh = elim (Bool-cases (ltb m.len m.max_len)) [
    | inl e ↦
        let pushed = (push_item-IsPushed xs item posted q fresh (ground arith)).0 in
        let more = length-append xs (item ∷ []) in
        (
          xs ++ item ∷ [],
          pushed.queue,
          ground (arith, pushed.sem, pushed.queue.counted, q.counted, more),
          ground (arith, pushed.sem, pushed.queue.counted, q.counted, more),
        )
    | inr e ↦ rw (push_item_full m item posted (ground arith)) (xs, q, omega arith, omega arith)
  ]

  wait_counts :
      (l : XList) (xs : List ℕ)
      → IsQueue m xs
      → wait_item m ≡ some l
      → IsQueue l xs × (l.len ≡ m.len) × (l.sem + 1 ≡ m.sem)
  unfolding wait_item
  wait_counts l xs q e = elim (Bool-cases (m.sem == 0)) [
    | inl z ↦ absurd_wait l (sym e ∙ rw z refl)
    | inr z ↦
        subst (λ l. IsQueue l xs × (l.len ≡ m.len) × (l.sem + 1 ≡ m.sem)) (ap get (rw z at e))
          (IsQueue-sem xs (m.sem - 1) q, refl, ground arith)
  ]
    where
      get : Option XList → XList
      get none = m
      get (some x) = x

      absurd_wait :
          (l : XList) → some l ≡ none → IsQueue l xs × (l.len ≡ m.len) × (l.sem + 1 ≡ m.sem)
      absurd_wait l h = ground arith

  -- What `pop_item` leaves, of a list that may be empty.
  pop_counts :
      (xs : List ℕ)
      → IsQueue m xs
      → (let l = (pop_item m).0 in
          (ys : List ℕ) × IsQueue l ys × (l.len ≡ m.len - 1) × (l.sem ≡ m.sem))
  pop_counts [] q = rw (pop_item-IsQueue_nil q) ([], q, omega (arith, q.counted), refl)
  pop_counts (x ∷ xs) q =
      let popped = pop_item-IsQueue x xs q in
      (xs, popped.0, omega (arith, popped.0.counted, q.counted), popped.2)

Step-IsPaired : {s t : Shared} → IsPaired s → Step s t → IsPaired t
Step-IsPaired {s} ((xs, q), e) (push item posted ys p fresh) =
    let now = push_counts item posted ys p fresh in
    ((now.0, now.1), ground (arith, now.2, now.3, e))
Step-IsPaired {s} ((xs, q), e) (wait l took) =
    let now = wait_counts l xs q took in ((xs, now.0), omega (arith, now.1, now.2, e))
Step-IsPaired {s} ((xs, q), e) (take n held) =
    let now = pop_counts xs q in ((now.0, now.1), omega (arith, now.2, now.3, e, held))
Step-IsPaired {s} ((xs, q), e) (unlocked n held) = ((xs, q), omega (arith, e, held))

Step-IsAwake : {s t : Shared} → IsAwake s → Step s t → IsAwake t
Step-IsAwake {s} ((xs, q), e) (push item posted ys p fresh) =
    let now = push_counts item posted ys p fresh in
    ((now.0, now.1), ground (arith, now.2, now.3, e))
Step-IsAwake {s} ((xs, q), e) (wait l took) =
    let now = wait_counts l xs q took in ((xs, now.0), omega (arith, now.1, now.2, e))
Step-IsAwake {s} ((xs, q), e) (take n held) =
    let now = pop_counts xs q in ((now.0, now.1), omega (arith, now.2, now.3, e, held))
Step-IsAwake {s} ((xs, q), e) (unlocked n held) = ((xs, q), omega (arith, e, held))

clear-IsQueue : {l : XList} (xs : List ℕ) → IsQueue l xs → IsQueue (clear l) []
unfolding clear
clear-IsQueue xs q = record {
  linked = refl;
  ends = tt;
  distinct = tt;
  proper = refl;
  counted = refl;
  bounded = omega arith;
  word = q.word;
}

AnyStep-IsAwake : {s t : Shared} → IsAwake s → AnyStep s t → IsAwake t
unfolding clear
AnyStep-IsAwake w (paired step) = Step-IsAwake w step
AnyStep-IsAwake {s} ((xs, q), e) poll =
    let now = pop_counts xs q in ((now.0, now.1), omega (arith, now.2, now.3, e))
AnyStep-IsAwake {s} ((xs, q), e) (wake n posted few) =
    rw (post_sem posted s.list) ((xs, IsQueue-sem xs (s.list.sem + posted) q), omega (arith, e))
AnyStep-IsAwake {s} ((xs, q), e) reset = (([], clear-IsQueue xs q), omega arith)

-- `x_list_create` that succeeds gives an empty list whose semaphore is 0 and whose bound is
-- `max_len`, or 2 ^ 64 - 1 if that is 0.
pub x_list_create_lem :
    (max_len off_node : ℕ) (next : ℕ → ℕ)
    → max_len < u64_mod
    → (l : XList) × (x_list_create true true true true max_len off_node next ≡ (some l, success))
      × IsQueue l []
      × (l.sem ≡ 0)
      × (l.max_len ≡ (if max_len == 0 then u64_mod - 1 else max_len))
unfolding x_list_create
x_list_create_lem max_len off_node next small = (
  _,
  refl,
  record {
    linked = refl;
    ends = tt;
    distinct = tt;
    proper = refl;
    counted = refl;
    bounded = omega arith;
    word = ground arith;
  },
  refl,
  refl,
)

module _ {start : XList} (empty : IsQueue start []) (unposted : start.sem ≡ 0) where
  -- Whatever the threads do, and whichever posts and locks fail, the list is well-formed, and the
  -- items in it are never more than the counts of the semaphore, the tickets and the losses together.
  pub Reach-IsAwake : {s : Shared} → Reach start s → IsAwake s
  Reach-IsAwake here = (([], empty), omega (arith, empty.counted))
  Reach-IsAwake (later r step) = AnyStep-IsAwake (Reach-IsAwake r) step

  Paired-IsPaired : {s : Shared} → Paired start s → IsPaired s
  Paired-IsPaired here = (([], empty), omega (arith, unposted))
  Paired-IsPaired (later r step) = Step-IsPaired (Paired-IsPaired r) step

  -- A wakeup is lost only where a `sem_post` of a push, or the lock of a pop that has waited, fails: if
  -- the list holds more items than such failures there were, and no thread has a ticket, a pop that waits
  -- does not block.
  pub wait_item-awake :
      {s : Shared} (x : ℕ) (xs : List ℕ)
      → Reach start s
      → IsQueue s.list (x ∷ xs)
      → s.lost ≤ length xs
      → s.tickets ≡ 0
      → (l : XList) × (wait_item s.list ≡ some l)
  unfolding wait_item
  wait_item-awake {s} x xs r q few idle =
      let awake = (Reach-IsAwake r).1 in
      let posted : (s.list.sem == 0) ≡ false = ground (arith, awake, q.counted, idle, few) in
      (record s.list { sem = s.list.sem - 1 }, rw posted refl)

  -- Where only pushes and pops that wait are called, whichever of their posts and locks fail, a thread
  -- with a ticket gets an item: its pop never finds the list empty.
  pub pop_item-ticket :
      {s : Shared} (n : ℕ)
      → Paired start s
      → s.tickets ≡ suc n
      → (x : ℕ) × (xs : List ℕ) × IsQueue s.list (x ∷ xs)
        × IsQueue (pop_item s.list).0 xs
        × ((pop_item s.list).1 ≡ x)
  pop_item-ticket {s} n r held =
      go (Paired-IsPaired r).0.0 (Paired-IsPaired r).0.1 (Paired-IsPaired r).1
    where
      go :
          (xs : List ℕ)
          → IsQueue s.list xs
          → s.list.sem + s.tickets ≤ s.list.len
          → (x : ℕ) × (ys : List ℕ) × IsQueue s.list (x ∷ ys)
            × IsQueue (pop_item s.list).0 ys
            × ((pop_item s.list).1 ≡ x)
      go [] q e = ground (arith, q.counted, e, held)
      go (x ∷ xs) q e = let popped = pop_item-IsQueue x xs q in (x, xs, q, popped.0, popped.1)
