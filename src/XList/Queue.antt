-- ===== src/XList/Queue.antt =====
-- The list as a first-in-first-out queue of items.
use doorhinges.Base.{
  ℕ, suc, ◌+◌, ◌-◌, ◌≤◌, ◌<◌, ◌≡◌, refl, ap, ==_refl, ◌∙◌, not, Bool, true, false, ◌||◌, some, List,
  [], ◌∷◌, ◌++◌, arith, length, length-append, lt→ltb, if◌then◌else◌, ◌==◌, leb, Bool-cases, inl,
  inr,
}
use doorhinges.Links.{Leads, has, Distinct, has-append, Distinct-snoc}
use doorhinges.XList.{
  XList, success, failure, update, u64, u64_mod, append_node, push_item, pop_item, x_list_push,
  x_list_pop, x_list_top, x_list_length, pop_locked,
}

-- `tail` is the last node, if there is one.
abbrev pub EndsAt : ℕ → List ℕ → Type 0
EndsAt tail [] = Unit {0}
EndsAt tail (a ∷ []) = tail ≡ a
EndsAt tail (a ∷ b ∷ bs) = EndsAt tail (b ∷ bs)

-- The nodes of the items.
abbrev pub nodes_of : ℕ → List ℕ → List ℕ
nodes_of off [] = []
nodes_of off (x ∷ xs) = (x + off) ∷ nodes_of off xs

-- The list `l` holds the items `xs`, the first one first: its nodes are linked in this order to
-- NULL and all different, and `len` counts them, within a bound that a `uint64` can hold.
pub record IsQueue (l : XList) (xs : List ℕ) : Type 0 where
  pub linked : Leads l.next l.head (nodes_of l.off_node xs) 0
  pub ends : EndsAt l.tail (nodes_of l.off_node xs)
  pub distinct : Distinct (nodes_of l.off_node xs)
  pub proper : has 0 (nodes_of l.off_node xs) ≡ false
  pub counted : l.len ≡ length xs
  pub bounded : l.len ≤ l.max_len
  pub word : l.max_len < u64_mod

u64_small : (x : ℕ) → x < u64_mod → u64 x ≡ x
u64_small x h = omega arith

u64_dec : (x : ℕ) → suc x < u64_mod → u64 (suc x + (u64_mod - 1)) ≡ x
u64_dec x h = omega arith

nodes_of-append :
    (off : ℕ) (xs ys : List ℕ) → nodes_of off (xs ++ ys) ≡ nodes_of off xs ++ nodes_of off ys
nodes_of-append off [] ys = refl
nodes_of-append off (x ∷ xs) ys = ap (λ zs. (x + off) ∷ zs) (nodes_of-append off xs ys)

EndsAt-has : (tail a : ℕ) (as' : List ℕ) → EndsAt tail (a ∷ as') → has tail (a ∷ as') ≡ true
EndsAt-has tail a [] e = rw e (rw (==_refl a) refl)
EndsAt-has tail a (b ∷ bs) e = ground (arith, EndsAt-has tail b bs e)

EndsAt-snoc : (a : ℕ) (as' : List ℕ) → EndsAt a (as' ++ a ∷ [])
EndsAt-snoc a [] = refl
EndsAt-snoc a (b ∷ []) = refl
EndsAt-snoc a (b ∷ c ∷ cs) = EndsAt-snoc a (c ∷ cs)

EndsAt-tail : (tail a : ℕ) (as' : List ℕ) → EndsAt tail (a ∷ as') → EndsAt tail as'
EndsAt-tail tail a [] e = tt
EndsAt-tail tail a (b ∷ bs) e = e

-- Linking a node behind the last one.
Leads-snoc :
    (next : ℕ → ℕ) (p tail n a : ℕ) (as' : List ℕ)
    → EndsAt tail (a ∷ as')
    → Distinct (a ∷ as')
    → has n (a ∷ as') ≡ false
    → Leads next p (a ∷ as') 0
    → Leads (update (update next n 0) tail n) p ((a ∷ as') ++ n ∷ []) 0
Leads-snoc next p tail n a [] e d h l = (l.0, (ground arith, ground arith))
Leads-snoc next p tail n a (b ∷ bs) e d h l =
    let last = EndsAt-has tail b bs e in
    let keeps : update (update next n 0) tail n a ≡ next a = ground (arith, last, d.0) in
    (l.0, rw keeps (Leads-snoc next (next a) tail n b bs e d.1 (ground arith) l.1))

head_nonzero : {l : XList} (x : ℕ) (xs : List ℕ) → IsQueue l (x ∷ xs) → (l.head == 0) ≡ false
head_nonzero x xs q = ground (arith, q.linked.0, q.proper)

-- The semaphore is no part of the queue.
pub IsQueue-sem :
    {l : XList} (xs : List ℕ) (s : ℕ) → IsQueue l xs → IsQueue (record l { sem = s }) xs
IsQueue-sem xs s q = record {
  linked = q.linked;
  ends = q.ends;
  distinct = q.distinct;
  proper = q.proper;
  counted = q.counted;
  bounded = q.bounded;
  word = q.word;
}

append_node-IsQueue :
    {l : XList} (xs : List ℕ) (item : ℕ)
    → IsQueue l xs
    → has (item + l.off_node) (0 ∷ nodes_of l.off_node xs) ≡ false
    → l.len < l.max_len
    → (s : ℕ)
    → IsQueue
        (record (append_node (item + l.off_node) l) { len = u64 (l.len + 1); sem = s })
        (xs ++ item ∷ [])
unfolding append_node
append_node-IsQueue {l} [] item q fresh room s = rw (q.linked) (record {
  linked = (refl, ground arith);
  ends = refl;
  distinct = (refl, tt);
  proper = ground arith;
  counted = rw (q.counted) refl;
  bounded = rw (q.counted) (omega (arith, q.counted, room));
  word = q.word;
})
append_node-IsQueue {l} (x ∷ xs) item q fresh room s =
    let snoc = nodes_of-append l.off_node xs (item ∷ []) in
    let new : has (item + l.off_node) (nodes_of l.off_node (x ∷ xs)) ≡ false = ground arith in
    rw (head_nonzero x xs q) (record {
      linked = rw snoc (
          Leads-snoc l.next l.head l.tail (item + l.off_node) (x + l.off_node)
            (nodes_of l.off_node xs) q.ends q.distinct new q.linked);
      ends = rw snoc (EndsAt-snoc (item + l.off_node) (nodes_of l.off_node (x ∷ xs)));
      distinct =
          rw snoc (Distinct-snoc (item + l.off_node) (nodes_of l.off_node (x ∷ xs)) new q.distinct);
      proper = rw snoc (
          has-append 0 (nodes_of l.off_node (x ∷ xs)) ((item + l.off_node) ∷ [])
          ∙ rw (q.proper) (ground arith));
      counted =
          u64_small (l.len + 1) (omega (arith, q.word, room))
          ∙ omega (arith, q.counted, length-append (x ∷ xs) (item ∷ []));
      bounded = rw (u64_small (l.len + 1) (omega (arith, q.word, room))) (omega (arith, room));
      word = q.word;
    })

-- What a push of an item has done to a list with the items `xs`.
pub record IsPushed (l l' : XList) (xs : List ℕ) (item : ℕ) (posted : Bool) : Type 0 where
  pub queue : IsQueue l' (xs ++ item ∷ [])
  pub sem : l'.sem ≡ (if posted then l.sem + 1 else l.sem)
  pub off_node : l'.off_node ≡ l.off_node

append_node_kept :
    (node : ℕ) (l : XList)
    → ((append_node node l).len ≡ l.len)
      × ((append_node node l).sem ≡ l.sem)
      × ((append_node node l).off_node ≡ l.off_node)
unfolding append_node
append_node_kept node l = elim (Bool-cases (l.head == 0)) [
  | inl e ↦ rw e (refl, refl, refl)
  | inr e ↦ rw e (refl, refl, refl)
]

pub push_item-IsPushed :
    {l : XList} (xs : List ℕ) (item : ℕ) (posted : Bool)
    → IsQueue l xs
    → has (item + l.off_node) (0 ∷ nodes_of l.off_node xs) ≡ false
    → l.len < l.max_len
    → IsPushed l (push_item item posted l).0 xs item posted
      × ((push_item item posted l).1 ≡ success)
unfolding push_item
push_item-IsPushed {l} xs item posted q fresh room =
    let kept = append_node_kept (item + l.off_node) l in
    rw (lt→ltb l.len l.max_len room) (
      record {
        queue = rw (kept.0) (append_node-IsQueue xs item q fresh room _);
        sem = rw (kept.1) refl;
        off_node = kept.2;
      },
      refl,
    )

pub pop_item-IsQueue :
    {l : XList} (x : ℕ) (xs : List ℕ)
    → IsQueue l (x ∷ xs)
    → IsQueue (pop_item l).0 xs × ((pop_item l).1 ≡ x) × ((pop_item l).0.sem ≡ l.sem)
unfolding pop_item
pop_item-IsQueue {l} x xs q =
    let less : u64 (l.len + (u64_mod - 1)) ≡ length xs =
      rw (q.counted) (u64_dec (length xs) (omega (arith, q.counted, q.bounded, q.word))) in
    rw (head_nonzero x xs q) (
      record {
        linked = rw (q.linked.0) q.linked.1;
        ends = EndsAt-tail l.tail (x + l.off_node) (nodes_of l.off_node xs) q.ends;
        distinct = q.distinct.1;
        proper = ground (arith, q.proper);
        counted = less;
        bounded = omega (arith, less, q.counted, q.bounded);
        word = q.word;
      },
      omega (arith, q.linked.0),
      refl,
    )

-- `x_list_push` on a list with room puts the item behind all others and returns success, also if
-- `sem_post` fails, which then leaves the semaphore as it was. The item's node is not NULL and not
-- yet in the list.
pub x_list_push_lem :
    {l : XList} (xs : List ℕ) (item : ℕ) (posted : Bool)
    → IsQueue l xs
    → has (item + l.off_node) (0 ∷ nodes_of l.off_node xs) ≡ false
    → (item == 0) ≡ false
    → l.len < l.max_len
    → (l' : XList) × (x_list_push (some l) item true posted ≡ (some l', success))
      × IsPushed l l' xs item posted
unfolding x_list_push
x_list_push_lem {l} xs item posted q fresh real room =
    let pushed = push_item-IsPushed xs item posted q fresh room in
    ((push_item item posted l).0, rw (real, pushed.1) refl, pushed.0)

-- `x_list_push` returns failure exactly if the item is NULL, the lock fails or the list is at its
-- bound; it then changes nothing.
pub x_list_push_full :
    (l : XList) (item : ℕ) (locked posted : Bool)
    → let refused = item == 0 || not locked || leb l.max_len l.len in
      ((x_list_push (some l) item locked posted).1 ≡ (if refused then failure else success))
      × ((if refused then (x_list_push (some l) item locked posted).0 else some l) ≡ some l)
unfolding x_list_push push_item
x_list_push_full l item locked posted = (ground arith, ground arith)

-- `x_list_pop` without waiting returns the item that `x_list_top` shows, the first, and leaves the
-- others in their order; `len` then counts them.
pub x_list_pop_lem :
    {l : XList} (x : ℕ) (xs : List ℕ) (waits : Bool)
    → IsQueue l (x ∷ xs)
    → (l' : XList) × (x_list_pop (some l) false waits true ≡ some (some l', x))
      × IsQueue l' xs
      × (x_list_top (some l) true ≡ x)
      × (x_list_length (some l') true ≡ length xs)
unfolding x_list_pop x_list_top x_list_length pop_locked
x_list_pop_lem {l} x xs waits q =
    let popped = pop_item-IsQueue x xs q in
    (
      (pop_item l).0,
      rw (popped.1) refl,
      popped.0,
      rw (head_nonzero x xs q) (omega (arith, q.linked.0)),
      popped.0.counted,
    )

pub pop_item-IsQueue_nil : {l : XList} → IsQueue l [] → pop_item l ≡ (l, 0)
unfolding pop_item
pop_item-IsQueue_nil q = rw (q.linked) refl

pub push_item_full :
    (l : XList) (item : ℕ) (posted : Bool)
    → l.max_len ≤ l.len
    → push_item item posted l ≡ (l, failure)
unfolding push_item
push_item_full l item posted full = ground arith
