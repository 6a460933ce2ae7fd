-- ===== src/XList.antt =====
-- ngix_module/AIS/x_list.c and x_list.h: the bounded list that hands items from one thread to
-- another, under a mutex and with a semaphore that counts the items.
--
-- A pointer is its address, a number, with 0 for NULL. An item carries its `list_node_t` at
-- `off_node` bytes from its start; `next` is that node's only field, for all nodes. Whether
-- `malloc`, `sem_init`, `pthread_mutex_init`, `pthread_mutex_lock`, `sem_wait` and `sem_post`
-- succeed is an argument. What a function does between lock and unlock is one function here.
pub mod Queue
pub mod Threads
pub mod Tests
use doorhinges.Base.{
  ℕ, zero, suc, ◌+◌, ◌-◌, ◌%◌, Bool, true, false, not, ◌&&◌, ◌||◌, Option, none, some, ltb, ◌==◌,
  if◌then◌else◌,
}
pub use doorhinges.Links.{update}

-- The values of an `int`.
pub data ℤ : Type 0 where
  pos : ℕ → ℤ
  negsuc : ℕ → ℤ

-- The `int` that most functions return: 0 and -1.
pub data Status : Type 0 where
  success : Status
  failure : Status

-- `x_list_t`, less its `key`, which is only printed, and with the nodes.
pub record XList : Type 0 where
  pub off_node : ℕ
  pub head : ℕ
  pub tail : ℕ
  pub len : ℕ
  pub max_len : ℕ
  pub sem : ℕ
  pub next : ℕ → ℕ

-- 2 ^ 64, and the wrap-around of a `uint64`.
abbrev pub u64_mod : ℕ
u64_mod = 18446744073709551616

abbrev pub u64 : ℕ → ℕ
u64 x = x % 18446744073709551616

-- `x_list_create`: what is stored at `ptr`, and the result. The flags say whether `ptr` is not
-- NULL, and whether `malloc`, `sem_init` and `pthread_mutex_init` succeed.
pub x_list_create : Bool → Bool → Bool → Bool → ℕ → ℕ → (ℕ → ℕ) → Option XList × Status
x_list_create place got sem_ok mutex_ok max_len off_node next =
    if not place || not got || not sem_ok || not mutex_ok then (none, failure) else (
      some (record {
        off_node = off_node;
        head = 0;
        tail = 0;
        len = 0;
        max_len = if max_len == 0 then u64_mod - 1 else max_len;
        sem = 0;
        next = next;
      }),
      success,
    )

-- `n <= 0 ? 1 : n`
pub wake_count : ℤ → ℕ
wake_count (pos zero) = 1
wake_count (pos (suc n)) = suc n
wake_count (negsuc n) = 1

-- `n` calls of `sem_post` that succeed.
pub post : ℕ → XList → XList
post zero l = l
post (suc n) l = post n (record l { sem = l.sem + 1 })

-- `while (sem_trywait(..) == 0 || errno == EINTR);`
pub drain : ℕ → ℕ
drain zero = zero
drain (suc n) = drain n

-- What the list holds when `x_list_destroy` has cleared it and woken the threads; what is stored
-- at `ptr`, and the result. A list that is NULL is `none`.
pub x_list_destroy : Option XList → ℤ → Bool → Option XList × Option XList × Status
x_list_destroy none n locked = (none, none, failure)
x_list_destroy (some l) n false = (some l, some l, failure)
x_list_destroy (some l) n true =
    (some (post (wake_count n) (record l { len = 0; head = 0; tail = 0 })), none, success)

-- The locked part of `x_list_reset`.
pub clear : XList → XList
clear l = record l { head = 0; tail = 0; len = 0; sem = drain l.sem }

-- `x_list_reset`
pub x_list_reset : Option XList → Bool → Option XList × Status
x_list_reset none locked = (none, failure)
x_list_reset (some l) false = (some l, failure)
x_list_reset (some l) true = (some (clear l), success)

-- Linking the node behind the tail.
pub append_node : ℕ → XList → XList
append_node node l =
    if l.head == 0
    then record l { next = update l.next node 0; head = node; tail = node }
    else record l { next = update (update l.next node 0) l.tail node; tail = node }

-- The locked part of `x_list_push`. The flag says whether `sem_post` succeeds.
pub push_item : ℕ → Bool → XList → XList × Status
push_item item posted l =
    if ltb l.len l.max_len
    then (
      (let m = append_node (item + l.off_node) l in
          record m { len = u64 (m.len + 1); sem = if posted then m.sem + 1 else m.sem }),
      success,
    )
    else (l, failure)

-- `x_list_push`
pub x_list_push : Option XList → ℕ → Bool → Bool → Option XList × Status
x_list_push none item locked posted = (none, failure)
x_list_push (some l) item locked posted =
    if item == 0 || not locked
    then (some l, failure)
    else (let (l', s) = push_item item posted l in (some l', s))

-- The locked part of `x_list_pop`, with the item or NULL.
pub pop_item : XList → XList × ℕ
pop_item l =
    if l.head == 0
    then (l, 0)
    else (record l { len = u64 (l.len + (u64_mod - 1)); head = l.next l.head }, l.head - l.off_node)

-- `sem_wait`, repeated while a signal interrupts it: `none` while it blocks.
pub wait_item : XList → Option XList
wait_item l = if l.sem == 0 then none else some (record l { sem = l.sem - 1 })

pub pop_locked : XList → Bool → Option XList × ℕ
pop_locked l false = (some l, 0)
pop_locked l true = let (l', x) = pop_item l in (some l', x)

-- `x_list_pop`, with no other thread between its parts. The first flag is its argument, the others
-- say whether `sem_wait` and `pthread_mutex_lock` succeed; `none` if it blocks.
pub x_list_pop : Option XList → Bool → Bool → Bool → Option (Option XList × ℕ)
x_list_pop none flag waits locked = some (none, 0)
x_list_pop (some l) false waits locked = some (pop_locked l locked)
x_list_pop (some l) true false locked = some (some l, 0)
x_list_pop (some l) true true locked = elim (wait_item l) [
  | none ↦ none
  | some m ↦ some (pop_locked m locked)
]

-- `x_list_top`
pub x_list_top : Option XList → Bool → ℕ
x_list_top none locked = 0
x_list_top (some l) false = 0
x_list_top (some l) true = if l.head == 0 then 0 else l.head - l.off_node

-- `x_list_length`
pub x_list_length : Option XList → Bool → ℕ
x_list_length none locked = 0
x_list_length (some l) false = 0
x_list_length (some l) true = l.len

-- `x_list_wakeup`
pub x_list_wakeup : Option XList → ℤ → Bool → Option XList
x_list_wakeup none n locked = none
x_list_wakeup (some l) n false = some l
x_list_wakeup (some l) n true = some (post (wake_count n) l)
