-- ===== src/XList/Tests.antt =====
-- The theorems on the list at a list that was just created and one with an item.
use doorhinges.Base.{ℕ, ◌≡◌, refl, true, false, none, some, List, [], ◌∷◌, arith}
use doorhinges.XList.{XList, push_item, pop_item, wait_item, append_node}
use doorhinges.XList.Queue.{IsQueue}
use doorhinges.XList.Threads.{
  Shared, Step, push, wait, paired, here, later, wait_item-awake, pop_item-ticket,
}

-- An empty list for at most two items, with their nodes eight bytes behind their start, and the
-- list with the item at 100.
abbrev empty : XList
empty = record { off_node = 8; head = 0; tail = 0; len = 0; max_len = 2; sem = 0; next = λ p. 0 }

empty-IsQueue : IsQueue empty []
empty-IsQueue = record {
  linked = refl;
  ends = tt;
  distinct = tt;
  proper = refl;
  counted = refl;
  bounded = omega arith;
  word = omega arith;
}

abbrev one_item : XList
one_item = (push_item 100 true empty).0

one_item-IsQueue : IsQueue one_item (100 ∷ [])
unfolding push_item append_node
one_item-IsQueue = record {
  linked = (refl, refl);
  ends = refl;
  distinct = (refl, tt);
  proper = refl;
  counted = refl;
  bounded = omega arith;
  word = omega arith;
}

-- A push whose `sem_post` fails: the item is there, and a pop that waits blocks.
post_lost : wait_item (push_item 100 false empty).0 ≡ none
unfolding wait_item push_item append_node
post_lost = refl

-- After a push, and after a thread has taken the ticket for it.
abbrev pushed : Shared
pushed = record { list = one_item; tickets = 0; lost = 0 }

abbrev awake : Shared
awake = record { list = record one_item { sem = 0 }; tickets = 1; lost = 0 }

push-Step : Step (record { list = empty; tickets = 0; lost = 0 }) pushed
push-Step = push 100 true [] empty-IsQueue refl

wait-Step : Step pushed awake
unfolding wait_item push_item append_node
wait-Step = wait (record one_item { sem = 0 }) refl

wait_item-awake_example : (l : XList) × (wait_item one_item ≡ some l)
wait_item-awake_example =
    wait_item-awake empty-IsQueue refl {s = pushed} 100 [] (later here (paired push-Step))
      one_item-IsQueue (omega arith) refl

pop_item-ticket_example :
    (x : ℕ) × (xs : List ℕ) × IsQueue awake.list (x ∷ xs)
    × IsQueue (pop_item awake.list).0 xs
    × ((pop_item awake.list).1 ≡ x)
pop_item-ticket_example =
    pop_item-ticket empty-IsQueue refl {s = awake} 0 (later (later here push-Step) wait-Step) refl
