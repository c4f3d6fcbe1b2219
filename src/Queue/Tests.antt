-- ===== src/Queue/Tests.antt =====
-- Runs of the queue on a heap of three nodes.
use libac.Prelude.{◌≡◌, refl, none, some, [], arith}
use libac.Prelude.Int.{negsuc}
use libac.Slist.Tests.{heap, items, heap-Holds}
use libac.Queue.{Queue, push, pop}
use libac.Queue.Laws.{IsQueue, Pushes, Pops, push-IsQueue, pop-IsQueue}

abbrev three_items : Queue
three_items = record { store = heap; tail = 2; items = 3 }

three_items-IsQueue : IsQueue three_items items
three_items-IsQueue = record { chain = heap-Holds; tail_last = refl; counted = refl }

push-IsQueue_example :
    Pushes [] 7 30 items (push 7 30 (some three_items)) × (push 7 30 none ≡ some (negsuc 0, none))
push-IsQueue_example = push-IsQueue three_items 7 30 three_items-IsQueue (omega arith) refl

pop-IsQueue_example : Pops three_items items (pop (some three_items))
pop-IsQueue_example = pop-IsQueue three_items three_items-IsQueue
