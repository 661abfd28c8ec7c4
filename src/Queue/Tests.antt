-- ===== src/Queue/Tests.antt =====
-- queue.c: a heap with a queue of two items on it, and the theorems at it.
use daemonlib.Base.{◌≡◌, refl, none, some, [], ◌∷◌, arith}
use daemonlib.Queue.{null, Heap, write, Queue, done, queue_destroy}
use daemonlib.Queue.Chain.{node, Cells, IsQueue}
use daemonlib.Queue.Refine.{Freed, queue_destroy_refines}

abbrev two_nodes : Heap
two_nodes = write (write (λ a. none) 4 (some (node 9 30))) 9 (some (node null 31))

abbrev two_cells : Cells
two_cells = (4, 30) ∷ (9, 31) ∷ []

abbrev two_items : Queue
two_items = record { count = 2; size = 4; head = 4; tail = 9 }

two_items-IsQueue : IsQueue two_nodes two_items two_cells
two_items-IsQueue = record {
  head = refl;
  tail = refl;
  count = refl;
  chain = (omega arith, refl, refl, (omega arith, refl, refl, tt));
}

queue_destroy_refines_example :
    (g : Heap) × (queue_destroy two_items two_nodes ≡ done (30 ∷ 31 ∷ []) g)
    × Freed two_cells two_nodes g
queue_destroy_refines_example =
    queue_destroy_refines two_nodes two_items two_cells two_items-IsQueue
