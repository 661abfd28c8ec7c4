-- ===== src/Queue.antt =====
-- queue.c: a singly linked list of nodes on the C heap, with its head, its tail and its count. An item
-- is one number; what the memory of a node holds besides `next` is the caller's.
mod Chain
mod Refine
mod Tests
use daemonlib.Base.{
  ℕ, zero, suc, ◌+◌, ◌-◌, Bool, true, false, Option, none, some, List, [], ◌∷◌, ◌++◌, ◌==◌,
  if◌then◌else◌,
}

-- 0 is the NULL pointer.
abbrev pub Ptr : Type 0
Ptr = ℕ

abbrev pub null : Ptr
null = 0

-- `QueueNode` and the item behind it.
pub record QueueNode : Type 0 where
  pub next : Ptr
  pub item : ℕ

-- The nodes that are allocated.
abbrev pub Heap : Type 0
Heap = Ptr → Option QueueNode

abbrev pub write : Heap → Ptr → Option QueueNode → Heap
write h p c q = if q == p then c else h q

pub record Queue : Type 0 where
  pub count : ℕ
  pub size : ℕ
  pub head : Ptr
  pub tail : Ptr

pub queue_create : ℕ → Queue
queue_create size = record { count = 0; size = size; head = null; tail = null }

-- A fault is an access through a pointer that no node is allocated at.
pub data Run (A : Type 0) : Type 0 where
  done : A → Heap → Run A
  fault : Run A

-- `p->next = q`
pub set_next : Ptr → Ptr → Heap → Option Heap
set_next p q h = elim (h p) [
  | none ↦ none
  | some n ↦ some (write h p (some (record n { next = q })))
]

-- `fresh` is what `calloc` returns, null on failure; the item of a new node is zero.
pub queue_push : Ptr → Queue → Heap → Run (Ptr × Queue)
unfolding set_next
queue_push fresh queue h =
    if fresh == null
    then done (null, queue) h
    else (let h' = write h fresh (some (record { next = null; item = 0 })) in
        let head' = if queue.head == null then fresh else queue.head in
        let linked = if queue.tail == null then some h' else set_next queue.tail fresh h' in
        elim linked [
          | none ↦ fault
          | some h'' ↦
              done (fresh, record queue { head = head'; tail = fresh; count = queue.count + 1 }) h''
        ])

-- The items handed to the destroy function are listed.
pub queue_pop : Queue → Heap → Run (Queue × List ℕ)
queue_pop queue h = if queue.count == 0 then done (queue, []) h else elim (h queue.head) [
  | none ↦ fault
  | some n ↦
      done
        (
          record queue {
            count = queue.count - 1;
            head = n.next;
            tail = if n.next == null then null else queue.tail;
          },
          n.item ∷ [],
        )
        (write h queue.head none)
]

-- The pointer to the item at the head, or null.
pub queue_peek : Queue → Ptr
queue_peek queue = if queue.count == 0 then null else queue.head

-- The loop of `queue_destroy`: each item goes to the destroy function, each node is freed.
pub destroy_loop : ℕ → Ptr → Heap → List ℕ → Run (List ℕ)
destroy_loop zero node h items = fault
destroy_loop (suc k) node h items = elim (node == null) [
  | true ↦ done items h
  | false ↦ elim (h node) [
    | none ↦ fault
    | some n ↦ destroy_loop k n.next (write h node none) (items ++ (n.item ∷ []))
  ]
]

pub queue_destroy : Queue → Heap → Run (List ℕ)
queue_destroy queue h = destroy_loop (suc queue.count) queue.head h []
