-- ===== src/Node.antt =====
-- node.c: nodes of circular lists on a heap. A node is a number; `prev` and `next` are functions on nodes.
mod Ring
mod Tests
use daemonlib.Base.{ℕ, Bool, true, false, ◌==◌, if◌then◌else◌}

pub record Heap : Type 0 where
  pub prev : ℕ → ℕ
  pub next : ℕ → ℕ

abbrev pub put : ℕ → ℕ → (ℕ → ℕ) → ℕ → ℕ
put p v f q = if q == p then v else f q

abbrev pub set_prev : ℕ → ℕ → Heap → Heap
set_prev p v h = record { prev = put p v h.prev; next = h.next }

abbrev pub set_next : ℕ → ℕ → Heap → Heap
set_next p v h = record { prev = h.prev; next = put p v h.next }

pub node_reset : ℕ → Heap → Heap
node_reset node h = set_next node node (set_prev node node h)

-- The four assignments, one after the other.
pub node_insert_before : ℕ → ℕ → Heap → Heap
node_insert_before node insert h =
    let h1 = set_prev insert (h.prev node) h in
    let h2 = set_prev node insert h1 in
    let h3 = set_next insert (h2.next (h2.prev insert)) h2 in set_next (h3.prev insert) insert h3

pub node_insert_after : ℕ → ℕ → Heap → Heap
node_insert_after node insert h =
    let h1 = set_next insert (h.next node) h in
    let h2 = set_next node insert h1 in
    let h3 = set_prev insert (h2.prev (h2.next insert)) h2 in set_prev (h3.next insert) insert h3

pub node_remove : ℕ → Heap → Heap
node_remove node h =
    let h1 = set_prev (h.next node) (h.prev node) h in
    let h2 = set_next (h1.prev node) (h1.next node) h1 in node_reset node h2
