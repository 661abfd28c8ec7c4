-- ===== src/Node/Ring.antt =====
-- node.c: the lists stay circular.
use daemonlib.Base.{ℕ, ◌≡◌, ◌≢◌, arith}
use daemonlib.Node.{Heap, node_reset, node_insert_before, node_insert_after, node_remove}

-- `prev` undoes `next`, and `next` undoes `prev`, at every node.
pub record IsRing (h : Heap) : Type 0 where
  pub prev-next : (n : ℕ) → h.prev (h.next n) ≡ n
  pub next-prev : (n : ℕ) → h.next (h.prev n) ≡ n

-- A node that is in no list but its own.
abbrev pub IsAlone : ℕ → Heap → Type 0
IsAlone n h = (h.next n ≡ n) × (h.prev n ≡ n)

node_insert_before-IsRing :
    (node insert : ℕ) (h : Heap)
    → IsRing h
    → IsAlone insert h
    → node ≢ insert
    → IsRing (node_insert_before node insert h)
unfolding node_insert_before
node_insert_before-IsRing node insert h ring (alone, alone') other = record {
  prev-next = λ n. ground (
    arith,
    ring.prev-next n,
    ring.prev-next insert,
    ring.next-prev node,
    ring.next-prev n,
    alone,
    alone',
    ring.prev-next (h.prev node),
    other,
  );
  next-prev = λ n. ground (
    arith,
    ring.prev-next n,
    ring.prev-next insert,
    ring.next-prev node,
    ring.prev-next node,
    ring.next-prev n,
    alone,
    alone',
    ring.next-prev insert,
    ring.prev-next (h.prev node),
    ring.next-prev (h.prev node),
    other,
  );
}

node_insert_after-IsRing :
    (node insert : ℕ) (h : Heap)
    → IsRing h
    → IsAlone insert h
    → node ≢ insert
    → IsRing (node_insert_after node insert h)
unfolding node_insert_after
node_insert_after-IsRing node insert h ring (alone, alone') other = record {
  prev-next = λ n. ground (
    arith,
    ring.next-prev n,
    ring.prev-next n,
    ring.next-prev insert,
    ring.prev-next insert,
    ring.next-prev node,
    ring.prev-next node,
    alone,
    alone',
    ring.next-prev (h.next node),
    ring.prev-next (h.next node),
    other,
  );
  next-prev = λ n. ground (
    arith,
    ring.next-prev n,
    ring.prev-next n,
    ring.next-prev insert,
    ring.prev-next insert,
    ring.next-prev node,
    ring.prev-next node,
    alone,
    alone',
    ring.next-prev (h.next node),
    ring.prev-next (h.next node),
    other,
  );
}

node_remove-IsRing : (node : ℕ) (h : Heap) → IsRing h → IsRing (node_remove node h)
unfolding node_remove node_reset
node_remove-IsRing node h ring = record {
  prev-next = λ n. ground (
    arith,
    ring.prev-next n,
    ring.next-prev n,
    ring.prev-next node,
    ring.next-prev node,
    ring.prev-next (h.next node),
    ring.next-prev (h.prev node),
  );
  next-prev = λ n. ground (
    arith,
    ring.prev-next n,
    ring.next-prev n,
    ring.prev-next node,
    ring.next-prev node,
    ring.prev-next (h.next node),
    ring.next-prev (h.prev node),
  );
}

node_remove-insert_before :
    (node insert n : ℕ) (h : Heap)
    → IsRing h
    → IsAlone insert h
    → node ≢ insert
    → let h' = node_remove insert (node_insert_before node insert h) in
      (h'.next n ≡ h.next n) × (h'.prev n ≡ h.prev n)
unfolding node_insert_before node_remove node_reset
node_remove-insert_before node insert n h ring (alone, alone') other = (
  ground (
    arith,
    ring.prev-next n,
    ring.next-prev n,
    ring.next-prev node,
    ring.prev-next node,
    alone,
    alone',
    other,
  ),
  ground (
    arith,
    ring.prev-next n,
    ring.next-prev n,
    ring.next-prev node,
    ring.prev-next node,
    alone,
    alone',
    other,
  ),
)

node_remove-insert_after :
    (node insert n : ℕ) (h : Heap)
    → IsRing h
    → IsAlone insert h
    → node ≢ insert
    → let h' = node_remove insert (node_insert_after node insert h) in
      (h'.next n ≡ h.next n) × (h'.prev n ≡ h.prev n)
unfolding node_insert_after node_remove node_reset
node_remove-insert_after node insert n h ring (alone, alone') other = (
  ground (
    arith,
    ring.prev-next n,
    ring.next-prev n,
    ring.next-prev node,
    ring.prev-next node,
    alone,
    alone',
    other,
  ),
  ground (
    arith,
    ring.prev-next n,
    ring.next-prev n,
    ring.next-prev node,
    ring.prev-next node,
    alone,
    alone',
    other,
  ),
)

-- A node that is in no list can be put before or behind another node: the lists stay circular, the node
-- stands between the other and the one that was its neighbour, and removing it again gives back every
-- link. Removing any node keeps the lists circular.
pub node_insert-remove :
    (node insert n : ℕ) (h : Heap)
    → IsRing h
    → IsAlone insert h
    → node ≢ insert
    → let before = node_insert_before node insert h in
      let after = node_insert_after node insert h in
      (IsRing before × (before.next insert ≡ node) × (before.prev insert ≡ h.prev node))
      × (IsRing after × (after.prev insert ≡ node) × (after.next insert ≡ h.next node))
      × (((node_remove insert before).next n ≡ h.next n)
          × ((node_remove insert before).prev n ≡ h.prev n))
      × (((node_remove insert after).next n ≡ h.next n)
          × ((node_remove insert after).prev n ≡ h.prev n))
      × IsRing (node_remove n h)
unfolding node_insert_before node_insert_after
node_insert-remove node insert n h ring lone other = (
  (
    node_insert_before-IsRing node insert h ring lone other,
    ground (arith, ring.next-prev node, lone.0, lone.1, other),
    ground (arith, ring.next-prev node, lone.0, lone.1, other),
  ),
  (
    node_insert_after-IsRing node insert h ring lone other,
    ground (arith, ring.prev-next node, lone.0, lone.1, other),
    ground (arith, ring.prev-next node, lone.0, lone.1, other),
  ),
  node_remove-insert_before node insert n h ring lone other,
  node_remove-insert_after node insert n h ring lone other,
  node_remove-IsRing n h ring,
)
