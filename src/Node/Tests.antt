-- ===== src/Node/Tests.antt =====
-- node.c: three nodes that are alone, and the theorem at them.
use daemonlib.Base.{◌≡◌, refl, arith}
use daemonlib.Node.{Heap, node_insert_before, node_insert_after, node_remove}
use daemonlib.Node.Ring.{IsRing, node_insert-remove}

abbrev all_alone : Heap
all_alone = record { prev = λ n. n; next = λ n. n }

all_alone-IsRing : IsRing all_alone
all_alone-IsRing = record { prev-next = λ n. refl; next-prev = λ n. refl }

node_insert-remove_example :
    let before = node_insert_before 1 2 all_alone in
    let after = node_insert_after 1 2 all_alone in
    (IsRing before × (before.next 2 ≡ 1) × (before.prev 2 ≡ 1))
    × (IsRing after × (after.prev 2 ≡ 1) × (after.next 2 ≡ 1))
    × (((node_remove 2 before).next 1 ≡ 1) × ((node_remove 2 before).prev 1 ≡ 1))
    × (((node_remove 2 after).next 1 ≡ 1) × ((node_remove 2 after).prev 1 ≡ 1))
    × IsRing (node_remove 1 all_alone)
node_insert-remove_example =
    node_insert-remove 1 2 1 all_alone all_alone-IsRing (refl, refl)
      (λ e. absurd (omega (arith, e)))
