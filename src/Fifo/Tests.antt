-- ===== src/Fifo/Tests.antt =====
-- fifo.c: runs on a ring of four cells, and the theorems at them.
use daemonlib.Base.{ℕ, ◌≡◌, refl, false, true, List, [], ◌∷◌, ◌++◌, arith}
use daemonlib.Base.Int.{pos}
use daemonlib.Base.Cyclic.{slice}
use daemonlib.Fifo.{
  Fifo, write_waits, write_failed, ewouldblock, read, fifo_create, fifo_write, fifo_read,
  writable_at_all, readable_at_all, write_loop, read_loop,
}
use daemonlib.Fifo.Sizes.{IsValid, contents}
use daemonlib.Fifo.Write.{fifo_write_refines}
use daemonlib.Fifo.Read.{fifo_read_refines}
use daemonlib.Fifo.Threads.{
  System, outside, start, write_call, Reach, here, next, update, after_write,
}
use daemonlib.Fifo.Order.{sent-eq-received}
use daemonlib.Fifo.Spec

-- 8, 5, 9 round the end of the array: the ring is full.
abbrev full : Fifo
full = record { buffer = 9 ∷ 7 ∷ 8 ∷ 5 ∷ []; length = 4; begin = 2; end = 1; shutdown = false }

-- 8, 5
abbrev part : Fifo
part = record { buffer = 9 ∷ 7 ∷ 8 ∷ 5 ∷ []; length = 4; begin = 2; end = 0; shutdown = false }

full-IsValid : IsValid full
full-IsValid = omega arith

part-IsValid : IsValid part
part-IsValid = omega arith

contents-full : contents full ≡ 8 ∷ 5 ∷ 9 ∷ []
unfolding contents readable_at_all
contents-full = refl

non_blocking_write_full : (fifo_write full (1 ∷ []) (pos 1) 1).0 ≡ write_failed ewouldblock
unfolding fifo_write writable_at_all
non_blocking_write_full = refl

blocking_write_part : (fifo_write part (1 ∷ 2 ∷ 3 ∷ []) (pos 3) 0).0 ≡ write_waits 1
unfolding fifo_write write_loop
blocking_write_part = refl

read_round_the_end : (fifo_read full (pos 10) 0).0 ≡ read (8 ∷ 5 ∷ 9 ∷ [])
unfolding fifo_read read_loop slice
read_round_the_end = refl

fifo_write_refines_example :
    let (r, f') = fifo_write part (1 ∷ 2 ∷ 3 ∷ []) (pos 3) 0 in
    ((r, contents f') ≡ Spec.write 3 false (contents part) (1 ∷ 2 ∷ 3 ∷ []) (pos 3) true)
    × IsValid f'
fifo_write_refines_example =
    fifo_write_refines part (1 ∷ 2 ∷ 3 ∷ []) (pos 3) 0 part-IsValid (omega arith)

fifo_read_refines_example :
    let (r, f') = fifo_read full (pos 2) 0 in
    ((r, contents f') ≡ Spec.read_up_to false (contents full) (pos 2) true) × IsValid f'
fifo_read_refines_example = fifo_read_refines full (pos 2) 0 full-IsValid

abbrev cells : List ℕ
cells = 0 ∷ 0 ∷ 0 ∷ 0 ∷ []

-- Thread 0 writes three bytes without blocking.
abbrev written : System
written = record {
  fifo = (fifo_write (fifo_create cells 4) (1 ∷ 2 ∷ 3 ∷ []) (pos 3) 1).1;
  threads =
      update (λ _. outside) 0
        (after_write (1 ∷ 2 ∷ 3 ∷ []) 3
          (fifo_write (fifo_create cells 4) (1 ∷ 2 ∷ 3 ∷ []) (pos 3) 1).0);
  sent = 1 ∷ 2 ∷ 3 ∷ [];
  received = [];
}

written-Reach : Reach (start cells 4) written
unfolding fifo_create fifo_write write_loop writable_at_all slice
written-Reach = next here (write_call 0 (1 ∷ 2 ∷ 3 ∷ []) (pos 3) 1 refl (omega arith))

sent-eq-received_example : 1 ∷ 2 ∷ 3 ∷ [] ≡ [] ++ contents written.fifo
sent-eq-received_example = sent-eq-received cells 4 (omega arith) (omega arith) written-Reach
