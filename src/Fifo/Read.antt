-- ===== src/Fifo/Read.antt =====
-- fifo.c: `fifo_read` refines the bounded queue, on every branch and at every wake-up.
use daemonlib.Base.{
  ℕ, suc, ◌≡◌, List, [], ◌++◌, length, min, take, drop, arith, take-drop_of_append,
  take-drop_of_empty,
}
use daemonlib.Base.Int.{ℤ, pos_part}
use daemonlib.Fifo.{
  Fifo, ReadResult, read, readable_at_all, read_loop, fifo_read, read_wake, is_blocking,
}
use daemonlib.Fifo.Sizes.{IsValid, contents, length-contents, Taken}
use daemonlib.Fifo.Loops.{read_loop_all}
use daemonlib.Fifo.Spec

abbrev Refines : ReadResult × Fifo → ReadResult × List ℕ → Type 0
Refines (r, f') spec = ((r, contents f') ≡ spec) × IsValid f'

block-take :
    (n : ℕ) {f g : Fifo} (block : List ℕ)
    → Taken f block g
    → length block ≡ min n (readable_at_all f)
    → Refines (read block, g) (read (take n (contents f)), drop n (contents f))
block-take n {f} {g} block taken size =
    let same : length (block ++ contents g) ≡ readable_at_all f =
      rw (← taken.removed) (length-contents f) in
    let parts = take-drop_of_append n block (contents g) (omega (arith, same)) in
    rw (taken.removed, parts.0, parts.1) (ground arith, taken.valid)

loop-take :
    (n : ℕ) (f : Fifo)
    → IsValid f
    → Refines (read_loop (suc n) f n []) (read (take n (contents f)), drop n (contents f))
loop-take n f v =
    let (block, g, runs, taken, size) = read_loop_all (suc n) f n [] v (omega arith) in
    rw runs (block-take n block taken size)

-- A first call of `fifo_read` on a valid FIFO, for all flags and lengths, returns, fails or waits as
-- the bounded queue does, hands out its first bytes in order, leaves the rest in the ring, and keeps
-- the FIFO valid; the loop never runs on without end.
pub fifo_read_refines :
    (f : Fifo) (len : ℤ) (flags : ℕ)
    → IsValid f
    → let (r, f') = fifo_read f len flags in
      ((r, contents f') ≡ Spec.read_up_to f.shutdown (contents f) len (is_blocking flags))
      × IsValid f'
unfolding fifo_read
fifo_read_refines f len flags v = ground (
  arith,
  length-contents f,
  take-drop_of_empty (pos_part len) (contents f),
  loop-take (pos_part len) f v,
)

-- A blocked `fifo_read` that is woken waits again while the FIFO is empty and not shut down, and
-- otherwise takes up to `len` bytes, which are none only after a shutdown.
pub read_wake_refines :
    (f : Fifo) (len : ℕ)
    → IsValid f
    → let (r, f') = read_wake f len in
      ((r, contents f') ≡ Spec.read_again f.shutdown (contents f) len) × IsValid f'
unfolding read_wake
read_wake_refines f len v = ground (arith, length-contents f, loop-take len f v)
