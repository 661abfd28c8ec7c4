-- ===== src/Fifo/Write.antt =====
-- fifo.c: `fifo_write` refines the bounded queue, on every branch and at every wake-up.
use native.Mathlib.Decide.{dec_le}
use daemonlib.Base.{
  ℕ, suc, ◌+◌, ◌-◌, ◌≤◌, ◌<◌, ◌≡◌, refl, ap, true, false, List, ◌++◌, length, inl, inr, take, arith,
  Bool-cases, leb,
}
use daemonlib.Base.Int.{ℤ, pos_part}
use daemonlib.Base.Cyclic.{slice, length-slice, take-slice, slice-take}
use daemonlib.Fifo.{
  Fifo, WriteResult, wrote, write_waits, writable_at_all, write_loop, fifo_write, write_wake,
  is_blocking,
}
use daemonlib.Fifo.Sizes.{IsValid, contents, length-contents, Put, writable-add-readable}
use daemonlib.Fifo.Loops.{write_loop_all, write_loop_blocks}
use daemonlib.Fifo.Spec

abbrev Refines : Fifo → WriteResult × Fifo → WriteResult × List ℕ → Type 0
Refines f (r, f') spec = ((r, contents f') ≡ spec) × IsValid f'

-- The loop of a blocking call is one `push` of the `m` bytes that are left.
module _ (m : ℕ) {f g : Fifo} (src : List ℕ) (n : ℕ) (v : IsValid f) where
  push_fits :
      (len : ℕ)
      → n + m ≡ len
      → m ≤ writable_at_all f
      → Put f (slice src n m) g
      → Refines f (wrote len, g) (Spec.push (f.length - 1) (contents f) n (slice src n m))
  push_fits len le fits puts =
      ground
        (arith, length-slice src n m, length-contents f, writable-add-readable v, puts.appended)

  push_waits :
      writable_at_all f < m
      → Put f (slice src n (writable_at_all f)) g
      → Refines f
          (write_waits (n + writable_at_all f), g)
          (Spec.push (f.length - 1) (contents f) n (slice src n m))
  push_waits over puts =
      let room : f.length - 1 - length (contents f) ≡ writable_at_all f =
        omega (arith, length-contents f, writable-add-readable v) in
      let test : leb m (writable_at_all f) ≡ false = ground arith in
      rw (room, length-slice src n m, test, take-slice src n (writable_at_all f) m (omega arith))
        (ap (λ q. (write_waits (n + writable_at_all f), q)) puts.appended, puts.valid)

loop-push :
    (k m : ℕ) (f : Fifo) (src : List ℕ) (len n : ℕ)
    → IsValid f
    → n + m ≡ len
    → m < k
    → Refines f
        (write_loop k true f src len n)
        (Spec.push (f.length - 1) (contents f) n (slice src n m))
loop-push k m f src len n v le fuel = elim (dec_le m (writable_at_all f)) [
  | yes fits ↦
      let (g, runs, puts) = write_loop_all k true f src len n m v le fuel fits in
      rw runs (push_fits m src n v len le fits puts)
  | no over ↦
      let (g, runs, puts) = write_loop_blocks k f src len n v (omega arith) (omega arith) in
      rw runs (push_waits m src n v (omega arith) puts)
]

-- The loop of a non-blocking call, which runs only if all bytes fit.
loop-append :
    (f : Fifo) (src : List ℕ) (len : ℕ)
    → IsValid f
    → len ≤ writable_at_all f
    → Refines f (write_loop (suc len) false f src len 0) (wrote len, contents f ++ slice src 0 len)
loop-append f src len v fits =
    let (g, runs, puts) =
      write_loop_all (suc len) false f src len 0 len v (omega arith) (omega arith) fits in
    rw runs (ap (λ q. (wrote len, q)) puts.appended, puts.valid)

-- A first call of `fifo_write` on a valid FIFO, for all flags and lengths and any caller's buffer
-- that holds `len` bytes, returns or waits as the bounded queue does, leaves the queue's bytes in the
-- ring, and keeps the FIFO valid; the loop never runs on without end.
pub fifo_write_refines :
    (f : Fifo) (src : List ℕ) (len : ℤ) (flags : ℕ)
    → IsValid f
    → pos_part len ≤ length src
    → let (r, f') = fifo_write f src len flags in
      ((r, contents f')
        ≡ Spec.write
            (f.length - 1)
            f.shutdown
            (contents f)
            (take (pos_part len) src)
            len
            (is_blocking flags))
      × IsValid f'
unfolding fifo_write
fifo_write_refines f src len flags v holds =
    let n = pos_part len in
    let push_all = loop-push (suc n) n f src n 0 v (omega arith) (omega arith) in
    let append_all = loop-append f src n v in
    rw (← slice-take src n holds) (
      ground (
        arith,
        length-slice src 0 n,
        length-contents f,
        writable-add-readable v,
        push_all,
        append_all,
      ))

-- A blocked `fifo_write` that is woken with `n` of `len` bytes written fails if the FIFO was shut down
-- in the meantime, and otherwise does to the queue what a blocking call with the bytes that are left
-- does.
pub write_wake_refines :
    (f : Fifo) (src : List ℕ) (len n : ℕ)
    → IsValid f
    → n ≤ len
    → let (r, f') = write_wake f src len n in
      ((r, contents f')
        ≡ Spec.write_again (f.length - 1) f.shutdown (contents f) n (slice src n (len - n)))
      × IsValid f'
unfolding write_wake
write_wake_refines f src len n v le = elim (Bool-cases f.shutdown) [
  | inl shut ↦ simp shut (refl, v)
  | inr open_ ↦
      simp open_ (loop-push (suc (len - n)) (len - n) f src len n v (omega arith) (omega arith))
]
