-- ===== src/Fifo/Order.antt =====
-- fifo.c: whatever the threads on a FIFO do, the bytes
-- come out in the order in which they went in, and none is lost or doubled.
use daemonlib.Base.{
  ℕ, ◌+◌, ◌-◌, ◌≤◌, ◌<◌, ◌≡◌, sym, List, ◌++◌, length, take, append_assoc, arith, ◌==◌, inl, inr,
  Bool-cases, subst,
}
use daemonlib.Base.Int.{pos_part}
use daemonlib.Base.Cyclic.{slice, length-slice, slice-take, take-slice}
use daemonlib.Fifo.{
  Fifo, WriteResult, wrote, write_failed, write_waits, write_diverges, ReadResult, read,
  read_failed, read_waits, read_diverges, fifo_write, write_wake, fifo_read, read_wake, is_blocking,
}
use daemonlib.Fifo.Sizes.{IsValid, contents, fifo_shutdown-IsValid, fifo_create-IsValid}
use daemonlib.Fifo.Write.{fifo_write_refines, write_wake_refines}
use daemonlib.Fifo.Read.{fifo_read_refines, read_wake_refines}
use daemonlib.Fifo.Progress.{
  Wrote, WroteBy, write-Wrote, again-Wrote, Delivers, read-Delivers, again-Delivers,
}
use daemonlib.Fifo.Threads.{
  writing, System, update, after_write, after_read, progress, delivered, Step, write_call,
  write_wakes, read_call, read_wakes, shut_down, Reach, here, next, start,
}

pub record InOrder (s : System) : Type 0 where
  pub valid : IsValid s.fifo
  pub order : s.sent ≡ s.received ++ contents s.fifo
  pub partial : (t : ℕ) (src : List ℕ) (len n : ℕ) → s.threads t ≡ writing src len n → n ≤ len

writing-after_write :
    (src : List ℕ) (len : ℕ) (r : WriteResult) {src' : List ℕ} {len' n : ℕ}
    → after_write src len r ≡ writing src' len' n
    → (r ≡ write_waits n) × (len ≡ len')
writing-after_write src len (write_waits n) e = (cc, cc)
writing-after_write src len (wrote n) e = cc
writing-after_write src len (write_failed x) e = cc
writing-after_write src len write_diverges e = cc

not_writing-after_read :
    (len : ℕ) (r : ReadResult) {src : List ℕ} {len' n : ℕ}
    → after_read len r ≡ writing src len' n
    → ⊥
not_writing-after_read len (read bytes) e = cc
not_writing-after_read len (read_failed x) e = cc
not_writing-after_read len read_waits e = cc
not_writing-after_read len read_diverges e = cc

-- The system after a writer's stretch over the `m` bytes of `src` from `n` on.
write-InOrder :
    {s : System} (t : ℕ) (src : List ℕ) (len n m : ℕ) (r : WriteResult) (f : Fifo)
    → InOrder s
    → n + m ≡ len
    → Wrote n (contents s.fifo) (slice src n m) r (contents f)
    → IsValid f
    → InOrder (record {
      fifo = f;
      threads = update s.threads t (after_write src len r);
      sent = s.sent ++ slice src n (progress n r);
      received = s.received;
    })
write-InOrder {s} t src len n m r f inv whole w v = record {
  valid = v;
  order =
      let block : take (progress n r) (slice src n m) ≡ slice src n (progress n r) =
        take-slice src n (progress n r) m (omega (arith, w.within, length-slice src n m)) in
      rw (w.appended, block, inv.order) (append_assoc s.received (contents s.fifo) _);
  partial = λ u src' len' n' e. elim (Bool-cases (u == t)) [
    | inl self ↦
        let (waits, same) = writing-after_write src len r (rw self at e) in
        omega (arith, w.waiting n' waits, length-slice src n m, same)
    | inr other ↦ inv.partial u src' len' n' (rw other at e)
  ];
}

-- The system after a reader's stretch.
read-InOrder :
    {s : System} (t len : ℕ) (r : ReadResult) (f : Fifo)
    → InOrder s
    → contents s.fifo ≡ delivered r ++ contents f
    → IsValid f
    → InOrder (record {
      fifo = f;
      threads = update s.threads t (after_read len r);
      sent = s.sent;
      received = s.received ++ delivered r;
    })
read-InOrder {s} t len r f inv cut v = record {
  valid = v;
  order = rw (inv.order, cut) (sym (append_assoc s.received (delivered r) (contents f)));
  partial = λ u src' len' n' e. elim (Bool-cases (u == t)) [
    | inl self ↦ absurd (not_writing-after_read len r (rw self at e))
    | inr other ↦ inv.partial u src' len' n' (rw other at e)
  ];
}

Step-InOrder : {s s' : System} → Step s s' → InOrder s → InOrder s'
Step-InOrder {s} (write_call t src len flags idle holds) inv =
    let n = pos_part len in
    let (same, v) = fifo_write_refines s.fifo src len flags inv.valid holds in
    let (r, f) = fifo_write s.fifo src len flags in
    let w =
      write-Wrote (s.fifo.length - 1) s.fifo.shutdown (contents s.fifo) (take n src) len
        (is_blocking flags) in
    write-InOrder t src n 0 n r f inv (omega arith)
      (rw slice-take (subst (WroteBy 0 (contents s.fifo) (take n src)) (sym same) w)) v
Step-InOrder {s} (write_wakes t src len n at) inv =
    let le = inv.partial t src len n at in
    let (same, v) = write_wake_refines s.fifo src len n inv.valid le in
    let (r, f) = write_wake s.fifo src len n in
    let block = slice src n (len - n) in
    let w = again-Wrote (s.fifo.length - 1) s.fifo.shutdown (contents s.fifo) n block in
    write-InOrder t src len n (len - n) r f inv (omega arith)
      (subst (WroteBy n (contents s.fifo) block) (sym same) w) v
Step-InOrder {s} (read_call t len flags idle) inv =
    let (same, v) = fifo_read_refines s.fifo len flags inv.valid in
    let (r, f) = fifo_read s.fifo len flags in
    read-InOrder t (pos_part len) r f inv
      (subst (Delivers (contents s.fifo)) (sym same)
        (read-Delivers s.fifo.shutdown (contents s.fifo) len (is_blocking flags)))
      v
Step-InOrder {s} (read_wakes t len at) inv =
    let (same, v) = read_wake_refines s.fifo len inv.valid in
    let (r, f) = read_wake s.fifo len in
    read-InOrder t len r f inv
      (subst (Delivers (contents s.fifo)) (sym same)
        (again-Delivers s.fifo.shutdown (contents s.fifo) len))
      v
Step-InOrder {s} shut_down inv =
    let (v, same) = fifo_shutdown-IsValid inv.valid in
    record { valid = v; order = rw same inv.order; partial = inv.partial }

Reach-InOrder : {s s' : System} → InOrder s → Reach s s' → InOrder s'
Reach-InOrder inv here = inv
Reach-InOrder inv (next r st) = Step-InOrder st (Reach-InOrder inv r)

start-InOrder :
    (buffer : List ℕ) (len : ℕ) → len ≤ length buffer → 0 < len → InOrder (start buffer len)
start-InOrder buffer len holds some_room =
    let (v, none_yet) = fifo_create-IsValid buffer len holds some_room in
    record { valid = v; order = rw none_yet; partial = λ t src len' n e. cc }

-- On a FIFO over a buffer that holds its `len` bytes, `len` not 0, any number of threads calling
-- `fifo_write`, `fifo_read` and `fifo_shutdown`, blocking or not, and blocked calls woken in any order:
-- at every point the bytes written so far are the bytes read so far and then those in the ring.
pub sent-eq-received :
    (buffer : List ℕ) (len : ℕ) {s : System}
    → len ≤ length buffer
    → 0 < len
    → Reach (start buffer len) s
    → s.sent ≡ s.received ++ contents s.fifo
sent-eq-received buffer len holds some_room run =
    (Reach-InOrder (start-InOrder buffer len holds some_room) run).order
