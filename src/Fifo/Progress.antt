-- ===== src/Fifo/Progress.antt =====
-- fifo.c: how far one stretch of a call gets, read off its result.
use native.Mathlib.Nat.{zero-add}
use daemonlib.Base.{
  ℕ, ◌+◌, ◌-◌, ◌≤◌, ◌≡◌, refl, sym, ap, Bool, true, false, List, ◌++◌, length, take, take_all, leb,
  ltb, if_both, take-append-drop, append-nil, arith, ◌==◌, inl, inr, Bool-cases, not, ◌&&◌,
}
use daemonlib.Base.Int.{ℤ, pos, pos_part, int_leb}
use daemonlib.Fifo.{
  Errno, epipe, e2big, ewouldblock, WriteResult, wrote, write_failed, write_waits, ReadResult,
}
use daemonlib.Fifo.Spec
use daemonlib.Fifo.Threads.{progress, delivered}

-- What a writer's stretch over the bytes `src` does to the queue, in terms of its result.
pub record Wrote (n : ℕ) (q src : List ℕ) (r : WriteResult) (q' : List ℕ) : Type 0 where
  pub appended : q' ≡ q ++ take (progress n r) src
  pub within : progress n r ≤ length src
  pub waiting : (m : ℕ) → r ≡ write_waits m → m ≤ n + length src

nothing-Wrote :
    (n : ℕ) (q src : List ℕ) (r : WriteResult)
    → progress n r ≡ 0
    → ((m : ℕ) → r ≡ write_waits m → ⊥)
    → Wrote n q src r q
nothing-Wrote n q src r none_written returns = record {
  appended = rw (none_written, append-nil);
  within = omega arith;
  waiting = λ m e. absurd (returns m e);
}

all-Wrote : (n : ℕ) (q src : List ℕ) → Wrote n q src (wrote (n + length src)) (q ++ src)
all-Wrote n q src = record {
  appended = ap (λ l. q ++ l) (sym (take_all (n + length src - n) src (omega arith)));
  within = omega arith;
  waiting = λ m e. cc;
}

push-Wrote :
    (capacity n : ℕ) (q src : List ℕ)
    → let (r, q') = Spec.push capacity q n src in Wrote n q src r q'
push-Wrote capacity n q src = elim (Bool-cases (leb (length src) (capacity - length q))) [
  | inl fits ↦ rw fits (all-Wrote n q src)
  | inr over ↦
      let room = capacity - length q in
      let part : n + room - n ≡ room = omega arith in
      rw over (record { appended = rw part; within = ground arith; waiting = λ m e. ground arith })
]

abbrev pub WroteBy : ℕ → List ℕ → List ℕ → WriteResult × List ℕ → Type 0
WroteBy n q src (r, q') = Wrote n q src r q'

pub write-Wrote :
    (capacity : ℕ) (shut : Bool) (q src : List ℕ) (len : ℤ) (blocking : Bool)
    → WroteBy 0 q src (Spec.write capacity shut q src len blocking)
write-Wrote capacity shut q src len blocking =
    let P = WroteBy 0 q src in
    let failed = λ (e : Errno). nothing-Wrote 0 q src (write_failed e) refl (λ m h. cc) in
    if_both P shut (failed epipe) (
      if_both P (int_leb len (pos 0)) (nothing-Wrote 0 q src (wrote 0) refl (λ m h. cc)) (
        if_both P blocking (push-Wrote capacity 0 q src) (
          if_both P (ltb capacity (length src)) (failed e2big) (
            if_both P (ltb capacity (length q + length src)) (failed ewouldblock)
              (rw zero-add at (all-Wrote 0 q src))))))

pub again-Wrote :
    (capacity : ℕ) (shut : Bool) (q : List ℕ) (n : ℕ) (src : List ℕ)
    → let (r, q') = Spec.write_again capacity shut q n src in Wrote n q src r q'
again-Wrote capacity true q n src = nothing-Wrote n q src _ refl (λ m e. cc)
again-Wrote capacity false q n src = push-Wrote capacity n q src

abbrev pub Delivers : List ℕ → ReadResult × List ℕ → Type 0
Delivers q (r, q') = q ≡ delivered r ++ q'

pub read-Delivers :
    (shut : Bool) (q : List ℕ) (len : ℤ) (blocking : Bool)
    → Delivers q (Spec.read_up_to shut q len blocking)
read-Delivers shut q len blocking =
    let P = Delivers q in
    if_both P (int_leb len (pos 0)) refl (
      if_both P (length q == 0 && not shut) (if_both (λ r. P (r, q)) blocking refl refl)
        (sym (take-append-drop (pos_part len) q)))

pub again-Delivers : (shut : Bool) (q : List ℕ) (len : ℕ) → Delivers q (Spec.read_again shut q len)
again-Delivers shut q len =
    if_both (Delivers q) (length q == 0 && not shut) refl (sym (take-append-drop len q))
