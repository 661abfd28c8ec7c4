-- ===== src/Timer/Posix/Lost.antt =====
-- The delay of a timer in `timer_thread` of timer_posix.c.
use daemonlib.Base.{
  ◌≡◌, ◌≢◌, inl, inr, refl, sym, ap, subst, Bool, true, false, not, ◌&&◌, Bool-cases, none, some,
  List, [], ◌∷◌, ◌++◌, ◌==◌, ltb, arith, if◌then◌else◌,
}
use mathlib.Core.Option.{some-injective}
use daemonlib.Timer.{
  Tick, Timer, notify, Wake, wait_fails, disturbed, timed_out, interrupted, some_if, stop,
  to_milliseconds,
}
use daemonlib.Timer.Alone.{run}
use daemonlib.Timer.Posix.{Local, under, is_some, next_timeout, round, posix}

if_same : {A : Type 0} (b : Bool) (x : A) → (if b then x else x) ≡ x
if_same true x = refl
if_same false x = refl

none_next : (l : Local) → l.delay_done ≡ true → l.interval ≡ 0 → next_timeout l ≡ (none, l)
none_next l done once = elim (Bool-cases (l.delay == 0 && l.interval == 0)) [
  | inl idle ↦ rw idle refl
  | inr set ↦
      let zero_interval : (l.interval == 0) ≡ true = ground (arith, once) in
      simp (done, zero_interval) (if_same (l.delay == 0 && true) (none, l))
]

-- After the delay of a timer without an interval no wait ends by time.
expired_lem :
    (ws : List Wake) (t t' : Timer) (l : Local)
    → l.delay_done ≡ true
    → l.interval ≡ 0
    → t.interrupt ≡ 0
    → run posix ws t l ≡ some t'
    → t'.notification ≡ t.notification
unfolding run round
expired_lem [] t t' l done once quiet e = ap (λ t. t.notification) (sym (some-injective t t' e))
expired_lem (wait_fails ∷ ws) t t' l done once quiet e =
    ap (λ t. t.notification) (sym (some-injective (stop t) t' e))
expired_lem (disturbed ∷ ws) t t' l done once quiet e =
    expired_lem ws t t' l done once quiet
      (subst (λ l'. run posix ws t l' ≡ some t') (ap (λ p. p.1) (none_next l done once)) e)
expired_lem (timed_out ∷ ws) t t' l done once quiet e =
    let bad : not (is_some none) ≡ false =
      subst (λ p. not (is_some p.0) ≡ false) (none_next l done once) (some_if _ _ t' e).0 in
    ground (arith, bad)
expired_lem (interrupted ∷ ws) t t' l done once quiet e =
    let bad = (some_if (not (ltb 0 t.interrupt)) _ t' e).0 in ground (arith, quiet, bad)

first_next :
    (l : Local)
    → l.delay_done ≡ false
    → l.delay ≢ 0
    → next_timeout l ≡ (some (to_milliseconds l.delay), record l { delay_done = true })
first_next l first late =
    let set : (l.delay == 0) ≡ false = ground (arith, late) in simp (set, first) refl

-- What is in the notification pipe when the first wait has ended so.
abbrev pub written : Wake → Timer → Local → List Tick
written timed_out t l = t.notification ++ (record { id = l.configuration_id; under = under l } ∷ [])
written w t l = t.notification

-- timer_posix.c: a timer with a delay and no interval, while nothing interrupts it, ticks once if its first wait
-- ends by time; but if a signal ends that wait it never ticks, however long it waits.
pub one_shot_ticks :
    (w : Wake) (ws : List Wake) (t t' : Timer) (l : Local)
    → l.delay_done ≡ false
    → l.delay ≢ 0
    → l.interval ≡ 0
    → t.interrupt ≡ 0
    → run posix (w ∷ ws) t l ≡ some t'
    → t'.notification ≡ written w t l
unfolding run round
one_shot_ticks wait_fails ws t t' l first late once quiet e =
    ap (λ t. t.notification) (sym (some-injective (stop t) t' e))
one_shot_ticks interrupted ws t t' l first late once quiet e =
    let bad = (some_if (not (ltb 0 t.interrupt)) _ t' e).0 in ground (arith, quiet, bad)
one_shot_ticks disturbed ws t t' l first late once quiet e =
    expired_lem ws t t' (record l { delay_done = true }) refl once quiet
      (subst (λ l'. run posix ws t l' ≡ some t') (ap (λ p. p.1) (first_next l first late)) e)
one_shot_ticks timed_out ws t t' l first late once quiet e =
    let ticked = notify (record { id = l.configuration_id; under = under l }) t in
    expired_lem ws ticked t' (record l { delay_done = true }) refl once quiet
      (subst (λ l'. run posix ws ticked l' ≡ some t') (ap (λ p. p.1) (first_next l first late))
        (some_if _ _ t' e).1)
