-- ===== src/Timer/Uwp/Repeats.antt =====
-- A one-shot timer in `timer_thread` of timer_uwp.c.
use daemonlib.Base.{
  ℕ, zero, suc, ◌≡◌, ◌≢◌, sym, ap, ◌∙◌, false, some, [], ◌∷◌, ◌++◌, append-nil, append_assoc, ◌==◌,
  arith,
}
use daemonlib.Timer.{Tick, Timer, notify}
use daemonlib.Timer.Alone.{run, timeouts, copies}
use daemonlib.Timer.Uwp.{Local, infinite, delay, interval, round, uwp}

-- timer_uwp.c: a timer with a delay and no interval, while nothing interrupts it, ticks again and again: its
-- wait times out as often as it will, and each time it writes a tick. It is to tick once.
pub one_shot_repeats :
    (n : ℕ) (t : Timer) (l : Local)
    → delay l ≢ 0
    → interval l ≡ 0
    → l.timeout ≢ infinite
    → run uwp (timeouts n) t l
      ≡ some (record t {
        notification =
            t.notification ++ copies n (record { id = l.configuration_id; under = l.loaded });
      })
unfolding run round
one_shot_repeats zero t l late once waits =
    ap (λ n. some (record t { notification = n })) (sym (append-nil t.notification))
one_shot_repeats (suc n) t l late once waits =
    let tick : Tick = record { id = l.configuration_id; under = l.loaded } in
    let awake : (l.timeout == infinite) ≡ false = ground (arith, waits) in
    let late_delay : (delay l == 0) ≡ false = ground (arith, late) in
    let again =
      one_shot_repeats n (notify tick t) (record l { timeout = interval l }) late once
        (λ e. ground (arith, e, once)) in
    simp (awake, late_delay)
      (again
        ∙ ap (λ n. some (record t { notification = n }))
            (append_assoc t.notification (tick ∷ []) (copies n tick)))
