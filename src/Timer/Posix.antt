-- ===== src/Timer/Posix.antt =====
-- timer_posix.c: the thread waits in `poll` on the interrupt pipe.
pub mod Create
pub mod Lost
use daemonlib.Base.{
  ℕ, zero, suc, ◌+◌, ◌-◌, ◌^◌, ◌≤◌, ◌<◌, ◌≡◌, ◌≢◌, refl, sym, ap, ◌∙◌, Bool, true, false, not, ◌&&◌,
  ◌||◌, Option, none, some, List, [], ◌∷◌, ◌++◌, ltb, ◌==◌, if◌then◌else◌, Bool-cases, inl, inr,
  arith,
}
use daemonlib.Timer.{
  Configuration, Tick, Timer, current, new_timer, to_milliseconds, set_configuration,
  finish_configure, notify, stop, Wake, wait_fails, disturbed, timed_out, interrupted, answer,
  timer_after, Round, goes, leaves, Outcome, nothing, ticks, loads, breaks, Backend, load-Outcome,
  some_if, configures,
}

-- The local variables of `timer_thread`.
pub record Local : Type 0 where
  pub delay_done : Bool
  pub delay : ℕ
  pub interval : ℕ
  pub configuration_id : ℕ

abbrev pub initial : Timer → Local
initial t = record {
  delay_done = true;
  delay = 0;
  interval = 0;
  configuration_id = t.configuration_id;
}

-- The timeout for `poll`, `none` for -1, and the locals.
abbrev pub next_timeout : Local → Option ℕ × Local
next_timeout l =
    if l.delay == 0 && l.interval == 0
    then (none, l)
    else (if not l.delay_done
        then (some (to_milliseconds l.delay), record l { delay_done = true })
        else (if l.interval == 0 then none else some (to_milliseconds l.interval), l))

abbrev pub is_some : Option ℕ → Bool
is_some none = false
is_some (some n) = true

-- Without a timeout `poll` does not end by time, and it reports the pipe only if there is a byte in it.
abbrev pub can_wake : Wake → Timer → Local → Bool
can_wake wait_fails t l = true
can_wake disturbed t l = true
can_wake timed_out t l = is_some (next_timeout l).0
can_wake interrupted t l = ltb 0 t.interrupt

-- The locals after the configuration is read.
abbrev pub new_locals : Timer → Local
new_locals t = record {
  delay_done = false;
  delay = t.delay;
  interval = t.interval;
  configuration_id = t.configuration_id;
}

-- The byte is read; then the new configuration, if the timer is still running.
abbrev load : Timer → Round Local
load t =
    if not t.running
    then leaves (stop t)
    else goes (record t { handshake = t.handshake + 1 }) (new_locals t)

abbrev pub under : Local → Configuration
under l = (l.delay, l.interval)

-- A round of the loop from `poll` on.
unfoldable pub round : Wake → Bool → Timer → Local → Round Local
round wait_fails ok t l = leaves (stop t)
round disturbed ok t l = goes t (next_timeout l).1
round timed_out ok t l =
    if ok
    then goes (notify (record { id = l.configuration_id; under = under l }) t) (next_timeout l).1
    else leaves (stop t)
round interrupted ok t l =
    if ok then load (record t { interrupt = t.interrupt - 1 }) else leaves (stop t)

-- `timer_configure` up to the assignments.
unfoldable pub start_configure : ℕ → ℕ → Timer → Option Timer
start_configure delay interval t =
    if ltb (2 ^ 31 - 1) delay
    then none
    else (if ltb (2 ^ 31 - 1) interval
        then none
        else (if not t.running then none else some (set_configuration delay interval t)))

-- A byte in the interrupt pipe.
abbrev pub raise : Timer → Timer
raise t = record t { interrupt = t.interrupt + 1 }

unfoldable pub timer_configure : Bool → (Timer → Timer) → ℕ → ℕ → Timer → Bool × Timer
timer_configure raised meanwhile delay interval t =
    answer raise meanwhile raised t (start_configure delay interval t)

next_timeout_keeps :
    (l : Local)
    → let l' = (next_timeout l).1 in
      (l'.configuration_id ≡ l.configuration_id) × (under l' ≡ under l)
next_timeout_keeps l = elim (Bool-cases (l.delay == 0 && l.interval == 0)) [
  | inl idle ↦ rw idle (refl, refl)
  | inr set ↦ elim (Bool-cases l.delay_done) [
    | inl done ↦ rw (set, done) (refl, refl)
    | inr first ↦ rw (set, first) (refl, refl)
  ]
]

-- A wait that ends by time has a configuration that is not 0.
timed_under : (l : Local) → is_some (next_timeout l).0 ≡ true → under l ≢ (0, 0)
timed_under l timed e =
    let a : l.delay ≡ 0 = ap (λ c. c.0) e in
    let b : l.interval ≡ 0 = ap (λ c. c.1) e in ground (arith, timed, a, b)

pub round-Outcome :
    (w : Wake) (ok : Bool) (t : Timer) (l : Local)
    → can_wake w t l ≡ true
    → Outcome (λ l. l.configuration_id) under t l (round w ok t l)
unfolding round
round-Outcome wait_fails ok t l can = breaks t.interrupt (omega arith)
round-Outcome disturbed ok t l can =
    let (a, b) = next_timeout_keeps l in nothing (next_timeout l).1 a b
round-Outcome timed_out true t l can =
    let (a, b) = next_timeout_keeps l in ticks (next_timeout l).1 a b (timed_under l can)
round-Outcome timed_out false t l can = breaks t.interrupt (omega arith)
round-Outcome interrupted true t l can =
    load-Outcome t l (new_locals t) (t.interrupt - 1) t.running (ground (arith, can)) refl refl refl
round-Outcome interrupted false t l can = breaks t.interrupt (omega arith)

pub round-interrupted :
    (ok : Bool) (t : Timer) (l : Local)
    → (timer_after (round interrupted ok t l)).handshake ≡ t.handshake + 1
unfolding round
round-interrupted false t l = refl
round-interrupted true t l = elim (Bool-cases t.running) [
  | inl alive ↦ simp alive
  | inr stopped ↦ simp stopped
]

pub start_configure-sets :
    (delay interval : ℕ) (t t' : Timer)
    → start_configure delay interval t ≡ some t'
    → (t.running ≡ true) × (t' ≡ set_configuration delay interval t)
unfolding start_configure
start_configure-sets delay interval t t' e =
    let (_, e1) = some_if _ _ t' e in
    let (_, e2) = some_if _ _ t' e1 in
    configures t t' (set_configuration delay interval t) (some_if _ _ t' e2)

abbrev pub posix : Backend
posix = record {
  Local = Local;
  initial = initial;
  id = λ l. l.configuration_id;
  under = under;
  can_wake = can_wake;
  round = round;
  start_configure = start_configure;
  raise = raise;
  round-Outcome = round-Outcome;
  can_wake-interrupted = λ t l. refl;
  round-interrupted = round-interrupted;
  initial-id = λ t. refl;
  initial-under = λ t. refl;
  start_configure-sets = start_configure-sets;
  raise-interrupt = λ t. (t.interrupt + 1, refl, λ e. omega (arith, e));
}
