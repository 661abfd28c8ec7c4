-- ===== src/Timer/Uwp.antt =====
-- timer_uwp.c: the thread waits, with a timeout, for an event that interrupts it.
pub mod Create
pub mod Repeats
use daemonlib.Base.{
  ℕ, zero, suc, ◌+◌, ◌-◌, ◌*◌, ◌/◌, ◌%◌, ◌^◌, ◌≤◌, ◌<◌, ◌≡◌, ◌≢◌, refl, sym, ap, ◌∙◌, Bool, true,
  false, not, ◌&&◌, ◌||◌, Option, none, some, List, [], ◌∷◌, ◌++◌, ltb, ◌==◌, if◌then◌else◌,
  Bool-cases, inl, inr, arith,
}
use daemonlib.Timer.{
  Configuration, Tick, Timer, current, new_timer, to_milliseconds, set_configuration,
  finish_configure, notify, stop, Wake, wait_fails, disturbed, timed_out, interrupted, answer,
  timer_after, Round, goes, leaves, Outcome, nothing, ticks, loads, breaks, Backend, load-Outcome,
  some_if, configures,
}

-- The local variables of `timer_thread`: `delay` and `interval` are computed from the configuration when it is
-- loaded, which stands for them. `timeout` is in milliseconds.
pub record Local : Type 0 where
  pub loaded : Configuration
  pub timeout : ℕ
  pub configuration_id : ℕ

-- `INFINITE`.
abbrev pub infinite : ℕ
infinite = 2 ^ 32 - 1

abbrev pub initial : Timer → Local
initial t = record { loaded = (0, 0); timeout = infinite; configuration_id = t.configuration_id }

-- From microseconds to milliseconds, as a `DWORD`; `+ 500` is done in 64 bits.
abbrev pub to_dword : ℕ → ℕ
to_dword x = if x == 0 then 0 else (if ltb x 1000 then 1 else (x + 500) % 2 ^ 64 / 1000 % 2 ^ 32)

abbrev pub delay : Local → ℕ
delay l = to_dword l.loaded.0

abbrev pub interval : Local → ℕ
interval l = to_dword l.loaded.1

abbrev pub is_idle : Local → Bool
is_idle l = delay l == 0 && interval l == 0

abbrev pub can_wake : Wake → Timer → Local → Bool
can_wake timed_out t l = not (l.timeout == infinite)
can_wake interrupted t l = ltb 0 t.interrupt
can_wake w t l = true

abbrev repeats : Local → Local
repeats l = record l { timeout = interval l }

-- The timeout has passed; `ok` tells whether `pipe_write` succeeds.
abbrev tick : Bool → Timer → Local → Round Local
tick ok t l =
    if is_idle l
    then goes t l
    else (if ok
        then goes (notify (record { id = l.configuration_id; under = l.loaded }) t) (repeats l)
        else leaves (stop t))

-- The locals after the configuration is loaded.
abbrev pub new_locals : Timer → Local
new_locals t = record {
  loaded = current t;
  timeout = (if t.delay == 0 && t.interval == 0 then infinite else to_dword t.delay);
  configuration_id = t.configuration_id;
}

-- The wait resets the event.
abbrev take : Timer → Round Local
take t =
    if not t.running
    then leaves (stop t)
    else goes (record t { handshake = t.handshake + 1 }) (new_locals t)

-- A round of the loop.
unfoldable pub round : Wake → Bool → Timer → Local → Round Local
round timed_out ok t l = tick ok t l
round interrupted ok t l = take (record t { interrupt = 0 })
round wait_fails ok t l = leaves (stop t)
round disturbed ok t l = leaves (stop t)

-- `timer_configure` up to the assignments.
unfoldable pub start_configure : ℕ → ℕ → Timer → Option Timer
start_configure delay interval t =
    if not t.running then none else some (set_configuration delay interval t)

-- `SetEvent`.
abbrev pub raise : Timer → Timer
raise t = record t { interrupt = 1 }

unfoldable pub timer_configure : Bool → (Timer → Timer) → ℕ → ℕ → Timer → Bool × Timer
timer_configure raised meanwhile delay interval t =
    answer raise meanwhile raised t (start_configure delay interval t)

abbrev is_idle_under : Configuration → Bool
is_idle_under c = is_idle (record { loaded = c; timeout = 0; configuration_id = 0 })

timed_under : (l : Local) → is_idle l ≡ false → l.loaded ≢ (0, 0)
timed_under l active e =
    let bad : true ≡ false = ap is_idle_under (sym e) ∙ active in ground (arith, bad)

tick-Outcome :
    (ok : Bool) (t : Timer) (l : Local) (idle : Bool)
    → is_idle l ≡ idle
    → Outcome
        (λ l. l.configuration_id)
        (λ l. l.loaded)
        t
        l
        (if idle
          then goes t l
          else (if ok
              then goes
                  (notify (record { id = l.configuration_id; under = l.loaded }) t)
                  (repeats l)
              else leaves (stop t)))
tick-Outcome ok t l true idle = nothing l refl refl
tick-Outcome true t l false active = ticks (repeats l) refl refl (timed_under l active)
tick-Outcome false t l false active = breaks t.interrupt (omega arith)

pub round-Outcome :
    (w : Wake) (ok : Bool) (t : Timer) (l : Local)
    → can_wake w t l ≡ true
    → Outcome (λ l. l.configuration_id) (λ l. l.loaded) t l (round w ok t l)
unfolding round
round-Outcome wait_fails ok t l can = breaks t.interrupt (omega arith)
round-Outcome disturbed ok t l can = breaks t.interrupt (omega arith)
round-Outcome timed_out ok t l can = tick-Outcome ok t l (is_idle l) refl
round-Outcome interrupted ok t l can =
    load-Outcome t l (new_locals t) 0 t.running (ground (arith, can)) refl refl refl

pub round-interrupted :
    (ok : Bool) (t : Timer) (l : Local)
    → (timer_after (round interrupted ok t l)).handshake ≡ t.handshake + 1
unfolding round
round-interrupted ok t l = elim (Bool-cases t.running) [
  | inl alive ↦ simp alive
  | inr stopped ↦ simp stopped
]

pub start_configure-sets :
    (delay interval : ℕ) (t t' : Timer)
    → start_configure delay interval t ≡ some t'
    → (t.running ≡ true) × (t' ≡ set_configuration delay interval t)
unfolding start_configure
start_configure-sets delay interval t t' e =
    configures t t' (set_configuration delay interval t) (some_if _ _ t' e)

abbrev pub uwp : Backend
uwp = record {
  Local = Local;
  initial = initial;
  id = λ l. l.configuration_id;
  under = λ l. l.loaded;
  can_wake = can_wake;
  round = round;
  start_configure = start_configure;
  raise = raise;
  round-Outcome = round-Outcome;
  can_wake-interrupted = λ t l. refl;
  round-interrupted = round-interrupted;
  initial-id = λ t. refl;
  initial-under = λ t. refl;
  start_configure-sets = start_configure-sets;
  raise-interrupt = λ t. (1, refl, λ e. refl);
}
