-- ===== src/Timer.antt =====
-- timer_posix.c, timer_winapi.c and timer_uwp.c: timers. A thread waits, for the time or to be interrupted,
-- and writes its configuration's id to a pipe when the time has come; the event loop reads it and calls
-- the function of the timer. The platform's waits and whether its calls succeed are arguments.
pub mod Posix
pub mod Winapi
pub mod Uwp
pub mod System
pub mod Alone
pub mod Create
pub mod Configure
mod Tests
use daemonlib.Base.{
  ℕ, zero, suc, ◌+◌, ◌-◌, ◌/◌, ◌%◌, ◌^◌, ◌≤◌, ◌<◌, ◌≡◌, ◌≢◌, Bool, true, false, not, Option, none,
  some, List, [], ◌∷◌, ◌++◌, ltb, ◌==◌, if◌then◌else◌, arith, refl, sym,
}
use mathlib.Core.Option.{some-injective}

-- Delay and interval in microseconds.
abbrev pub Configuration : Type 0
Configuration = ℕ × ℕ

-- A `configuration_id` in the notification pipe. The configuration under which the thread wrote it is not
-- there; it is carried along to state what a call of the function means.
pub record Tick : Type 0 where
  pub id : ℕ
  pub under : Configuration

-- `interrupt` is the bytes in the interrupt pipe, or 1 for an interrupt event that is set; `handshake` is the
-- count of the semaphore.
pub record Timer : Type 0 where
  pub running : Bool
  pub delay : ℕ
  pub interval : ℕ
  pub configuration_id : ℕ
  pub interrupt : ℕ
  pub handshake : ℕ
  pub notification : List Tick

abbrev pub current : Timer → Configuration
current t = (t.delay, t.interval)

-- As `timer_create_` leaves it.
abbrev pub new_timer : Timer
new_timer = record {
  running = true;
  delay = 0;
  interval = 0;
  configuration_id = 0;
  interrupt = 0;
  handshake = 0;
  notification = [];
}

-- From microseconds to milliseconds.
abbrev pub to_milliseconds : ℕ → ℕ
to_milliseconds x = if x == 0 then 0 else (if ltb x 1000 then 1 else (x + 500) / 1000)

-- `timer_handle_read` for what is in the pipe: the tick for which the function is called, and the timer.
abbrev pub read_tick : List Tick → Timer → Option Tick × Timer
read_tick [] t = (none, t)
read_tick (tick ∷ rest) t =
    let t' = record t { notification = rest } in
    if not (tick.id == t.configuration_id) then (none, t') else (some tick, t')

unfoldable pub timer_handle_read : Timer → Option Tick × Timer
timer_handle_read t = read_tick t.notification t

-- The assignments in `timer_configure`.
abbrev pub set_configuration : ℕ → ℕ → Timer → Timer
set_configuration delay interval t = record t {
  delay = delay;
  interval = interval;
  configuration_id = (t.configuration_id + 1) % 2 ^ 32;
}

-- `semaphore_acquire`, where the count is not 0, and the result of `timer_configure`.
abbrev pub finish_configure : Timer → Bool × Timer
finish_configure t = (t.running, record t { handshake = t.handshake - 1 })

-- `timer_configure` after the assignments, or with none if it returned before them: the interrupt is raised if
-- the Boolean says so, and `meanwhile` is what the thread does until it releases the semaphore.
abbrev pub answer :
    (raise meanwhile : Timer → Timer) (raised : Bool) → Timer → Option Timer → Bool × Timer
answer raise meanwhile raised t none = (false, t)
answer raise meanwhile raised t (some t') =
    if not raised then (false, t') else finish_configure (meanwhile (raise t'))

abbrev pub notify : Tick → Timer → Timer
notify tick t = record t { notification = t.notification ++ (tick ∷ []) }

-- The end of `timer_thread`.
abbrev pub stop : Timer → Timer
stop t = record t { running = false; handshake = t.handshake + 1 }

-- What `timer_create_` acquires and `timer_destroy` gives back. `interrupt` is the pipe or the event; only
-- timer_winapi.c has a waitable timer, and a thread is held until it is joined.
pub record Held : Type 0 where
  pub notification_pipe : Bool
  pub waitable_timer : Bool
  pub interrupt : Bool
  pub source : Bool
  pub semaphore : Bool
  pub thread : Bool

abbrev pub nothing_held : Held
nothing_held = record {
  notification_pipe = false;
  waitable_timer = false;
  interrupt = false;
  source = false;
  semaphore = false;
  thread = false;
}

-- After `timer_create_`; the Boolean tells whether there is a waitable timer.
abbrev pub all_held : Bool → Held
all_held waitable = record {
  notification_pipe = true;
  waitable_timer = waitable;
  interrupt = true;
  source = true;
  semaphore = true;
  thread = true;
}

-- How a wait ends: it fails, a signal or a spurious event ends it, the time has come, or there is an interrupt.
pub data Wake : Type 0 where
  wait_fails disturbed timed_out interrupted : Wake

-- A round of the thread goes on or leaves the loop.
pub data Round (L : Type 0) : Type 0 where
  goes : Timer → L → Round L
  leaves : Timer → Round L

abbrev pub timer_after : {L : Type 0} → Round L → Timer
timer_after (goes t l) = t
timer_after (leaves t) = t

-- What a round may do, for locals with a configuration and its id.
pub data Outcome {L : Type 0} (id : L → ℕ) (under : L → Configuration) (t : Timer) (l : L)
    : Round L → Type 0 where
  nothing : (l' : L) → id l' ≡ id l → under l' ≡ under l → Outcome id under t l (goes t l')
  ticks :
      (l' : L)
      → id l' ≡ id l
      → under l' ≡ under l
      → under l ≢ (0, 0)
      → Outcome id under t l (goes (notify (record { id = id l; under = under l }) t) l')
  loads :
      (k : ℕ) (l' : L)
      → k < t.interrupt
      → t.running ≡ true
      → id l' ≡ t.configuration_id
      → under l' ≡ current t
      → Outcome id under t l (goes (record t { interrupt = k; handshake = t.handshake + 1 }) l')
  breaks :
      (k : ℕ) → k ≤ t.interrupt → Outcome id under t l (leaves (stop (record t { interrupt = k })))

-- The end of a round that has taken the interrupt: the new configuration, if the timer is still running.
pub load-Outcome :
    {L : Type 0} {id : L → ℕ} {under : L → Configuration} (t : Timer) (l l' : L) (k : ℕ) (b : Bool)
    → k < t.interrupt
    → id l' ≡ t.configuration_id
    → under l' ≡ current t
    → t.running ≡ b
    → Outcome id under t l (
        if not b
        then leaves (stop (record t { interrupt = k }))
        else goes (record t { interrupt = k; handshake = t.handshake + 1 }) l')
load-Outcome t l l' k true pending same set alive = loads k l' pending alive same set
load-Outcome t l l' k false pending same set stopped = breaks k (omega (arith, pending))

-- A guard that returned nothing did not hold.
pub some_if :
    {A : Type 0} (b : Bool) (o : Option A) (x : A)
    → (if b then none else o) ≡ some x
    → (b ≡ false) × (o ≡ some x)
some_if true o x e = ground (arith, e)
some_if false o x e = (refl, e)

pub configures :
    (t t' x : Timer) → (not t.running ≡ false) × (some x ≡ some t') → (t.running ≡ true) × (t' ≡ x)
configures t t' x (a, b) = (ground (arith, a), sym (some-injective x t' b))

-- What the three files differ in: the thread's local variables and its rounds, how `timer_configure` starts
-- and how the thread is interrupted.
pub record Backend : Type 1 where
  pub Local : Type 0
  pub initial : Timer → Local
  pub id : Local → ℕ
  pub under : Local → Configuration
  -- Whether a wait can end so.
  pub can_wake : Wake → Timer → Local → Bool
  -- The Boolean tells whether the calls of the round succeed.
  pub round : Wake → Bool → Timer → Local → Round Local
  pub start_configure : ℕ → ℕ → Timer → Option Timer
  pub raise : Timer → Timer
  pub round-Outcome :
      (w : Wake) (ok : Bool) (t : Timer) (l : Local)
      → can_wake w t l ≡ true
      → Outcome id under t l (round w ok t l)
  pub can_wake-interrupted : (t : Timer) (l : Local) → can_wake interrupted t l ≡ ltb 0 t.interrupt
  pub round-interrupted :
      (ok : Bool) (t : Timer) (l : Local)
      → (timer_after (round interrupted ok t l)).handshake ≡ t.handshake + 1
  pub initial-id : (t : Timer) → id (initial t) ≡ t.configuration_id
  pub initial-under : (t : Timer) → under (initial t) ≡ (0, 0)
  pub start_configure-sets :
      (delay interval : ℕ) (t t' : Timer)
      → start_configure delay interval t ≡ some t'
      → (t.running ≡ true) × (t' ≡ set_configuration delay interval t)
  pub raise-interrupt :
      (t : Timer) → (k : ℕ) × (raise t ≡ record t { interrupt = k }) × (t.interrupt ≡ 0 → k ≡ 1)
