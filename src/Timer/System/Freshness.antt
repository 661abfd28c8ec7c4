-- ===== src/Timer/System/Freshness.antt =====
-- What is known of the ids and the configurations of a timer while its threads run: timer_posix.c,
-- timer_winapi.c and timer_uwp.c.
use daemonlib.Base.{
  ℕ, ◌+◌, ◌^◌, ◌≤◌, ◌<◌, ◌≡◌, ◌≢◌, ◌⊎◌, inl, inr, refl, sym, ◌∙◌, subst, Bool, true, false, not,
  none, some, List, [], ◌∷◌, ◌++◌, ◌==◌, arith, if◌then◌else◌,
}
use daemonlib.Timer.{
  Configuration, Tick, current, read_tick, set_configuration, Round, Outcome, nothing, ticks, loads,
  breaks, Backend,
}
use daemonlib.Timer.System.{
  Main, Thread, not_started, started, stopped, Call, System, created, after, handled_by,
}

-- What is known of an id and of the configuration it stands for, after `n` configurations.
pub record IsFresh (n : ℕ) (now : Configuration) (id : ℕ) (under : Configuration) : Type 0 where
  bounded : id ≤ n
  last : id ≡ n → (under ≡ now) ⊎ (under ≡ (0, 0))

pub AreFresh : ℕ → Configuration → List Tick → Type 0
AreFresh n now [] = Unit {0}
AreFresh n now (tick ∷ more) =
    IsFresh n now tick.id tick.under × (tick.under ≢ (0, 0)) × AreFresh n now more

-- Each call is for the configuration that is current, and the timer is not off.
unfoldable pub AreMeant : List Call → Type 0
AreMeant [] = Unit {0}
AreMeant (c ∷ calls) = (c.tick.under ≡ c.at) × (c.at ≢ (0, 0)) × AreMeant calls

abbrev pub IsThreadFresh : (B : Backend) → ℕ → Configuration → Thread B.Local → Type 0
IsThreadFresh B n now not_started = Unit {0}
IsThreadFresh B n now (started l) = IsFresh n now (B.id l) (B.under l)
IsThreadFresh B n now stopped = Unit {0}

pub record Invariant (B : Backend) (s : System B.Local) : Type 0 where
  pub counted : s.timer.configuration_id ≡ s.configured
  pub thread : IsThreadFresh B s.configured (current s.timer) s.thread
  pub notified : AreFresh s.configured (current s.timer) s.timer.notification
  pub called : AreMeant s.calls

stale :
    {n : ℕ} {now now' : Configuration} {id : ℕ} {under : Configuration}
    → IsFresh n now id under
    → IsFresh (n + 1) now' id under
stale f = record { bounded = omega (arith, f.bounded); last = λ e. ground (arith, f.bounded, e) }

moved :
    {n : ℕ} {now : Configuration} {id id' : ℕ} {under under' : Configuration}
    → IsFresh n now id under
    → id' ≡ id
    → under' ≡ under
    → IsFresh n now id' under'
moved {n} {now} {id} {id'} {under} {under'} f same_id same_under = rw (same_id, same_under) f

AreFresh-stale :
    (n : ℕ) (now now' : Configuration) (more : List Tick)
    → AreFresh n now more
    → AreFresh (n + 1) now' more
unfolding AreFresh
AreFresh-stale n now now' [] u = u
AreFresh-stale n now now' (tick ∷ more) (a, b, rest) =
    (stale a, b, AreFresh-stale n now now' more rest)

AreFresh-append :
    (n : ℕ) (now : Configuration) (tick : Tick) (more : List Tick)
    → AreFresh n now more
    → IsFresh n now tick.id tick.under
    → tick.under ≢ (0, 0)
    → AreFresh n now (more ++ (tick ∷ []))
unfolding AreFresh
AreFresh-append n now tick [] u a b = (a, b, u)
AreFresh-append n now tick (x ∷ more) (c, d, rest) a b =
    (c, d, AreFresh-append n now tick more rest a b)

AreMeant-append :
    (c : Call) (calls : List Call)
    → AreMeant calls
    → c.tick.under ≡ c.at
    → c.at ≢ (0, 0)
    → AreMeant (calls ++ (c ∷ []))
unfolding AreMeant
AreMeant-append c [] u a b = (a, b, u)
AreMeant-append c (x ∷ calls) (p, q, rest) a b = (p, q, AreMeant-append c calls rest a b)

pub created-Invariant : (B : Backend) → Invariant B created
unfolding AreFresh AreMeant
created-Invariant B = record { counted = refl; thread = tt; notified = tt; called = tt }

pub starts-Invariant :
    (B : Backend) (s : System B.Local)
    → Invariant B s
    → Invariant B (record s { thread = started (B.initial s.timer) })
starts-Invariant B s inv = record {
  counted = inv.counted;
  thread = record {
    bounded = omega (arith, B.initial-id s.timer, inv.counted);
    last = λ e. inr (B.initial-under s.timer);
  };
  notified = inv.notified;
  called = inv.called;
}

IsThreadFresh-stale :
    (B : Backend) (n : ℕ) (now now' : Configuration) (th : Thread B.Local)
    → IsThreadFresh B n now th
    → IsThreadFresh B (n + 1) now' th
IsThreadFresh-stale B n now now' not_started f = f
IsThreadFresh-stale B n now now' (started l) f = stale f
IsThreadFresh-stale B n now now' stopped f = f

pub assigns-Invariant :
    (B : Backend) (s : System B.Local) (delay interval : ℕ) (m : Main)
    → s.configured + 1 < 2 ^ 32
    → Invariant B s
    → Invariant B (record s {
      timer = set_configuration delay interval s.timer;
      main = m;
      configured = s.configured + 1;
    })
assigns-Invariant B s delay interval m small inv = record {
  counted = omega (arith, small, inv.counted);
  thread =
      IsThreadFresh-stale B s.configured (current s.timer) (delay, interval) s.thread inv.thread;
  notified =
      AreFresh-stale s.configured (current s.timer) (delay, interval) s.timer.notification
        inv.notified;
  called = inv.called;
}

-- The thread's part of the invariant in a state that differs in nothing the invariant reads.
pub round-Invariant :
    (B : Backend) (s : System B.Local) (l : B.Local) (r : Round B.Local)
    → Outcome B.id B.under s.timer l r
    → IsFresh s.configured (current s.timer) (B.id l) (B.under l)
    → Invariant B s
    → Invariant B (after r s)
round-Invariant B s l _ (nothing l' same_id same_under) f inv = record {
  counted = inv.counted;
  thread = moved f same_id same_under;
  notified = inv.notified;
  called = inv.called;
}
round-Invariant B s l _ (ticks l' same_id same_under on) f inv = record {
  counted = inv.counted;
  thread = moved f same_id same_under;
  notified =
      AreFresh-append s.configured (current s.timer) (record { id = B.id l; under = B.under l })
        s.timer.notification inv.notified f on;
  called = inv.called;
}
round-Invariant B s l _ (loads k l' less alive same_id same_under) f inv = record {
  counted = inv.counted;
  thread = record { bounded = omega (arith, same_id, inv.counted); last = λ e. inl same_under };
  notified = inv.notified;
  called = inv.called;
}
round-Invariant B s l _ (breaks k less) f inv = record {
  counted = inv.counted;
  thread = tt;
  notified = inv.notified;
  called = inv.called;
}

is_meant :
    {n : ℕ} {now : Configuration} {id : ℕ} {under : Configuration}
    → IsFresh n now id under
    → under ≢ (0, 0)
    → id ≡ n
    → (under ≡ now) × (now ≢ (0, 0))
is_meant f on e = elim (f.last e) [
  | inl same ↦ (same, λ off. on (same ∙ off))
  | inr off ↦ absurd (on off)
]

read-Invariant :
    (B : Backend) (s : System B.Local) (tick : Tick) (more : List Tick) (b : Bool)
    → (b ≡ true → tick.id ≡ s.timer.configuration_id)
    → AreFresh s.configured (current s.timer) (tick ∷ more)
    → Invariant B s
    → let t = record s.timer { notification = more } in
      Invariant B (handled_by (if not b then (none, t) else (some tick, t)) s)
unfolding AreFresh
read-Invariant B s tick more false same (f, on, rest) inv = record {
  counted = inv.counted;
  thread = inv.thread;
  notified = rest;
  called = inv.called;
}
read-Invariant B s tick more true same (f, on, rest) inv =
    let (meant, set) = is_meant f on (same refl ∙ inv.counted) in
    record {
      counted = inv.counted;
      thread = inv.thread;
      notified = rest;
      called =
          AreMeant-append (record { tick = tick; at = current s.timer }) s.calls inv.called meant
            set;
    }

pub handled-Invariant :
    (B : Backend) (s : System B.Local) (more : List Tick)
    → AreFresh s.configured (current s.timer) more
    → Invariant B s
    → Invariant B (handled_by (read_tick more s.timer) s)
handled-Invariant B s [] f inv = record {
  counted = inv.counted;
  thread = inv.thread;
  notified = inv.notified;
  called = inv.called;
}
handled-Invariant B s (tick ∷ more) f inv =
    read-Invariant B s tick more (tick.id == s.timer.configuration_id) (λ e. ground (arith, e)) f
      inv

pub raises-Invariant :
    (B : Backend) (s : System B.Local) (m : Main)
    → Invariant B s
    → Invariant B (record s { timer = B.raise s.timer; main = m })
raises-Invariant B s m inv =
    let (k, e, one) = B.raise-interrupt s.timer in
    subst (λ t. Invariant B (record s { timer = t; main = m })) (sym e)
      (record {
        counted = inv.counted;
        thread = inv.thread;
        notified = inv.notified;
        called = inv.called;
      })
