-- ===== src/Timer/System/Meaning.antt =====
-- What a call of a timer's function means: timer_posix.c, timer_winapi.c and timer_uwp.c.
use daemonlib.Base.{◌+◌, ◌^◌, ◌≤◌, ◌<◌, ◌≡◌, refl, sym, subst, arith}
use daemonlib.Timer.{current, timer_handle_read, Round, goes, leaves, Backend}
use daemonlib.Timer.System.{
  System, after, Step, starts, assigns, cannot_raise, raises, acquires, handles, destroys,
  raises_last, cannot_raise_last, joins, assigned, waiting, joining, destroys_stopped, rounds, ends,
  Reach, start, later,
}
use daemonlib.Timer.System.Freshness.{
  AreMeant, Invariant, IsThreadFresh, assigns-Invariant, created-Invariant, handled-Invariant,
  raises-Invariant, round-Invariant, starts-Invariant,
}

Step-Invariant :
    (B : Backend) (s s' : System B.Local)
    → s'.configured < 2 ^ 32
    → Invariant B s
    → Step B s s'
    → Invariant B s'
unfolding timer_handle_read
Step-Invariant B s _ small inv (starts fresh) = starts-Invariant B s inv
Step-Invariant B s _ small inv (assigns delay interval t here e) =
    subst
      (λ t. Invariant B (record s { timer = t; main = assigned; configured = s.configured + 1 }))
      (sym (B.start_configure-sets delay interval s.timer t e).1)
      (assigns-Invariant B s delay interval assigned small inv)
Step-Invariant B s _ small inv (cannot_raise here) = record {
  counted = inv.counted;
  thread = inv.thread;
  notified = inv.notified;
  called = inv.called;
}
Step-Invariant B s _ small inv (raises here) = raises-Invariant B s waiting inv
Step-Invariant B s _ small inv (acquires here some_count) = record {
  counted = inv.counted;
  thread = inv.thread;
  notified = inv.notified;
  called = inv.called;
}
Step-Invariant B s _ small inv (handles here) =
    handled-Invariant B s s.timer.notification inv.notified inv
Step-Invariant B s _ small inv (destroys here alive) = record {
  counted = inv.counted;
  thread = inv.thread;
  notified = inv.notified;
  called = inv.called;
}
Step-Invariant B s _ small inv (raises_last here) = raises-Invariant B s joining inv
Step-Invariant B s _ small inv (cannot_raise_last here) = record {
  counted = inv.counted;
  thread = inv.thread;
  notified = inv.notified;
  called = inv.called;
}
Step-Invariant B s _ small inv (joins here done) = record {
  counted = inv.counted;
  thread = inv.thread;
  notified = inv.notified;
  called = inv.called;
}
Step-Invariant B s _ small inv (destroys_stopped here done) = record {
  counted = inv.counted;
  thread = inv.thread;
  notified = inv.notified;
  called = inv.called;
}
Step-Invariant B s _ small inv (rounds w ok l live can) =
    round-Invariant B s l (B.round w ok s.timer l) (B.round-Outcome w ok s.timer l can)
      (subst (IsThreadFresh B s.configured (current s.timer)) live inv.thread) inv
Step-Invariant B s _ small inv (ends l live done) = record {
  counted = inv.counted;
  thread = tt;
  notified = inv.notified;
  called = inv.called;
}

after-configured : {L : Type 0} (r : Round L) (s : System L) → (after r s).configured ≡ s.configured
after-configured (goes t l) s = refl
after-configured (leaves t) s = refl

Step-configured : (B : Backend) (s s' : System B.Local) → Step B s s' → s.configured ≤ s'.configured
Step-configured B s _ (starts fresh) = omega arith
Step-configured B s _ (assigns delay interval t here e) = omega arith
Step-configured B s _ (cannot_raise here) = omega arith
Step-configured B s _ (raises here) = omega arith
Step-configured B s _ (acquires here some_count) = omega arith
Step-configured B s _ (handles here) = omega arith
Step-configured B s _ (destroys here alive) = omega arith
Step-configured B s _ (raises_last here) = omega arith
Step-configured B s _ (cannot_raise_last here) = omega arith
Step-configured B s _ (joins here done) = omega arith
Step-configured B s _ (destroys_stopped here done) = omega arith
Step-configured B s _ (rounds w ok l live can) =
    let same = after-configured (B.round w ok s.timer l) s in omega (arith, same)
Step-configured B s _ (ends l live done) = omega arith

Reach-Invariant :
    (B : Backend) (s : System B.Local) → Reach B s → s.configured < 2 ^ 32 → Invariant B s
Reach-Invariant B _ start small = created-Invariant B
Reach-Invariant B s' (later {s} reach step) small =
    Step-Invariant B s s' small
      (Reach-Invariant B s reach (omega (arith, Step-configured B s s' step, small))) step

-- For each of the three files: as long as fewer than 2^32 configurations have been made, every call of the
-- timer's function is for a tick that the thread wrote under the configuration that is current at the call,
-- and that configuration has a delay or an interval: a stopped timer does not call, nor does an old tick.
pub calls_meant :
    (B : Backend) (s : System B.Local) → Reach B s → s.configured < 2 ^ 32 → AreMeant s.calls
calls_meant B s reach small = (Reach-Invariant B s reach small).called
