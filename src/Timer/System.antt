-- ===== src/Timer/System.antt =====
-- A timer between the thread of the event loop and its own: who calls `timer_configure`, `timer_destroy` and
-- `timer_handle_read` is one thread, and `timer_thread` runs beside it.
pub mod Freshness
pub mod Pairing
pub mod Meaning
pub mod Handshake
use daemonlib.Base.{ℕ, ◌+◌, ◌<◌, ◌≡◌, Bool, true, false, Option, none, some, List, [], ◌∷◌, ◌++◌}
use daemonlib.Timer.{
  Configuration, Tick, Timer, current, new_timer, timer_handle_read, finish_configure, stop, Wake,
  Round, goes, leaves, Backend,
}

-- Outside, or in `timer_configure` before the interrupt is raised or before the semaphore is acquired, or in
-- `timer_destroy` before the interrupt is raised or before the thread is joined, or the timer is gone.
pub data Main : Type 0 where
  outside assigned waiting destroying joining gone : Main

pub data Thread (L : Type 0) : Type 0 where
  not_started : Thread L
  started : L → Thread L
  stopped : Thread L

-- A call of the timer's function: for which tick, and the configuration at that time.
pub record Call : Type 0 where
  pub tick : Tick
  pub at : Configuration

-- `configured` counts the assignments of a configuration.
pub record System (L : Type 0) : Type 0 where
  pub timer : Timer
  pub main : Main
  pub thread : Thread L
  pub calls : List Call
  pub configured : ℕ

-- After `timer_create_`.
abbrev pub created : {L : Type 0} → System L
created = record {
  timer = new_timer;
  main = outside;
  thread = not_started;
  calls = [];
  configured = 0;
}

abbrev pub call : Option Tick → Configuration → List Call → List Call
call none now calls = calls
call (some tick) now calls = calls ++ (record { tick = tick; at = now } ∷ [])

abbrev pub handled_by : {L : Type 0} → Option Tick × Timer → System L → System L
handled_by (tick, t) s = record s { timer = t; calls = call tick (current t) s.calls }

abbrev pub handled : {L : Type 0} → System L → System L
handled s = handled_by (timer_handle_read s.timer) s

abbrev pub after : {L : Type 0} → Round L → System L → System L
after (goes t l) s = record s { timer = t; thread = started l }
after (leaves t) s = record s { timer = t; thread = stopped }

pub data Step (B : Backend) (s : System B.Local) : System B.Local → Type 0 where
  starts : s.thread ≡ not_started → Step B s (record s { thread = started (B.initial s.timer) })
  assigns :
      (delay interval : ℕ) (t : Timer)
      → s.main ≡ outside
      → B.start_configure delay interval s.timer ≡ some t
      → Step B s (record s { timer = t; main = assigned; configured = s.configured + 1 })
  cannot_raise : s.main ≡ assigned → Step B s (record s { main = outside })
  raises : s.main ≡ assigned → Step B s (record s { timer = B.raise s.timer; main = waiting })
  acquires :
      s.main ≡ waiting
      → 0 < s.timer.handshake
      → Step B s (record s { timer = (finish_configure s.timer).1; main = outside })
  handles : s.main ≡ outside → Step B s (handled s)
  destroys :
      s.main ≡ outside
      → s.timer.running ≡ true
      → Step B s (record s { timer = record s.timer { running = false }; main = destroying })
  raises_last :
      s.main ≡ destroying → Step B s (record s { timer = B.raise s.timer; main = joining })
  cannot_raise_last : s.main ≡ destroying → Step B s (record s { main = gone })
  joins : s.main ≡ joining → s.thread ≡ stopped → Step B s (record s { main = gone })
  destroys_stopped :
      s.main ≡ outside → s.timer.running ≡ false → Step B s (record s { main = gone })
  rounds :
      (w : Wake) (ok : Bool) (l : B.Local)
      → s.thread ≡ started l
      → B.can_wake w s.timer l ≡ true
      → Step B s (after (B.round w ok s.timer l) s)
  ends :
      (l : B.Local)
      → s.thread ≡ started l
      → s.timer.running ≡ false
      → Step B s (record s { timer = stop s.timer; thread = stopped })

pub data Reach (B : Backend) : System B.Local → Type 0 where
  start : Reach B created
  later : {s s' : System B.Local} → Reach B s → Step B s s' → Reach B s'
