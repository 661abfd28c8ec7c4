-- ===== src/Fifo/Threads.antt =====
-- fifo.c: any number of threads on one FIFO, interleaved at the mutex.
use daemonlib.Base.{ℕ, ◌-◌, ◌≤◌, ◌≡◌, List, [], ◌++◌, length, ◌==◌, if◌then◌else◌}
use daemonlib.Base.Int.{ℤ, pos_part}
use daemonlib.Base.Cyclic.{slice}
use daemonlib.Fifo.{
  Fifo, WriteResult, wrote, write_waits, ReadResult, read, read_waits, fifo_create, fifo_write,
  write_wake, fifo_read, read_wake, fifo_shutdown,
}

-- A thread is outside the FIFO's functions or blocked in one: in `fifo_write` with `n` of `len` bytes
-- of `src` written, or in `fifo_read`.
pub data Thread : Type 0 where
  outside : Thread
  writing : List ℕ → ℕ → ℕ → Thread
  reading : ℕ → Thread

-- `sent` is every byte that a writer has put into the ring, `received` every byte that a reader got.
pub record System : Type 0 where
  pub fifo : Fifo
  pub threads : ℕ → Thread
  pub sent : List ℕ
  pub received : List ℕ

abbrev pub update : (ℕ → Thread) → ℕ → Thread → ℕ → Thread
update threads t x u = if u == t then x else threads u

abbrev pub after_write : List ℕ → ℕ → WriteResult → Thread
after_write src len (write_waits n) = writing src len n
after_write src len _ = outside

abbrev pub after_read : ℕ → ReadResult → Thread
after_read len read_waits = reading len
after_read len _ = outside

-- The bytes written by a stretch that began at `n` and ended with the given result.
abbrev pub progress : ℕ → WriteResult → ℕ
progress n (wrote m) = m - n
progress n (write_waits m) = m - n
progress n _ = 0

abbrev pub delivered : ReadResult → List ℕ
delivered (read bytes) = bytes
delivered _ = []

-- What one thread does while it holds the mutex. A blocked thread may be woken at any time, as POSIX
-- allows, so the broadcasts need not be tracked.
pub data Step (s : System) : System → Type 0 where
  write_call :
      (t : ℕ) (src : List ℕ) (len : ℤ) (flags : ℕ)
      → s.threads t ≡ outside
      → pos_part len ≤ length src
      → Step s (record {
        fifo = (fifo_write s.fifo src len flags).1;
        threads =
            update s.threads t (after_write src (pos_part len) (fifo_write s.fifo src len flags).0);
        sent = s.sent ++ slice src 0 (progress 0 (fifo_write s.fifo src len flags).0);
        received = s.received;
      })
  write_wakes :
      (t : ℕ) (src : List ℕ) (len n : ℕ)
      → s.threads t ≡ writing src len n
      → Step s (record {
        fifo = (write_wake s.fifo src len n).1;
        threads = update s.threads t (after_write src len (write_wake s.fifo src len n).0);
        sent = s.sent ++ slice src n (progress n (write_wake s.fifo src len n).0);
        received = s.received;
      })
  read_call :
      (t : ℕ) (len : ℤ) (flags : ℕ)
      → s.threads t ≡ outside
      → Step s (record {
        fifo = (fifo_read s.fifo len flags).1;
        threads = update s.threads t (after_read (pos_part len) (fifo_read s.fifo len flags).0);
        sent = s.sent;
        received = s.received ++ delivered (fifo_read s.fifo len flags).0;
      })
  read_wakes :
      (t : ℕ) (len : ℕ)
      → s.threads t ≡ reading len
      → Step s (record {
        fifo = (read_wake s.fifo len).1;
        threads = update s.threads t (after_read len (read_wake s.fifo len).0);
        sent = s.sent;
        received = s.received ++ delivered (read_wake s.fifo len).0;
      })
  shut_down : Step s (record s { fifo = fifo_shutdown s.fifo })

pub data Reach (s : System) : System → Type 0 where
  here : Reach s s
  next : {t u : System} → Reach s t → Step t u → Reach s u

-- A fresh FIFO over `buffer`, with every thread outside.
abbrev pub start : List ℕ → ℕ → System
start buffer len = record {
  fifo = fifo_create buffer len;
  threads = λ _. outside;
  sent = [];
  received = [];
}
