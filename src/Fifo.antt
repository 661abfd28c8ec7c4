-- ===== src/Fifo.antt =====
-- fifo.c: the thread-safe ring buffer behind the logger. Every function runs with the mutex held, so
-- one function here is what a thread does between taking the mutex and giving it back, by returning
-- or by waiting on a condition. A call that waits returns `waits`, and the `wake` function is what it
-- does once `condition_wait` gives it the mutex again.
mod Spec
mod Sizes
mod Loops
mod Write
mod Read
mod Threads
mod Progress
mod Order
mod Tests
use daemonlib.Base.{
  ℕ, zero, suc, ◌+◌, ◌-◌, ◌%◌, min, Bool, true, false, not, ◌&&◌, List, [], ◌++◌, ltb, leb, ◌==◌,
  if◌then◌else◌, bit_and,
}
use daemonlib.Base.Int.{ℤ, pos, pos_part, int_leb, int_ltb}
use daemonlib.Base.Cyclic.{copy, slice}

-- `FIFO`, less its mutex and conditions.
pub record Fifo : Type 0 where
  pub buffer : List ℕ
  pub length : ℕ
  pub begin : ℕ
  pub end : ℕ
  pub shutdown : Bool

pub data Errno : Type 0 where
  epipe e2big ewouldblock : Errno

-- How a stretch of `fifo_write` ends: with a return, or blocked on the writable condition with so
-- many bytes written. `diverges` is a loop that has used up its fuel.
pub data WriteResult : Type 0 where
  wrote : ℕ → WriteResult
  write_failed : Errno → WriteResult
  write_waits : ℕ → WriteResult
  write_diverges : WriteResult

-- How a stretch of `fifo_read` ends. The list is what the caller's buffer holds.
pub data ReadResult : Type 0 where
  read : List ℕ → ReadResult
  read_failed : Errno → ReadResult
  read_waits : ReadResult
  read_diverges : ReadResult

-- In a valid FIFO none of these differences is negative.
pub writable_at_all : Fifo → ℕ
writable_at_all f =
    if leb f.begin f.end then f.length - (f.end - f.begin) - 1 else f.begin - f.end - 1

pub writable_at_once : Fifo → ℕ
writable_at_once f =
    if leb f.begin f.end
    then (if f.begin == 0 then f.length - f.end - 1 else f.length - f.end)
    else f.begin - f.end - 1

pub readable_at_all : Fifo → ℕ
readable_at_all f = if leb f.begin f.end then f.end - f.begin else f.length - (f.begin - f.end)

pub readable_at_once : Fifo → ℕ
readable_at_once f = if leb f.begin f.end then f.end - f.begin else f.length - f.begin

pub fifo_create : List ℕ → ℕ → Fifo
fifo_create buffer length = record {
  buffer = buffer;
  length = length;
  begin = 0;
  end = 0;
  shutdown = false;
}

abbrev pub non_blocking : ℕ
non_blocking = 0x0001

-- `(flags & FIFO_FLAG_NON_BLOCKING) == 0`
abbrev pub is_blocking : ℕ → Bool
is_blocking flags = bit_and flags non_blocking == 0

-- One `memcpy` into the ring, with the new `end`.
pub put_block : Fifo → List ℕ → ℕ → Fifo
put_block f block n = record f { buffer = copy f.buffer f.end block; end = (f.end + n) % f.length }

-- The loop `while (length - written > 0)`. A round that finds no space waits, if the call blocks.
pub write_loop : ℕ → Bool → Fifo → List ℕ → ℕ → ℕ → WriteResult × Fifo
unfolding put_block writable_at_all writable_at_once
write_loop zero blocking f src length n = (write_diverges, f)
write_loop (suc k) blocking f src length n =
    let writable = min (writable_at_once f) (length - n) in
    let f' = put_block f (slice src n writable) writable in
    let rest = write_loop k blocking f' src length (n + writable) in
    if length - n == 0
    then (wrote n, f)
    else (if blocking && writable_at_all f == 0 then (write_waits n, f) else rest)

pub fifo_write : Fifo → List ℕ → ℤ → ℕ → WriteResult × Fifo
fifo_write f src length flags =
    if f.shutdown
    then (write_failed epipe, f)
    else (if int_leb length (pos 0)
        then (wrote 0, f)
        else (if not (is_blocking flags) && ltb (f.length - 1) (pos_part length)
            then (write_failed e2big, f)
            else (if not (is_blocking flags) && ltb (writable_at_all f) (pos_part length)
                then (write_failed ewouldblock, f)
                else write_loop (suc (pos_part length)) (is_blocking flags) f src (pos_part length)
                    0)))

-- A blocked `fifo_write` that has written `n` bytes is woken.
pub write_wake : Fifo → List ℕ → ℕ → ℕ → WriteResult × Fifo
write_wake f src length n =
    if f.shutdown
    then (write_failed epipe, f)
    else write_loop (suc (length - n)) true f src length n

-- The new `begin` after a `memcpy` out of the ring.
pub take_block : Fifo → ℕ → Fifo
take_block f n = record f { begin = (f.begin + n) % f.length }

-- The loop `while (fifo_readable_at_all(fifo) > 0 && length - read > 0)`; `out` is what has been
-- read, `length` what may still be.
pub read_loop : ℕ → Fifo → ℕ → List ℕ → ReadResult × Fifo
unfolding take_block readable_at_all readable_at_once
read_loop zero f length out = (read_diverges, f)
read_loop (suc k) f length out =
    let readable = min (readable_at_once f) length in
    let f' = take_block f readable in
    let rest = read_loop k f' (length - readable) (out ++ slice f.buffer f.begin readable) in
    if ltb 0 (readable_at_all f) && ltb 0 length then rest else (read out, f)

pub fifo_read : Fifo → ℤ → ℕ → ReadResult × Fifo
fifo_read f length flags =
    if int_leb length (pos 0)
    then (read [], f)
    else (if readable_at_all f == 0
        then (if f.shutdown
            then (read [], f)
            else (if is_blocking flags then (read_waits, f) else (read_failed ewouldblock, f)))
        else read_loop (suc (pos_part length)) f (pos_part length) [])

-- A blocked `fifo_read` is woken.
pub read_wake : Fifo → ℕ → ReadResult × Fifo
read_wake f length =
    if not f.shutdown && readable_at_all f == 0
    then (read_waits, f)
    else read_loop (suc length) f length []

pub fifo_shutdown : Fifo → Fifo
fifo_shutdown f = record f { shutdown = true }
