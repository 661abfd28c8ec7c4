-- ===== src/Timer/Posix/Create.antt =====
-- timer_create_ and timer_destroy of timer_posix.c: what they acquire and give back.
use daemonlib.Base.{ℕ, Bool, true, false, not, Option, none, some, ◌==◌, if◌then◌else◌}
use daemonlib.Timer.{Timer, new_timer, Held}

-- The `switch` at the end of `timer_create_`, for the phase it was left in.
abbrev pub cleanup : ℕ → Held → Held
cleanup phase h =
    if phase == 2
    then record h { interrupt = false; notification_pipe = false }
    else (if phase == 1 then record h { notification_pipe = false } else h)

-- The Booleans tell whether the notification pipe and the interrupt pipe are created, and whether
-- `event_add_source` succeeds.
unfoldable pub timer_create : (pipe interrupt added : Bool) → Held → Option Timer × Held
timer_create pipe interrupt added h =
    if not pipe
    then (none, cleanup 0 h)
    else (if not interrupt
        then (none, cleanup 1 (record h { notification_pipe = true }))
        else (if not added
            then (none, cleanup 2 (record h { notification_pipe = true; interrupt = true }))
            else (
              some new_timer,
              cleanup 3 (record h {
                notification_pipe = true;
                interrupt = true;
                source = true;
                semaphore = true;
                thread = true;
              }),
            )))

-- The thread is joined only if it is running and can be interrupted, which the Boolean tells.
unfoldable pub timer_destroy : Bool → Timer → Held → Timer × Held
timer_destroy raised t h =
    let released = record h {
      source = false;
      semaphore = false;
      interrupt = false;
      notification_pipe = false;
    } in
    if t.running
    then (
      record t { running = false },
      if raised then record released { thread = false } else released,
    )
    else (t, released)
