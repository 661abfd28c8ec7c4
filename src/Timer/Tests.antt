-- ===== src/Timer/Tests.antt =====
-- Timers of timer_posix.c, timer_winapi.c and timer_uwp.c at work.
use daemonlib.Base.{◌≡◌, refl, true, false, some, [], ◌∷◌, arith}
use daemonlib.Timer.{
  new_timer, nothing_held, all_held, timer_handle_read, set_configuration, disturbed, timed_out,
  interrupted, timer_after,
}
use daemonlib.Timer.Posix as posix
use daemonlib.Timer.Winapi as winapi
use daemonlib.Timer.Uwp as uwp
use daemonlib.Timer.Posix.Create as posix_create
use daemonlib.Timer.Winapi.Create as winapi_create
use daemonlib.Timer.Uwp.Create as uwp_create
use daemonlib.Timer.Posix.Lost.{one_shot_ticks, written}
use daemonlib.Timer.Uwp.Repeats.{one_shot_repeats}
use daemonlib.Timer.Alone.{run, timeouts, copies}
use daemonlib.Timer.Create.{whole, remains, timer_create-whole, timer_destroy-remains}
use daemonlib.Timer.Configure.{configured, timer_configure-configured}
use daemonlib.Timer.System.{
  System, started, outside, assigned, waiting, created, after, handled, starts, assigns, raises,
  rounds, acquires, handles, Reach, start, later,
}
use daemonlib.Timer.System.Freshness.{AreMeant}
use daemonlib.Timer.System.Meaning.{calls_meant}

-- A timer of timer_posix.c is started, configured with a delay, and ticks.
abbrev first_locals : posix.Local
first_locals = posix.initial new_timer

abbrev alive : System posix.Local
alive = record created { thread = started first_locals }

abbrev set : System posix.Local
set = record alive { timer = set_configuration 5000 0 new_timer; main = assigned; configured = 1 }

abbrev awaiting : System posix.Local
awaiting = record set { timer = posix.raise set.timer; main = waiting }

abbrev loaded : System posix.Local
loaded = record awaiting {
  timer = record set.timer { handshake = 1 };
  thread = started (posix.new_locals set.timer);
}

abbrev back : System posix.Local
back = record loaded { timer = set.timer; main = outside }

abbrev ticked : System posix.Local
ticked = after (posix.round timed_out true back.timer (posix.new_locals set.timer)) back

awaiting-Reach : Reach posix.posix awaiting
unfolding posix.start_configure
awaiting-Reach =
    later (later (later start (starts refl)) (assigns 5000 0 set.timer refl refl)) (raises refl)

loaded-Reach : Reach posix.posix loaded
unfolding posix.round
loaded-Reach = later awaiting-Reach (rounds interrupted true first_locals refl refl)

ticked-Reach : Reach posix.posix ticked
ticked-Reach =
    later (later loaded-Reach (acquires refl (omega arith)))
      (rounds timed_out true (posix.new_locals set.timer) refl refl)

handled-Reach : Reach posix.posix (handled ticked)
unfolding posix.round
handled-Reach = later ticked-Reach (handles refl)

called_once :
    (handled ticked).calls
    ≡ (record { tick = record { id = 1; under = (5000, 0) }; at = (5000, 0) } ∷ [])
unfolding posix.round timer_handle_read
called_once = refl

calls_meant_example : AreMeant (handled ticked).calls
unfolding posix.round
calls_meant_example = calls_meant posix.posix (handled ticked) handled-Reach (omega arith)

timer_create-whole_example :
    (posix_create.timer_create true true false nothing_held ≡ whole false false)
    × (winapi_create.timer_create true true true false nothing_held ≡ whole true false)
    × (uwp_create.timer_create true true false nothing_held ≡ whole false false)
timer_create-whole_example = timer_create-whole true true true false

timer_destroy-remains_example :
    (posix_create.timer_destroy true new_timer (all_held false)
      ≡ (record new_timer { running = false }, remains true))
    × (winapi_create.timer_destroy true new_timer (all_held true)
        ≡ (record new_timer { running = false }, remains true))
    × (uwp_create.timer_destroy true new_timer (all_held false)
        ≡ (record new_timer { running = false }, remains true))
timer_destroy-remains_example = timer_destroy-remains true new_timer

timer_configure-configured_example :
    (posix.timer_configure true
        (λ t. timer_after (posix.round interrupted true t first_locals))
        5000
        0
        new_timer
      ≡ configured true true 5000 0 new_timer)
    × (winapi.timer_configure true
          (λ t. timer_after (winapi.round interrupted true t (winapi.initial new_timer)))
          5000
          0
          new_timer
        ≡ configured true true 5000 0 new_timer)
    × (uwp.timer_configure true
          (λ t. timer_after (uwp.round interrupted true t (uwp.initial new_timer)))
          5000
          0
          new_timer
        ≡ configured true true 5000 0 new_timer)
timer_configure-configured_example =
    timer_configure-configured true 5000 0 new_timer first_locals (winapi.initial new_timer)
      (uwp.initial new_timer) refl

one_shot_ticks_example :
    set.timer.notification ≡ written disturbed set.timer (posix.new_locals set.timer)
unfolding run posix.round
one_shot_ticks_example =
    one_shot_ticks disturbed (disturbed ∷ []) set.timer set.timer (posix.new_locals set.timer) refl
      (λ e. ground (arith, e)) refl refl refl

one_shot_repeats_example :
    run uwp.uwp (timeouts 3) set.timer (uwp.new_locals set.timer)
    ≡ some (record set.timer { notification = copies 3 (record { id = 1; under = (5000, 0) }) })
one_shot_repeats_example =
    one_shot_repeats 3 set.timer (uwp.new_locals set.timer) (λ e. ground (arith, e)) refl
      (λ e. ground (arith, e))
