-- ===== src/Event/Epoll/Tests.antt =====
-- event_linux.c and event_posix.c with two sources that are ready.
use mathlib.Core.List.{Perm}
use mathlib.Core.List.Perm
use daemonlib.Base.{map, arith, ◌≡◌, refl, Bool, false, [], ◌∷◌}
use daemonlib.Event.{
  generic, normal, Callback, Sources, event_read, new_source, event_remove_source,
}
use daemonlib.Event.Keeps.{handles, event_remove_source-Keeps}
use daemonlib.Event.Poll.{handle_loop}
use daemonlib.Event.Poll.Order.{running_with}
use daemonlib.Event.Epoll.{handle_events}
use daemonlib.Event.Epoll.AnyOrder.{named, handle_events-handle_loop}

abbrev on_read : Callback
on_read = record { function = 7; opaque = 1 }

abbrev two_sources : Sources
two_sources =
    record (new_source 5 generic 1 event_read on_read) { state = normal }
    ∷ record (new_source 6 generic 1 event_read on_read) { state = normal }
    ∷ []

abbrev remove_first : Callback → Sources → Sources
remove_first cb ss = event_remove_source 5 generic ss

abbrev goes_on : Callback → Bool
goes_on cb = false

-- The kernel reports the second source first.
handle_events-handle_loop_example :
    let by_epoll =
      (handle_events remove_first goes_on
        ((1, 1) ∷ (0, 1) ∷ [])
        (running_with two_sources 0 [])).given in
    let by_poll =
      (handle_loop remove_first goes_on 2 0 (1 ∷ 1 ∷ []) (running_with two_sources 0 [])).given in
    (by_epoll ≡ map (named (handles two_sources)) ((1, 1) ∷ (0, 1) ∷ [])) × Perm by_epoll by_poll
handle_events-handle_loop_example =
    handle_events-handle_loop remove_first goes_on (λ cb ss. event_remove_source-Keeps 5 generic ss)
      (λ cb. refl) (1 ∷ 1 ∷ []) ((1, 1) ∷ (0, 1) ∷ []) two_sources (omega arith)
      (Perm.swap (0, 1) (1, 1) [])
