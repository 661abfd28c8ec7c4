-- ===== src/Event/Poll/Tests.antt =====
-- event_posix.c: two sources that are ready, the first of which removes itself.
use daemonlib.Base.{◌≡◌, refl, Bool, false, [], ◌∷◌, take, arith}
use daemonlib.Event.{
  generic, normal, Callback, Sources, event_read, new_source, event_remove_source,
}
use daemonlib.Event.Keeps.{handles, event_remove_source-Keeps}
use daemonlib.Event.Poll.{handle_loop}
use daemonlib.Event.Poll.Order.{ready_handles, running_with, handle_loop_lem}

abbrev on_read : Callback
on_read = record { function = 7; opaque = 1 }

abbrev ready_sources : Sources
ready_sources =
    record (new_source 5 generic 1 event_read on_read) { state = normal }
    ∷ record (new_source 6 generic 1 event_read on_read) { state = normal }
    ∷ []

abbrev remove_first : Callback → Sources → Sources
remove_first cb ss = event_remove_source 5 generic ss

abbrev goes_on : Callback → Bool
goes_on cb = false

handle_loop_lem_example :
    (handle_loop remove_first goes_on 2 0 (1 ∷ 1 ∷ []) (running_with ready_sources 0 [])).given
    ≡ take 2 (ready_handles (handles ready_sources) (1 ∷ 1 ∷ []))
handle_loop_lem_example =
    handle_loop_lem remove_first goes_on 2 (λ cb ss. event_remove_source-Keeps 5 generic ss)
      (λ cb. refl) (1 ∷ 1 ∷ []) ready_sources (omega arith)
