-- ===== src/Event/Poll.antt =====
-- event_posix.c: event_run_platform. What the allocator and `poll` return is an argument of each round; so
-- are what a callback and the cleanup function do to the sources, and whether a callback stops the loop.
pub mod Order
mod Tests
use daemonlib.Base.{
  ℕ, zero, suc, ◌+◌, ◌-◌, Bool, true, false, not, ◌&&◌, ◌||◌, Option, none, some, List, [], ◌∷◌,
  ◌++◌, map, get_elem?, take, length, ltb, ◌==◌, if◌then◌else◌,
}
use daemonlib.Event.{Callback, EventSource, Sources, event_cleanup_sources}
use daemonlib.Event.Handle.{Delivery, event_handle_source}

-- `_running`, `handled`, the sources, and the handles of the sources that were handled, each with the
-- events that it was given.
pub record Polled : Type 0 where
  pub running : Bool
  pub handled : ℕ
  pub sources : Sources
  pub given : List (Option ℕ × ℕ)

-- The descriptors that `poll` gets, with the events to wait for.
abbrev pub pollfds : Sources → List (ℕ × ℕ)
pollfds ss = map (λ s. (s.handle, s.events)) ss

abbrev pub handle_at : ℕ → Sources → Option ℕ
handle_at i ss = elim (get_elem? ss i) [ none ↦ none | some s ↦ some s.handle ]

abbrev pub any_stops : (Callback → Bool) → List Callback → Bool
any_stops stops [] = false
any_stops stops (cb ∷ cbs) = stops cb || any_stops stops cbs

module _ (call : Callback → Sources → Sources) (stops : Callback → Bool) where
  -- The body of the loop over the descriptors.
  abbrev pub handle_one : ℕ → ℕ → Polled → Polled
  handle_one i received p =
      let d = event_handle_source call i received p.sources in
      record {
        running = p.running && not (any_stops stops d.calls);
        handled = p.handled + 1;
        sources = d.sources;
        given = p.given ++ ((handle_at i p.sources, received) ∷ []);
      }

  -- The loop over the descriptors from `i` on, with their `revents`.
  unfoldable pub handle_loop : ℕ → ℕ → List ℕ → Polled → Polled
  handle_loop ready i [] p = p
  handle_loop ready i (received ∷ rs) p =
      let skipped = handle_loop ready (i + 1) rs p in
      let more = handle_loop ready (i + 1) rs (handle_one i received p) in
      if not (p.running && ltb p.handled ready)
      then p
      else (if received == 0 then skipped else more)

-- What `poll` returns: the number of descriptors that are ready, and the `revents` of all.
pub data Answer : Type 0 where
  poll_fails interrupted : Answer
  polled : ℕ → List ℕ → Answer

-- The result, `none` while the loop waits in `poll`, and the sources.
abbrev pub Run : Type 0
Run = Option Bool × Sources

module _ (call : Callback → Sources → Sources) (stops : Callback → Bool)
    (cleanup : Sources → Sources) where
  abbrev pub start_round : Polled → Polled
  start_round p = record p { handled = 0 }

  abbrev pub end_round : Polled → Polled
  end_round p = record p { sources = event_cleanup_sources (cleanup p.sources) }

  -- The rounds of the loop: whether the array of descriptors can be resized, and the answer of `poll`.
  pub run_loop : List (Bool × Answer) → Polled → Run
  run_loop [] p = (if p.running then none else some true, p.sources)
  run_loop ((resized, poll_fails) ∷ ts) p =
      if not p.running then (some true, p.sources) else (some false, p.sources)
  run_loop ((resized, interrupted) ∷ ts) p =
      let again = run_loop ts p in
      if not p.running
      then (some true, p.sources)
      else (if resized then again else (some false, p.sources))
  run_loop ((resized, polled ready revents) ∷ ts) p =
      let again = run_loop ts (
        end_round
          (handle_loop call stops ready 0 (take (length p.sources) revents) (start_round p))) in
      if not p.running
      then (some true, p.sources)
      else (if resized then again else (some false, p.sources))

  pub event_run_platform : Bool → List (Bool × Answer) → Sources → Run
  event_run_platform created ts ss =
      let running : Polled = record {
        running = true;
        handled = 0;
        sources = event_cleanup_sources (cleanup ss);
        given = [];
      } in
      if created then run_loop ts running else (some false, ss)
