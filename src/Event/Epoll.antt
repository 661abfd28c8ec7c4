-- ===== src/Event/Epoll.antt =====
-- event_linux.c: event_run_platform and the functions that keep the kernel's set of event sources. What the
-- allocator and the kernel return, and what callbacks do, are arguments as for event_posix.c.
mod Agreement
mod AnyOrder
mod Tests
use daemonlib.Base.{
  ℕ, ◌+◌, ◌-◌, ◌≡◌, Bool, true, false, not, Option, none, some, List, [], ◌∷◌, if◌then◌else◌,
}
use daemonlib.Event.{Callback, Sources, event_cleanup_sources}
use daemonlib.Event.Poll.{Polled, Run, handle_one, start_round, end_round}

-- `_epollfd_event_count`, which `event_init_platform` sets to 0: the Boolean tells whether `epoll_ctl` succeeds.
abbrev pub event_source_added_platform : Bool → ℕ → Bool × ℕ
event_source_added_platform added count = if not added then (false, count) else (true, count + 1)

-- The count is not 0, as the source was added.
abbrev pub event_source_removed_platform : Bool → ℕ → ℕ
event_source_removed_platform removed count = if not removed then count else count - 1

-- What `epoll_wait` returns: for each source that is ready its place, which the pointer stands for, and its
-- events.
pub data Waited : Type 0 where
  wait_fails wait_interrupted : Waited
  received : List (ℕ × ℕ) → Waited

module _ (call : Callback → Sources → Sources) (stops : Callback → Bool) where
  -- The loop over the received events; `handled` counts them.
  unfoldable pub handle_events : List (ℕ × ℕ) → Polled → Polled
  handle_events [] p = p
  handle_events ((i, events) ∷ rs) p =
      let more = handle_events rs (handle_one call stops i events p) in
      if not p.running then p else more

module _ (call : Callback → Sources → Sources) (stops : Callback → Bool)
    (cleanup : Sources → Sources) where
  -- The rounds of the loop: whether the array of events can be resized, and what `epoll_wait` returns.
  pub epoll_loop : List (Bool × Waited) → Polled → Run
  epoll_loop [] p = (if p.running then none else some true, p.sources)
  epoll_loop ((resized, wait_fails) ∷ ts) p =
      if not p.running then (some true, p.sources) else (some false, p.sources)
  epoll_loop ((resized, wait_interrupted) ∷ ts) p =
      let again = epoll_loop ts p in
      if not p.running
      then (some true, p.sources)
      else (if resized then again else (some false, p.sources))
  epoll_loop ((resized, received rs) ∷ ts) p =
      let again = epoll_loop ts (
        end_round call stops cleanup
          (handle_events call stops rs (start_round call stops cleanup p))) in
      if not p.running
      then (some true, p.sources)
      else (if resized then again else (some false, p.sources))

  pub event_run_platform : Bool → List (Bool × Waited) → Sources → Run
  event_run_platform allocated ts ss =
      let running : Polled = record {
        running = true;
        handled = 0;
        sources = event_cleanup_sources (cleanup ss);
        given = [];
      } in
      if allocated then epoll_loop ts running else (some false, ss)
