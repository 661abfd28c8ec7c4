-- ===== src/Event/Init.antt =====
-- event.c: setting the event loop up, with its phases, and stopping it.
use daemonlib.Base.{
  Option, none, some, ℕ, zero, suc, ◌+◌, ◌≡◌, Bool, true, false, List, [], ◌∷◌, ◌++◌, if◌then◌else◌,
  arith, ◌==◌,
}
use daemonlib.Base.Int.{ℤ, pos}

pub data Resource : Type 0 where
  event_sources platform stop_pipe stop_source : Resource

pub data Action : Type 0 where
  acquire release : Resource → Action

-- The phase that `event_init` reaches, by which of its four calls succeed.
pub init_phase : Bool → Bool → Bool → Bool → ℕ
init_phase created platform_ready piped added =
    if created
    then (if platform_ready then (if piped then (if added then 4 else 3) else 2) else 1)
    else 0

abbrev acquired : ℕ → List Action
acquired zero = []
acquired (suc zero) = acquire event_sources ∷ []
acquired (suc (suc zero)) = acquire event_sources ∷ acquire platform ∷ []
acquired (suc (suc (suc zero))) = acquire event_sources ∷ acquire platform ∷ acquire stop_pipe ∷ []
acquired (suc (suc (suc (suc n)))) =
    acquire event_sources ∷ acquire platform ∷ acquire stop_pipe ∷ acquire stop_source ∷ []

-- The `switch (phase)` at `cleanup`, whose cases fall through.
abbrev init_cleanup : ℕ → List Action
init_cleanup (suc (suc (suc zero))) =
    release stop_pipe ∷ release platform ∷ release event_sources ∷ []
init_cleanup (suc (suc zero)) = release platform ∷ release event_sources ∷ []
init_cleanup (suc zero) = release event_sources ∷ []
init_cleanup zero = []
init_cleanup (suc (suc (suc (suc n)))) = []

-- Whether it returns 0, and what it acquired and released.
pub event_init : Bool → Bool → Bool → Bool → Bool × List Action
unfolding init_phase
event_init created platform_ready piped added =
    let phase = init_phase created platform_ready piped added in
    (phase == 4, acquired phase ++ init_cleanup phase)

-- What `event_exit` releases.
abbrev pub event_exit : List Action
event_exit = release stop_source ∷ release stop_pipe ∷ release platform ∷ release event_sources ∷ []

abbrev same_resource : Resource → Resource → Bool
same_resource event_sources event_sources = true
same_resource platform platform = true
same_resource stop_pipe stop_pipe = true
same_resource stop_source stop_source = true
same_resource _ _ = false

-- What is held afterwards, the latest first; `none` is a release of anything but the latest.
abbrev pub held : List Action → List Resource → Option (List Resource)
held [] rs = some rs
held (acquire r ∷ as_) rs = held as_ (r ∷ rs)
held (release r ∷ as_) [] = none
held (release r ∷ as_) (q ∷ rs) = let rest = held as_ rs in if same_resource r q then rest else none

-- Whichever of its calls fails, `event_init` releases what it has acquired, the latest first, and
-- holds nothing when it returns -1; when it returns 0, it holds what `event_exit` then releases.
event_init-held :
    (created platform_ready piped added : Bool)
    → let (ok, actions) = event_init created platform_ready piped added in
      (ok ≡ false → held actions [] ≡ some [])
      × (ok ≡ true → held (actions ++ event_exit) [] ≡ some [])
unfolding event_init init_phase
event_init-held created platform_ready piped added = ground arith

-- `_running` and `_stop_requested`, and the bytes in the stop pipe.
pub record Loop : Type 0 where
  pub running : Bool
  pub stop_requested : Bool
  pub stop_bytes : ℕ

-- `run` is `event_run_platform`.
pub event_run : (Loop → ℤ × Loop) → Loop → ℤ × Loop
event_run run l = if l.running then (pos 0, l) else (if l.stop_requested then (pos 0, l) else run l)

-- `writes` tells whether `pipe_write` succeeds.
pub event_stop : Bool → Loop → Loop
event_stop writes l =
    if l.running
    then record l {
      running = false;
      stop_requested = true;
      stop_bytes = if writes then l.stop_bytes + 1 else l.stop_bytes;
    }
    else record l { stop_requested = true }

-- After `event_stop`, no call of `event_run` enters the platform's loop again: it returns 0 and
-- changes nothing, whatever the platform would do. The stop pipe is written to once if the loop was
-- running, and not at all by a second `event_stop`.
event_stop-run :
    (run : Loop → ℤ × Loop) (writes : Bool) (l : Loop)
    → (event_run run (event_stop writes l) ≡ (pos 0, event_stop writes l))
      × (event_stop writes (event_stop writes l) ≡ event_stop writes l)
unfolding event_run event_stop
event_stop-run run writes l = ground arith
