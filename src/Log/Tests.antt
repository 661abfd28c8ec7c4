-- ===== src/Log/Tests.antt =====
-- log.c: a message, a debug filter and a source, and the theorems at them.
use daemonlib.Base.{
  ℕ, zero, suc, ◌+◌, ◌≡◌, refl, bit_or, true, false, none, some, List, [], ◌∷◌, ◌++◌, map,
  replicate, inl, inr, if◌then◌else◌, arith,
}
use daemonlib.Base.Int.{pos, negsuc}
use daemonlib.ConfFile.{same_name}
use daemonlib.Log.Forward.{Message, log_message, log_forward}
use daemonlib.Log.Forward.Framing.{IsMessage, AreMessages, frames, forward_all}
use daemonlib.Log.Forward.Delivery.{ArePositive, log_forward_lem}
use daemonlib.Log.Filter.{all_groups, DebugFilters, log_set_debug_filter}
use daemonlib.Log.Filter.Bounds.{AreFilters}
use daemonlib.Log.Filter.RoundTrip.{
  IsName, FilterText, print, meaning, AreTexts, log_set_debug_filter-print,
}
use daemonlib.Log.Inclusion.{LogSource, source_name, level_debug, log_check_inclusion}
use daemonlib.Log.Inclusion.Check.{decision, IsUpdated, log_check_inclusion_lem}
use daemonlib.Log.Output.{Output, Answers, forward_messages}
use daemonlib.Log.Output.Rotation.{Paced, forward_messages-Paced}

-- An entry of two bytes, and a text.
abbrev hi : Message
hi = (7 ∷ 0 ∷ [], 104 ∷ 105 ∷ [])

abbrev keep : Message → List Message → List Message
keep m ms = ms ++ (m ∷ [])

hi-AreMessages : AreMessages 2 (hi ∷ hi ∷ [])
hi-AreMessages =
    let is : IsMessage 2 hi =
      (refl, ((λ e. absurd (omega arith)), ((λ e. absurd (omega arith)), tt)), omega arith) in
    (is, (is, tt))

ones-ArePositive : (k : ℕ) → ArePositive (replicate k 1)
ones-ArePositive zero = tt
ones-ArePositive (suc k) = (omega arith, ones-ArePositive k)

-- Chunks of three bytes, then of one.
abbrev requests : List ℕ
requests = 3 ∷ 3 ∷ replicate 8 1

log_forward_lem_example :
    log_forward keep 2 requests (frames (hi ∷ hi ∷ [])) [] []
    ≡ ([], [], forward_all keep (hi ∷ hi ∷ []) [])
unfolding log_message
log_forward_lem_example =
    log_forward_lem keep 2 (omega arith) requests (hi ∷ hi ∷ []) []
      (omega arith, (omega arith, ones-ArePositive 8)) hi-AreMessages (omega arith)

-- `+x:12,-event`
abbrev texts : List FilterText
texts =
    record { included = true; name = 120 ∷ []; digits = 1 ∷ 2 ∷ [] }
    ∷ record { included = false; name = 101 ∷ 118 ∷ 101 ∷ 110 ∷ 116 ∷ []; digits = [] }
    ∷ []

abbrev no_filters : DebugFilters
no_filters = record { version = 0; filters = [] }

texts-AreTexts : AreTexts texts
texts-AreTexts =
    let x : IsName (120 ∷ []) = ((λ e. absurd (omega arith)), (λ e. absurd (omega arith)), tt) in
    let event : IsName (101 ∷ 118 ∷ 101 ∷ 110 ∷ 116 ∷ []) = (
      (λ e. absurd (omega arith)),
      (λ e. absurd (omega arith)),
      (
        (λ e. absurd (omega arith)),
        (λ e. absurd (omega arith)),
        (
          (λ e. absurd (omega arith)),
          (λ e. absurd (omega arith)),
          (
            (λ e. absurd (omega arith)),
            (λ e. absurd (omega arith)),
            ((λ e. absurd (omega arith)), (λ e. absurd (omega arith)), tt),
          ),
        ),
      ),
    ) in
    (
      (
        x,
        omega arith,
        omega arith,
        (omega arith, omega arith, (omega arith, omega arith, tt)),
        inr (omega arith),
      ),
      ((event, omega arith, omega arith, tt, inl refl), tt),
    )

log_set_debug_filter-print_example :
    log_set_debug_filter (print texts) no_filters
    ≡ (true, record { version = 0 + 1; filters = map meaning texts })
log_set_debug_filter-print_example =
    log_set_debug_filter-print texts no_filters texts-AreTexts (omega arith)

-- Line 12 of the source `x` and no message for events.
abbrev two_filters : DebugFilters
two_filters = record {
  version = 1;
  filters =
      record { included = true; source_name = 120 ∷ []; line = some 12; groups = 0 }
      ∷ record { included = false; source_name = []; line = none; groups = 2 }
      ∷ [];
}

two_filters-AreFilters : AreFilters two_filters.filters
two_filters-AreFilters = (
  (omega arith, (omega arith, omega arith), omega arith, inl (refl, omega arith)),
  ((omega arith, tt, omega arith, inr (omega arith, refl, refl)), tt),
)

-- `a/x`
abbrev source_x : LogSource
source_x = record {
  file = 97 ∷ 47 ∷ 120 ∷ [];
  name = none;
  debug_filter_version = negsuc 0;
  included_debug_groups = all_groups;
  lines = [];
}

log_check_inclusion_lem_example :
    let (included, source') =
      log_check_inclusion 0 true (pos 0) two_filters level_debug source_x 2 (pos 12) in
    (included
      ≡ (if decision (source_name source_x) 2 (pos 12) two_filters.filters then bit_or 0 1 else 0))
    × IsUpdated two_filters (source_name source_x) source'
    × (source'.debug_filter_version ≡ pos 1)
unfolding same_name
log_check_inclusion_lem_example =
    log_check_inclusion_lem 0 true (pos 0) two_filters source_x 2 (pos 12) (1, omega arith, refl)
      two_filters-AreFilters (omega arith) refl refl

abbrev rotated : Output
rotated = record {
  output = some 1;
  output_size = pos 6000000;
  rotate = true;
  countdown = 0;
  shown = [];
  rotations = 0;
}

abbrev answers : Answers
answers = record {
  written = pos 20;
  rotate_fails = false;
  status = some (pos 0);
  rotate_message = none;
  rotate_written = pos 0;
}

forward_messages-Paced_example : Paced (0 + 1) (forward_messages ((answers, 1, hi) ∷ []) rotated)
forward_messages-Paced_example =
    forward_messages-Paced ((answers, 1, hi) ∷ []) rotated 0 (omega arith, omega arith)
