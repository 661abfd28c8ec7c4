-- ===== src/Event/Handle.antt =====
-- event.c: event_handle_source, which calls the functions of one source. A callback may change the
-- sources, so what it does to them is the argument `call`; the source is known by its index.
pub mod Calls
use daemonlib.Base.{
  ℕ, ◌≤◌, ◌≡◌, ◌≢◌, refl, Bool, true, false, not, ◌&&◌, none, some, List, [], ◌∷◌, ◌++◌, get_elem?,
  length, length-append, ◌==◌, if◌then◌else◌, bit_or, arith, if_both, Option-cases, Bool-cases, inl,
  inr,
}
use daemonlib.Event.{
  event_read, event_prio, event_write, event_error, Callback, EventSource, Sources, is_removed,
  is_normal, has_event,
}

abbrev pub has_function : Callback → Bool
has_function cb = not (cb.function == 0)

abbrev pub same_callback : Callback → Callback → Bool
same_callback a b = a.function == b.function && a.opaque == b.opaque

-- Whether the function has returned, the sources, and the callbacks called so far.
pub record Delivery : Type 0 where
  pub returned : Bool
  pub sources : Sources
  pub calls : List Callback

abbrev pub fire : (Callback → Sources → Sources) → Callback → Delivery → Delivery
fire call cb d = record {
  returned = false;
  sources = call cb d.sources;
  calls = d.calls ++ (cb ∷ []);
}

-- The blocks for write, prio and error events; a source that a callback removed gets no more of them.
abbrev pub deliver :
    (Callback → Sources → Sources) → ℕ → Bool → (EventSource → Callback) → Delivery → Delivery
deliver call i received select d = elim (get_elem? d.sources i) [
  | none ↦ d
  | some s ↦
      if d.returned
      then d
      else (if received && has_function (select s)
          then (if is_removed s.state then record d { returned = true } else fire call (select s) d)
          else d)
]

pub event_handle_source : (Callback → Sources → Sources) → ℕ → ℕ → Sources → Delivery
event_handle_source call i received ss =
    let start : Delivery = record { returned = false; sources = ss; calls = [] } in
    elim (get_elem? ss i) [
      | none ↦ start
      | some s ↦
          if not (is_normal s.state)
          then start
          else (if has_function s.prio && same_callback s.prio s.error
              then (if has_event received (bit_or event_prio event_error)
                  then fire call s.prio start
                  else start)
              else (if has_function s.read && same_callback s.read s.write
                  then (if has_event received (bit_or event_read event_write)
                      then fire call s.read start
                      else start)
                  else deliver call i (has_event received event_error) (λ s. s.error)
                      (deliver call i (has_event received event_prio) (λ s. s.prio)
                        (deliver call i (has_event received event_write) (λ s. s.write)
                          (if has_event received event_read && has_function s.read
                            then fire call s.read start
                            else start)))))
    ]

-- The source is marked as removed, or no longer there.
abbrev pub IsGone : ℕ → Sources → Type 0
IsGone i ss = (s : EventSource) → get_elem? ss i ≡ some s → is_removed s.state ≡ true

-- At most one call was made, and if one was made the source is gone.
AtMostOne : ℕ → Delivery → Type 0
AtMostOne i d = (length d.calls ≤ 1) × (length d.calls ≢ 0 → IsGone i d.sources)

fire-AtMostOne :
    (call : Callback → Sources → Sources) (i : ℕ) (cb : Callback) (d : Delivery)
    → ((cb : Callback) (ss : Sources) → IsGone i (call cb ss))
    → length d.calls ≡ 0
    → AtMostOne i (fire call cb d)
unfolding AtMostOne
fire-AtMostOne call i cb d removes none_yet =
    (omega (arith, length-append d.calls (cb ∷ [])), λ some_calls. removes cb d.sources)

-- While the source is there, no call was made.
none_yet :
    (i : ℕ) (d : Delivery) (s : EventSource)
    → AtMostOne i d
    → get_elem? d.sources i ≡ some s
    → is_removed s.state ≡ false
    → length d.calls ≡ 0
unfolding AtMostOne
none_yet i d s (le, gone) at here = elim (Bool-cases (length d.calls == 0)) [
  | inl e ↦ ground (arith, e)
  | inr ne ↦ absurd (ground (arith, gone (ground (arith, ne)) s at))
]

deliver-AtMostOne :
    (call : Callback → Sources → Sources) (i : ℕ) (received : Bool)
    (select : EventSource → Callback) (d : Delivery)
    → ((cb : Callback) (ss : Sources) → IsGone i (call cb ss))
    → AtMostOne i d
    → AtMostOne i (deliver call i received select d)
unfolding AtMostOne
deliver-AtMostOne call i received select d removes one =
    elim (Option-cases (get_elem? d.sources i)) [
      | inl missing ↦ rw (deliver, missing) one
      | inr (s, at) ↦
          rw (deliver, at)
            (if_both (AtMostOne i) d.returned one (
              if_both (AtMostOne i) (received && has_function (select s))
                (elim (Bool-cases (is_removed s.state)) [
                  | inl gone ↦ rw gone one
                  | inr here ↦
                      rw here
                        (fire-AtMostOne call i (select s) d removes (none_yet i d s one at here))
                ])
                one))
    ]

idle-AtMostOne :
    (i : ℕ) (ss : Sources) → AtMostOne i (record { returned = false; sources = ss; calls = [] })
unfolding AtMostOne
idle-AtMostOne i ss = (omega arith, λ some_calls. absurd (some_calls refl))

AtMostOne-calls : (i : ℕ) (d : Delivery) → AtMostOne i d → length d.calls ≤ 1
unfolding AtMostOne
AtMostOne-calls i d one = one.0

handled-AtMostOne :
    (call : Callback → Sources → Sources) (i received : ℕ) (ss : Sources)
    → ((cb : Callback) (ss : Sources) → IsGone i (call cb ss))
    → AtMostOne i (event_handle_source call i received ss)
unfolding event_handle_source
handled-AtMostOne call i received ss removes =
    let start : Delivery = record { returned = false; sources = ss; calls = [] } in
    let idle : AtMostOne i start = idle-AtMostOne i ss in
    let both : (b : Bool) (cb : Callback) → AtMostOne i (if b then fire call cb start else start) =
      λ b cb. if_both (AtMostOne i) b (fire-AtMostOne call i cb start removes refl) idle in
    elim (Option-cases (get_elem? ss i)) [
      | inl missing ↦ rw (event_handle_source, missing) idle
      | inr (s, at) ↦
          rw (event_handle_source, at)
            (if_both (AtMostOne i) (not (is_normal s.state)) idle (
              if_both (AtMostOne i) (has_function s.prio && same_callback s.prio s.error)
                (both _ s.prio)
                (if_both (AtMostOne i) (has_function s.read && same_callback s.read s.write)
                  (both _ s.read)
                  (deliver-AtMostOne call i (has_event received event_error) (λ s. s.error) _
                    removes
                    (deliver-AtMostOne call i (has_event received event_prio) (λ s. s.prio) _
                      removes
                      (deliver-AtMostOne call i (has_event received event_write) (λ s. s.write) _
                        removes (both _ s.read)))))))
    ]

-- If every callback ends with the source removed, as `event_remove_source` leaves it, then
-- `event_handle_source` calls at most one of its functions, whatever events came in.
pub event_handle_source-AtMostOne :
    (call : Callback → Sources → Sources) (i received : ℕ) (ss : Sources)
    → ((cb : Callback) (ss : Sources) → IsGone i (call cb ss))
    → length (event_handle_source call i received ss).calls ≤ 1
event_handle_source-AtMostOne call i received ss removes =
    AtMostOne-calls i _ (handled-AtMostOne call i received ss removes)
