-- ===== src/Event/Handle/Calls.antt =====
-- event.c: what event_handle_source does to the sources is what the callbacks do.
use daemonlib.Base.{
  ℕ, refl, Bool, true, false, not, ◌&&◌, [], get_elem?, if◌then◌else◌, bit_or, Option-cases,
  Bool-cases, inl, inr,
}
use daemonlib.Event.{
  event_read, event_prio, event_write, event_error, Callback, EventSource, Sources, is_removed,
  is_normal, has_event,
}
use daemonlib.Event.Handle.{
  has_function, same_callback, Delivery, fire, deliver, event_handle_source,
}
use daemonlib.Event.Keeps.{Keeps, Keeps-same, Keeps-trans}

module _ (call : Callback → Sources → Sources)
    (keeps : (cb : Callback) (ss : Sources) → Keeps ss (call cb ss)) where
  Kept : Sources → Delivery → Type 0
  Kept ss d = Keeps ss d.sources

  fire-Kept :
      (ss : Sources) (cb : Callback) (d : Delivery)
      → Keeps ss d.sources
      → Keeps ss (fire call cb d).sources
  fire-Kept ss cb d kept = Keeps-trans ss d.sources (call cb d.sources) kept (keeps cb d.sources)

  deliver-Kept :
      (ss : Sources) (i : ℕ) (received : Bool) (select : EventSource → Callback) (d : Delivery)
      → Keeps ss d.sources
      → Keeps ss (deliver call i received select d).sources
  deliver-Kept ss i received select d kept = elim (Option-cases (get_elem? d.sources i)) [
    | inl absent ↦ rw (deliver, absent) kept
    | inr (s, there) ↦ elim (Bool-cases d.returned) [
      | inl done ↦ rw (deliver, there, done) kept
      | inr active ↦ elim (Bool-cases (received && has_function (select s))) [
        | inr nothing ↦ rw (deliver, there, active, nothing) kept
        | inl given ↦ elim (Bool-cases (is_removed s.state)) [
          | inl gone ↦ rw (deliver, there, active, given, gone) kept
          | inr present ↦
              rw (deliver, there, active, given, present) (fire-Kept ss (select s) d kept)
        ]
      ]
    ]
  ]

  fire_if-Kept :
      (b : Bool) (ss : Sources) (cb : Callback) (d : Delivery)
      → Keeps ss d.sources
      → Keeps ss (if b then fire call cb d else d).sources
  fire_if-Kept true ss cb d kept = fire-Kept ss cb d kept
  fire_if-Kept false ss cb d kept = kept

  pub event_handle_source-Keeps :
      (i received : ℕ) (ss : Sources) → Keeps ss (event_handle_source call i received ss).sources
  unfolding event_handle_source
  event_handle_source-Keeps i received ss =
      let start : Delivery = record { returned = false; sources = ss; calls = [] } in
      let same = Keeps-same ss ss refl in
      elim (Option-cases (get_elem? ss i)) [
        | inl absent ↦ rw (event_handle_source, absent) same
        | inr (s, there) ↦ elim (Bool-cases (not (is_normal s.state))) [
          | inl waits ↦ rw (event_handle_source, there, waits) same
          | inr normal ↦ elim (Bool-cases (has_function s.prio && same_callback s.prio s.error)) [
            | inl prio_too ↦
                rw (event_handle_source, there, normal, prio_too)
                  (fire_if-Kept (has_event received (bit_or event_prio event_error)) ss s.prio start
                    same)
            | inr prio_other ↦
                elim (Bool-cases (has_function s.read && same_callback s.read s.write)) [
                  | inl read_too ↦
                      rw (event_handle_source, there, normal, prio_other, read_too)
                        (fire_if-Kept (has_event received (bit_or event_read event_write)) ss s.read
                          start same)
                  | inr read_other ↦
                      rw (event_handle_source, there, normal, prio_other, read_other)
                        (deliver-Kept ss i (has_event received event_error) (λ s. s.error) _
                          (deliver-Kept ss i (has_event received event_prio) (λ s. s.prio) _
                            (deliver-Kept ss i (has_event received event_write) (λ s. s.write) _
                              (fire_if-Kept (has_event received event_read && has_function s.read)
                                ss s.read start same))))
                ]
          ]
        ]
      ]
