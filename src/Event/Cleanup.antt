-- ===== src/Event/Cleanup.antt =====
-- event.c: marking sources as removed, and cleaning them up.
use daemonlib.Base.{
  Bool-cases, ℕ, zero, suc, ◌≤◌, ◌<◌, ◌≡◌, ◌≢◌, refl, take, drop, length-append, length-take,
  length-set, sym, ap, ◌∙◌, Bool, true, false, Option, none, some, [], ◌∷◌, get_elem?, set, length,
  if◌then◌else◌, arith, inl, inr, Option-cases,
}
use daemonlib.Event.{
  EventSourceType, EventSourceState, normal, added, removed, readded, modified, EventSource,
  Sources, is_removed, find_first, array_remove, event_remove_source, cleanup_loop,
  event_cleanup_sources,
}
use daemonlib.Event.Lookup.{
  lookup-key, lookup, IsUnique, update, find_first-none, find_first-matches, lookup-set,
  IsUnique-set, find_last-first, set-found,
}

-- A source as `event_remove_source` leaves it.
abbrev pub mark : EventSource → EventSource
mark s = record s { state = removed }

abbrev pub mark_in :
    Option EventSource → ℕ → EventSourceType → Sources → ℕ → EventSourceType → Option EventSource
mark_in none h t ss k u = lookup k u ss
mark_in (some s) h t ss k u = update h t (mark s) (λ k u. lookup k u ss) k u

removed_state : (st : EventSourceState) → is_removed st ≡ true → st ≡ removed
removed_state removed gone = refl
removed_state normal gone = absurd (ground arith)
removed_state added gone = absurd (ground arith)
removed_state readded gone = absurd (ground arith)
removed_state modified gone = absurd (ground arith)

mark_removed : (s : EventSource) → is_removed s.state ≡ true → mark s ≡ s
mark_removed s gone = ap (λ st. record s { state = st }) (sym (removed_state s.state gone))

marked :
    (gone : Bool) (h : ℕ) (t : EventSourceType) (i : ℕ) (s : EventSource) (ss : Sources)
    → is_removed s.state ≡ gone
    → find_first h t ss ≡ some (i, s)
    → IsUnique ss
    → let ss' : Sources = if gone then ss else set ss i (mark s) in
      ((k : ℕ) (u : EventSourceType)
        → lookup k u ss' ≡ update h t (mark s) (λ k u. lookup k u ss) k u)
      × IsUnique ss'
marked false h t i s ss e found v =
    let m = find_first-matches h t i s ss found in
    (
      λ k u. (lookup-set h k t u i s (mark s) ss found m).1,
      IsUnique-set h t i s (mark s) ss found m v,
    )
marked true h t i s ss e found v =
    let m = find_first-matches h t i s ss found in
    (
      λ k u. rw (mark_removed s e) (
          ap (lookup k u) (sym (set-found h t i s ss found))
          ∙ (lookup-set h k t u i s s ss found m).1),
      v,
    )

-- With unique keys, `event_remove_source` marks the source under the key as removed, if there is one,
-- and changes no other; the keys stay unique.
event_remove_source_lem :
    (h : ℕ) (t : EventSourceType) (ss : Sources)
    → IsUnique ss
    → ((k : ℕ) (u : EventSourceType)
        → lookup k u (event_remove_source h t ss) ≡ mark_in (lookup h t ss) h t ss k u)
      × IsUnique (event_remove_source h t ss)
unfolding event_remove_source
event_remove_source_lem h t ss v = elim (Option-cases (find_first h t ss)) [
  | inl missing ↦
      rw (event_remove_source, find_last-first h t ss v, missing, find_first-none h t ss missing)
        (λ k u. refl, v)
  | inr ((i, s), found) ↦
      let m = find_first-matches h t i s ss found in
      let held = (lookup-set h h t t i s s ss found m).0 in
      rw (event_remove_source, find_last-first h t ss v, found, held)
        (marked (is_removed s.state) h t i s ss refl found v)
]

-- One source at the end of `event_cleanup_sources`.
abbrev pub survive : EventSource → Sources → Sources
survive s ss = if is_removed s.state then ss else record s { state = normal } ∷ ss

-- The sources that `event_cleanup_sources` keeps.
abbrev pub survivors : Sources → Sources
survivors [] = []
survivors (s ∷ ss) = survive s (survivors ss)

in_bounds : (ss : Sources) (i : ℕ) → i < length ss → get_elem? ss i ≢ none
in_bounds [] i lt missing = absurd (omega arith)
in_bounds (x ∷ xs) zero lt missing = absurd (ground arith)
in_bounds (x ∷ xs) (suc i) lt missing = in_bounds xs i (omega arith) missing

-- One round of the loop.
abbrev round : EventSource → ℕ → Sources → Sources
round x i ss =
    if is_removed x.state then array_remove ss i else set ss i (record x { state = normal })

loop-round :
    (i : ℕ) (x : EventSource) (ss : Sources)
    → get_elem? ss i ≡ some x
    → cleanup_loop (suc i) ss ≡ cleanup_loop i (round x i ss)
unfolding cleanup_loop
loop-round i x ss at = rw (cleanup_loop, at) refl

length-round : (i : ℕ) (x : EventSource) (ss : Sources) → i < length ss → i ≤ length (round x i ss)
length-round i x ss lt =
    let e = length-append (take i ss) (drop (suc i) ss) in
    let t = length-take i ss in
    let u = length-set ss i (record x { state = normal }) in ground (arith, e, t, u)

round-cons :
    (i : ℕ) (x s : EventSource) (ss : Sources) → round x (suc i) (s ∷ ss) ≡ s ∷ round x i ss
round-cons i x s ss = ground arith

-- The loop reaches the first source last.
cleanup_loop-suc :
    (i : ℕ) (s : EventSource) (ss : Sources)
    → i ≤ length ss
    → cleanup_loop (suc i) (s ∷ ss) ≡ survive s (cleanup_loop i ss)
cleanup_loop-suc zero s ss le = loop-round 0 s (s ∷ ss) refl ∙ (unfold cleanup_loop in ground arith)
cleanup_loop-suc (suc i) s ss le = elim (Option-cases (get_elem? ss i)) [
  | inl missing ↦ absurd (in_bounds ss i le missing)
  | inr (x, at) ↦
      loop-round (suc i) x (s ∷ ss) at
      ∙ ap (cleanup_loop (suc i)) (round-cons i x s ss)
      ∙ cleanup_loop-suc i s (round x i ss) (length-round i x ss le)
      ∙ ap (survive s) (sym (loop-round i x ss at))
]

-- `event_cleanup_sources`, which walks the array backwards while it removes items from it, drops the
-- sources that are marked as removed and no other, keeps the others' order, and makes their state
-- normal.
event_cleanup_sources-survivors : (ss : Sources) → event_cleanup_sources ss ≡ survivors ss
unfolding event_cleanup_sources
event_cleanup_sources-survivors [] = unfold cleanup_loop in refl
event_cleanup_sources-survivors (s ∷ ss) =
    cleanup_loop-suc (length ss) s ss (omega arith)
    ∙ ap (survive s) (event_cleanup_sources-survivors ss)

-- A source as `event_cleanup_sources` leaves it, if it does.
abbrev pub cleaned : Option EventSource → Option EventSource
cleaned none = none
cleaned (some s) = if is_removed s.state then none else some (record s { state = normal })

survivors-lookup :
    (k : ℕ) (u : EventSourceType) (ss : Sources)
    → IsUnique ss
    → lookup k u (survivors ss) ≡ cleaned (lookup k u ss)
survivors-lookup k u [] v = refl
survivors-lookup k u (s ∷ ss) (once, v) =
    ground (arith, survivors-lookup k u ss v, lookup-key k u s ss)

survivors-IsUnique : (ss : Sources) → IsUnique ss → IsUnique (survivors ss)
survivors-IsUnique [] v = tt
survivors-IsUnique (s ∷ ss) (once, v) =
    let rest = survivors-IsUnique ss v in
    let fresh = survivors-lookup s.handle s.type ss v in
    elim (Bool-cases (is_removed s.state)) [
      | inl gone ↦ rw gone rest
      | inr here ↦ rw here (ground (arith, fresh, once), rest)
    ]

-- With unique keys, `event_cleanup_sources` leaves under each key the source that was there, with its
-- state normal, or nothing if that source was removed, and the keys stay unique.
event_cleanup_sources_lem :
    (ss : Sources)
    → IsUnique ss
    → ((k : ℕ) (u : EventSourceType)
        → lookup k u (event_cleanup_sources ss) ≡ cleaned (lookup k u ss))
      × IsUnique (event_cleanup_sources ss)
event_cleanup_sources_lem ss v =
    rw (event_cleanup_sources-survivors ss)
      (λ k u. survivors-lookup k u ss v, survivors-IsUnique ss v)
