-- ===== src/Event/Sources.antt =====
-- event.c: what the functions on event sources do to the map from (handle, type) to sources.
use daemonlib.Base.{
  ℕ, ◌≡◌, refl, Bool, true, false, not, ◌&&◌, Option, none, some, [], ◌∷◌, ◌++◌, set, if◌then◌else◌,
  arith, inl, inr, Option-cases,
}
use daemonlib.Event.{
  EventSourceType, generic, usb, EventSource, Callback, Sources, matches, is_removed, find_first,
  readd, new_source, modify, event_add_source, event_modify_source,
}
use daemonlib.Event.Lookup.{
  lookup, IsUnique, update, find_first-none, find_first-matches, lookup-set, lookup-append,
  IsUnique-append, IsUnique-set, set-found, array_remove-append,
}

-- A call that succeeds puts `s` under the key, one that fails changes nothing.
abbrev pub Puts : Bool → ℕ → EventSourceType → EventSource → Sources → Sources → Type 0
Puts ok h t s ss ss' =
    (k : ℕ) (u : EventSourceType)
    → lookup k u ss' ≡ (if ok then update h t s (λ k u. lookup k u ss) k u else lookup k u ss)

-- May a source be added over this one?
abbrev pub addable : Bool → Option EventSource → Bool
addable appended none = appended
addable appended (some s) = is_removed s.state

-- The source that is added.
abbrev pub added_source : Option EventSource → ℕ → EventSourceType → ℕ → ℕ → Callback → EventSource
added_source none h t name events cb = new_source h t name events cb
added_source (some s) h t name events cb = readd s name events cb

matches_new :
    (h : ℕ) (t : EventSourceType) (name events : ℕ) (cb : Callback)
    → matches h t (new_source h t name events cb) ≡ true
matches_new h generic name events cb = ground arith
matches_new h usb name events cb = ground arith

added-new :
    (appended accepted : Bool) (h : ℕ) (t : EventSourceType) (e : EventSource) (ss : Sources)
    → Puts true h t e ss (ss ++ (e ∷ []))
    → IsUnique (ss ++ (e ∷ []))
    → IsUnique ss
    → let r : Bool × Sources =
        if not appended
        then (false, ss)
        else (if accepted then (true, ss ++ (e ∷ [])) else (false, ss)) in
      (r.0 ≡ (accepted && appended)) × Puts r.0 h t e ss r.1 × IsUnique r.1
added-new true true h t e ss put v' v = (refl, put, v')
added-new true false h t e ss put v' v = (refl, λ k u. refl, v)
added-new false true h t e ss put v' v = (refl, λ k u. refl, v)
added-new false false h t e ss put v' v = (refl, λ k u. refl, v)

added-again :
    (gone accepted : Bool) (h : ℕ) (t : EventSourceType) (e : EventSource) (ss ss' : Sources)
    → Puts true h t e ss ss'
    → IsUnique ss'
    → IsUnique ss
    → let r : Bool × Sources =
        if gone then (if accepted then (true, ss') else (false, ss)) else (false, ss) in
      (r.0 ≡ (accepted && gone)) × Puts r.0 h t e ss r.1 × IsUnique r.1
added-again true true h t e ss ss' put v' v = (refl, put, v')
added-again true false h t e ss ss' put v' v = (refl, λ k u. refl, v)
added-again false true h t e ss ss' put v' v = (refl, λ k u. refl, v)
added-again false false h t e ss ss' put v' v = (refl, λ k u. refl, v)

-- With unique keys, `event_add_source` succeeds exactly when the platform accepts the source and its
-- key is either taken by a removed source, or free and the array can grow. It then puts the new or
-- re-added source under the key and touches no other key; when it fails no key changes. The keys stay
-- unique.
pub event_add_source_lem :
    (appended accepted : Bool) (h : ℕ) (t : EventSourceType) (name events : ℕ) (cb : Callback)
    (ss : Sources)
    → IsUnique ss
    → let old = lookup h t ss in
      let (ok, ss') = event_add_source appended accepted h t name events cb ss in
      (ok ≡ (accepted && addable appended old))
      × Puts ok h t (added_source old h t name events cb) ss ss'
      × IsUnique ss'
unfolding event_add_source
event_add_source_lem appended accepted h t name events cb ss v =
    elim (Option-cases (find_first h t ss)) [
      | inl missing ↦
          let e = new_source h t name events cb in
          let free = find_first-none h t ss missing in
          let m = matches_new h t name events cb in
          let put : Puts true h t e ss (ss ++ (e ∷ [])) =
            λ k u. lookup-append h k t u e ss free m in
          rw (event_add_source, missing, free, array_remove-append e ss)
            (added-new appended accepted h t e ss put (IsUnique-append e ss free v) v)
      | inr ((i, s), found) ↦
          let e = readd s name events cb in
          let m = find_first-matches h t i s ss found in
          let held = (lookup-set h h t t i s e ss found m).0 in
          let put : Puts true h t e ss (set ss i e) =
            λ k u. (lookup-set h k t u i s e ss found m).1 in
          rw (event_add_source, found, held, set-found h t i s ss found)
            (added-again (is_removed s.state) accepted h t e ss (set ss i e) put
              (IsUnique-set h t i s e ss found m v) v)
    ]

-- The source that `event_modify_source` leaves.
abbrev pub modified_source : Option EventSource → EventSource → ℕ → ℕ → Callback → EventSource
modified_source none d to_remove to_add cb = d
modified_source (some s) d to_remove to_add cb = modify s to_remove to_add cb

-- May the source be modified?
abbrev pub modifiable : Option EventSource → Bool
modifiable none = false
modifiable (some s) = not (is_removed s.state)

modified-again :
    (gone accepted : Bool) (h : ℕ) (t : EventSourceType) (e : EventSource) (ss ss' : Sources)
    → Puts true h t e ss ss'
    → IsUnique ss'
    → IsUnique ss
    → let r : Bool × Sources =
        if gone then (false, ss) else (if accepted then (true, ss') else (false, ss)) in
      (r.0 ≡ (accepted && not gone)) × Puts r.0 h t e ss r.1 × IsUnique r.1
modified-again true true h t e ss ss' put v' v = (refl, λ k u. refl, v)
modified-again true false h t e ss ss' put v' v = (refl, λ k u. refl, v)
modified-again false true h t e ss ss' put v' v = (refl, put, v')
modified-again false false h t e ss ss' put v' v = (refl, λ k u. refl, v)

-- With unique keys, `event_modify_source` succeeds exactly when the key is taken by a source that is
-- not removed and the platform accepts the change. It then changes the events and functions of this
-- source and of no other; when it fails no source changes. The keys stay unique.
event_modify_source_lem :
    (accepted : Bool) (h : ℕ) (t : EventSourceType) (to_remove to_add : ℕ) (cb : Callback)
    (d : EventSource) (ss : Sources)
    → IsUnique ss
    → let old = lookup h t ss in
      let (ok, ss') = event_modify_source accepted h t to_remove to_add cb ss in
      (ok ≡ (accepted && modifiable old))
      × Puts ok h t (modified_source old d to_remove to_add cb) ss ss'
      × IsUnique ss'
unfolding event_modify_source
event_modify_source_lem accepted h t to_remove to_add cb d ss v =
    elim (Option-cases (find_first h t ss)) [
      | inl missing ↦
          rw (event_modify_source, missing, find_first-none h t ss missing)
            (ground arith, λ k u. refl, v)
      | inr ((i, s), found) ↦
          let e = modify s to_remove to_add cb in
          let m = find_first-matches h t i s ss found in
          let held = (lookup-set h h t t i s e ss found m).0 in
          let put : Puts true h t e ss (set ss i e) =
            λ k u. (lookup-set h k t u i s e ss found m).1 in
          rw (event_modify_source, found, held, set-found h t i s ss found)
            (modified-again (is_removed s.state) accepted h t e ss (set ss i e) put
              (IsUnique-set h t i s e ss found m v) v)
    ]
