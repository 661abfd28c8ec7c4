-- ===== src/Event/Keeps.antt =====
-- event.c: while sources are handled the sources in front stay where they are: a source is only marked
-- as removed, and new ones go to the end.
use daemonlib.Base.{
  ℕ, zero, suc, ◌≡◌, refl, sym, ap, ◌∙◌, Bool, some, List, [], ◌∷◌, ◌++◌, append_assoc, append-nil,
  map, get_elem?, set, Bool-cases, Option-cases, inl, inr, arith,
}
use daemonlib.Event.{
  EventSourceType, Callback, EventSource, Sources, find_first, find_last, is_removed, readd,
  new_source, modify, event_add_source, event_modify_source, event_remove_source, removed,
}
use daemonlib.Event.Lookup.{array_remove-append}

abbrev pub handles : Sources → List ℕ
handles ss = map (λ s. s.handle) ss

-- The same handles, and others behind them.
pub record Keeps (ss ss' : Sources) : Type 0 where
  pub extra : List ℕ
  pub grown : handles ss' ≡ handles ss ++ extra

pub Keeps-same : (ss ss' : Sources) → handles ss' ≡ handles ss → Keeps ss ss'
Keeps-same ss ss' e = record { extra = []; grown = e ∙ sym (append-nil (handles ss)) }

pub Keeps-trans : (a b c : Sources) → Keeps a b → Keeps b c → Keeps a c
Keeps-trans a b c k l = record {
  extra = k.extra ++ l.extra;
  grown = l.grown ∙ ap (λ h. h ++ l.extra) k.grown ∙ append_assoc (handles a) k.extra l.extra;
}

set-handles :
    (i : ℕ) (s e : EventSource) (ss : Sources)
    → get_elem? ss i ≡ some s
    → e.handle ≡ s.handle
    → handles (set ss i e) ≡ handles ss
set-handles i s e [] found same = refl
set-handles zero s e (x ∷ ss) found same = ground (arith, found, same)
set-handles (suc i) s e (x ∷ ss) found same =
    ap (λ l. x.handle ∷ l) (set-handles i s e ss found same)

find_first-at :
    (h : ℕ) (t : EventSourceType) (i : ℕ) (s : EventSource) (ss : Sources)
    → find_first h t ss ≡ some (i, s)
    → get_elem? ss i ≡ some s
find_first-at h t i s [] found = absurd (ground arith)
find_first-at h t zero s (x ∷ ss) found = ground (arith, found)
find_first-at h t (suc i) s (x ∷ ss) found = ground (arith, found, find_first-at h t i s ss)

find_last-at :
    (h : ℕ) (t : EventSourceType) (i : ℕ) (s : EventSource) (ss : Sources)
    → find_last h t ss ≡ some (i, s)
    → get_elem? ss i ≡ some s
find_last-at h t i s [] found = absurd (ground arith)
find_last-at h t zero s (x ∷ ss) found = ground (arith, found)
find_last-at h t (suc i) s (x ∷ ss) found = ground (arith, found, find_last-at h t i s ss)

set-Keeps :
    (i : ℕ) (s e : EventSource) (ss : Sources)
    → get_elem? ss i ≡ some s
    → e.handle ≡ s.handle
    → Keeps ss (set ss i e)
set-Keeps i s e ss found same = Keeps-same ss (set ss i e) (set-handles i s e ss found same)

handles-append :
    (ss : Sources) (e : EventSource) → handles (ss ++ (e ∷ [])) ≡ handles ss ++ (e.handle ∷ [])
handles-append [] e = refl
handles-append (x ∷ ss) e = ap (λ l. x.handle ∷ l) (handles-append ss e)

append-Keeps : (ss : Sources) (e : EventSource) → Keeps ss (ss ++ (e ∷ []))
append-Keeps ss e = record { extra = e.handle ∷ []; grown = handles-append ss e }

pub event_add_source-Keeps :
    (appended accepted : Bool) (h : ℕ) (t : EventSourceType) (name events : ℕ) (cb : Callback)
    (ss : Sources)
    → Keeps ss (event_add_source appended accepted h t name events cb ss).1
unfolding event_add_source
event_add_source-Keeps appended accepted h t name events cb ss =
    elim (Option-cases (find_first h t ss)) [
      | inr ((i, s), found) ↦ elim (Bool-cases (is_removed s.state)) [
        | inr there ↦ rw (event_add_source, found, there) (Keeps-same ss ss refl)
        | inl gone ↦ elim (Bool-cases accepted) [
          | inl taken ↦
              rw (event_add_source, found, gone, taken)
                (set-Keeps i s (readd s name events cb) ss (find_first-at h t i s ss found) refl)
          | inr refused ↦
              rw (event_add_source, found, gone, refused)
                (set-Keeps i s s ss (find_first-at h t i s ss found) refl)
        ]
      ]
      | inl missing ↦ elim (Bool-cases appended) [
        | inr full ↦ rw (event_add_source, missing, full) (Keeps-same ss ss refl)
        | inl room ↦ elim (Bool-cases accepted) [
          | inl taken ↦
              rw (event_add_source, missing, room, taken)
                (append-Keeps ss (new_source h t name events cb))
          | inr refused ↦
              rw (event_add_source, missing, room, refused)
                (Keeps-same ss _
                  (ap handles (array_remove-append (new_source h t name events cb) ss)))
        ]
      ]
    ]

pub event_modify_source-Keeps :
    (accepted : Bool) (h : ℕ) (t : EventSourceType) (to_remove to_add : ℕ) (cb : Callback)
    (ss : Sources)
    → Keeps ss (event_modify_source accepted h t to_remove to_add cb ss).1
unfolding event_modify_source
event_modify_source-Keeps accepted h t to_remove to_add cb ss =
    elim (Option-cases (find_first h t ss)) [
      | inl missing ↦ rw (event_modify_source, missing) (Keeps-same ss ss refl)
      | inr ((i, s), found) ↦ elim (Bool-cases (is_removed s.state)) [
        | inl gone ↦ rw (event_modify_source, found, gone) (Keeps-same ss ss refl)
        | inr there ↦ elim (Bool-cases accepted) [
          | inl taken ↦
              rw (event_modify_source, found, there, taken)
                (set-Keeps i s (modify s to_remove to_add cb) ss (find_first-at h t i s ss found)
                  refl)
          | inr refused ↦
              rw (event_modify_source, found, there, refused)
                (set-Keeps i s s ss (find_first-at h t i s ss found) refl)
        ]
      ]
    ]

pub event_remove_source-Keeps :
    (h : ℕ) (t : EventSourceType) (ss : Sources) → Keeps ss (event_remove_source h t ss)
unfolding event_remove_source
event_remove_source-Keeps h t ss = elim (Option-cases (find_last h t ss)) [
  | inl missing ↦ rw (event_remove_source, missing) (Keeps-same ss ss refl)
  | inr ((i, s), found) ↦ elim (Bool-cases (is_removed s.state)) [
    | inl gone ↦ rw (event_remove_source, found, gone) (Keeps-same ss ss refl)
    | inr there ↦
        rw (event_remove_source, found, there)
          (set-Keeps i s (record s { state = removed }) ss (find_last-at h t i s ss found) refl)
  ]
]
