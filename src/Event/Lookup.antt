-- ===== src/Event/Lookup.antt =====
-- event.c: the array of sources as a map from (handle, type) to sources.
use daemonlib.Base.{
  ℕ, zero, suc, ◌≡◌, refl, ap, length, true, ◌&&◌, Option, none, some, [], ◌∷◌, ◌++◌, set, ◌==◌,
  if◌then◌else◌, arith,
}
use daemonlib.Event.{
  EventSourceType, generic, usb, EventSource, Sources, matches, same_type, find_first, find_last,
  array_remove,
}

-- The source under a key.
abbrev pub lookup : ℕ → EventSourceType → Sources → Option EventSource
lookup handle type [] = none
lookup handle type (s ∷ ss) = if matches handle type s then some s else lookup handle type ss

-- No key occurs twice.
abbrev pub IsUnique : Sources → Type 0
IsUnique [] = Unit {0}
IsUnique (s ∷ ss) = (lookup s.handle s.type ss ≡ none) × IsUnique ss

-- The map with another value under one key.
abbrev pub update :
    ℕ
    → EventSourceType
    → EventSource
    → (ℕ → EventSourceType → Option EventSource)
    → ℕ
    → EventSourceType
    → Option EventSource
update handle type s f handle' type' =
    if handle == handle' && same_type type type' then some s else f handle' type'

pub find_first-none :
    (h : ℕ) (t : EventSourceType) (ss : Sources) → find_first h t ss ≡ none → lookup h t ss ≡ none
find_first-none h t [] missing = refl
find_first-none h t (s ∷ ss) missing = ground (arith, find_first-none h t ss)

pub find_first-matches :
    (h : ℕ) (t : EventSourceType) (i : ℕ) (s : EventSource) (ss : Sources)
    → find_first h t ss ≡ some (i, s)
    → matches h t s ≡ true
find_first-matches h t i s [] found = absurd (ground arith)
find_first-matches h t zero s (x ∷ ss) found = ground arith
find_first-matches h t (suc i) s (x ∷ ss) found = ground (arith, find_first-matches h t i s ss)

-- Two sources under one key match the same searches.
matches-same :
    (h k : ℕ) (t u : EventSourceType) (s e : EventSource)
    → matches h t s ≡ true
    → matches h t e ≡ true
    → matches k u s ≡ matches k u e
matches-same h k t u s e p q = ground arith

matches-update :
    (h k : ℕ) (t u : EventSourceType) (s : EventSource)
    → matches h t s ≡ true
    → matches k u s ≡ (h == k && same_type t u)
matches-update h k t u s p = ground arith

-- A source changed under its key is a change of the map.
pub lookup-set :
    (h k : ℕ) (t u : EventSourceType) (i : ℕ) (s e : EventSource) (ss : Sources)
    → find_first h t ss ≡ some (i, s)
    → matches h t e ≡ true
    → (lookup h t ss ≡ some s) × (lookup k u (set ss i e) ≡ update h t e (λ k u. lookup k u ss) k u)
lookup-set h k t u i s e [] found same = absurd (ground arith)
lookup-set h k t u zero s e (x ∷ ss) found same =
    ground (arith, matches-update h k t u e same, matches-update h k t u x)
lookup-set h k t u (suc i) s e (x ∷ ss) found same =
    ground (arith, lookup-set h k t u i s e ss, matches-update h k t u x)

pub lookup-append :
    (h k : ℕ) (t u : EventSourceType) (e : EventSource) (ss : Sources)
    → lookup h t ss ≡ none
    → matches h t e ≡ true
    → lookup k u (ss ++ (e ∷ [])) ≡ update h t e (λ k u. lookup k u ss) k u
lookup-append h k t u e [] new same = ground (arith, matches-update h k t u e same)
lookup-append h k t u e (x ∷ ss) new same = ground (arith, lookup-append h k t u e ss)

pub IsUnique-append :
    (e : EventSource) (ss : Sources)
    → lookup e.handle e.type ss ≡ none
    → IsUnique ss
    → IsUnique (ss ++ (e ∷ []))
IsUnique-append e [] new v = (refl, tt)
IsUnique-append e (x ∷ ss) new (once, v) = (
  ground (arith, lookup-append e.handle x.handle e.type x.type e ss),
  IsUnique-append e ss (ground arith) v,
)

same_type-eq : (a b : EventSourceType) → same_type a b ≡ true → a ≡ b
same_type-eq generic generic p = refl
same_type-eq usb usb p = refl
same_type-eq generic usb p = absurd (ground arith)
same_type-eq usb generic p = absurd (ground arith)

pub lookup-key :
    (h : ℕ) (t : EventSourceType) (e : EventSource) (ss : Sources)
    → matches h t e ≡ true
    → lookup e.handle e.type ss ≡ lookup h t ss
lookup-key h t e ss same = ground (arith, same_type-eq e.type t)

pub IsUnique-set :
    (h : ℕ) (t : EventSourceType) (i : ℕ) (s e : EventSource) (ss : Sources)
    → find_first h t ss ≡ some (i, s)
    → matches h t e ≡ true
    → IsUnique ss
    → IsUnique (set ss i e)
IsUnique-set h t i s e [] found same v = tt
IsUnique-set h t zero s e (x ∷ ss) found same (once, v) =
    (ground (arith, lookup-key h t e ss, lookup-key h t x ss), v)
IsUnique-set h t (suc i) s e (x ∷ ss) found same (once, v) = (
  ground (arith, lookup-set h x.handle t x.type i s e ss, matches-update h x.handle t x.type x),
  IsUnique-set h t i s e ss (ground arith) same v,
)

pub set-found :
    (h : ℕ) (t : EventSourceType) (i : ℕ) (s : EventSource) (ss : Sources)
    → find_first h t ss ≡ some (i, s)
    → set ss i s ≡ ss
set-found h t i s [] found = refl
set-found h t zero s (x ∷ ss) found = ground arith
set-found h t (suc i) s (x ∷ ss) found = ap (λ l. x ∷ l) (set-found h t i s ss (ground arith))

pub array_remove-append :
    (e : EventSource) (ss : Sources) → array_remove (ss ++ (e ∷ [])) (length ss) ≡ ss
array_remove-append e [] = refl
array_remove-append e (x ∷ ss) = ap (λ l. x ∷ l) (array_remove-append e ss)

find_first_missing :
    (h : ℕ) (t : EventSourceType) (ss : Sources) → lookup h t ss ≡ none → find_first h t ss ≡ none
find_first_missing h t [] missing = refl
find_first_missing h t (x ∷ ss) missing = ground (arith, find_first_missing h t ss)

-- Where keys are unique, the last match is the first.
pub find_last-first :
    (h : ℕ) (t : EventSourceType) (ss : Sources)
    → IsUnique ss
    → find_last h t ss ≡ find_first h t ss
find_last-first h t [] v = refl
find_last-first h t (x ∷ ss) (once, v) =
    ground (arith, find_last-first h t ss v, lookup-key h t x ss, find_first_missing h t ss)
