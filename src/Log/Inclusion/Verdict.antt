-- ===== src/Log/Inclusion/Verdict.antt =====
-- log.c: what the groups of a source and its lines say after an update.
use daemonlib.Base.{
  ℕ, suc, ◌+◌, ◌≤◌, ◌<◌, ◌≡◌, refl, ap, ◌∙◌, inl, inr, Bool, true, false, Option, none, some, List,
  [], ◌∷◌, map, length, leb, ◌==◌, if◌then◌else◌, if_both, Bool-cases, Option-cases, arith,
}
use daemonlib.ConfFile.{same_name}
use daemonlib.Log.Filter.{LogDebugFilter}
use daemonlib.Log.Inclusion.{
  LogSourceLine, max_source_lines, mask, all_or_none, put_line, mask_line, Groups, line_groups,
  includes,
}
use daemonlib.Log.Inclusion.Masks.{IsGroup, mask_bound, includes-mask, includes-all_or_none}

-- The last filter that speaks of the source and the group decides, and by default they are included.
-- A filter speaks of them if it has the name of the source and no line, or another name and the group.
abbrev pub verdict : List ℕ → ℕ → List LogDebugFilter → Bool → Bool
verdict name g [] b = b
verdict name g (f ∷ fs) b = verdict name g fs (
    if same_name f.source_name name
    then elim f.line [ none ↦ f.included | some l ↦ b ]
    else (if includes f.groups g then f.included else b))

-- Of a line the filters for it decide, and behind the first of them those for the group too.
abbrev pub line_verdict : List ℕ → ℕ → ℕ → List LogDebugFilter → Option Bool → Option Bool
line_verdict name g n [] o = o
line_verdict name g n (f ∷ fs) o = line_verdict name g n fs (
    if same_name f.source_name name
    then elim f.line [ none ↦ o | some l ↦ if l == n then some f.included else o ]
    else elim o [ none ↦ none | some b ↦ some (if includes f.groups g then f.included else b) ])

-- How many filters may add a line.
abbrev pub line_filters : List ℕ → List LogDebugFilter → ℕ
line_filters name [] = 0
line_filters name (f ∷ fs) =
    (if same_name f.source_name name then elim f.line [ none ↦ 0 | some l ↦ 1 ] else 0)
    + line_filters name fs

abbrev pub LinesBound : List LogSourceLine → Type 0
LinesBound [] = Unit {0}
LinesBound (l ∷ ls) = (l.included_debug_groups < 32) × LinesBound ls

abbrev pub said : ℕ → Option ℕ → Option Bool
said g none = none
said g (some x) = some (includes x g)

-- Whether a line includes a group, if it is there.
abbrev pub line_includes : ℕ → ℕ → List LogSourceLine → Option Bool
line_includes g n ls = said g (line_groups n ls)

put_line-bound :
    (n x used : ℕ) (ls : List LogSourceLine)
    → x < 32
    → LinesBound ls
    → LinesBound (put_line n x used ls)
unfolding put_line
put_line-bound n x used [] few bound =
    if_both LinesBound (leb max_source_lines used) {x = []}
      {y = record { number = n; included_debug_groups = x } ∷ []} tt (few, tt)
put_line-bound n x used (l ∷ ls) few (b, bound) =
    if_both LinesBound (l.number == n)
      {x = record { number = l.number; included_debug_groups = x } ∷ ls}
      {y = l ∷ put_line n x used ls} (few, bound) (b, put_line-bound n x used ls few bound)

pub length-put_line :
    (n x used : ℕ) (ls : List LogSourceLine) → length (put_line n x used ls) ≤ length ls + 1
unfolding put_line
length-put_line n x used [] = ground arith
length-put_line n x used (l ∷ ls) = ground (arith, length-put_line n x used ls)

line_groups-put_line :
    (n k x used : ℕ) (ls : List LogSourceLine)
    → used < max_source_lines
    → line_groups n (put_line k x used ls) ≡ (if k == n then some x else line_groups n ls)
unfolding line_groups put_line
line_groups-put_line n k x used [] room = ground (arith, room)
line_groups-put_line n k x used (l ∷ ls) room =
    ground (arith, line_groups-put_line n k x used ls room)

pub length-map :
    (f : LogSourceLine → LogSourceLine) (ls : List LogSourceLine) → length (map f ls) ≡ length ls
length-map f [] = refl
length-map f (l ∷ ls) = ap suc (length-map f ls)

map-bound :
    (b : Bool) (m : ℕ) (ls : List LogSourceLine)
    → m < 32
    → LinesBound ls
    → LinesBound (map (mask_line b m) ls)
map-bound b m [] small bound = tt
map-bound b m (l ∷ ls) small (few, bound) =
    (mask_bound b m l.included_debug_groups small few, map-bound b m ls small bound)

line_groups-map :
    (b : Bool) (m n : ℕ) (ls : List LogSourceLine)
    → line_groups n (map (mask_line b m) ls)
      ≡ elim (line_groups n ls) [ none ↦ none | some x ↦ some (mask b m x) ]
unfolding line_groups
line_groups-map b m n [] = refl
line_groups-map b m n (l ∷ ls) = elim (Bool-cases (l.number == n)) [
  | inl here ↦ rw (line_groups, here) refl
  | inr other ↦ rw (line_groups, other) (line_groups-map b m n ls)
]

line_groups-bound :
    (n x : ℕ) (ls : List LogSourceLine) → LinesBound ls → line_groups n ls ≡ some x → x < 32
unfolding line_groups
line_groups-bound n x [] bound e = absurd (ground (arith, e))
line_groups-bound n x (l ∷ ls) (few, bound) e = ground (arith, e, line_groups-bound n x ls bound)

line_includes-map :
    (b : Bool) (g m n : ℕ) (ls : List LogSourceLine)
    → IsGroup g
    → m < 32
    → LinesBound ls
    → line_includes g n (map (mask_line b m) ls)
      ≡ elim (line_includes g n ls) [ none ↦ none | some c ↦ some (if includes m g then b else c) ]
line_includes-map b g m n ls is small bound = elim (Option-cases (line_groups n ls)) [
  | inl absent ↦ ap (said g) (line_groups-map b m n ls) ∙ (rw absent refl)
  | inr (x, there) ↦
      ap (said g) (line_groups-map b m n ls)
      ∙ (rw there (ap some (includes-mask b g m x is small (line_groups-bound n x ls bound there))))
]

-- After some filters the groups and lines say what `b` and `o` do.
pub record Says (g n : ℕ) (x : Groups) (b : Bool) (o : Option Bool) : Type 0 where
  pub few : x.0 < 32
  pub bound : LinesBound x.1
  pub source : includes x.0 g ≡ b
  pub lines : line_includes g n x.1 ≡ o

pub all_or_none_bound : (b : Bool) → all_or_none b < 32
all_or_none_bound true = omega arith
all_or_none_bound false = omega arith

pub Says-line :
    (g n l : ℕ) (included b : Bool) (o : Option Bool) (x : ℕ) (ls : List LogSourceLine)
    → IsGroup g
    → length ls < max_source_lines
    → Says g n (x, ls) b o
    → Says g n
        (x, put_line l (all_or_none included) (length ls) ls)
        b
        (if l == n then some included else o)
Says-line g n l included b o x ls is room says = record {
  few = says.few;
  bound =
      put_line-bound l (all_or_none included) (length ls) ls (all_or_none_bound included)
        says.bound;
  source = says.source;
  lines =
      ap (said g) (line_groups-put_line n l (all_or_none included) (length ls) ls room)
      ∙ (elim (Bool-cases (l == n)) [
        | inl here ↦ rw here (ap some (includes-all_or_none included g is))
        | inr other ↦ rw other says.lines
      ]);
}

pub Says-mask :
    (g n m : ℕ) (included b : Bool) (o : Option Bool) (x : Groups)
    → IsGroup g
    → m < 32
    → Says g n x b o
    → Says g n
        (mask included m x.0, map (mask_line included m) x.1)
        (if includes m g then included else b)
        (elim o [ none ↦ none | some c ↦ some (if includes m g then included else c) ])
Says-mask g n m included b o x is small says = record {
  few = mask_bound included m x.0 small says.few;
  bound = map-bound included m x.1 small says.bound;
  source =
      includes-mask included g m x.0 is small says.few
      ∙ ap (λ c. if includes m g then included else c) says.source;
  lines =
      line_includes-map included g m n x.1 is small says.bound
      ∙ ap (λ p. elim p [ none ↦ none | some c ↦ some (if includes m g then included else c) ])
          says.lines;
}
