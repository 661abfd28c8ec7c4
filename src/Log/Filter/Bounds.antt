-- ===== src/Log/Filter/Bounds.antt =====
-- log.c: what log_set_debug_filter leaves, whatever the text.
use daemonlib.Base.{
  ℕ, zero, suc, ◌+◌, ◌-◌, ◌*◌, ◌≤◌, ◌<◌, ◌≡◌, refl, ◌⊎◌, inl, inr, Bool, false, ◌&&◌, Option, none,
  some, List, [], ◌∷◌, ◌++◌, length, length-append, ltb, leb, ◌==◌, if_both, Bool-cases,
  Option-cases, subst, arith,
}
use daemonlib.Log.Filter.{
  LogDebugFilter, max_debug_filters, max_source_name_size, all_groups, scan_line, with_line,
  scan_name, groups_of, filter_of, skip_comma, followed, parsed, parse_one, sign_of, parse_loop,
  DebugFilters, filters_or_none, log_set_debug_filter,
}

abbrev pub IsLine : Option ℕ → Type 0
IsLine none = Unit {0}
IsLine (some line) = (0 < line) × (line ≤ 1000009)

-- A filter for a source, or one for groups, which has no name and no line.
abbrev pub IsFilter : LogDebugFilter → Type 0
IsFilter f =
    (length f.source_name ≤ max_source_name_size)
    × IsLine f.line
    × (f.groups ≤ all_groups)
    × (((f.groups ≡ 0) × (0 < length f.source_name))
        ⊎ ((0 < f.groups) × (f.source_name ≡ []) × (f.line ≡ none)))

abbrev pub AreFilters : List LogDebugFilter → Type 0
AreFilters [] = Unit {0}
AreFilters (f ∷ fs) = IsFilter f × AreFilters fs

abbrev LineBound : Option (ℕ × List ℕ) → Type 0
LineBound none = Unit {0}
LineBound (some (line, rest)) = line ≤ 1000009

scan_line_bound : (line : ℕ) (cs : List ℕ) → line ≤ 1000009 → LineBound (scan_line line cs)
unfolding scan_line
scan_line_bound line [] le = le
scan_line_bound line (c ∷ cs) le = elim (Bool-cases (c == 44)) [
  | inl comma ↦ rw comma le
  | inr other ↦ elim (Bool-cases (leb 48 c && leb c 57)) [
    | inr wrong ↦ rw (other, wrong) tt
    | inl digit ↦ elim (Bool-cases (ltb 100000 line)) [
      | inl large ↦ rw (other, digit, large) tt
      | inr small ↦
          rw (other, digit, small)
            (scan_line_bound (line * 10 + (c - 48)) cs (ground (arith, digit, small)))
    ]
  ]
]

abbrev NameBound : Option (List ℕ × Option ℕ × List ℕ) → Type 0
NameBound none = Unit {0}
NameBound (some (name, line, rest)) = (length name ≤ max_source_name_size) × IsLine line

with_line_bound :
    (name : List ℕ) (r : Option (ℕ × List ℕ))
    → length name ≤ max_source_name_size
    → LineBound r
    → NameBound (with_line name r)
with_line_bound name none small bound = tt
with_line_bound name (some (line, rest)) small bound = elim (Bool-cases (line == 0)) [
  | inl zero_line ↦ rw zero_line tt
  | inr given ↦ rw given (small, (ground (arith, given), bound))
]

scan_name_bound :
    (name cs : List ℕ) → length name ≤ max_source_name_size → NameBound (scan_name name cs)
unfolding scan_name
scan_name_bound name [] small = (small, tt)
scan_name_bound name (c ∷ cs) small = elim (Bool-cases (c == 44)) [
  | inl comma ↦ rw comma (small, tt)
  | inr other ↦ elim (Bool-cases (c == 58)) [
    | inl colon ↦
        rw (other, colon)
          (if_both NameBound (length name == 0) tt
            (with_line_bound name (scan_line 0 cs) small (scan_line_bound 0 cs (omega arith))))
    | inr letter ↦ elim (Bool-cases (leb max_source_name_size (length name))) [
      | inl long ↦ rw (other, letter, long) tt
      | inr short ↦
          rw (other, letter, short)
            (scan_name_bound (name ++ (c ∷ [])) cs
              (ground (arith, short, length-append name (c ∷ []))))
    ]
  ]
]

abbrev IsGroups : ℕ → Type 0
IsGroups n = n ≤ all_groups

groups_bound : (name : List ℕ) → groups_of name ≤ all_groups
unfolding groups_of
groups_bound name =
    let a : 1 ≤ all_groups = omega arith in
    let b : 2 ≤ all_groups = omega arith in
    let c : 4 ≤ all_groups = omega arith in
    let d : 8 ≤ all_groups = omega arith in
    let e : 16 ≤ all_groups = omega arith in
    let f : all_groups ≤ all_groups = omega arith in
    let g : 0 ≤ all_groups = omega arith in
    if_both IsGroups _ a (
      if_both IsGroups _ b (
        if_both IsGroups _ c
          (if_both IsGroups _ d (if_both IsGroups _ e (if_both IsGroups _ f g)))))

filter_of-IsFilter :
    (included : Bool) (name : List ℕ) (line : Option ℕ) (groups : ℕ)
    → length name ≤ max_source_name_size
    → 0 < length name
    → IsLine line
    → groups ≤ all_groups
    → IsFilter (filter_of included name line groups)
filter_of-IsFilter included name line groups small some_name is le =
    elim (Bool-cases (groups == 0)) [
      | inl none_at_all ↦
          rw none_at_all (small, is, le, inl (ground (arith, none_at_all), some_name))
      | inr given ↦ rw given (omega arith, tt, le, inr (ground (arith, given), refl, refl))
    ]

abbrev OneFilter : Option (LogDebugFilter × List ℕ) → Type 0
OneFilter none = Unit {0}
OneFilter (some (f, rest)) = IsFilter f

followed-OneFilter :
    (f : LogDebugFilter) (r : Option (List ℕ)) → IsFilter f → OneFilter (followed f r)
followed-OneFilter f none is = tt
followed-OneFilter f (some rest) is = is

parsed-OneFilter :
    (included : Bool) (r : Option (List ℕ × Option ℕ × List ℕ))
    → NameBound r
    → OneFilter (parsed included r)
parsed-OneFilter included none bound = tt
parsed-OneFilter included (some (name, line, rest)) (small, is) =
    elim (Bool-cases (length name == 0)) [
      | inl empty ↦ rw empty tt
      | inr given ↦ rw given (
          followed-OneFilter _ (skip_comma rest) (
            filter_of-IsFilter included name line (groups_of name) small (ground (arith, given)) is
              (groups_bound name)))
    ]

AreFilters-append :
    (fs : List LogDebugFilter) (f : LogDebugFilter)
    → AreFilters fs
    → IsFilter f
    → AreFilters (fs ++ (f ∷ []))
AreFilters-append [] f are is = (is, tt)
AreFilters-append (g ∷ fs) f (isg, are) is = (isg, AreFilters-append fs f are is)

abbrev AllFilters : Option (List LogDebugFilter) → Type 0
AllFilters none = Unit {0}
AllFilters (some fs) = AreFilters fs × (length fs ≤ max_debug_filters)

parse_loop-AllFilters :
    (fuel : ℕ) (fs : List LogDebugFilter) (cs : List ℕ)
    → AreFilters fs
    → length fs ≤ max_debug_filters
    → AllFilters (parse_loop fuel fs cs)
unfolding parse_loop
parse_loop-AllFilters fuel fs [] are few = (are, few)
parse_loop-AllFilters zero fs (c ∷ cs) are few = tt
parse_loop-AllFilters (suc fuel) fs (c ∷ cs) are few =
    elim (Bool-cases (leb max_debug_filters (length fs))) [
      | inl full ↦ rw full tt
      | inr room ↦ elim (Option-cases (sign_of c)) [
        | inl no_sign ↦ rw (room, no_sign) tt
        | inr (included, sign) ↦ elim (Option-cases (parse_one included cs)) [
          | inl wrong ↦ rw (room, sign, wrong) tt
          | inr ((f, rest), one) ↦
              let is : IsFilter f = subst OneFilter one (
                parsed-OneFilter included (scan_name [] cs)
                  (scan_name_bound [] cs (omega arith))) in
              rw (room, sign, one)
                (parse_loop-AllFilters fuel (fs ++ (f ∷ [])) rest (AreFilters-append fs f are is)
                  (ground (arith, room, length-append fs (f ∷ []))))
        ]
      ]
    ]

set_filters :
    (r : Option (List LogDebugFilter)) (version : ℕ)
    → AllFilters r
    → let (ok, d) = filters_or_none r version in
      AreFilters d.filters
      × (length d.filters ≤ max_debug_filters)
      × (d.version ≡ version)
      × (ok ≡ false → d.filters ≡ [])
set_filters none version all = (tt, omega arith, refl, λ failed. refl)
set_filters (some fs) version (are, few) = (are, few, refl, λ failed. absurd (ground arith))

-- Whatever the text, at most 64 filters are set, each with a name of at most 64 characters and a line,
-- if any, between 1 and 1000009, so that no array and no `int` overflows; a filter has a name or is for
-- known groups, and then has no line. A text that is refused leaves no filter. The version goes up by
-- one.
log_set_debug_filter-AreFilters :
    (filter : List ℕ) (d : DebugFilters)
    → let (ok, d') = log_set_debug_filter filter d in
      AreFilters d'.filters
      × (length d'.filters ≤ max_debug_filters)
      × (d'.version ≡ d.version + 1)
      × (ok ≡ false → d'.filters ≡ [])
unfolding log_set_debug_filter
log_set_debug_filter-AreFilters filter d =
    set_filters (parse_loop (length filter) [] filter) (d.version + 1)
      (parse_loop-AllFilters (length filter) [] filter tt (omega arith))
