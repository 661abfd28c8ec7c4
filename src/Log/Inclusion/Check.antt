-- ===== src/Log/Inclusion/Check.antt =====
-- log.c: log_check_inclusion on a source that is out of date.
use daemonlib.Base.{
  ℕ, ◌+◌, ◌≤◌, ◌≡◌, refl, ap, ◌∙◌, subst, inl, inr, bit_or, Bool, true, false, not, ◌&&◌, Option,
  none, some, List, [], ◌∷◌, map, length, ltb, ◌==◌, if◌then◌else◌, Bool-cases, arith,
}
use daemonlib.Base.Int.{ℤ, pos, negsuc, int_ltb}
use daemonlib.ConfFile.{same_name}
use daemonlib.Log.Filter.{LogDebugFilter, all_groups, DebugFilters}
use daemonlib.Log.Filter.Bounds.{AreFilters}
use daemonlib.Log.Inclusion.{
  LogSource, source_name, max_source_lines, mask, all_or_none, mask_line, Groups, apply_named,
  apply_filter, apply_loop, update_source, line_groups, includes, is_included, level_debug,
  log_check_inclusion,
}
use daemonlib.Log.Inclusion.Masks.{IsGroup, includes-all_or_none}
use daemonlib.Log.Inclusion.Verdict.{
  verdict, line_verdict, line_filters, said, line_includes, Says, Says-line, Says-mask,
  all_or_none_bound, length-put_line, length-map,
}

module _ (name : List ℕ) (g n : ℕ) (is : IsGroup g) where
  abbrev named_line : Bool → Option ℕ → Option Bool → Option Bool
  named_line included none o = o
  named_line included (some l) o = if l == n then some included else o

  Says-named :
      (included b : Bool) (line : Option ℕ) (o : Option Bool) (x : Groups)
      → length x.1 + (elim line [ none ↦ 0 | some l ↦ 1 ]) ≤ max_source_lines
      → Says g n x b o
      → Says g n
          (apply_named included line x)
          (elim line [ none ↦ included | some l ↦ b ])
          (elim line [ none ↦ o | some l ↦ if l == n then some included else o ])
  Says-named included b none o (x, ls) room says = record {
    few = all_or_none_bound included;
    bound = says.bound;
    source = includes-all_or_none included g is;
    lines = says.lines;
  }
  Says-named included b (some l) o (x, ls) room says =
      Says-line g n l included b o x ls is (omega (arith, room)) says

  length-apply_named :
      (included : Bool) (line : Option ℕ) (x : Groups)
      → length (apply_named included line x).1 ≤ length x.1 + (elim line [ none ↦ 0 | some l ↦ 1 ])
  length-apply_named included none (x, ls) = omega arith
  length-apply_named included (some l) (x, ls) =
      length-put_line l (all_or_none included) (length ls) ls

  Says-loop :
      (fs : List LogDebugFilter) (x : Groups) (b : Bool) (o : Option Bool)
      → AreFilters fs
      → length x.1 + line_filters name fs ≤ max_source_lines
      → Says g n x b o
      → Says g n (apply_loop name fs x) (verdict name g fs b) (line_verdict name g n fs o)
  unfolding apply_loop apply_filter
  Says-loop [] x b o are room says = says
  Says-loop (f ∷ fs) x b o (filter, are) room says =
      elim (Bool-cases (same_name f.source_name name)) [
        | inl same ↦
            let room' : length x.1
                  + ((elim f.line [ none ↦ 0 | some l ↦ 1 ]) + line_filters name fs)
                ≤ max_source_lines =
              subst
                (λ c.
                  length x.1
                    + ((if c then elim f.line [ none ↦ 0 | some l ↦ 1 ] else 0)
                        + line_filters name fs)
                  ≤ max_source_lines)
                same room in
            rw same (
              Says-loop fs (apply_named f.included f.line x) _ _ are
                (omega (arith, length-apply_named f.included f.line x, room'))
                (Says-named f.included b f.line o x (omega (arith, room')) says))
        | inr other ↦
            let room' : length x.1 + line_filters name fs ≤ max_source_lines = omega (
              arith,
              subst
                  (λ c.
                    length x.1
                      + ((if c then elim f.line [ none ↦ 0 | some l ↦ 1 ] else 0)
                          + line_filters name fs)
                    ≤ max_source_lines)
                  other room,
            ) in
            rw other (
              Says-loop fs (mask f.included f.groups x.0, map (mask_line f.included f.groups) x.1) _
                _ are (omega (arith, length-map (mask_line f.included f.groups) x.1, room'))
                (Says-mask g n f.groups f.included b o x is (omega (arith, filter.2)) says))
      ]

-- What is let through of a debug message: the line decides if a filter is for it, and else the source.
abbrev pub decision : List ℕ → ℕ → ℤ → List LogDebugFilter → Bool
decision name g (negsuc k) fs = verdict name g fs true
decision name g (pos n) fs = elim (if ltb 0 n then line_verdict name g n fs none else none) [
  | none ↦ verdict name g fs true
  | some b ↦ b
]

-- A source whose groups and lines are those after all the filters.
abbrev pub IsUpdated : DebugFilters → List ℕ → LogSource → Type 0
IsUpdated d name source =
    (source.included_debug_groups, source.lines) ≡ apply_loop name d.filters (all_groups, [])

Says-start : (g n : ℕ) → IsGroup g → Says g n (all_groups, []) true none
unfolding line_groups
Says-start g n is = record {
  few = omega arith;
  bound = tt;
  source = includes-all_or_none true g is;
  lines = refl;
}

-- The choice between a line and its source.
decide :
    (c : Bool) (groups g : ℕ) (o : Option ℕ) (b : Bool) (v : Option Bool)
    → includes groups g ≡ b
    → said g o ≡ v
    → (elim (if c then o else none) [ some x ↦ includes x g | none ↦ includes groups g ])
      ≡ elim (if c then v else none) [ none ↦ b | some a ↦ a ]
decide false groups g o b v e f = e
decide true groups g none b v e f =
    subst (λ w. includes groups g ≡ elim w [ none ↦ b | some a ↦ a ]) f e
decide true groups g (some x) b v e f =
    subst (λ w. includes x g ≡ elim w [ none ↦ b | some a ↦ a ]) f refl

is_included_lem :
    (name : List ℕ) (fs : List LogDebugFilter) (source : LogSource) (g : ℕ) (line : ℤ)
    → (source.included_debug_groups, source.lines) ≡ apply_loop name fs (all_groups, [])
    → IsGroup g
    → AreFilters fs
    → line_filters name fs ≤ max_source_lines
    → is_included source g line ≡ decision name g line fs
unfolding is_included
is_included_lem name fs source g (negsuc k) e is are room =
    let says =
      Says-loop name g 0 is fs (all_groups, []) true none are (omega (arith, room))
        (Says-start g 0 is) in
    ap (λ x. includes x.0 g) e ∙ says.source
is_included_lem name fs source g (pos n) e is are room =
    let says =
      Says-loop name g n is fs (all_groups, []) true none are (omega (arith, room))
        (Says-start g n is) in
    decide (ltb 0 n) source.included_debug_groups g (line_groups n source.lines) _ _
      (ap (λ x. includes x.0 g) e ∙ says.source) (ap (λ x. line_includes g n x.1) e ∙ says.lines)

update_source_lem :
    (d : DebugFilters) (name : List ℕ) (source : LogSource)
    → int_ltb source.debug_filter_version (pos d.version) ≡ true
    → IsUpdated d name (update_source d name source)
      × ((update_source d name source).debug_filter_version ≡ pos d.version)
unfolding update_source
update_source_lem d name source old = rw old (refl, refl)

-- For a debug message that the level lets through, a source that is out of date is brought up to date,
-- and the message goes to the primary output exactly if the filters say so: the last filter that speaks
-- of the line, if there is one for it, and else the last one that speaks of the source. At most 16
-- filters are for lines of this source.
pub log_check_inclusion_lem :
    (result : ℕ) (override : Bool) (limit : ℤ) (d : DebugFilters) (source : LogSource) (g : ℕ)
    (line : ℤ)
    → IsGroup g
    → AreFilters d.filters
    → line_filters (source_name source) d.filters ≤ max_source_lines
    → int_ltb source.debug_filter_version (pos d.version) ≡ true
    → (not override && int_ltb limit level_debug) ≡ false
    → let (included, source') =
        log_check_inclusion result override limit d level_debug source g line in
      (included
        ≡ (if decision (source_name source) g line d.filters then bit_or result 1 else result))
      × IsUpdated d (source_name source) source'
      × (source'.debug_filter_version ≡ pos d.version)
unfolding log_check_inclusion
log_check_inclusion_lem result override limit d source g line is are room old level =
    let name = source_name source in
    let updated = update_source d name source in
    let (groups, version) = update_source_lem d name source old in
    let answer = is_included_lem name d.filters updated g line groups is are room in
    rw (level, ← answer)
      (elim (Bool-cases (is_included updated g line)) [
        | inl shown ↦ rw shown (refl, groups, version)
        | inr hidden ↦ rw hidden (refl, groups, version)
      ])
