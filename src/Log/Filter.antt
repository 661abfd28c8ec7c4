-- ===== src/Log/Filter.antt =====
-- log.c: log_set_debug_filter, the parser of the debug filter.
pub mod Bounds
pub mod RoundTrip
use daemonlib.Base.{
  ℕ, zero, suc, ◌+◌, ◌-◌, ◌*◌, Bool, true, false, not, ◌&&◌, ◌||◌, Option, none, some, List, [],
  ◌∷◌, ◌++◌, length, ltb, leb, ◌==◌, if◌then◌else◌,
}
use daemonlib.ConfFile.{same_name}

-- A `LogDebugFilter`; the line is `none` where the source has -1.
pub record LogDebugFilter : Type 0 where
  pub included : Bool
  pub source_name : List ℕ
  pub line : Option ℕ
  pub groups : ℕ

abbrev pub max_debug_filters : ℕ
max_debug_filters = 64

abbrev pub max_source_name_size : ℕ
max_source_name_size = 64

-- `LOG_DEBUG_GROUP_ALL`
abbrev pub all_groups : ℕ
all_groups = 31

-- The loop over the digits of a line number, up to a comma or the end: the number and what is left.
-- Nothing is returned where the source returns false.
pub scan_line : ℕ → List ℕ → Option (ℕ × List ℕ)
scan_line line [] = some (line, [])
scan_line line (c ∷ cs) =
    let rest = scan_line (line * 10 + (c - 48)) cs in
    if c == 44
    then some (line, c ∷ cs)
    else (if leb 48 c && leb c 57 then (if ltb 100000 line then none else rest) else none)

-- A line number that is not 0.
abbrev pub with_line : List ℕ → Option (ℕ × List ℕ) → Option (List ℕ × Option ℕ × List ℕ)
with_line name none = none
with_line name (some (line, rest)) = if line == 0 then none else some (name, some line, rest)

-- The loop over the source name: the name, the line and what is left.
pub scan_name : List ℕ → List ℕ → Option (List ℕ × Option ℕ × List ℕ)
scan_name name [] = some (name, none, [])
scan_name name (c ∷ cs) =
    let rest = scan_name (name ++ (c ∷ [])) cs in
    if c == 44
    then some (name, none, c ∷ cs)
    else (if c == 58
        then (if length name == 0 then none else with_line name (scan_line 0 cs))
        else (if leb max_source_name_size (length name) then none else rest))

-- "common", "event", "packet", "object", "libusb" and "all" in any case.
pub groups_of : List ℕ → ℕ
groups_of name =
    if same_name name (99 ∷ 111 ∷ 109 ∷ 109 ∷ 111 ∷ 110 ∷ [])
    then 1
    else (if same_name name (101 ∷ 118 ∷ 101 ∷ 110 ∷ 116 ∷ [])
        then 2
        else (if same_name name (112 ∷ 97 ∷ 99 ∷ 107 ∷ 101 ∷ 116 ∷ [])
            then 4
            else (if same_name name (111 ∷ 98 ∷ 106 ∷ 101 ∷ 99 ∷ 116 ∷ [])
                then 8
                else (if same_name name (108 ∷ 105 ∷ 98 ∷ 117 ∷ 115 ∷ 98 ∷ [])
                    then 16
                    else (if same_name name (97 ∷ 108 ∷ 108 ∷ []) then all_groups else 0)))))

-- A filter for a group has no name and no line.
abbrev pub filter_of : Bool → List ℕ → Option ℕ → ℕ → LogDebugFilter
filter_of included name line groups =
    if not (groups == 0)
    then record { included = included; source_name = []; line = none; groups = groups }
    else record { included = included; source_name = name; line = line; groups = groups }

-- The comma behind a filter: what is left, unless the comma is the last character.
abbrev pub skip_comma : List ℕ → Option (List ℕ)
skip_comma [] = some []
skip_comma (c ∷ []) = if c == 44 then none else some (c ∷ [])
skip_comma (c ∷ d ∷ cs) = if c == 44 then some (d ∷ cs) else some (c ∷ d ∷ cs)

abbrev pub followed : LogDebugFilter → Option (List ℕ) → Option (LogDebugFilter × List ℕ)
followed f none = none
followed f (some rest) = some (f, rest)

-- What is made of a name and a line.
abbrev pub parsed : Bool → Option (List ℕ × Option ℕ × List ℕ) → Option (LogDebugFilter × List ℕ)
parsed included none = none
parsed included (some (name, line, rest)) =
    if length name == 0
    then none
    else followed (filter_of included name line (groups_of name)) (skip_comma rest)

-- One filter behind its sign.
abbrev pub parse_one : Bool → List ℕ → Option (LogDebugFilter × List ℕ)
parse_one included cs = parsed included (scan_name [] cs)

-- The sign of a filter.
abbrev pub sign_of : ℕ → Option Bool
sign_of c = if c == 43 then some true else (if c == 45 then some false else none)

-- The outer loop, with `fs` the filters so far.
pub parse_loop : ℕ → List LogDebugFilter → List ℕ → Option (List LogDebugFilter)
parse_loop fuel fs [] = some fs
parse_loop zero fs (c ∷ cs) = none
parse_loop (suc fuel) fs (c ∷ cs) =
    if leb max_debug_filters (length fs) then none else elim (sign_of c) [
      | none ↦ none
      | some included ↦ elim (parse_one included cs) [
        | none ↦ none
        | some next ↦ parse_loop fuel (fs ++ (next.0 ∷ [])) next.1
      ]
    ]

-- `_debug_filter_version` and the first `_debug_filter_count` of `_debug_filters`.
pub record DebugFilters : Type 0 where
  pub version : ℕ
  pub filters : List LogDebugFilter

abbrev pub filters_or_none : Option (List LogDebugFilter) → ℕ → Bool × DebugFilters
filters_or_none none version = (false, record { version = version; filters = [] })
filters_or_none (some fs) version = (true, record { version = version; filters = fs })

pub log_set_debug_filter : List ℕ → DebugFilters → Bool × DebugFilters
log_set_debug_filter filter d =
    filters_or_none (parse_loop (length filter) [] filter) (d.version + 1)
