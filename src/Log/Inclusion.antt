-- ===== src/Log/Inclusion.antt =====
-- log.c: log_check_inclusion, which messages the debug filter lets through. The mutex only makes the
-- update of a source one step.
pub mod Masks
pub mod Verdict
pub mod Check
use daemonlib.Base.{
  ℕ, zero, suc, ◌+◌, ◌-◌, ◌^◌, bit_and, bit_or, Bool, true, false, not, ◌&&◌, ◌||◌, Option, none,
  some, List, [], ◌∷◌, ◌++◌, map, length, ltb, leb, ◌==◌, if◌then◌else◌,
}
use daemonlib.Base.Int.{ℤ, pos, negsuc, int_leb, int_ltb}
use daemonlib.ConfFile.{same_name}
use daemonlib.Log.Filter.{LogDebugFilter, all_groups, DebugFilters}

pub record LogSourceLine : Type 0 where
  pub number : ℕ
  pub included_debug_groups : ℕ

-- `lines` are the first `lines_used` lines of the source.
pub record LogSource : Type 0 where
  pub file : List ℕ
  pub name : Option (List ℕ)
  pub debug_filter_version : ℤ
  pub included_debug_groups : ℕ
  pub lines : List LogSourceLine

abbrev pub max_source_lines : ℕ
max_source_lines = 16

-- What stands behind the last `c`, if there is one.
abbrev pub after_last : ℕ → List ℕ → Option (List ℕ)
after_last c [] = none
after_last c (x ∷ xs) = elim (after_last c xs) [
  | some tail ↦ some tail
  | none ↦ if x == c then some xs else none
]

abbrev pub part_after : ℕ → List ℕ → List ℕ
part_after c name = elim (after_last c name) [ some tail ↦ tail | none ↦ name ]

-- The name of the source, set from its file if it is not set.
abbrev pub source_name : LogSource → List ℕ
source_name source = elim source.name [
  | some name ↦ name
  | none ↦ part_after 92 (part_after 47 source.file)
]

-- `|= groups` or `&= ~groups` on `uint32_t`.
abbrev pub mask : Bool → ℕ → ℕ → ℕ
mask included groups old = if included then bit_or old groups else bit_and old (2 ^ 32 - 1 - groups)

abbrev pub all_or_none : Bool → ℕ
all_or_none included = if included then all_groups else 0

-- The line `number` gets the groups; a line that is not there yet is added, if `used` lines leave room.
pub put_line : ℕ → ℕ → ℕ → List LogSourceLine → List LogSourceLine
put_line number groups used [] =
    if leb max_source_lines used
    then []
    else record { number = number; included_debug_groups = groups } ∷ []
put_line number groups used (l ∷ ls) =
    let rest = put_line number groups used ls in
    if l.number == number
    then record { number = l.number; included_debug_groups = groups } ∷ ls
    else l ∷ rest

abbrev pub mask_line : Bool → ℕ → LogSourceLine → LogSourceLine
mask_line included groups l = record {
  number = l.number;
  included_debug_groups = mask included groups l.included_debug_groups;
}

abbrev pub Groups : Type 0
Groups = ℕ × List LogSourceLine

-- A filter for the source itself.
abbrev pub apply_named : Bool → Option ℕ → Groups → Groups
apply_named included none (groups, lines) = (all_or_none included, lines)
apply_named included (some line) (groups, lines) =
    (groups, put_line line (all_or_none included) (length lines) lines)

-- One round of the loop over the filters, on the groups of the source and its lines.
pub apply_filter : List ℕ → LogDebugFilter → Groups → Groups
apply_filter name f g =
    if same_name f.source_name name
    then apply_named f.included f.line g
    else (mask f.included f.groups g.0, map (mask_line f.included f.groups) g.1)

pub apply_loop : List ℕ → List LogDebugFilter → Groups → Groups
apply_loop name [] g = g
apply_loop name (f ∷ fs) g = apply_loop name fs (apply_filter name f g)

pub update_source : DebugFilters → List ℕ → LogSource → LogSource
update_source d name source =
    let (groups, lines) = apply_loop name d.filters (all_groups, []) in
    if int_ltb source.debug_filter_version (pos d.version)
    then record {
      file = source.file;
      name = some name;
      debug_filter_version = pos d.version;
      included_debug_groups = groups;
      lines = lines;
    }
    else record source { name = some name }

-- The loop that looks for the line.
pub line_groups : ℕ → List LogSourceLine → Option ℕ
line_groups line [] = none
line_groups line (l ∷ ls) =
    let rest = line_groups line ls in
    if l.number == line then some l.included_debug_groups else rest

-- Whether the groups include the debug group.
abbrev pub includes : ℕ → ℕ → Bool
includes groups debug_group = not (bit_and groups debug_group == 0)

-- The check behind the update. A line is looked for if it is above 0.
pub is_included : LogSource → ℕ → ℤ → Bool
is_included source debug_group (negsuc n) = includes source.included_debug_groups debug_group
is_included source debug_group (pos line) =
    elim (if ltb 0 line then line_groups line source.lines else none) [
      | some groups ↦ includes groups debug_group
      | none ↦ includes source.included_debug_groups debug_group
    ]

-- `LOG_LEVEL_DEBUG`
abbrev pub level_debug : ℤ
level_debug = pos 3

-- The result and the source. `result` is what the platform includes, `override` is `_debug_override` and
-- `limit` is `_level`; bit 0 is `LOG_INCLUSION_PRIMARY`.
pub log_check_inclusion : ℕ → Bool → ℤ → DebugFilters → ℤ → LogSource → ℕ → ℤ → ℕ × LogSource
log_check_inclusion result override limit d level source debug_group line =
    let name = source_name source in
    let named : LogSource = record source { name = some name } in
    let updated = update_source d name source in
    if not override && int_ltb limit level
    then (result, named)
    else (if not (int_leb level level_debug && int_leb level_debug level)
        then (bit_or result 1, named)
        else (if is_included updated debug_group line
            then (bit_or result 1, updated)
            else (result, updated)))
