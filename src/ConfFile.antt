-- ===== src/ConfFile.antt =====
-- conf_file.c: files of `name = value` lines. Text is the list of its characters' codes, less the NUL at
-- the end; every allocation and write succeeds here.
pub mod Text
pub mod File
pub mod Lines
mod Options
mod Tests
use daemonlib.Base.{
  ℕ, zero, suc, ◌+◌, ◌-◌, ◌*◌, Bool, true, false, not, ◌&&◌, ◌||◌, Option, none, some, List, [],
  ◌∷◌, ◌++◌, length, take, drop, map, get_elem?, set, ltb, leb, ◌==◌, if◌then◌else◌,
}
use daemonlib.ConfFile.Text.{
  Warning, Unescaped, text, bad, unescape_string, write_escaped, skip_spaces, cut_spaces, split,
}

-- `ConfFileLine`: a line without an option, or an option's name and value.
pub data ConfFileLine : Type 0 where
  raw : List ℕ → ConfFileLine
  option : List ℕ → List ℕ → ConfFileLine

abbrev pub ConfFile : Type 0
ConfFile = List ConfFileLine

-- The line that is added, and the warning.
pub parse_line : List ℕ → ConfFileLine × Option Warning
parse_line buffer = elim (skip_spaces buffer) [
  | [] ↦ (raw buffer, none)
  | c ∷ cs ↦ if c == 35 then (raw buffer, none) else elim (split (c ∷ cs)) [
    | none ↦ (raw buffer, some Warning.equal_sign_missing)
    | some (before, behind) ↦ elim (cut_spaces before) [
      | [] ↦ (raw buffer, some Warning.name_missing)
      | n ∷ ns ↦ elim (unescape_string (n ∷ ns)) [
        | bad w ↦ (raw buffer, some w)
        | text name ↦ elim (unescape_string (cut_spaces (skip_spaces behind))) [
          | bad w ↦ (raw buffer, some w)
          | text value ↦ (option name value, none)
        ]
      ]
    ]
  ]
]

-- The text of a line in `conf_file_write`, less the end of line.
pub write_line : ConfFileLine → List ℕ
write_line (raw buffer) = buffer
write_line (option name []) = write_escaped true true name ++ (32 ∷ 61 ∷ [])
write_line (option name (c ∷ cs)) =
    write_escaped true true name ++ (32 ∷ 61 ∷ 32 ∷ write_escaped true false (c ∷ cs))

-- `conf_file_write`, with the end of line of Unix.
pub conf_file_write : ConfFile → List ℕ
conf_file_write [] = []
conf_file_write (l ∷ ls) = write_line l ++ (10 ∷ conf_file_write ls)

abbrev pub lower : ℕ → ℕ
lower c = if leb 65 c && leb c 90 then c + 32 else c

-- `strcasecmp(a, b) == 0`
unfoldable pub same_name : List ℕ → List ℕ → Bool
same_name [] [] = true
same_name (a ∷ as_) (b ∷ bs) = let rest = same_name as_ bs in lower a == lower b && rest
same_name [] (b ∷ bs) = false
same_name (a ∷ as_) [] = false

abbrev pub is_option : List ℕ → ConfFileLine → Bool
is_option name (raw buffer) = false
is_option name (option n v) = same_name n name

abbrev pub with_value : List ℕ → ConfFileLine → ConfFileLine
with_value value (raw buffer) = raw buffer
with_value value (option n v) = option n value

-- The loop of `conf_file_set_option_value`, with the lines below `i` to come; `none` where it ends
-- without a match.
pub set_loop : ℕ → List ℕ → List ℕ → ConfFile → Option ConfFile
set_loop zero name value ls = none
set_loop (suc i) name value ls = elim (get_elem? ls i) [
  | none ↦ none
  | some l ↦
      let rest = set_loop i name value ls in
      if is_option name l then some (set ls i (with_value value l)) else rest
]

pub conf_file_set_option_value : List ℕ → List ℕ → ConfFile → ConfFile
conf_file_set_option_value name value ls = elim (set_loop (length ls) name value ls) [
  | none ↦ ls ++ (option name value ∷ [])
  | some ls' ↦ ls'
]

abbrev pub value_of : ConfFileLine → Option (List ℕ)
value_of (raw buffer) = none
value_of (option n v) = some v

pub get_loop : ℕ → List ℕ → ConfFile → Option (List ℕ)
get_loop zero name ls = none
get_loop (suc i) name ls = elim (get_elem? ls i) [
  | none ↦ none
  | some l ↦ let rest = get_loop i name ls in if is_option name l then value_of l else rest
]

pub conf_file_get_option_value : List ℕ → ConfFile → Option (List ℕ)
conf_file_get_option_value name ls = get_loop (length ls) name ls

-- Name, value and the new cookie.
pub conf_file_get_next_option : ℕ → ConfFile → Option (List ℕ × List ℕ × ℕ)
conf_file_get_next_option cookie ls = next_loop cookie (drop cookie ls)
  where
    next_loop : ℕ → ConfFile → Option (List ℕ × List ℕ × ℕ)
    next_loop i [] = none
    next_loop i (raw buffer ∷ rest) = next_loop (suc i) rest
    next_loop i (option n v ∷ rest) = some (n, v, suc i)

-- `strncasecmp(s, prefix, strlen(prefix)) == 0`
abbrev pub has_prefix : List ℕ → List ℕ → Bool
has_prefix prefix s = same_name (take (length prefix) s) prefix

abbrev pub is_dropped : List ℕ → Bool → ConfFileLine → Bool
is_dropped name prefix_match (raw buffer) = false
is_dropped name prefix_match (option n v) = (prefix_match && has_prefix name n) || same_name n name

-- The loop of `conf_file_remove_option`, with the lines below `i` to come.
pub remove_loop : ℕ → List ℕ → Bool → ConfFile → ConfFile
remove_loop zero name prefix_match ls = ls
remove_loop (suc i) name prefix_match ls = elim (get_elem? ls i) [
  | none ↦ ls
  | some l ↦
      remove_loop i name prefix_match
        (if is_dropped name prefix_match l then take i ls ++ drop (suc i) ls else ls)
]

pub conf_file_remove_option : List ℕ → Bool → ConfFile → ConfFile
conf_file_remove_option name prefix_match ls = remove_loop (length ls) name prefix_match ls
