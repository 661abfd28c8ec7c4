-- ===== src/ConfFile/File.antt =====
-- conf_file.c: conf_file_read.
pub mod RoundTrip
use daemonlib.Base.{
  ℕ, zero, suc, ◌+◌, ◌-◌, ◌*◌, Bool, true, false, not, ◌&&◌, ◌||◌, Option, none, some, List, [],
  ◌∷◌, ◌++◌, length, take, get_or, ltb, leb, ◌==◌, if◌then◌else◌,
}
use mathlib.Core.List.{reverse}
use daemonlib.ConfFile.{
  ConfFileLine, raw, option, ConfFile, parse_line, write_line, conf_file_write,
}
use daemonlib.ConfFile.Text.{Warning}

-- The file so far and the loop's variables: the line in the buffer, how much is allocated for it, whether
-- the rest of the line is skipped, the number of the line, and the warnings with their line numbers.
pub record Reader : Type 0 where
  pub lines : ConfFile
  pub buffer : List ℕ
  pub allocated : ℕ
  pub skip : Bool
  pub number : ℕ
  pub warnings : List (ℕ × Warning)

abbrev pub warn : ℕ → Option Warning → List (ℕ × Warning) → List (ℕ × Warning)
warn number none ws = ws
warn number (some w) ws = ws ++ ((number, w) ∷ [])

-- The line without a carriage return at its end.
abbrev pub cut_return : List ℕ → List ℕ
cut_return [] = []
cut_return (c ∷ []) = if c == 13 then [] else c ∷ []
cut_return (c ∷ d ∷ cs) = c ∷ cut_return (d ∷ cs)

-- The end of a line, or of the file, where `newline` is false.
abbrev pub end_line : Bool → Reader → Reader
end_line newline r =
    let (line, w) = parse_line (if newline then cut_return r.buffer else r.buffer) in
    if r.skip
    then r
    else record r { lines = r.lines ++ (line ∷ []); warnings = warn r.number w r.warnings }

abbrev pub next_line : Reader → Reader
next_line r = record r { buffer = []; skip = false; number = r.number + 1 }

abbrev pub put_char : ℕ → Reader → Reader
put_char c r = record r { buffer = r.buffer ++ (c ∷ []) }

-- A character that ends no line.
abbrev pub read_char : ℕ → Reader → Reader
read_char c r =
    if r.skip
    then r
    else (if ltb r.allocated (length r.buffer + 2)
        then (if ltb r.allocated 32768
            then put_char c (record r { allocated = r.allocated * 2 })
            else record r {
              skip = true;
              warnings = warn r.number (some Warning.line_too_long) r.warnings;
            })
        else put_char c r)

-- The loop over the characters of the file, which ends at a NUL or behind the last.
pub read_loop : List ℕ → Reader → Reader
read_loop [] r = end_line false r
read_loop (c ∷ cs) r =
    let line = read_loop cs (next_line (end_line true r)) in
    let more = read_loop cs (read_char c r) in
    if c == 0 then end_line false r else (if c == 10 then line else more)

abbrev pub is_empty_line : ConfFileLine → Bool
is_empty_line (raw []) = true
is_empty_line (raw (c ∷ cs)) = false
is_empty_line (option n v) = false

-- The lines less the empty ones at the end.
abbrev pub cut_lines : ConfFile → ConfFile
cut_lines [] = []
cut_lines (l ∷ ls) = elim (cut_lines ls) [
  | [] ↦ if is_empty_line l then [] else l ∷ []
  | k ∷ ks ↦ l ∷ k ∷ ks
]

abbrev pub new_reader : ConfFile → Reader
new_reader lines = record {
  lines = lines;
  buffer = [];
  allocated = 256;
  skip = false;
  number = 1;
  warnings = [];
}

-- The file and the warnings.
pub conf_file_read : List ℕ → ConfFile → ConfFile × List (ℕ × Warning)
conf_file_read text lines =
    let r = read_loop text (new_reader lines) in (cut_lines r.lines, r.warnings)
