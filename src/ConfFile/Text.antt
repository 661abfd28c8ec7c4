-- ===== src/ConfFile/Text.antt =====
-- conf_file.c: conf_file_unescape_string and conf_file_write_escaped, and the cutting of lines.
pub mod Escape
pub mod Spaces
pub mod Chars
use daemonlib.Base.{
  ℕ, zero, suc, ◌+◌, ◌-◌, ◌*◌, ◌/◌, ◌%◌, Bool, true, false, not, ◌&&◌, ◌||◌, Option, none, some,
  List, [], ◌∷◌, ◌++◌, length, ltb, leb, ◌==◌, if◌then◌else◌,
}

-- `ConfFileReadWarning`
pub data Warning : Type 0 where
  line_too_long name_missing equal_sign_missing non_printable incomplete_escape invalid_escape :
      Warning

pub data Unescaped : Type 0 where
  text : List ℕ → Unescaped
  bad : Warning → Unescaped

-- One round of the loop: a character and what is left to read, or a warning.
pub data Step : Type 0 where
  next : ℕ → List ℕ → Step
  wrong : Warning → Step

-- The `switch` in conf_file_unescape_string, `x` apart.
pub common_escape : ℕ → Option ℕ
common_escape e =
    if e == 97
    then some 7
    else (if e == 98
        then some 8
        else (if e == 102
            then some 12
            else (if e == 110
                then some 10
                else (if e == 114
                    then some 13
                    else (if e == 116
                        then some 9
                        else (if e == 118
                            then some 11
                            else (if e == 92
                                then some 92
                                else (if e == 39
                                    then some 39
                                    else (if e == 34 then some 34 else none)))))))))

pub hex_value : ℕ → Option ℕ
hex_value c =
    if leb 48 c && leb c 57
    then some (c - 48)
    else (if leb 65 c && leb c 70
        then some (c - 55)
        else (if leb 97 c && leb c 102 then some (c - 87) else none))

-- `parse_int(x, NULL, 16, &tmp)` on two characters, where its result is not negative: `strtol` takes
-- white space or a plus sign before a digit.
pub parse_hex : ℕ → ℕ → Option ℕ
parse_hex x y = elim (hex_value y) [
  | none ↦ none
  | some b ↦ elim (hex_value x) [
    | some a ↦ some (a * 16 + b)
    | none ↦ if (leb 9 x && leb x 13) || x == 32 || x == 43 then some b else none
  ]
]

-- The part for `\x`, at the two characters behind it.
pub unescape_hex : ℕ → ℕ → List ℕ → Step
unescape_hex x y rest = elim (parse_hex x y) [
  | none ↦ wrong invalid_escape
  | some v ↦ if ltb v 1 || ltb 255 v then wrong invalid_escape else next v rest
]

-- The part behind a backslash.
pub unescape_sequence : List ℕ → Step
unescape_sequence [] = wrong incomplete_escape
unescape_sequence (e ∷ cs) = elim (common_escape e) [
  | some d ↦ next d cs
  | none ↦ if not (e == 120) then wrong invalid_escape else elim cs [
    | [] ↦ wrong incomplete_escape
    | x ∷ ds ↦ elim ds [ [] ↦ wrong incomplete_escape | y ∷ rest ↦ unescape_hex x y rest ]
  ]
]

pub unescape_step : ℕ → List ℕ → Step
unescape_step c cs =
    if ltb c 32 || ltb 126 c
    then wrong non_printable
    else (if not (c == 92) then next c cs else unescape_sequence cs)

abbrev pub put : ℕ → Unescaped → Unescaped
put c (text cs) = text (c ∷ cs)
put c (bad w) = bad w

-- The loop; a round reads at least one character, so the length of the string is fuel enough.
pub unescape_loop : ℕ → List ℕ → Unescaped
unescape_loop k [] = text []
unescape_loop zero (c ∷ cs) = text []
unescape_loop (suc k) (c ∷ cs) = elim (unescape_step c cs) [
  | wrong w ↦ bad w
  | next d rest ↦ put d (unescape_loop k rest)
]

pub unescape_string : List ℕ → Unescaped
unescape_string s = unescape_loop (length s) s

unfoldable pub hex_digit : ℕ → ℕ
hex_digit d = if ltb d 10 then 48 + d else 55 + d

-- The characters behind the backslash: those of the `switch`, or those of `\x%02X`.
unfoldable pub escape_tail : ℕ → List ℕ
escape_tail c =
    if c == 7
    then 97 ∷ []
    else (if c == 8
        then 98 ∷ []
        else (if c == 12
            then 102 ∷ []
            else (if c == 10
                then 110 ∷ []
                else (if c == 13
                    then 114 ∷ []
                    else (if c == 9
                        then 116 ∷ []
                        else (if c == 11
                            then 118 ∷ []
                            else (if c == 92
                                then 92 ∷ []
                                else 120 ∷ hex_digit (c / 16) ∷ hex_digit (c % 16) ∷ [])))))))

-- Is the character written as it is? `first` and `final` tell where it stands.
unfoldable pub is_plain : Bool → Bool → Bool → ℕ → Bool
is_plain first final name c =
    let printable = leb 32 c && leb c 126 && not (c == 92) in
    let comment = c == 35 && first in
    let white = c == 32 && (first || final) in
    printable && not comment && not (c == 61 && name) && not white

abbrev pub is_nil : List ℕ → Bool
is_nil [] = true
is_nil (c ∷ cs) = false

-- What conf_file_write_escaped writes; `first` holds at the start of the string.
unfoldable pub write_escaped : Bool → Bool → List ℕ → List ℕ
write_escaped first name [] = []
write_escaped first name (c ∷ cs) =
    (if is_plain first (is_nil cs) name c then c ∷ [] else 92 ∷ escape_tail c)
    ++ write_escaped false name cs

-- The characters of `" \t\r"`.
abbrev pub is_space : ℕ → Bool
is_space c = c == 32 || c == 9 || c == 13

-- `s + strspn(s, " \t\r")`
unfoldable pub skip_spaces : List ℕ → List ℕ
skip_spaces [] = []
skip_spaces (c ∷ cs) = let rest = skip_spaces cs in if is_space c then rest else c ∷ cs

-- The loops that cut trailing white space.
pub cut_spaces : List ℕ → List ℕ
cut_spaces [] = []
cut_spaces (c ∷ cs) = elim (cut_spaces cs) [
  | [] ↦ if is_space c then [] else c ∷ []
  | d ∷ ds ↦ c ∷ d ∷ ds
]

-- What stands before and behind the first `=`.
pub split : List ℕ → Option (List ℕ × List ℕ)
split [] = none
split (c ∷ cs) =
    if c == 61
    then some ([], cs)
    else elim (split cs) [ none ↦ none | some (before, behind) ↦ some (c ∷ before, behind) ]
