-- ===== src/ConfFile/Text/Chars.antt =====
-- conf_file.c: escaped text stands on one line.
use daemonlib.Base.{
  ℕ, ◌<◌, ◌≤◌, Bool, false, List, [], ◌∷◌, ◌++◌, if◌then◌else◌, Bool-cases, inl, inr, arith,
}
use daemonlib.ConfFile.Text.{escape_tail, hex_digit, is_plain, is_nil, write_escaped}
use daemonlib.ConfFile.Text.Escape.{IsString}

-- No control character.
abbrev pub IsText : List ℕ → Type 0
IsText [] = Unit {0}
IsText (c ∷ cs) = (32 ≤ c) × IsText cs

pub IsText-append : (xs ys : List ℕ) → IsText xs → IsText ys → IsText (xs ++ ys)
IsText-append [] ys n m = m
IsText-append (x ∷ xs) ys (e, n) m = (e, IsText-append xs ys n m)

IsText-escape_tail : (c : ℕ) → c < 256 → IsText (escape_tail c)
unfolding escape_tail hex_digit
IsText-escape_tail c lt = ground arith

IsText-piece :
    (first final name : Bool) (c : ℕ)
    → c < 256
    → IsText (if is_plain first final name c then c ∷ [] else 92 ∷ escape_tail c)
unfolding is_plain
IsText-piece first final name c lt = elim (Bool-cases (is_plain first final name c)) [
  | inl plain ↦ rw plain (ground (arith, plain), tt)
  | inr coded ↦ rw coded (omega arith, IsText-escape_tail c lt)
]

pub IsText-write_escaped :
    (first name : Bool) (s : List ℕ) → IsString s → IsText (write_escaped first name s)
unfolding write_escaped
IsText-write_escaped first name [] v = tt
IsText-write_escaped first name (c ∷ cs) (given, lt, v) =
    IsText-append _ (write_escaped false name cs) (IsText-piece first (is_nil cs) name c lt)
      (IsText-write_escaped false name cs v)
