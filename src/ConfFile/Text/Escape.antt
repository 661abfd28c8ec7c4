-- ===== src/ConfFile/Text/Escape.antt =====
-- conf_file.c: unescaping undoes escaping.
use daemonlib.Base.{
  ℕ, zero, suc, ◌+◌, ◌*◌, ◌/◌, ◌%◌, ◌≤◌, ◌<◌, ◌≡◌, refl, Bool, true, false, some, List, [], ◌∷◌,
  ◌++◌, length, length-append, Bool-cases, inl, inr, arith,
}
use daemonlib.ConfFile.Text.{
  text, next, common_escape, hex_value, parse_hex, unescape_hex, unescape_sequence, unescape_step,
  unescape_loop, unescape_string, hex_digit, escape_tail, is_plain, is_nil, write_escaped,
}

-- Bytes other than NUL.
abbrev pub IsString : List ℕ → Type 0
IsString [] = Unit {0}
IsString (c ∷ cs) = (0 < c) × (c < 256) × IsString cs

hex_value-hex_digit : (d : ℕ) → d < 16 → hex_value (hex_digit d) ≡ some d
unfolding hex_value hex_digit
hex_value-hex_digit d lt = ground arith

parse_hex-digits : (c : ℕ) → c < 256 → parse_hex (hex_digit (c / 16)) (hex_digit (c % 16)) ≡ some c
unfolding parse_hex
parse_hex-digits c lt =
    let hi = hex_value-hex_digit (c / 16) (omega arith) in
    let lo = hex_value-hex_digit (c % 16) (omega arith) in
    let e : c / 16 * 16 + c % 16 ≡ c = omega arith in rw (parse_hex, lo, hi, e) refl

hex_step :
    (c : ℕ) (rest : List ℕ)
    → 0 < c
    → c < 256
    → unescape_sequence (120 ∷ hex_digit (c / 16) ∷ hex_digit (c % 16) ∷ rest) ≡ next c rest
unfolding unescape_sequence unescape_hex common_escape
hex_step c rest pos lt = ground (arith, parse_hex-digits c lt)

escape_step :
    (c : ℕ) (rest : List ℕ)
    → 0 < c
    → c < 256
    → unescape_step 92 (escape_tail c ++ rest) ≡ next c rest
unfolding unescape_step unescape_sequence common_escape escape_tail
escape_step c rest pos lt = ground (arith, hex_step c rest pos lt)

plain_step :
    (first final name : Bool) (c : ℕ) (rest : List ℕ)
    → is_plain first final name c ≡ true
    → unescape_step c rest ≡ next c rest
unfolding unescape_step is_plain
plain_step first final name c rest plain = ground arith

no_fuel :
    (first name : Bool) (c : ℕ) (cs : List ℕ) → ¬ (length (write_escaped first name (c ∷ cs)) ≤ 0)
unfolding write_escaped
no_fuel first name c cs le = elim (Bool-cases (is_plain first (is_nil cs) name c)) [
  | inl plain ↦ ground (arith, plain)
  | inr coded ↦ ground (arith, coded)
]

unescape_loop-write_escaped :
    (k : ℕ) (first name : Bool) (s : List ℕ)
    → IsString s
    → length (write_escaped first name s) ≤ k
    → unescape_loop k (write_escaped first name s) ≡ text s
unfolding unescape_loop write_escaped
unescape_loop-write_escaped k first name [] v le = ground arith
unescape_loop-write_escaped zero first name (c ∷ cs) (pos, lt, v) le =
    absurd (no_fuel first name c cs le)
unescape_loop-write_escaped (suc k) first name (c ∷ cs) (pos, lt, v) le =
    let rest = write_escaped false name cs in
    let next_one = λ (e : length rest ≤ k). unescape_loop-write_escaped k false name cs v e in
    elim (Bool-cases (is_plain first (is_nil cs) name c)) [
      | inl plain ↦
          let step = plain_step first (is_nil cs) name c rest plain in
          rw (unescape_loop, write_escaped, plain, step, next_one (ground (arith, plain))) refl
      | inr coded ↦
          let step = escape_step c rest pos lt in
          let more = length-append (escape_tail c) rest in
          rw (unescape_loop, write_escaped, coded, step, next_one (ground (arith, coded, more)))
            refl
    ]

-- `conf_file_unescape_string` reads back what `conf_file_write_escaped` writes, without a warning, for
-- every string of bytes other than NUL, as a name or as a value.
pub unescape_string-write_escaped :
    (name : Bool) (s : List ℕ) → IsString s → unescape_string (write_escaped true name s) ≡ text s
unfolding unescape_string
unescape_string-write_escaped name s v =
    unescape_loop-write_escaped (length (write_escaped true name s)) true name s v (omega arith)
