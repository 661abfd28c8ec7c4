-- ===== src/Log/Filter/RoundTrip.antt =====
-- log.c: a debug filter that was written out is read back.
use daemonlib.Base.{
  ℕ, zero, suc, ◌+◌, ◌-◌, ◌*◌, ◌≤◌, ◌<◌, ◌≡◌, ◌≢◌, refl, sym, ap, ◌∙◌, ◌⊎◌, inl, inr, Bool, true,
  false, ◌&&◌, Option, none, some, List, [], ◌∷◌, ◌++◌, append-nil, append_assoc, map, length,
  length-append, ltb, leb, ◌==◌, if◌then◌else◌, arith,
}
use daemonlib.Log.Filter.{
  LogDebugFilter, max_debug_filters, max_source_name_size, scan_line, scan_name, groups_of,
  filter_of, skip_comma, parsed, parse_one, sign_of, parse_loop, DebugFilters, log_set_debug_filter,
}

-- What is written of a filter: the sign, the name, and the digits of the line.
pub record FilterText : Type 0 where
  pub included : Bool
  pub name : List ℕ
  pub digits : List ℕ

abbrev pub line_text : List ℕ → List ℕ
line_text [] = []
line_text (d ∷ ds) = 58 ∷ map (λ k. k + 48) (d ∷ ds)

abbrev pub print_one : FilterText → List ℕ
print_one t = (if t.included then 43 else 45) ∷ (t.name ++ line_text t.digits)

abbrev pub print : List FilterText → List ℕ
print [] = []
print (t ∷ []) = print_one t
print (t ∷ u ∷ ts) = print_one t ++ (44 ∷ print (u ∷ ts))

abbrev pub value : ℕ → List ℕ → ℕ
value line [] = line
value line (d ∷ ds) = value (line * 10 + d) ds

abbrev pub line_of : List ℕ → Option ℕ
line_of [] = none
line_of (d ∷ ds) = some (value 0 (d ∷ ds))

abbrev pub meaning : FilterText → LogDebugFilter
meaning t = filter_of t.included t.name (line_of t.digits) (groups_of t.name)

-- Digits behind a number that may be multiplied by ten.
abbrev pub AreDigits : ℕ → List ℕ → Type 0
AreDigits line [] = Unit {0}
AreDigits line (d ∷ ds) = (d < 10) × (line ≤ 100000) × AreDigits (line * 10 + d) ds

-- No comma and no colon.
abbrev pub IsName : List ℕ → Type 0
IsName [] = Unit {0}
IsName (c ∷ cs) = (c ≢ 44) × (c ≢ 58) × IsName cs

abbrev pub IsText : FilterText → Type 0
IsText t =
    IsName t.name
    × (0 < length t.name)
    × (length t.name ≤ max_source_name_size)
    × AreDigits 0 t.digits
    × ((t.digits ≡ []) ⊎ (0 < value 0 t.digits))

abbrev pub AreTexts : List FilterText → Type 0
AreTexts [] = Unit {0}
AreTexts (t ∷ ts) = IsText t × AreTexts ts

abbrev Stops : List ℕ → Type 0
Stops [] = Unit {0}
Stops (c ∷ cs) = c ≡ 44

scan_line_end : (line : ℕ) (rest : List ℕ) → Stops rest → scan_line line rest ≡ some (line, rest)
unfolding scan_line
scan_line_end line [] stop = refl
scan_line_end line (c ∷ cs) stop = ground (arith, stop)

scan_line-digits :
    (line : ℕ) (ds rest : List ℕ)
    → AreDigits line ds
    → Stops rest
    → scan_line line (map (λ k. k + 48) ds ++ rest) ≡ some (value line ds, rest)
unfolding scan_line
scan_line-digits line [] rest are stop = scan_line_end line rest stop
scan_line-digits line (d ∷ ds) rest (small, le, are) stop =
    let back : d + 48 - 48 ≡ d = omega arith in
    let a : (d + 48 == 44) ≡ false = ground arith in
    let b : (leb 48 (d + 48) && leb (d + 48) 57) ≡ true = ground (arith, small) in
    let c : ltb 100000 line ≡ false = ground (arith, le) in
    rw (scan_line, a, b, c, back) (scan_line-digits (line * 10 + d) ds rest are stop)

scan_name-name :
    (name cs tail : List ℕ)
    → IsName cs
    → length name + length cs ≤ max_source_name_size
    → scan_name name (cs ++ tail) ≡ scan_name (name ++ cs) tail
unfolding scan_name
scan_name-name name [] tail is le = rw (append-nil name) refl
scan_name-name name (c ∷ cs) tail (comma, colon, is) le =
    let a : (c == 44) ≡ false = ground (arith, comma) in
    let b : (c == 58) ≡ false = ground (arith, colon) in
    let d : leb max_source_name_size (length name) ≡ false = ground (arith, le) in
    rw (scan_name, a, b, d)
      (scan_name-name (name ++ (c ∷ [])) cs tail is (omega (arith, le, length-append name (c ∷ [])))
        ∙ ap (λ l. scan_name l tail) (append_assoc name (c ∷ []) cs))

scan_name-line :
    (name ds rest : List ℕ)
    → 0 < length name
    → AreDigits 0 ds
    → (ds ≡ []) ⊎ (0 < value 0 ds)
    → Stops rest
    → scan_name name (line_text ds ++ rest) ≡ some (name, line_of ds, rest)
unfolding scan_name
scan_name-line name [] [] given are ok stop = refl
scan_name-line name [] (c ∷ rest) given are ok stop = ground (arith, stop)
scan_name-line name (d ∷ ds) rest given are (inl empty) stop =
    absurd (omega (arith, ap length empty))
scan_name-line name (d ∷ ds) rest given are (inr positive) stop =
    let a : (length name == 0) ≡ false = ground (arith, given) in
    let b : (value 0 (d ∷ ds) == 0) ≡ false = ground (arith, positive) in
    rw (scan_name, a, scan_line-digits 0 (d ∷ ds) rest are stop, b) refl

parse_one-print :
    (t : FilterText) (rest rest' : List ℕ)
    → IsText t
    → Stops rest
    → skip_comma rest ≡ some rest'
    → parse_one t.included ((t.name ++ line_text t.digits) ++ rest) ≡ some (meaning t, rest')
parse_one-print t rest rest' (is, given, small, are, ok) stop skip =
    let a : (length t.name == 0) ≡ false = ground (arith, given) in
    let scanned : scan_name [] ((t.name ++ line_text t.digits) ++ rest)
        ≡ some (t.name, line_of t.digits, rest) =
      ap (scan_name []) (append_assoc t.name (line_text t.digits) rest)
      ∙ scan_name-name [] t.name (line_text t.digits ++ rest) is (omega (arith, small))
      ∙ scan_name-line t.name t.digits rest given are ok stop in
    ap (parsed t.included) scanned ∙ (rw (a, skip) refl)

sign_lem : (b : Bool) → sign_of (if b then 43 else 45) ≡ some b
sign_lem true = refl
sign_lem false = refl

parse_loop-step :
    (fuel : ℕ) (fs : List LogDebugFilter) (t : FilterText) (rest rest' : List ℕ)
    → IsText t
    → length fs < max_debug_filters
    → Stops rest
    → skip_comma rest ≡ some rest'
    → parse_loop (suc fuel) fs (print_one t ++ rest)
      ≡ parse_loop fuel (fs ++ (meaning t ∷ [])) rest'
unfolding parse_loop
parse_loop-step fuel fs t rest rest' is room stop skip =
    let a : leb max_debug_filters (length fs) ≡ false = ground (arith, room) in
    rw (parse_loop, a, sign_lem t.included, parse_one-print t rest rest' is stop skip) refl

skip_print :
    (t : FilterText) (ts : List FilterText)
    → skip_comma (44 ∷ print (t ∷ ts)) ≡ some (print (t ∷ ts))
skip_print t [] = refl
skip_print t (u ∷ ts) = refl

parse_loop_done : (fuel : ℕ) (fs : List LogDebugFilter) → parse_loop fuel fs [] ≡ some fs
unfolding parse_loop
parse_loop_done zero fs = refl
parse_loop_done (suc fuel) fs = refl

parse_loop-print :
    (ts : List FilterText) (fuel : ℕ) (fs : List LogDebugFilter)
    → AreTexts ts
    → length fs + length ts ≤ max_debug_filters
    → length ts ≤ fuel
    → parse_loop fuel fs (print ts) ≡ some (fs ++ map meaning ts)
parse_loop-print [] fuel fs are few enough = parse_loop_done fuel fs ∙ ap some (sym (append-nil fs))
parse_loop-print (t ∷ ts) zero fs are few enough = absurd (omega arith)
parse_loop-print (t ∷ []) (suc fuel) fs (is, are) few enough =
    ap (parse_loop (suc fuel) fs) (sym (append-nil (print_one t)))
    ∙ parse_loop-step fuel fs t [] [] is (omega (arith, few)) tt refl
    ∙ parse_loop_done fuel (fs ++ (meaning t ∷ []))
parse_loop-print (t ∷ u ∷ ts) (suc fuel) fs (is, are) few enough =
    parse_loop-step fuel fs t (44 ∷ print (u ∷ ts)) (print (u ∷ ts)) is (omega (arith, few)) refl
      (skip_print u ts)
    ∙ parse_loop-print (u ∷ ts) fuel (fs ++ (meaning t ∷ [])) are
        (omega (arith, few, length-append fs (meaning t ∷ []))) (omega (arith, enough))
    ∙ ap some (append_assoc fs (meaning t ∷ []) (map meaning (u ∷ ts)))

length-print : (ts : List FilterText) → length ts ≤ length (print ts)
length-print [] = omega arith
length-print (t ∷ []) = omega arith
length-print (t ∷ u ∷ ts) =
    omega (arith, length-print (u ∷ ts), length-append (print_one t) (44 ∷ print (u ∷ ts)))

-- At most 64 filters, written out with their signs, names and line numbers and separated by commas, are
-- all read back: the filters are set, and nothing is refused. Names have 1 to 64 characters and no comma
-- or colon, line numbers are not 0 and get a further digit only while they are at most 100000.
pub log_set_debug_filter-print :
    (ts : List FilterText) (d : DebugFilters)
    → AreTexts ts
    → length ts ≤ max_debug_filters
    → log_set_debug_filter (print ts) d
      ≡ (true, record { version = d.version + 1; filters = map meaning ts })
unfolding log_set_debug_filter
log_set_debug_filter-print ts d are few =
    rw (parse_loop-print ts (length (print ts)) [] are (omega (arith, few)) (length-print ts)) refl
