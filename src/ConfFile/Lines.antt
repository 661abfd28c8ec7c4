-- ===== src/ConfFile/Lines.antt =====
-- conf_file.c: a line that was written reads back.
use daemonlib.Base.{
  ℕ, ◌≡◌, ◌≢◌, refl, sym, ap, ◌∙◌, true, false, none, some, List, [], ◌∷◌, ◌++◌, append_assoc, ◌==◌,
}
use daemonlib.ConfFile.{option, parse_line, write_line}
use daemonlib.ConfFile.Text.{
  text, unescape_string, write_escaped, is_space, skip_spaces, cut_spaces, split,
}
use daemonlib.ConfFile.Text.Escape.{IsString, unescape_string-write_escaped}
use daemonlib.ConfFile.Text.Spaces.{
  cut_spaces-append_space, cut_spaces-write_escaped, write_escaped-head, skip_spaces-head,
  NoEqual-append, split-append, NoEqual-write_escaped, skip_spaces-space, unescape_nothing,
}

-- What a line with a name, an equal sign and text behind it parses to.
parse_line-split :
    (h : ℕ) (t before behind : List ℕ) (m : ℕ) (ms n v : List ℕ)
    → is_space h ≡ false
    → (h == 35) ≡ false
    → split (h ∷ t) ≡ some (before, behind)
    → cut_spaces before ≡ m ∷ ms
    → unescape_string (m ∷ ms) ≡ text n
    → unescape_string (cut_spaces (skip_spaces behind)) ≡ text v
    → parse_line (h ∷ t) ≡ (option n v, none)
unfolding parse_line
parse_line-split h t before behind m ms n v dark code cut name_ name_text value_text =
    let start = skip_spaces-head h t dark in
    rw (parse_line, start, code, cut, name_, name_text, value_text) refl

-- The text behind the equal sign.
abbrev behind_of : List ℕ → List ℕ
behind_of [] = []
behind_of (c ∷ cs) = 32 ∷ write_escaped true false (c ∷ cs)

write_line-parts :
    (n v : List ℕ)
    → write_line (option n v) ≡ (write_escaped true true n ++ (32 ∷ [])) ++ (61 ∷ behind_of v)
unfolding write_line
write_line-parts n [] = sym (append_assoc (write_escaped true true n) (32 ∷ []) (61 ∷ []))
write_line-parts n (c ∷ cs) =
    sym (append_assoc (write_escaped true true n) (32 ∷ []) (61 ∷ behind_of (c ∷ cs)))

behind_text :
    (v : List ℕ) → IsString v → unescape_string (cut_spaces (skip_spaces (behind_of v))) ≡ text v
behind_text [] ok = unescape_nothing
behind_text (c ∷ cs) ok =
    let w = write_escaped true false (c ∷ cs) in
    let (h, t, e, dark, code) = write_escaped-head false c cs in
    let start : skip_spaces (32 ∷ w) ≡ w =
      skip_spaces-space w ∙ ap skip_spaces e ∙ skip_spaces-head h t dark ∙ sym e in
    ap (λ l. unescape_string (cut_spaces l)) start
    ∙ ap unescape_string (cut_spaces-write_escaped true false (c ∷ cs))
    ∙ unescape_string-write_escaped false (c ∷ cs) ok

-- A line that `conf_file_write` writes for an option is parsed to the same name and value, with no
-- warning, if both are bytes other than NUL and the name is not empty.
pub parse_line-write_line :
    (n v : List ℕ)
    → n ≢ []
    → IsString n
    → IsString v
    → parse_line (write_line (option n v)) ≡ (option n v, none)
parse_line-write_line [] v ne name_ok value_ok = absurd (ne refl)
parse_line-write_line (c ∷ cs) v ne name_ok value_ok =
    let w = write_escaped true true (c ∷ cs) in
    let (h, t, e, dark, code) = write_escaped-head true c cs in
    let line : write_line (option (c ∷ cs) v) ≡ h ∷ ((t ++ (32 ∷ [])) ++ (61 ∷ behind_of v)) =
      write_line-parts (c ∷ cs) v ∙ ap (λ l. (l ++ (32 ∷ [])) ++ (61 ∷ behind_of v)) e in
    let no_equal =
      NoEqual-append w (32 ∷ []) (NoEqual-write_escaped true (c ∷ cs) name_ok) (refl, tt) in
    let cut = split-append (w ++ (32 ∷ [])) (behind_of v) no_equal in
    let cut' : split (h ∷ ((t ++ (32 ∷ [])) ++ (61 ∷ behind_of v)))
        ≡ some (w ++ (32 ∷ []), behind_of v) =
      ap (λ l. split ((l ++ (32 ∷ [])) ++ (61 ∷ behind_of v))) (sym e) ∙ cut in
    let name_ : cut_spaces (w ++ (32 ∷ [])) ≡ h ∷ t =
      cut_spaces-append_space 32 w refl ∙ cut_spaces-write_escaped true true (c ∷ cs) ∙ e in
    let name_text =
      ap unescape_string (sym e) ∙ unescape_string-write_escaped true (c ∷ cs) name_ok in
    ap parse_line line
    ∙ parse_line-split h _ _ (behind_of v) h t (c ∷ cs) v dark code cut' name_ name_text
        (behind_text v value_ok)
