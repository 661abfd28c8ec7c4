-- ===== src/ConfFile/Text/Spaces.antt =====
-- conf_file.c: escaped text has no white space at its ends and, in a name, no equal sign.
use daemonlib.Base.{
  ℕ, ◌<◌, ◌≡◌, ◌≢◌, refl, Bool, true, false, some, List, [], ◌∷◌, ◌++◌, append-nil, ◌==◌,
  if◌then◌else◌, Bool-cases, inl, inr, arith,
}
use daemonlib.ConfFile.Text.Escape.{IsString}
use daemonlib.ConfFile.Text.{
  hex_digit, escape_tail, is_plain, is_nil, write_escaped, text, unescape_loop, unescape_string,
  is_space, skip_spaces, cut_spaces, split,
}

pub cut_spaces-append_space :
    (c : ℕ) (xs : List ℕ) → is_space c ≡ true → cut_spaces (xs ++ (c ∷ [])) ≡ cut_spaces xs
unfolding cut_spaces
cut_spaces-append_space c [] white = ground (arith, white)
cut_spaces-append_space c (x ∷ xs) white = ground (arith, cut_spaces-append_space c xs white)

-- Text that ends in no white space keeps its end, whatever stands before it.
cut_spaces-append :
    (xs ys : List ℕ) → ys ≢ [] → cut_spaces ys ≡ ys → cut_spaces (xs ++ ys) ≡ xs ++ ys
unfolding cut_spaces
cut_spaces-append [] ys some_left e = e
cut_spaces-append (x ∷ []) [] some_left e = absurd (some_left refl)
cut_spaces-append (x ∷ []) (y ∷ ys) some_left e = ground (arith, e)
cut_spaces-append (x ∷ z ∷ xs) ys some_left e =
    ground (arith, cut_spaces-append (z ∷ xs) ys some_left e)

-- The characters for one character of the string.
abbrev pub piece : Bool → Bool → Bool → ℕ → List ℕ
piece first final name c = if is_plain first final name c then c ∷ [] else 92 ∷ escape_tail c

cut_spaces-escape_tail : (c : ℕ) → cut_spaces (92 ∷ escape_tail c) ≡ 92 ∷ escape_tail c
unfolding cut_spaces escape_tail hex_digit
cut_spaces-escape_tail c = ground arith

cut_spaces-piece :
    (first name : Bool) (c : ℕ) → cut_spaces (piece first true name c) ≡ piece first true name c
unfolding is_plain cut_spaces
cut_spaces-piece first name c = ground (arith, cut_spaces-escape_tail c)

write_escaped-ne :
    (first name : Bool) (c : ℕ) (cs : List ℕ) → write_escaped first name (c ∷ cs) ≢ []
unfolding write_escaped
write_escaped-ne first name c cs e = ground (arith, e)

-- Escaped text ends in no white space.
pub cut_spaces-write_escaped :
    (first name : Bool) (s : List ℕ)
    → cut_spaces (write_escaped first name s) ≡ write_escaped first name s
unfolding write_escaped
cut_spaces-write_escaped first name [] = unfold cut_spaces in refl
cut_spaces-write_escaped first name (c ∷ []) =
    rw (append-nil (piece first true name c)) (cut_spaces-piece first name c)
cut_spaces-write_escaped first name (c ∷ d ∷ cs) =
    cut_spaces-append (piece first false name c) (write_escaped false name (d ∷ cs))
      (write_escaped-ne false name d cs) (cut_spaces-write_escaped false name (d ∷ cs))

-- Nor does it start with white space or a comment sign.
pub write_escaped-head :
    (name : Bool) (c : ℕ) (cs : List ℕ)
    → (h : ℕ) × (t : List ℕ) × (write_escaped true name (c ∷ cs) ≡ h ∷ t)
      × (is_space h ≡ false)
      × ((h == 35) ≡ false)
unfolding write_escaped is_plain
write_escaped-head name c cs = elim (Bool-cases (is_plain true (is_nil cs) name c)) [
  | inl plain ↦ (
    c,
    write_escaped false name cs,
    ground (arith, plain),
    ground (arith, plain),
    ground (arith, plain),
  )
  | inr coded ↦
      (92, escape_tail c ++ write_escaped false name cs, ground (arith, coded), refl, refl)
]

pub skip_spaces-head : (h : ℕ) (t : List ℕ) → is_space h ≡ false → skip_spaces (h ∷ t) ≡ h ∷ t
unfolding skip_spaces
skip_spaces-head h t dark = ground (arith, dark)

-- No equal sign in it.
abbrev pub NoEqual : List ℕ → Type 0
NoEqual [] = Unit {0}
NoEqual (c ∷ cs) = ((c == 61) ≡ false) × NoEqual cs

pub NoEqual-append : (xs ys : List ℕ) → NoEqual xs → NoEqual ys → NoEqual (xs ++ ys)
NoEqual-append [] ys n m = m
NoEqual-append (x ∷ xs) ys (e, n) m = (e, NoEqual-append xs ys n m)

pub split-append : (xs rest : List ℕ) → NoEqual xs → split (xs ++ (61 ∷ rest)) ≡ some (xs, rest)
unfolding split
split-append [] rest n = ground arith
split-append (x ∷ xs) rest (e, n) = ground (arith, e, split-append xs rest n)

NoEqual-escape_tail : (c : ℕ) → c < 256 → NoEqual (escape_tail c)
unfolding escape_tail hex_digit
NoEqual-escape_tail c lt = ground arith

NoEqual-piece : (first final : Bool) (c : ℕ) → c < 256 → NoEqual (piece first final true c)
unfolding is_plain
NoEqual-piece first final c lt = elim (Bool-cases (is_plain first final true c)) [
  | inl plain ↦ rw plain (ground (arith, plain), tt)
  | inr coded ↦ rw coded (refl, NoEqual-escape_tail c lt)
]

-- An escaped name has no equal sign.
pub NoEqual-write_escaped :
    (first : Bool) (s : List ℕ) → IsString s → NoEqual (write_escaped first true s)
unfolding write_escaped
NoEqual-write_escaped first [] v = tt
NoEqual-write_escaped first (c ∷ cs) (pos, lt, v) =
    NoEqual-append (piece first (is_nil cs) true c) (write_escaped false true cs)
      (NoEqual-piece first (is_nil cs) c lt) (NoEqual-write_escaped false cs v)

pub skip_spaces-space : (xs : List ℕ) → skip_spaces (32 ∷ xs) ≡ skip_spaces xs
unfolding skip_spaces
skip_spaces-space xs = refl

-- Nothing but the end of the line.
pub unescape_nothing : unescape_string (cut_spaces (skip_spaces [])) ≡ text []
unfolding unescape_string unescape_loop cut_spaces skip_spaces
unescape_nothing = refl

pub skip_spaces-nil : skip_spaces [] ≡ []
unfolding skip_spaces
skip_spaces-nil = refl
