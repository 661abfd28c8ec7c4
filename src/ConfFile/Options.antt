-- ===== src/ConfFile/Options.antt =====
-- conf_file.c: the options of a file as a map from names, whatever their case, to values.
use daemonlib.Base.{
  ℕ, zero, suc, ◌≤◌, ◌<◌, ◌≡◌, refl, ap, ◌∙◌, true, Option, none, some, List, [], ◌∷◌, ◌++◌, length,
  get_elem?, if◌then◌else◌, Bool-cases, Option-cases, inl, inr, arith,
}
use daemonlib.ConfFile.{
  ConfFileLine, raw, option, ConfFile, same_name, is_option, with_value, set_loop,
  conf_file_set_option_value, value_of, get_loop, conf_file_get_option_value,
}

pub same_name_refl : (n : List ℕ) → same_name n n ≡ true
unfolding same_name
same_name_refl [] = refl
same_name_refl (c ∷ cs) = ground (arith, same_name_refl cs)

-- Two names that are the same are the same as the same others.
pub same_name_trans : (n m k : List ℕ) → same_name n m ≡ true → same_name n k ≡ same_name m k
unfolding same_name
same_name_trans [] [] k e = refl
same_name_trans [] (b ∷ bs) k e = absurd (ground arith)
same_name_trans (a ∷ as_) [] k e = absurd (ground arith)
same_name_trans (a ∷ as_) (b ∷ bs) [] e = refl
same_name_trans (a ∷ as_) (b ∷ bs) (c ∷ cs) e = ground (arith, same_name_trans as_ bs cs)

pub same_name_sym : (n m : List ℕ) → same_name n m ≡ same_name m n
unfolding same_name
same_name_sym [] [] = refl
same_name_sym [] (b ∷ bs) = refl
same_name_sym (a ∷ as_) [] = refl
same_name_sym (a ∷ as_) (b ∷ bs) = ground (arith, same_name_sym as_ bs)

-- The value of the last option of a name, by recursion on the lines.
abbrev pub latest : List ℕ → ConfFile → Option (List ℕ)
latest name [] = none
latest name (l ∷ ls) = elim (latest name ls) [
  | some v ↦ some v
  | none ↦ if is_option name l then value_of l else none
]

-- `latest` where the last option of the name gets another value, if there is one.
abbrev pub put_latest : List ℕ → List ℕ → ConfFile → Option ConfFile
put_latest name value [] = none
put_latest name value (l ∷ ls) = elim (put_latest name value ls) [
  | some ls' ↦ some (l ∷ ls')
  | none ↦ if is_option name l then some (with_value value l ∷ ls) else none
]

in_bounds : (ls : ConfFile) (i : ℕ) → i < length ls → (l : ConfFileLine) × (get_elem? ls i ≡ some l)
in_bounds [] i lt = absurd (omega arith)
in_bounds (l ∷ ls) zero lt = (l, refl)
in_bounds (l ∷ ls) (suc i) lt = in_bounds ls i (omega arith)

value_of-option :
    (name : List ℕ) (l : ConfFileLine)
    → is_option name l ≡ true
    → (v : List ℕ) × (value_of l ≡ some v)
value_of-option name (raw buffer) e = absurd (ground arith)
value_of-option name (option n v) e = (v, refl)

-- The loop reaches the first line last.
get_loop-suc :
    (i : ℕ) (name : List ℕ) (l : ConfFileLine) (ls : ConfFile)
    → i ≤ length ls
    → get_loop (suc i) name (l ∷ ls) ≡ elim (get_loop i name ls) as (λ x. Option (List ℕ)) [
      | some v ↦ some v
      | none ↦ if is_option name l then value_of l else none
    ]
unfolding get_loop
get_loop-suc zero name l ls le = ground arith
get_loop-suc (suc i) name l ls le =
    let (x, at) = in_bounds ls i le in
    let rest = get_loop-suc i name l ls (omega arith) in
    elim (Bool-cases (is_option name x)) [
      | inl here ↦
          let (v, has_value) = value_of-option name x here in ground (arith, at, here, has_value)
      | inr elsewhere ↦ rw (get_loop, at, elsewhere) rest
    ]

set_loop-suc :
    (i : ℕ) (name value : List ℕ) (l : ConfFileLine) (ls : ConfFile)
    → i ≤ length ls
    → set_loop (suc i) name value (l ∷ ls)
      ≡ elim (set_loop i name value ls) as (λ x. Option ConfFile) [
        | some ls' ↦ some (l ∷ ls')
        | none ↦ if is_option name l then some (with_value value l ∷ ls) else none
      ]
unfolding set_loop
set_loop-suc zero name value l ls le = ground arith
set_loop-suc (suc i) name value l ls le =
    let (x, at) = in_bounds ls i le in
    let rest = set_loop-suc i name value l ls (omega arith) in
    elim (Bool-cases (is_option name x)) [
      | inl here ↦ ground (arith, at, here)
      | inr elsewhere ↦ rw (set_loop, at, elsewhere) rest
    ]

get_loop-latest : (name : List ℕ) (ls : ConfFile) → get_loop (length ls) name ls ≡ latest name ls
unfolding get_loop
get_loop-latest name [] = refl
get_loop-latest name (l ∷ ls) =
    get_loop-suc (length ls) name l ls (omega arith) ∙ rw (get_loop-latest name ls) refl

set_loop-put_latest :
    (name value : List ℕ) (ls : ConfFile)
    → set_loop (length ls) name value ls ≡ put_latest name value ls
unfolding set_loop
set_loop-put_latest name value [] = refl
set_loop-put_latest name value (l ∷ ls) =
    set_loop-suc (length ls) name value l ls (omega arith)
    ∙ rw (set_loop-put_latest name value ls) refl

-- A name that no line has.
put_latest-none :
    (name value k : List ℕ) (ls : ConfFile)
    → put_latest name value ls ≡ none
    → latest k (ls ++ (option name value ∷ []))
      ≡ (if same_name name k then some value else latest k ls)
put_latest-none name value k [] e = ground arith
put_latest-none name value k (raw b ∷ ls) e = ground (arith, put_latest-none name value k ls)
put_latest-none name value k (option n v ∷ ls) e =
    ground
      (arith, put_latest-none name value k ls, same_name_trans n name k, same_name_trans name n k)

latest-missing :
    (name value k : List ℕ) (ls : ConfFile)
    → put_latest name value ls ≡ none
    → same_name name k ≡ true
    → latest k ls ≡ none
latest-missing name value k [] e same = refl
latest-missing name value k (raw b ∷ ls) e same = ground (arith, latest-missing name value k ls)
latest-missing name value k (option n v ∷ ls) e same = ground (
  arith,
  latest-missing name value k ls,
  same_name_trans n name k,
  same_name_trans name n k,
  same_name_trans name k n,
  same_name_sym n k,
  same_name_sym name n,
)

put_latest-some :
    (name value k : List ℕ) (ls ls' : ConfFile)
    → put_latest name value ls ≡ some ls'
    → latest k ls' ≡ (if same_name name k then some value else latest k ls)
put_latest-some name value k [] ls' e = absurd (ground arith)
put_latest-some name value k (raw b ∷ ls) ls' e = elim (Option-cases (put_latest name value ls)) [
  | inl missing ↦ absurd (ground (arith, missing))
  | inr (rest, found) ↦ ground (arith, found, put_latest-some name value k ls rest found)
]
put_latest-some name value k (option n v ∷ ls) ls' e =
    elim (Option-cases (put_latest name value ls)) [
      | inl missing ↦ ground (
        arith,
        missing,
        latest-missing name value k ls missing,
        same_name_trans n name k,
        same_name_trans name n k,
      )
      | inr (rest, found) ↦ ground (arith, found, put_latest-some name value k ls rest found)
    ]

conf_file_get-latest :
    (name : List ℕ) (ls : ConfFile) → conf_file_get_option_value name ls ≡ latest name ls
unfolding conf_file_get_option_value
conf_file_get-latest name ls = get_loop-latest name ls

set-missing :
    (name value : List ℕ) (ls : ConfFile)
    → put_latest name value ls ≡ none
    → conf_file_set_option_value name value ls ≡ ls ++ (option name value ∷ [])
unfolding conf_file_set_option_value
set-missing name value ls e =
    let none_found = set_loop-put_latest name value ls ∙ e in ground (arith, none_found)

set-found :
    (name value : List ℕ) (ls ls' : ConfFile)
    → put_latest name value ls ≡ some ls'
    → conf_file_set_option_value name value ls ≡ ls'
unfolding conf_file_set_option_value
set-found name value ls ls' e =
    let found = set_loop-put_latest name value ls ∙ e in ground (arith, found)

-- After an option was set, its name has the new value in whatever case it is written, and every other
-- name has the value it had before, whether the option was changed in place or added.
pub conf_file_get-set :
    (name value k : List ℕ) (ls : ConfFile)
    → conf_file_get_option_value k (conf_file_set_option_value name value ls)
      ≡ (if same_name name k then some value else conf_file_get_option_value k ls)
conf_file_get-set name value k ls = elim (Option-cases (put_latest name value ls)) [
  | inl missing ↦
      ap (conf_file_get_option_value k) (set-missing name value ls missing)
      ∙ conf_file_get-latest k (ls ++ (option name value ∷ []))
      ∙ rw (conf_file_get-latest k ls) (put_latest-none name value k ls missing)
  | inr (ls', found) ↦
      ap (conf_file_get_option_value k) (set-found name value ls ls' found)
      ∙ conf_file_get-latest k ls'
      ∙ rw (conf_file_get-latest k ls) (put_latest-some name value k ls ls' found)
]
