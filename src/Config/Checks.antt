-- ===== src/Config/Checks.antt =====
-- config.c: the values that options have after config_init.
use daemonlib.Base.{
  ℕ, ◌≤◌, ◌<◌, ◌≡◌, refl, ◌⊎◌, inl, inr, Bool, true, false, ◌||◌, Option, none, some, List, [], ◌∷◌,
  length, map, ltb, if◌then◌else◌, Bool-cases, Option-cases, arith,
}
use daemonlib.Base.Int.{ℤ, int_ltb}
use daemonlib.ConfFile.{ConfFile, same_name, conf_file_get_option_value}
use daemonlib.Config.{
  Parsed, parse_int, ConfigOptionType, option_string, option_integer, option_boolean, option_symbol,
  ConfigOption, Config, reset_option, config_reset, Checked, fine, warned, failed, too_long,
  set_value, check_string, check_number, check_boolean, check_symbol, check_option, Loaded,
  load_next, load_loop, ReadResult, not_created, not_read, was_read, config_init,
}

-- The default, or a string whose length is in the range.
abbrev pub IsString : ConfigOption → Type 0
IsString o =
    (o.value.string ≡ o.default_value.string)
    ⊎ ((s : List ℕ) × (o.value.string ≡ some s)
        × (0 < length s)
        × (o.string_min_length ≤ length s)
        × (too_long o.string_max_length (length s) ≡ false))

-- The default, or a number in the range.
abbrev pub IsInteger : ConfigOption → Type 0
IsInteger o =
    (o.value.integer ≡ o.default_value.integer)
    ⊎ ((int_ltb o.value.integer o.integer_min || int_ltb o.integer_max o.value.integer) ≡ false)

-- The default, or what some text is parsed to.
abbrev pub IsSymbol : ConfigOption → Type 0
IsSymbol o =
    (o.value.symbol ≡ o.default_value.symbol)
    ⊎ ((s : List ℕ) × (o.symbol_parse_value s ≡ some o.value.symbol))

-- The value of its type is valid, and the others are the defaults.
abbrev pub IsSound : ConfigOptionType → ConfigOption → Type 0
IsSound option_string o =
    IsString o
    × (o.value.integer ≡ o.default_value.integer)
    × (o.value.boolean ≡ o.default_value.boolean)
    × (o.value.symbol ≡ o.default_value.symbol)
IsSound option_integer o =
    (o.value.string ≡ o.default_value.string)
    × IsInteger o
    × (o.value.boolean ≡ o.default_value.boolean)
    × (o.value.symbol ≡ o.default_value.symbol)
IsSound option_boolean o =
    (o.value.string ≡ o.default_value.string)
    × (o.value.integer ≡ o.default_value.integer)
    × (o.value.symbol ≡ o.default_value.symbol)
IsSound option_symbol o =
    (o.value.string ≡ o.default_value.string)
    × (o.value.integer ≡ o.default_value.integer)
    × (o.value.boolean ≡ o.default_value.boolean)
    × IsSymbol o

abbrev pub outcome : Checked → ConfigOption
outcome (fine o) = o
outcome (warned o) = o
outcome (failed o) = o

default-IsSound : (t : ConfigOptionType) (o : ConfigOption) → IsSound t (reset_option o)
default-IsSound option_string o = (inl refl, refl, refl, refl)
default-IsSound option_integer o = (refl, inl refl, refl, refl)
default-IsSound option_boolean o = (refl, refl, refl)
default-IsSound option_symbol o = (refl, refl, refl, inl refl)

check_string-IsSound :
    (memory : List ℕ → Bool) (value : List ℕ) (o : ConfigOption)
    → IsSound option_string (outcome (check_string memory value (reset_option o)))
unfolding check_string
check_string-IsSound memory value o = elim (Bool-cases (ltb (length value) o.string_min_length)) [
  | inl short ↦ rw short (inl refl, refl, refl, refl)
  | inr enough ↦ elim (Bool-cases (too_long o.string_max_length (length value))) [
    | inl long ↦ rw (enough, long) (inl refl, refl, refl, refl)
    | inr fits ↦ elim (Bool-cases (ltb 0 (length value))) [
      | inr empty ↦ rw (enough, fits, empty) (inl refl, refl, refl, refl)
      | inl given ↦ elim (Bool-cases (memory value)) [
        | inr full ↦ rw (enough, fits, given, full) (inl refl, refl, refl, refl)
        | inl room ↦
            rw (enough, fits, given, room)
              (
                inr (value, refl, ground (arith, given), ground (arith, enough), fits),
                refl,
                refl,
                refl,
              )
      ]
    ]
  ]
]

check_number-IsSound :
    (n : Option ℤ) (o : ConfigOption)
    → IsSound option_integer (outcome (check_number n (reset_option o)))
check_number-IsSound none o = (refl, inl refl, refl, refl)
check_number-IsSound (some n) o =
    elim (Bool-cases (int_ltb n o.integer_min || int_ltb o.integer_max n)) [
      | inl outside ↦ rw outside (refl, inl refl, refl, refl)
      | inr inside ↦ rw inside (refl, inr inside, refl, refl)
    ]

check_boolean-IsSound :
    (value : List ℕ) (o : ConfigOption)
    → IsSound option_boolean (outcome (check_boolean value (reset_option o)))
unfolding check_boolean
check_boolean-IsSound value o = elim (Bool-cases (same_name value (111 ∷ 110 ∷ []))) [
  | inl on ↦ rw on (refl, refl, refl)
  | inr other ↦ elim (Bool-cases (same_name value (111 ∷ 102 ∷ 102 ∷ []))) [
    | inl off ↦ rw (other, off) (refl, refl, refl)
    | inr neither ↦ rw (other, neither) (refl, refl, refl)
  ]
]

check_symbol-IsSound :
    (value : List ℕ) (o : ConfigOption)
    → IsSound option_symbol (outcome (check_symbol (o.symbol_parse_value value) (reset_option o)))
check_symbol-IsSound value o = elim (Option-cases (o.symbol_parse_value value)) [
  | inl wrong ↦ rw wrong (refl, refl, refl, inl refl)
  | inr (n, parsed) ↦ rw parsed (refl, refl, refl, inr (value, parsed))
]

-- Nothing but the value is changed.
record Kept (o : ConfigOption) (c : Checked) : Type 0 where
  same : outcome c ≡ record o { value = (outcome c).value }

keep_if :
    (o : ConfigOption) (b : Bool) (c d : Checked)
    → Kept o c
    → Kept o d
    → Kept o (if b then c else d)
keep_if o true c d p q = p
keep_if o false c d p q = q

check_string-Kept :
    (memory : List ℕ → Bool) (value : List ℕ) (o : ConfigOption)
    → Kept o (check_string memory value o)
unfolding check_string
check_string-Kept memory value o =
    keep_if o (ltb (length value) o.string_min_length) (warned o) _ (record { same = refl })
      (keep_if o (too_long o.string_max_length (length value)) (warned o) _ (record { same = refl })
        (keep_if o (ltb 0 (length value)) _ (fine o)
          (keep_if o (memory value) (set_value o (record o.value { string = some value }))
            (failed (record o { value = record o.value { string = o.default_value.string } }))
            (record { same = refl }) (record { same = refl }))
          (record { same = refl })))

check_number-Kept : (n : Option ℤ) (o : ConfigOption) → Kept o (check_number n o)
check_number-Kept none o = (record { same = refl })
check_number-Kept (some n) o =
    keep_if o (int_ltb n o.integer_min || int_ltb o.integer_max n) (warned o)
      (set_value o (record o.value { integer = n })) (record { same = refl })
      (record { same = refl })

check_boolean-Kept : (value : List ℕ) (o : ConfigOption) → Kept o (check_boolean value o)
unfolding check_boolean
check_boolean-Kept value o =
    keep_if o (same_name value (111 ∷ 110 ∷ [])) (set_value o (record o.value { boolean = true })) _
      (record { same = refl })
      (keep_if o (same_name value (111 ∷ 102 ∷ 102 ∷ []))
        (set_value o (record o.value { boolean = false })) (warned o) (record { same = refl })
        (record { same = refl }))

check_symbol-Kept : (n : Option ℤ) (o : ConfigOption) → Kept o (check_symbol n o)
check_symbol-Kept none o = (record { same = refl })
check_symbol-Kept (some n) o = (record { same = refl })

check_option-IsSound :
    (strtol : List ℕ → Parsed) (memory : List ℕ → Bool) (value : List ℕ) (o : ConfigOption)
    → IsSound o.type (outcome (check_option strtol memory value (reset_option o)))
unfolding check_option
check_option-IsSound strtol memory value o =
    elim o.type
      as (λ t. IsSound t (
        outcome (elim t [
          | option_string ↦ check_string memory value (reset_option o)
          | option_integer ↦ check_number (parse_int strtol value) (reset_option o)
          | option_boolean ↦ check_boolean value (reset_option o)
          | option_symbol ↦ check_symbol (o.symbol_parse_value value) (reset_option o)
        ]))) [
          | option_string ↦ check_string-IsSound memory value o
          | option_integer ↦ check_number-IsSound (parse_int strtol value) o
          | option_boolean ↦ check_boolean-IsSound value o
          | option_symbol ↦ check_symbol-IsSound value o
        ]

check_option-Kept :
    (strtol : List ℕ → Parsed) (memory : List ℕ → Bool) (value : List ℕ) (o : ConfigOption)
    → Kept o (check_option strtol memory value o)
unfolding check_option
check_option-Kept strtol memory value o =
    elim o.type
      as (λ t. Kept o (elim t [
        | option_string ↦ check_string memory value o
        | option_integer ↦ check_number (parse_int strtol value) o
        | option_boolean ↦ check_boolean value o
        | option_symbol ↦ check_symbol (o.symbol_parse_value value) o
      ])) [
        | option_string ↦ check_string-Kept memory value o
        | option_integer ↦ check_number-Kept (parse_int strtol value) o
        | option_boolean ↦ check_boolean-Kept value o
        | option_symbol ↦ check_symbol-Kept (o.symbol_parse_value value) o
      ]

-- The options `os` with other values, all of them valid.
abbrev pub AreSound : List ConfigOption → List ConfigOption → Type 0
AreSound [] ps = ps ≡ []
AreSound (o ∷ os) ps =
    (p : ConfigOption) × (qs : List ConfigOption) × (ps ≡ p ∷ qs)
    × (p ≡ record o { value = p.value })
    × IsSound o.type p
    × AreSound os qs

defaults-AreSound : (os : List ConfigOption) → AreSound os (map reset_option os)
defaults-AreSound [] = refl
defaults-AreSound (o ∷ os) = (
  reset_option o,
  map reset_option os,
  refl,
  refl,
  default-IsSound o.type o,
  defaults-AreSound os,
)

load_next-AreSound :
    (c : Checked) (o : ConfigOption) (os : List ConfigOption) (rest : Loaded)
    → Kept (reset_option o) c
    → IsSound o.type (outcome c)
    → AreSound os rest.0
    → AreSound (o ∷ os) (load_next c (map reset_option os) rest).0
load_next-AreSound (fine p) o os (rest, warning, error) kept sound are =
    (p, rest, refl, kept.same, sound, are)
load_next-AreSound (warned p) o os (rest, warning, error) kept sound are =
    (p, rest, refl, kept.same, sound, are)
load_next-AreSound (failed p) o os rest kept sound are =
    (p, map reset_option os, refl, kept.same, sound, defaults-AreSound os)

load_loop-AreSound :
    (strtol : List ℕ → Parsed) (memory : List ℕ → Bool) (file : ConfFile) (os : List ConfigOption)
    → AreSound os (load_loop strtol memory file (map reset_option os)).0
unfolding load_loop
load_loop-AreSound strtol memory file [] = refl
load_loop-AreSound strtol memory file (o ∷ os) =
    let are = load_loop-AreSound strtol memory file os in
    let rest = load_loop strtol memory file (map reset_option os) in
    elim (Option-cases (conf_file_get_option_value o.name file)) [
      | inl absent ↦
          rw (load_loop, absent)
            (load_next-AreSound (fine (reset_option o)) o os rest (record { same = refl })
              (default-IsSound o.type o) are)
      | inr (value, given) ↦
          rw (load_loop, given)
            (load_next-AreSound (check_option strtol memory value (reset_option o)) o os rest
              (check_option-Kept strtol memory value (reset_option o))
              (check_option-IsSound strtol memory value o) are)
    ]

-- Whatever the file, whether it is read or not and whether memory runs out, every option has a valid
-- value afterwards: its default; or a string of the lengths that are allowed, an integer in the range,
-- a symbol that some text stands for. Nothing else of the options is changed, and the values of other
-- types are the defaults.
pub config_init-AreSound :
    (strtol : List ℕ → Parsed) (memory : List ℕ → Bool) (result : Option ReadResult) (c : Config)
    → AreSound c.options (config_init strtol memory result c).options
unfolding config_init config_reset
config_init-AreSound strtol memory none c = defaults-AreSound c.options
config_init-AreSound strtol memory (some not_created) c = defaults-AreSound c.options
config_init-AreSound strtol memory (some (not_read missing complained)) c =
    defaults-AreSound c.options
config_init-AreSound strtol memory (some (was_read file complained)) c =
    load_loop-AreSound strtol memory file c.options
