-- ===== src/Config.antt =====
-- config.c: the options of a daemon, their checks and their values. The options are an argument, with the
-- functions that parse symbols; `strtol` and what reading the file gives are arguments too. Strings are
-- values here: which of them were allocated, and their freeing, is left out.
pub mod Checks
mod Tests
use daemonlib.Base.{
  ℕ, zero, suc, ◌+◌, ◌-◌, ◌*◌, ◌^◌, Bool, true, false, not, ◌&&◌, ◌||◌, Option, none, some, List,
  [], ◌∷◌, ◌++◌, length, map, take, drop, ltb, leb, ◌==◌, if◌then◌else◌,
}
use daemonlib.Base.Int.{ℤ, pos, negsuc, int_leb, int_ltb}
use daemonlib.ConfFile.{ConfFile, same_name, conf_file_get_option_value}

-- What `strtol` gives: whether it leaves `errno` alone, the number, and how many characters it reads.
pub record Parsed : Type 0 where
  pub fine : Bool
  pub number : ℤ
  pub read : ℕ

-- `parse_int(string, NULL, 10, &value)` of utils.c.
pub parse_int : (List ℕ → Parsed) → List ℕ → Option ℤ
parse_int strtol string =
    let p = strtol string in
    if not p.fine
    then none
    else (if not (p.read == length string)
        then none
        else (if p.read == 0
            then none
            else (if int_ltb p.number (negsuc (2 ^ 31 - 1)) || int_ltb (pos (2 ^ 31 - 1)) p.number
                then none
                else some p.number)))

pub data ConfigOptionType : Type 0 where
  option_string option_integer option_boolean option_symbol : ConfigOptionType

-- A string is `none` for `NULL`.
pub record ConfigOptionValue : Type 0 where
  pub string : Option (List ℕ)
  pub integer : ℤ
  pub boolean : Bool
  pub symbol : ℤ

-- `string_max_length` is `none` where the source has -1.
pub record ConfigOption : Type 0 where
  pub name : List ℕ
  pub type : ConfigOptionType
  pub string_min_length : ℕ
  pub string_max_length : Option ℕ
  pub integer_min : ℤ
  pub integer_max : ℤ
  pub symbol_parse_value : List ℕ → Option ℤ
  pub default_value : ConfigOptionValue
  pub value : ConfigOptionValue

-- `config_options`, `_has_error`, `_has_warning` and `_using_default_values`.
pub record Config : Type 0 where
  pub options : List ConfigOption
  pub has_error : Bool
  pub has_warning : Bool
  pub using_default_values : Bool

abbrev pub reset_option : ConfigOption → ConfigOption
reset_option o = record o { value = o.default_value }

pub config_reset : Config → Config
config_reset c = record c { options = map reset_option c.options; using_default_values = true }

-- What a value does to an option: the option, with or without a warning, or a failed `strdup`.
pub data Checked : Type 0 where
  fine warned failed : ConfigOption → Checked

abbrev pub too_long : Option ℕ → ℕ → Bool
too_long none n = false
too_long (some most) n = ltb most n

abbrev pub set_value : ConfigOption → ConfigOptionValue → Checked
set_value o v = fine (record o { value = v })

-- A string; `memory` tells whether `strdup` succeeds.
pub check_string : (List ℕ → Bool) → List ℕ → ConfigOption → Checked
check_string memory value o =
    let v = o.value in
    if ltb (length value) o.string_min_length
    then warned o
    else (if too_long o.string_max_length (length value)
        then warned o
        else (if ltb 0 (length value)
            then (if memory value
                then set_value o (record v { string = some value })
                else failed (record o { value = record v { string = o.default_value.string } }))
            else fine o))

abbrev pub check_number : Option ℤ → ConfigOption → Checked
check_number none o = warned o
check_number (some n) o =
    let v = o.value in
    if int_ltb n o.integer_min || int_ltb o.integer_max n
    then warned o
    else set_value o (record v { integer = n })

-- "on" and "off" in any case.
pub check_boolean : List ℕ → ConfigOption → Checked
check_boolean value o =
    let v = o.value in
    if same_name value (111 ∷ 110 ∷ [])
    then set_value o (record v { boolean = true })
    else (if same_name value (111 ∷ 102 ∷ 102 ∷ [])
        then set_value o (record v { boolean = false })
        else warned o)

abbrev pub check_symbol : Option ℤ → ConfigOption → Checked
check_symbol none o = warned o
check_symbol (some n) o = let v = o.value in set_value o (record v { symbol = n })

-- The options, and whether there was a warning and an error.
abbrev pub Loaded : Type 0
Loaded = List ConfigOption × Bool × Bool

abbrev pub load_next : Checked → List ConfigOption → Loaded → Loaded
load_next (fine o) os (rest, warning, error) = (o ∷ rest, warning, error)
load_next (warned o) os (rest, warning, error) = (o ∷ rest, true, error)
load_next (failed o) os rest = (o ∷ os, false, true)

module _ (strtol : List ℕ → Parsed) (memory : List ℕ → Bool) where
  -- The `switch` over the type of the option.
  pub check_option : List ℕ → ConfigOption → Checked
  check_option value o = elim o.type [
    | option_string ↦ check_string memory value o
    | option_integer ↦ check_number (parse_int strtol value) o
    | option_boolean ↦ check_boolean value o
    | option_symbol ↦ check_symbol (o.symbol_parse_value value) o
  ]

  -- The loop over the options; a failed `strdup` ends it.
  pub load_loop : ConfFile → List ConfigOption → Loaded
  load_loop file [] = ([], false, false)
  load_loop file (o ∷ os) =
      let rest = load_loop file os in
      elim (conf_file_get_option_value o.name file) [
        | none ↦ load_next (fine o) os rest
        | some value ↦ load_next (check_option value o) os rest
      ]

-- What conf_file_read gives: the file, or whether it is missing; and whether it warned.
pub data ReadResult : Type 0 where
  not_created : ReadResult
  not_read : Bool → Bool → ReadResult
  was_read : ConfFile → Bool → ReadResult

abbrev pub with_loaded : Bool → Loaded → Config → Config
with_loaded complained (options, warning, error) c = record c {
  options = options;
  has_warning = complained || warning;
  has_error = error;
  using_default_values = false;
}

-- `none` stands for no file name.
pub config_init : (List ℕ → Parsed) → (List ℕ → Bool) → Option ReadResult → Config → Config
config_init strtol memory result c =
    let c' = config_reset (record c { has_error = false; has_warning = false }) in
    elim result [
      | none ↦ c'
      | some r ↦ elim r [
        | not_created ↦ record c' { has_error = true }
        | not_read missing complained ↦ record c' {
          has_error = not missing;
          has_warning = complained;
        }
        | was_read file complained ↦
            with_loaded complained (load_loop strtol memory file c'.options) c'
      ]
    ]

-- `strcmp(a, b) == 0`
pub same_text : List ℕ → List ℕ → Bool
same_text [] [] = true
same_text (a ∷ as_) (b ∷ bs) = let rest = same_text as_ bs in a == b && rest
same_text [] (b ∷ bs) = false
same_text (a ∷ as_) [] = false

-- `_invalid.value`
abbrev pub invalid_value : ConfigOptionValue
invalid_value = record { string = none; integer = pos 0; boolean = false; symbol = negsuc 0 }

abbrev pub find_value : List ℕ → List ConfigOption → ConfigOptionValue
find_value name [] = invalid_value
find_value name (o ∷ os) = if same_text o.name name then o.value else find_value name os

pub config_get_option_value : List ℕ → Config → ConfigOptionValue
config_get_option_value name c = find_value name c.options
