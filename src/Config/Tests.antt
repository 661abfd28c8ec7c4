-- ===== src/Config/Tests.antt =====
-- config.c: one option, and the theorem at it.
use daemonlib.Base.{ℕ, ◌≡◌, ◌-◌, refl, true, false, none, some, List, [], ◌∷◌}
use daemonlib.Base.Int.{pos, negsuc}
use daemonlib.ConfFile.{option}
use daemonlib.Config.{
  Parsed, parse_int, option_integer, ConfigOptionValue, Config, was_read, config_init,
}
use daemonlib.Config.Checks.{AreSound, config_init-AreSound}

-- Numbers of one digit.
abbrev one_digit : List ℕ → Parsed
one_digit [] = record { fine = true; number = pos 0; read = 0 }
one_digit (d ∷ ds) = record { fine = true; number = pos (d - 48); read = 1 }

parse_int_digit : parse_int one_digit (55 ∷ []) ≡ some (pos 7)
unfolding parse_int
parse_int_digit = refl

abbrev five : ConfigOptionValue
five = record { string = none; integer = pos 5; boolean = false; symbol = negsuc 0 }

-- `n`, from 0 to 8.
abbrev one_option : Config
one_option = record {
  options =
      record {
        name = 110 ∷ [];
        type = option_integer;
        string_min_length = 0;
        string_max_length = none;
        integer_min = pos 0;
        integer_max = pos 8;
        symbol_parse_value = λ s. none;
        default_value = five;
        value = five;
      }
      ∷ [];
  has_error = false;
  has_warning = false;
  using_default_values = false;
}

-- The line `n = 7`.
config_init-AreSound_example :
    AreSound one_option.options
      (config_init one_digit
        (λ s. true)
        (some (was_read (option (110 ∷ []) (55 ∷ []) ∷ []) false))
        one_option).options
config_init-AreSound_example =
    config_init-AreSound one_digit (λ s. true)
      (some (was_read (option (110 ∷ []) (55 ∷ []) ∷ []) false)) one_option
