-- ===== src/ConfFile/Tests.antt =====
-- conf_file.c: a file of three lines, and the theorems at it.
use daemonlib.Base.{◌≡◌, some, [], ◌∷◌, if◌then◌else◌}
use daemonlib.ConfFile.{
  ConfFile, raw, option, same_name, conf_file_set_option_value, conf_file_get_option_value,
}
use daemonlib.Base.{ℕ, List}
use daemonlib.ConfFile.Options.{conf_file_get-set}

-- `ab = x`, a comment, and `AB = y`.
abbrev three_lines : ConfFile
three_lines =
    option (97 ∷ 98 ∷ []) (120 ∷ []) ∷ raw (35 ∷ []) ∷ option (65 ∷ 66 ∷ []) (121 ∷ []) ∷ []

abbrev no_text : List ℕ
no_text = []

conf_file_get-set_example :
    conf_file_get_option_value
      (97 ∷ 66 ∷ [])
      (conf_file_set_option_value (65 ∷ 98 ∷ []) (122 ∷ []) three_lines)
    ≡ (if same_name (65 ∷ 98 ∷ []) (97 ∷ 66 ∷ [])
        then some (122 ∷ [])
        else conf_file_get_option_value (97 ∷ 66 ∷ []) three_lines)
conf_file_get-set_example = conf_file_get-set (65 ∷ 98 ∷ []) (122 ∷ []) (97 ∷ 66 ∷ []) three_lines

-- A comment and `#= = x`.
abbrev two_lines : ConfFile
two_lines = raw (35 ∷ []) ∷ option (35 ∷ 61 ∷ []) (120 ∷ []) ∷ []
