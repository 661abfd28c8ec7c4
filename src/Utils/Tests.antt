-- ===== src/Utils/Tests.antt =====
-- Strings and byte order of utils.c at work.
use daemonlib.Base.{ℕ, ◌≡◌, refl, false, none, List, [], ◌∷◌, ◌++◌, ◌-◌, length, take, arith}
use daemonlib.Utils.{
  IsText, text, string_copy, string_append, strcasestr, search_loop, uint32_to_le,
}
use daemonlib.Utils.Buffers.{string_append_lem}
use daemonlib.Utils.Search.{Occurs, strcasestr-Occurs, strcasestr_single}

-- Four bytes with the string "a" in them.
abbrev buffer : List ℕ
buffer = 97 ∷ 0 ∷ 9 ∷ 9 ∷ []

abbrev letters : List ℕ
letters = 98 ∷ 67 ∷ 100 ∷ []

letters-IsText : IsText letters
unfolding IsText
letters-IsText =
    ((λ e. ground (arith, e)), ((λ e. ground (arith, e)), ((λ e. ground (arith, e)), tt)))

string_append_lem_example :
    text (string_append buffer 3 letters)
    ≡ text buffer ++ take (3 - length (text buffer) - 1) letters
string_append_lem_example = string_append_lem buffer 3 letters (omega arith) letters-IsText

string_append_run : string_append buffer 3 letters ≡ 97 ∷ 98 ∷ 0 ∷ 9 ∷ []
unfolding string_append text
string_append_run = refl

strcasestr-Occurs_example : Occurs letters (99 ∷ 68 ∷ []) 1
unfolding search_loop
strcasestr-Occurs_example = strcasestr-Occurs letters (99 ∷ 68 ∷ []) 1 letters-IsText refl

strcasestr_single_example : strcasestr letters (98 ∷ []) ≡ none
strcasestr_single_example = strcasestr_single letters 98 letters-IsText

-- Searching does not go back: "ab" is not found in "aab".
no_way_back : strcasestr (97 ∷ 97 ∷ 98 ∷ []) (97 ∷ 98 ∷ []) ≡ none
unfolding search_loop
no_way_back = refl

byte_order : uint32_to_le false 305419896 ≡ 2018915346
byte_order = refl

string_copy_run : string_copy buffer 3 letters none ≡ 98 ∷ 67 ∷ 0 ∷ 9 ∷ []
unfolding string_copy
string_copy_run = refl
