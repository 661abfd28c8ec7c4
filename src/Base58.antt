-- ===== src/Base58.antt =====
-- base58.c: 32-bit numbers as text in base 58. Characters are their ASCII codes.
mod Digits
mod RoundTrip
mod Overflow
mod Tests
use Prim.Native.String.{String}
use Prim.Native.Char.{code}
use daemonlib.Base.{
  ℕ, zero, suc, ◌+◌, ◌-◌, ◌*◌, ◌/◌, ◌%◌, ◌^◌, Option, none, some, List, [], ◌∷◌, ◌++◌, length,
  replicate, get_or, ltb, ◌==◌, if◌then◌else◌,
}
use mathlib.Core.List.{reverse}
use mathlib.Core.Option

abbrev codes : String → List ℕ
codes String.[] = []
codes (String.◌∷◌ c s) = code c ∷ codes s

-- `_base58_alphabet`
abbrev pub alphabet : List ℕ
alphabet = codes "123456789abcdefghijkmnopqrstuvwxyzABCDEFGHJKLMNPQRSTUVWXYZ"

abbrev pub base58_max_length : ℕ
base58_max_length = 8

-- The digits go to `reverse`, lowest first; `room` is the number of cells left there, and `none` is a
-- write behind its end.
pub encode_loop : ℕ → ℕ → List ℕ → Option (List ℕ)
encode_loop zero value digits = none
encode_loop (suc room) value digits =
    let rest = encode_loop room (value / 58) (digits ++ (get_or alphabet (value % 58) 0 ∷ [])) in
    if ltb value 58 then some (digits ++ (get_or alphabet value 0 ∷ [])) else rest

-- The `base58_max_length` bytes at `base58` afterwards: the digits, highest first, and NULs.
pub base58_encode : ℕ → Option (List ℕ)
base58_encode value =
    Option.map (λ digits. reverse digits ++ replicate (base58_max_length - length digits) 0)
      (encode_loop base58_max_length value [])

pub data Result : Type 0 where
  ok : ℕ → Result
  einval erange : Result

-- The string that starts at a pointer into these bytes.
pub c_string : List ℕ → List ℕ
c_string [] = []
c_string (c ∷ cs) = if c == 0 then [] else c ∷ c_string cs

-- `strchr(alphabet, c) - alphabet`
pub index_of : List ℕ → ℕ → Option ℕ
index_of [] c = none
index_of (a ∷ as_) c = if a == c then some 0 else Option.map suc (index_of as_ c)

abbrev pub u32 : ℕ → ℕ
u32 n = n % 2 ^ 32

-- From the last character to the first, with the products and sums of `uint32_t`.
pub decode_loop : List ℕ → ℕ → ℕ → Result
decode_loop [] value base = ok value
decode_loop (c ∷ cs) value base = elim (index_of alphabet c) [
  | none ↦ einval
  | some k ↦
      if ltb (2 ^ 32 - 1 - u32 (k * base)) value
      then erange
      else decode_loop cs (u32 (value + u32 (k * base))) (u32 (base * 58))
]

pub base58_decode : List ℕ → Result
base58_decode bytes =
    if length (c_string bytes) == 0 then einval else decode_loop (reverse (c_string bytes)) 0 1
