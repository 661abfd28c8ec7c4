-- ===== src/Utils.antt =====
-- utils.c: strings in buffers, byte order and searching. A buffer is its bytes and a string is its characters
-- without the NUL.
pub mod Buffers
pub mod Search
pub mod Endian
mod Tests
use daemonlib.Base.{
  ℕ, zero, suc, ◌≡◌, ◌≢◌, ◌+◌, ◌-◌, ◌*◌, ◌/◌, ◌%◌, ◌^◌, Bool, true, false, not, ◌&&◌, ◌||◌, Option,
  none, some, List, [], ◌∷◌, ◌++◌, length, take, drop, get_or, replicate, ltb, leb, ◌==◌,
  if◌then◌else◌,
}

-- `strlen` stops at the NUL, or where the buffer ends.
unfoldable pub text : List ℕ → List ℕ
text [] = []
text (c ∷ cs) = let rest = text cs in if c == 0 then [] else c ∷ rest

-- A string has no NUL in it.
unfoldable pub IsText : List ℕ → Type 0
IsText [] = Unit {0}
IsText (c ∷ cs) = (c ≢ 0) × IsText cs

-- The bytes that `strncpy` writes.
abbrev pub strncpy : List ℕ → ℕ → List ℕ
strncpy source n = take n source ++ replicate (n - length source) 0

-- Bytes written into a buffer from an offset on.
abbrev pub put : List ℕ → ℕ → List ℕ → List ℕ
put buffer offset bytes = take offset buffer ++ (bytes ++ drop (offset + length bytes) buffer)

-- How much `string_copy` copies; `none` stands for a negative `source_length`.
abbrev pub copy_length : ℕ → Option ℕ → ℕ
copy_length target_length none = target_length - 1
copy_length target_length (some n) = if ltb n (target_length - 1) then n else target_length - 1

-- A negative `target_length` is treated as 0.
unfoldable pub string_copy : List ℕ → ℕ → List ℕ → Option ℕ → List ℕ
string_copy target target_length source source_length =
    let n = copy_length target_length source_length in
    if target_length == 0 then target else put (put target 0 (strncpy source n)) n (0 ∷ [])

unfoldable pub string_append : List ℕ → ℕ → List ℕ → List ℕ
string_append target target_length source =
    let offset = length (text target) in
    if target_length == 0
    then target
    else (if leb (target_length - 1) offset
        then target
        else put (put target offset (strncpy source (target_length - offset - 1)))
            (target_length - 1) (0 ∷ []))

-- `toupper`, in the C locale.
abbrev pub toupper : ℕ → ℕ
toupper c = if leb 97 c && leb c 122 then c - 32 else c

-- The loop of `strcasestr`: `np` and `startn` are there while a part of the needle has been found. The end of
-- the needle reads as NUL.
unfoldable pub search_loop : List ℕ → ℕ → Option (List ℕ × ℕ) → List ℕ → Option ℕ
search_loop [] p found needle = none
search_loop (c ∷ cs) p none needle =
    let starts = search_loop cs (suc p) (some (drop 1 needle, p)) needle in
    let rest = search_loop cs (suc p) none needle in
    if toupper c == toupper (get_or needle 0 0) then starts else rest
search_loop (c ∷ cs) p (some (np, startn)) needle =
    let continues = search_loop cs (suc p) (some (drop 1 np, startn)) needle in
    let rest = search_loop cs (suc p) none needle in
    if toupper c == toupper (get_or np 0 0)
    then (if length (drop 1 np) == 0 then some startn else continues)
    else rest

abbrev pub strcasestr : List ℕ → List ℕ → Option ℕ
strcasestr haystack needle = search_loop haystack 0 none needle

-- The number in four bytes of memory.
abbrev pub word : (little_endian : Bool) → (b0 b1 b2 b3 : ℕ) → ℕ
word true b0 b1 b2 b3 = b0 + 256 * b1 + 65536 * b2 + 16777216 * b3
word false b0 b1 b2 b3 = b3 + 256 * b2 + 65536 * b1 + 16777216 * b0

-- The byte at a place in the memory of a number.
abbrev pub byte : (little_endian : Bool) → ℕ → ℕ → ℕ
byte true i x = x / 256 ^ i % 256
byte false i x = x / 256 ^ (3 - i) % 256

abbrev pub uint32_to_le : (little_endian : Bool) → ℕ → ℕ
uint32_to_le e native =
    word e (native % 256) (native / 2 ^ 8 % 256) (native / 2 ^ 16 % 256) (native / 2 ^ 24 % 256)

-- The bytes are apart, so that `|` adds.
abbrev pub uint32_from_le : (little_endian : Bool) → ℕ → ℕ
uint32_from_le e value =
    byte e 3 value * 2 ^ 24 + byte e 2 value * 2 ^ 16 + byte e 1 value * 2 ^ 8 + byte e 0 value
