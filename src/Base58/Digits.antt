-- ===== src/Base58/Digits.antt =====
-- base58.c: the alphabet as a table, and the digits that the encoder writes.
use native.Mathlib.Nat.{pow-suc}
use daemonlib.Base.{
  ℕ, zero, suc, ◌/◌, ◌%◌, ◌^◌, ◌≤◌, ◌<◌, ◌≡◌, refl, ap, ◌∙◌, true, Option, none, some, List, [],
  ◌∷◌, ◌++◌, length, get_or, arith, ltb, ◌==◌, ltb→lt, Bool-cases, inl, inr, if◌then◌else◌, map,
  append_assoc,
}
use mathlib.Core.List.{reverse, reverse-cons}
use daemonlib.Base.Table.{check_all, check_all-holds}
use daemonlib.Base58.{alphabet, encode_loop, index_of, c_string}

abbrev pub char : ℕ → ℕ
char k = get_or alphabet k 0

abbrev position : Option ℕ → ℕ
position none = 58
position (some k) = k

position-eq : (o : Option ℕ) (k : ℕ) → (position o == k) ≡ true → k < 58 → o ≡ some k
position-eq none k h lt = absurd (ground arith)
position-eq (some j) k h lt = ground arith

table : check_all 58 (λ k. position (index_of alphabet (char k)) == k) ≡ true
unfolding check_all index_of
table = refl

-- Each of the 58 characters is found at its place.
pub index_of-char : (k : ℕ) → k < 58 → index_of alphabet (char k) ≡ some k
index_of-char k h =
    position-eq _ k (check_all-holds 58 (λ j. position (index_of alphabet (char j)) == j) k table h)
      h

text_table : check_all 58 (λ k. ltb 0 (char k)) ≡ true
unfolding check_all
text_table = refl

pub char-pos : (k : ℕ) → k < 58 → 0 < char k
char-pos k h = ground (arith, check_all-holds 58 (λ j. ltb 0 (char j)) k text_table h)

-- The digits of a number, lowest first.
unfoldable pub digits : ℕ → ℕ → List ℕ
digits zero v = []
digits (suc room) v =
    let rest = digits room (v / 58) in if ltb v 58 then v ∷ [] else (v % 58) ∷ rest

pub room_left : (room v : ℕ) → v < 58 ^ suc room → 58 ≤ v → 0 < room
room_left zero v h big = absurd (omega arith)
room_left (suc room) v h big = omega arith

pub div-lt-pow : (room v : ℕ) → v < 58 ^ suc room → v / 58 < 58 ^ room
div-lt-pow room v h = omega (arith, pow-suc 58 room)

-- With enough room the loop writes the digits' characters.
pub encode_loop-digits :
    (room v : ℕ) (out : List ℕ)
    → v < 58 ^ room
    → 0 < room
    → encode_loop room v out ≡ some (out ++ map char (digits room v))
unfolding encode_loop digits
encode_loop-digits zero v out h some_room = absurd (omega arith)
encode_loop-digits (suc room) v out h some_room = elim (Bool-cases (ltb v 58)) [
  | inl last ↦ rw last
  | inr more ↦
      let step =
        encode_loop-digits room (v / 58) (out ++ (char (v % 58) ∷ [])) (div-lt-pow room v h)
          (room_left room v h (ground arith)) in
      rw more
        (step ∙ ap some (append_assoc out (char (v % 58) ∷ []) (map char (digits room (v / 58)))))
]

-- At most `n` of them, for a number below `58 ^ n`.
pub length-digits : (room n v : ℕ) → v < 58 ^ n → 0 < n → length (map char (digits room v)) ≤ n
unfolding digits
length-digits zero n v h some_digit = omega arith
length-digits (suc room) zero v h some_digit = absurd (omega arith)
length-digits (suc room) (suc n) v h some_digit = elim (Bool-cases (ltb v 58)) [
  | inl last ↦ rw last (omega arith)
  | inr more ↦
      let rest =
        length-digits room n (v / 58) (div-lt-pow n v h) (room_left n v h (ground arith)) in
      rw more (omega arith)
]

pub digits-ne-nil : (room v : ℕ) → 0 < length (map char (digits (suc room) v))
unfolding digits
digits-ne-nil room v = elim (Bool-cases (ltb v 58)) [
  | inl last ↦ rw last (omega arith)
  | inr more ↦ rw more (omega arith)
]

-- Text holds no NUL.
abbrev pub IsText : List ℕ → Type 0
IsText xs = c_string xs ≡ xs

pub IsText-cons : (c : ℕ) (xs : List ℕ) → 0 < c → IsText xs → IsText (c ∷ xs)
unfolding c_string
IsText-cons c xs h t = ground arith

pub IsText-digits : (room v : ℕ) → IsText (map char (digits room v))
unfolding digits
IsText-digits zero v = unfold c_string in refl
IsText-digits (suc room) v = elim (Bool-cases (ltb v 58)) [
  | inl last ↦
      rw last (IsText-cons (char v) [] (char-pos v (ltb→lt v 58 last)) (unfold c_string in refl))
  | inr more ↦ rw more (
      IsText-cons (char (v % 58)) _ (char-pos (v % 58) (omega arith)) (IsText-digits room (v / 58)))
]

-- What is in front of a NUL is the string.
pub c_string-append : (xs ys : List ℕ) → IsText xs → c_string (xs ++ ys) ≡ xs ++ c_string ys
unfolding c_string
c_string-append [] ys t = refl
c_string-append (x ∷ xs) ys t = ground (arith, c_string-append xs ys)

IsText-uncons : (c : ℕ) (xs : List ℕ) → IsText (c ∷ xs) → (0 < c) × IsText xs
unfolding c_string
IsText-uncons c xs t = (ground arith, ground arith)

pub IsText-reverse : (xs : List ℕ) → IsText xs → IsText (reverse xs)
IsText-reverse [] t = t
IsText-reverse (x ∷ xs) t =
    let (h, rest) = IsText-uncons x xs t in
    rw reverse-cons (
      c_string-append (reverse xs) (x ∷ []) (IsText-reverse xs rest)
      ∙ ap (λ l. reverse xs ++ l) (IsText-cons x [] h (unfold c_string in refl)))
