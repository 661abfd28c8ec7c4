-- ===== src/Utils/Buffers.antt =====
-- string_copy and string_append of utils.c: what is in the buffer.
use daemonlib.Base.{
  ℕ, zero, suc, ◌+◌, ◌-◌, ◌≤◌, ◌<◌, ◌≡◌, refl, sym, ap, ap₂, ◌∙◌, subst, false, Option, none, some,
  List, [], ◌∷◌, ◌++◌, append_assoc, append-nil, length, length-append, length-take, length-drop,
  length-replicate, take, take-append-drop, drop, replicate, leb, ◌==◌, Bool-cases, inl, inr, arith,
}
use daemonlib.Utils.{text, IsText, strncpy, put, copy_length, string_copy, string_append}

text-IsText : (cs : List ℕ) → IsText (text cs)
unfolding text IsText
text-IsText [] = tt
text-IsText (c ∷ cs) = elim (Bool-cases (c == 0)) [
  | inl end ↦ rw end tt
  | inr other ↦ rw other ((λ e. ground (arith, other, e)), text-IsText cs)
]

text-append-drop : (cs : List ℕ) → cs ≡ text cs ++ drop (length (text cs)) cs
unfolding text
text-append-drop [] = refl
text-append-drop (c ∷ cs) = elim (Bool-cases (c == 0)) [
  | inl end ↦ rw end refl
  | inr other ↦ rw other (ap (λ zs. c ∷ zs) (text-append-drop cs))
]

text_of_append : (xs ys : List ℕ) → IsText xs → text ys ≡ [] → text (xs ++ ys) ≡ xs
unfolding text IsText
text_of_append [] ys u e = e
text_of_append (c ∷ xs) ys (there, more) e =
    let other : (c == 0) ≡ false = ground (arith, there) in
    rw other (ap (λ zs. c ∷ zs) (text_of_append xs ys more e))

take-IsText : (n : ℕ) (xs : List ℕ) → IsText xs → IsText (take n xs)
unfolding IsText
take-IsText zero xs t = tt
take-IsText (suc n) [] t = tt
take-IsText (suc n) (c ∷ xs) (there, more) = (there, take-IsText n xs more)

append-IsText : (xs ys : List ℕ) → IsText xs → IsText ys → IsText (xs ++ ys)
unfolding IsText
append-IsText [] ys a b = b
append-IsText (c ∷ xs) ys (there, more) b = (there, append-IsText xs ys more b)

text_of_zeros : (n : ℕ) (ys : List ℕ) → text (replicate n 0 ++ (0 ∷ ys)) ≡ []
unfolding text
text_of_zeros zero ys = refl
text_of_zeros (suc n) ys = refl

drop_exact : (xs ys : List ℕ) (n : ℕ) → length xs ≡ n → drop n (xs ++ ys) ≡ ys
drop_exact [] ys zero e = refl
drop_exact [] ys (suc n) e = ground (arith, e)
drop_exact (c ∷ xs) ys zero e = ground (arith, e)
drop_exact (c ∷ xs) ys (suc n) e = drop_exact xs ys n (omega (arith, e))

take_exact : (xs ys : List ℕ) (n : ℕ) → length xs ≡ n → take n (xs ++ ys) ≡ xs
take_exact [] ys zero e = refl
take_exact [] ys (suc n) e = ground (arith, e)
take_exact (c ∷ xs) ys zero e = ground (arith, e)
take_exact (c ∷ xs) ys (suc n) e = ap (λ zs. c ∷ zs) (take_exact xs ys n (omega (arith, e)))

-- The bytes take the place of as many others.
put_lem :
    (front middle back bytes : List ℕ) (offset : ℕ)
    → length front ≡ offset
    → length middle ≡ length bytes
    → put (front ++ (middle ++ back)) offset bytes ≡ front ++ (bytes ++ back)
put_lem front middle back bytes offset at same =
    let behind : length (front ++ middle) ≡ offset + length bytes =
      omega (arith, length-append front middle, at, same) in
    ap₂ (λ a b. a ++ (bytes ++ b)) (take_exact front (middle ++ back) offset at)
      (ap (drop (offset + length bytes)) (sym (append_assoc front middle back))
        ∙ drop_exact (front ++ middle) back (offset + length bytes) behind)

length-strncpy : (source : List ℕ) (n : ℕ) → length (strncpy source n) ≡ n
length-strncpy source n = omega (
  arith,
  length-append (take n source) (replicate (n - length source) 0),
  length-take n source,
  length-replicate {A = ℕ} (n - length source) 0,
)

-- What stands before the NUL that ends a copy.
copy-text :
    (xs source back : List ℕ) (n : ℕ)
    → IsText xs
    → IsText source
    → text (xs ++ (strncpy source n ++ (0 ∷ back))) ≡ xs ++ take n source
copy-text xs source back n x s =
    let zeros : List ℕ = replicate (n - length source) 0 in
    ap text (
      ap (λ zs. xs ++ zs) (append_assoc (take n source) zeros (0 ∷ back))
      ∙ sym (append_assoc xs (take n source) (zeros ++ (0 ∷ back))))
    ∙ text_of_append (xs ++ take n source) (zeros ++ (0 ∷ back))
        (append-IsText xs (take n source) x (take-IsText n source s))
        (text_of_zeros (n - length source) back)

put-text :
    (xs middle back source : List ℕ) (z n : ℕ)
    → length middle ≡ n
    → IsText xs
    → IsText source
    → text (
        put
          (put (xs ++ (middle ++ (z ∷ back))) (length xs) (strncpy source n))
          (length xs + n)
          (0 ∷ []))
      ≡ xs ++ take n source
put-text xs middle back source z n fits x s =
    let bytes = strncpy source n in
    let len = length-strncpy source n in
    let first = put_lem xs middle (z ∷ back) bytes (length xs) refl (omega (arith, fits, len)) in
    let second =
      put_lem (xs ++ bytes) (z ∷ []) back (0 ∷ []) (length xs + n)
        (omega (arith, length-append xs bytes, len)) refl in
    ap (λ b. text (put b (length xs + n) (0 ∷ []))) (first ∙ sym (append_assoc xs bytes (z ∷ back)))
    ∙ (ap text (second ∙ append_assoc xs bytes (0 ∷ back)) ∙ copy-text xs source back n x s)

written-text :
    (xs tail source : List ℕ) (n : ℕ)
    → n < length tail
    → IsText xs
    → IsText source
    → text (put (put (xs ++ tail) (length xs) (strncpy source n)) (length xs + n) (0 ∷ []))
      ≡ xs ++ take n source
written-text xs tail source n room x s = go (drop n tail) refl
  where
    go :
        (rest : List ℕ)
        → drop n tail ≡ rest
        → text (put (put (xs ++ tail) (length xs) (strncpy source n)) (length xs + n) (0 ∷ []))
          ≡ xs ++ take n source
    go [] e = ground (arith, ap length e, length-drop n tail, room)
    go (z ∷ back) e =
        subst
          (λ b.
            text (put (put (xs ++ b) (length xs) (strncpy source n)) (length xs + n) (0 ∷ []))
            ≡ xs ++ take n source)
          (ap (λ zs. take n tail ++ zs) (sym e) ∙ take-append-drop n tail)
          (put-text xs (take n tail) back source z n (omega (arith, length-take n tail, room)) x s)

written_at :
    (xs tail source : List ℕ) (n o e : ℕ)
    → o ≡ length xs
    → e ≡ length xs + n
    → n < length tail
    → IsText xs
    → IsText source
    → text (put (put (xs ++ tail) o (strncpy source n)) e (0 ∷ [])) ≡ xs ++ take n source
written_at xs tail source n o e at end room x s =
    ap₂ (λ o e. text (put (put (xs ++ tail) o (strncpy source n)) e (0 ∷ []))) at end
    ∙ written-text xs tail source n room x s

none_IsText : IsText []
unfolding IsText
none_IsText = tt

copy_length_below : (t : ℕ) (source_length : Option ℕ) → 0 < t → copy_length t source_length < t
copy_length_below t none some_room = omega (arith, some_room)
copy_length_below t (some n) some_room = ground (arith, some_room)

-- string_copy leaves in the buffer, which has room for it and its NUL, the first characters of the source: as
-- many as asked for and as there is room for.
pub string_copy_lem :
    (target : List ℕ) (target_length : ℕ) (source : List ℕ) (source_length : Option ℕ)
    → 0 < target_length
    → target_length ≤ length target
    → IsText source
    → text (string_copy target target_length source source_length)
      ≡ take (copy_length target_length source_length) source
unfolding string_copy
string_copy_lem target target_length source source_length some_room fits s =
    let n = copy_length target_length source_length in
    let there : (target_length == 0) ≡ false = ground (arith, some_room) in
    rw there (
      written_at [] target source n 0 n refl (omega arith)
        (omega (arith, fits, copy_length_below target_length source_length some_room)) none_IsText
        s)

unchanged : (xs source : List ℕ) (n : ℕ) → n ≡ 0 → xs ≡ xs ++ take n source
unchanged xs source n e = sym (append-nil xs) ∙ ap (λ n. xs ++ take n source) (sym e)

-- string_append leaves in the buffer the string that was there and the first characters of the source, as many
-- as there is room for before the NUL, and nothing more where there is no room.
pub string_append_lem :
    (target : List ℕ) (target_length : ℕ) (source : List ℕ)
    → target_length ≤ length target
    → IsText source
    → text (string_append target target_length source)
      ≡ text target ++ take (target_length - length (text target) - 1) source
unfolding string_append
string_append_lem target target_length source fits s =
    let xs = text target in
    let tail = drop (length xs) target in
    let n = target_length - length xs - 1 in
    elim (Bool-cases (target_length == 0)) [
      | inl empty ↦ rw empty (unchanged xs source n (ground (arith, empty)))
      | inr some_room ↦ elim (Bool-cases (leb (target_length - 1) (length xs))) [
        | inl full ↦ rw (some_room, full) (unchanged xs source n (ground (arith, full)))
        | inr free ↦
            let below : length xs < target_length - 1 = ground (arith, free) in
            rw (some_room, free)
              (subst
                (λ b.
                  text (put (put b (length xs) (strncpy source n)) (target_length - 1) (0 ∷ []))
                  ≡ xs ++ take n source)
                (sym (text-append-drop target))
                (written_at xs tail source n (length xs) (target_length - 1) refl
                  (omega (arith, below))
                  (omega (arith, below, fits, length-drop (length xs) target)) (text-IsText target)
                  s))
      ]
    ]
