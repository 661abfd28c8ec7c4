-- ===== src/Array/Blocks.antt =====
-- array.c: blocks of a list, cut out and overwritten.
use daemonlib.Base.{
  ℕ, zero, suc, ◌+◌, ◌≡◌, refl, sym, ap, ◌∙◌, List, [], ◌∷◌, ◌++◌, append_assoc, length,
  length-append, take, drop, arith,
}
use daemonlib.Array.{overwrite, block_at}

pub take-append : (n : ℕ) (xs ys : List ℕ) → length xs ≡ n → take n (xs ++ ys) ≡ xs
take-append zero [] ys e = refl
take-append zero (x ∷ xs) ys e = absurd (omega arith)
take-append (suc n) [] ys e = absurd (omega arith)
take-append (suc n) (x ∷ xs) ys e = ap (λ l. x ∷ l) (take-append n xs ys (omega arith))

pub drop-append : (n : ℕ) (xs ys : List ℕ) → length xs ≡ n → drop n (xs ++ ys) ≡ ys
drop-append zero [] ys e = refl
drop-append zero (x ∷ xs) ys e = absurd (omega arith)
drop-append (suc n) [] ys e = absurd (omega arith)
drop-append (suc n) (x ∷ xs) ys e = drop-append n xs ys (omega arith)

-- A block in the middle, overwritten by another of its length.
pub overwrite-append :
    (n : ℕ) (xs ys zs block : List ℕ)
    → length xs ≡ n
    → length ys ≡ length block
    → overwrite (xs ++ (ys ++ zs)) n block ≡ xs ++ (block ++ zs)
overwrite-append n xs ys zs block e f =
    let front = take-append n xs (ys ++ zs) e in
    let back : drop (n + length block) (xs ++ (ys ++ zs)) ≡ zs =
      ap (drop (n + length block)) (sym (append_assoc xs ys zs))
      ∙ drop-append (n + length block) (xs ++ ys) zs (omega (arith, length-append xs ys)) in
    rw (front, back) refl

pub block_at-append :
    (n k : ℕ) (xs ys zs : List ℕ)
    → length xs ≡ n
    → length ys ≡ k
    → block_at (xs ++ (ys ++ zs)) n k ≡ ys
block_at-append n k xs ys zs e f = rw (drop-append n xs (ys ++ zs) e) (take-append k ys zs f)
