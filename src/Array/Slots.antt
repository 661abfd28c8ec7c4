-- ===== src/Array/Slots.antt =====
-- array.c: the slots that an array holds, as a list.
use native.Mathlib.Nat.{suc-mul}
use daemonlib.Base.{
  ℕ, zero, suc, ◌+◌, ◌-◌, ◌*◌, ◌≤◌, ◌<◌, ◌≡◌, refl, sym, ap, ◌∙◌, List, [], ◌∷◌, ◌++◌, append_assoc,
  length, length-append, replicate, arith,
}
use daemonlib.Array.{Array, width}

abbrev pub flat : List (List ℕ) → List ℕ
flat [] = []
flat (x ∷ xs) = x ++ flat xs

-- Every slot is `w` wide.
abbrev pub IsSized : ℕ → List (List ℕ) → Type 0
IsSized w [] = Unit {0}
IsSized w (x ∷ xs) = (length x ≡ w) × IsSized w xs

-- The array holds the slots `xs`, and the allocated slots behind them hold `rest`.
pub record Holds (a : Array) (xs : List (List ℕ)) (rest : List ℕ) : Type 0 where
  pub bytes : a.bytes ≡ flat xs ++ rest
  pub count : a.count ≡ length xs
  pub sized : IsSized (width a) xs
  pub room : length rest ≡ (a.allocated - a.count) * width a
  pub within : a.count ≤ a.allocated

-- And those behind are zero.
abbrev pub IsClean : Array → List (List ℕ) → Type 0
IsClean a xs = Holds a xs (replicate ((a.allocated - a.count) * width a) 0)

pub flat-append : (xs ys : List (List ℕ)) → flat (xs ++ ys) ≡ flat xs ++ flat ys
flat-append [] ys = refl
flat-append (x ∷ xs) ys =
    ap (λ l. x ++ l) (flat-append xs ys) ∙ sym (append_assoc x (flat xs) (flat ys))

pub length-flat : (w : ℕ) (xs : List (List ℕ)) → IsSized w xs → length (flat xs) ≡ length xs * w
length-flat w [] s = omega arith
length-flat w (x ∷ xs) (e, s) = grind (arith, length-append x (flat xs), length-flat w xs s)

pub IsSized-append :
    (w : ℕ) (xs ys : List (List ℕ)) → IsSized w xs → IsSized w ys → IsSized w (xs ++ ys)
IsSized-append w [] ys s t = t
IsSized-append w (x ∷ xs) ys (e, s) t = (e, IsSized-append w xs ys s t)

pub replicate-add : (m n a : ℕ) → replicate m a ++ replicate n a ≡ replicate (m + n) a
replicate-add zero n a = let e : 0 + n ≡ n = omega arith in rw e refl
replicate-add (suc m) n a =
    let e : suc m + n ≡ suc (m + n) = omega arith in rw e (ap (λ l. a ∷ l) (replicate-add m n a))

-- Differences times a width add up.
pub widths : (a b c w : ℕ) → c ≤ b → b ≤ a → (b - c) * w + (a - b) * w ≡ (a - c) * w
widths a b c w p q = grind arith

pub one_slot : (a c w : ℕ) → c < a → w + (a - (c + 1)) * w ≡ (a - c) * w
one_slot a c w p =
    let e : a - c ≡ suc (a - (c + 1)) = omega arith in rw e (omega (arith, suc-mul (a - (c + 1)) w))
