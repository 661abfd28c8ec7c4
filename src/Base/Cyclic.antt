-- ===== src/Base/Cyclic.antt =====
-- Rings stored in a flat array of `cap` cells: the bytes from an index on, going round at the end,
-- and what a write or a block copy does to them.
use Prim.Native.Nat.{ℕ, zero, suc, ◌+◌, ◌-◌, ◌%◌, ◌≤◌, ◌<◌}
use mathlib.Core.Path.{◌≡◌, refl, ap, ap₂, ◌∙◌, sym}
use mathlib.Core.List.{List, [], ◌∷◌, ◌++◌, append-nil, append_assoc}
use native.Mathlib.Nat.{mod-eq_of_lt, mod-eq-sub-mod}
use native.Mathlib.Omega.{arith}
use daemonlib.Base.Tests.{ltb, if◌then◌else◌}
use daemonlib.Base.Lists.{
  length, get_or, set, get_or-set_self, get_or-set_ne, length-set, length-append, take, drop, drop,
}

-- The index `n` cells after `h`, for `h < cap` and `n ≤ cap`.
abbrev pub advance : ℕ → ℕ → ℕ → ℕ
advance cap h n = if ltb (h + n) cap then h + n else h + n - cap

-- C's `(h + n) % cap` is that index.
pub mod-advance : (cap h n : ℕ) → h < cap → n ≤ cap → (h + n) % cap ≡ advance cap h n
mod-advance cap h n p q = ground (
  arith,
  mod-eq_of_lt {n = h + n} {m = cap},
  mod-eq-sub-mod {n = h + n} {m = cap},
  mod-eq_of_lt {n = h + n - cap} {m = cap},
)

-- The `n` bytes from index `h` on.
abbrev pub cyclic : List ℕ → ℕ → ℕ → ℕ → List ℕ
cyclic buf cap h zero = []
cyclic buf cap h (suc n) = get_or buf h 0 ∷ cyclic buf cap (advance cap h 1) n

pub length-cyclic : (buf : List ℕ) (cap h n : ℕ) → length (cyclic buf cap h n) ≡ n
length-cyclic buf cap h zero = refl
length-cyclic buf cap h (suc n) = ap suc (length-cyclic buf cap (advance cap h 1) n)

-- A byte written just behind `n` bytes extends them.
pub cyclic-set :
    (buf : List ℕ) (cap x n h i : ℕ)
    → cap ≤ length buf
    → h < cap
    → n < cap
    → i ≡ advance cap h n
    → cyclic (set buf i x) cap h (suc n) ≡ cyclic buf cap h n ++ (x ∷ [])
cyclic-set buf cap x zero h i hs hh hn e = ground (arith, get_or-set_self buf h x 0)
cyclic-set buf cap x (suc n) h i hs hh hn e =
    ap₂ ◌∷◌ (get_or-set_ne buf x 0 (ground arith))
      (cyclic-set buf cap x n (advance cap h 1) i hs (ground arith) (omega arith) (ground arith))

-- `memcpy(buf + e, xs, length xs)`
unfoldable pub copy : List ℕ → ℕ → List ℕ → List ℕ
copy buf e [] = buf
copy buf e (x ∷ xs) = copy (set buf e x) (e + 1) xs

pub length-copy : (buf : List ℕ) (e : ℕ) (xs : List ℕ) → length (copy buf e xs) ≡ length buf
unfolding copy
length-copy buf e [] = refl
length-copy buf e (x ∷ xs) = length-copy (set buf e x) (e + 1) xs ∙ length-set buf e x

-- A block copied just behind `n` bytes extends them, if it ends inside the array.
pub cyclic-copy :
    (buf : List ℕ) (cap n h e : ℕ) (xs : List ℕ)
    → cap ≤ length buf
    → h < cap
    → n + length xs ≤ cap
    → e ≡ advance cap h n
    → e + length xs ≤ cap
    → cyclic (copy buf e xs) cap h (n + length xs) ≡ cyclic buf cap h n ++ xs
unfolding copy
cyclic-copy buf cap n h e [] hs hh hn p he =
    let none_more : n + 0 ≡ n = omega arith in
    ap (cyclic buf cap h) none_more ∙ sym (append-nil (cyclic buf cap h n))
cyclic-copy buf cap n h e (x ∷ []) hs hh hn p he =
    let one_more : n + 1 ≡ suc n = omega arith in
    ap (cyclic (set buf e x) cap h) one_more ∙ cyclic-set buf cap x n h e hs hh (omega arith) p
cyclic-copy buf cap n h e (x ∷ y ∷ ys) hs hh hn p he =
    let more : n + suc (suc (length ys)) ≡ suc n + suc (length ys) = omega arith in
    ap (cyclic (copy (set buf e x) (e + 1) (y ∷ ys)) cap h) more
    ∙ cyclic-copy (set buf e x) cap (suc n) h (e + 1) (y ∷ ys) (omega (arith, length-set buf e x))
        hh (omega arith) (ground arith) (omega arith)
    ∙ ap (λ k. k ++ (y ∷ ys)) (cyclic-set buf cap x n h e hs hh (omega arith) p)
    ∙ append_assoc (cyclic buf cap h n) (x ∷ []) (y ∷ ys)

-- `memcpy(out, buf + h, k)`
unfoldable pub slice : List ℕ → ℕ → ℕ → List ℕ
slice buf h zero = []
slice buf h (suc k) = get_or buf h 0 ∷ slice buf (h + 1) k

pub length-slice : (buf : List ℕ) (h k : ℕ) → length (slice buf h k) ≡ k
unfolding slice
length-slice buf h zero = refl
length-slice buf h (suc k) = ap suc (length-slice buf (h + 1) k)

-- The first `k` bytes, if they end inside the array, are a block of it.
pub cyclic-slice :
    (buf : List ℕ) (cap h k m : ℕ)
    → h < cap
    → h + k ≤ cap
    → cyclic buf cap h (k + m) ≡ slice buf h k ++ cyclic buf cap (advance cap h k) m
unfolding slice
cyclic-slice buf cap h zero m p q =
    let same : advance cap h 0 ≡ h = ground arith in
    let all : 0 + m ≡ m = omega arith in rw same (ap (cyclic buf cap h) all)
cyclic-slice buf cap h (suc zero) m p q =
    let one_less : 1 + m ≡ suc m = omega arith in ap (cyclic buf cap h) one_less
cyclic-slice buf cap h (suc (suc k)) m p q =
    let next : advance cap h 1 ≡ h + 1 = ground arith in
    let same : advance cap (h + 1) (suc k) ≡ advance cap h (suc (suc k)) = ground arith in
    let one_less : suc (suc k) + m ≡ suc (suc k + m) = omega arith in
    ap (cyclic buf cap h) one_less
    ∙ ap (λ j. get_or buf h 0 ∷ cyclic buf cap j (suc k + m)) next
    ∙ ap (λ l. get_or buf h 0 ∷ l)
        (cyclic-slice buf cap (h + 1) (suc k) m (omega arith) (omega arith))
    ∙ ap (λ j. get_or buf h 0 ∷ slice buf (h + 1) (suc k) ++ cyclic buf cap j m) same

-- Two adjacent blocks are one.
pub slice-append :
    (buf : List ℕ) (h a b : ℕ) → slice buf h a ++ slice buf (h + a) b ≡ slice buf h (a + b)
unfolding slice
slice-append buf h zero b =
    let same : h + 0 ≡ h = omega arith in
    let all : 0 + b ≡ b = omega arith in ap (λ j. slice buf j b) same ∙ sym (ap (slice buf h) all)
slice-append buf h (suc a) b =
    let same : h + suc a ≡ h + 1 + a = omega arith in
    let all : suc a + b ≡ suc (a + b) = omega arith in
    ap (λ j. get_or buf h 0 ∷ slice buf (h + 1) a ++ slice buf j b) same
    ∙ ap (λ l. get_or buf h 0 ∷ l) (slice-append buf (h + 1) a b)
    ∙ sym (ap (slice buf h) all)

get_or-append :
    (front : List ℕ) (x : ℕ) (rest : List ℕ) → get_or (front ++ (x ∷ rest)) (length front) 0 ≡ x
get_or-append [] x rest = refl
get_or-append (y ∷ front) x rest = get_or-append front x rest

-- A block of an array that holds it is a part of the list.
slice_from :
    (front buf : List ℕ) (k : ℕ)
    → k ≤ length buf
    → slice (front ++ buf) (length front) k ≡ take k buf
unfolding slice
slice_from front buf zero h = refl
slice_from front [] (suc k) h = absurd (omega arith)
slice_from front (x ∷ buf) (suc k) h =
    let here : length front + 1 ≡ length (front ++ (x ∷ [])) =
      omega (arith, length-append front (x ∷ [])) in
    ap₂ ◌∷◌ (get_or-append front x buf) (
      ap₂ (λ l j. slice l j k) (sym (append_assoc front (x ∷ []) buf)) here
      ∙ slice_from (front ++ (x ∷ [])) buf k (omega arith))

pub slice-take : (buf : List ℕ) (k : ℕ) → k ≤ length buf → slice buf 0 k ≡ take k buf
slice-take buf k h = slice_from [] buf k h

-- The front of a block is a shorter block.
pub take-slice : (buf : List ℕ) (h a b : ℕ) → a ≤ b → take a (slice buf h b) ≡ slice buf h a
unfolding slice
take-slice buf h zero b le = refl
take-slice buf h (suc a) zero le = absurd (omega arith)
take-slice buf h (suc a) (suc b) le =
    ap (λ l. get_or buf h 0 ∷ l) (take-slice buf (h + 1) a b (omega arith))

-- A byte written behind `n` bytes, or further on, leaves them alone.
pub cyclic-set_outside :
    (buf : List ℕ) (cap x n m h i : ℕ)
    → h < cap
    → n ≤ m
    → m < cap
    → i ≡ advance cap h m
    → cyclic (set buf i x) cap h n ≡ cyclic buf cap h n
cyclic-set_outside buf cap x zero m h i hh hn hm e = refl
cyclic-set_outside buf cap x (suc n) m h i hh hn hm e =
    ap₂ ◌∷◌ (get_or-set_ne buf x 0 (ground arith)) (
      cyclic-set_outside buf cap x n (m - 1) (advance cap h 1) i (ground arith) (omega arith)
        (omega arith) (ground arith))

-- Without its first `k` bytes a ring starts `k` cells later.
pub drop-cyclic :
    (buf : List ℕ) (cap h n k : ℕ)
    → h < cap
    → k ≤ n
    → n ≤ cap
    → drop k (cyclic buf cap h n) ≡ cyclic buf cap (advance cap h k) (n - k)
drop-cyclic buf cap h n zero hh hk hn =
    let same : advance cap h 0 ≡ h = ground arith in
    let all : n - 0 ≡ n = omega arith in rw (same, all)
drop-cyclic buf cap h zero (suc k) hh hk hn = absurd (omega arith)
drop-cyclic buf cap h (suc n) (suc k) hh hk hn =
    let same : advance cap (advance cap h 1) k ≡ advance cap h (suc k) = ground arith in
    let less : n - k ≡ suc n - suc k = omega arith in
    drop-cyclic buf cap (advance cap h 1) n k (ground arith) (omega arith) (omega arith)
    ∙ ap₂ (cyclic buf cap) same less
