-- ===== src/Utils/Search.antt =====
-- strcasestr of utils.c.
use daemonlib.Base.{
  ℕ, suc, ◌+◌, ◌≡◌, ◌≢◌, refl, sym, ap, ◌∙◌, Bool, true, false, Option, none, some, List, [], ◌∷◌,
  ◌++◌, append_assoc, append-nil, map, length, length-append, drop, get_or, ◌==◌, if◌then◌else◌,
  Bool-cases, inl, inr, subst, arith,
}
use mathlib.Core.Option.{some-injective}
use daemonlib.Utils.{IsText, toupper, search_loop, strcasestr}

-- Another string of the same letters stands at a place in a string.
pub record Occurs (haystack needle : List ℕ) (i : ℕ) : Type 0 where
  pub before : List ℕ
  pub found : List ℕ
  pub after : List ℕ
  pub parts : haystack ≡ before ++ (found ++ after)
  pub place : length before ≡ i
  pub same : map toupper found ≡ map toupper needle

-- What is known in the loop, where `cs` is left.
abbrev IsAt :
    (haystack needle : List ℕ) (p : ℕ) (state : Option (List ℕ × ℕ)) (cs : List ℕ) → Type 0
IsAt haystack needle p none cs = (before : List ℕ) × (haystack ≡ before ++ cs) × (length before ≡ p)
IsAt haystack needle p (some (np, startn)) cs =
    (before : List ℕ) × (found : List ℕ) × (haystack ≡ before ++ (found ++ cs))
    × (length before ≡ startn)
    × (length before + length found ≡ p)
    × (map toupper (found ++ np) ≡ map toupper needle)

snoc : (before : List ℕ) (c : ℕ) (cs : List ℕ) → before ++ (c ∷ cs) ≡ before ++ (c ∷ []) ++ cs
snoc before c cs = sym (append_assoc before (c ∷ []) cs)

-- The character is passed over.
passes :
    (haystack needle : List ℕ) (p c : ℕ) (cs : List ℕ) (state : Option (List ℕ × ℕ))
    → IsAt haystack needle p state (c ∷ cs)
    → IsAt haystack needle (suc p) none cs
passes haystack needle p c cs none (before, parts, place) = (
  before ++ (c ∷ []),
  parts ∙ snoc before c cs,
  omega (arith, length-append before (c ∷ []), place),
)
passes haystack needle p c cs (some (np, startn)) (before, found, parts, start, place, same) = (
  before ++ found ++ (c ∷ []),
  parts ∙ sym (append_assoc before found (c ∷ cs)) ∙ snoc (before ++ found) c cs,
  omega (arith, length-append (before ++ found) (c ∷ []), length-append before found, place),
)

toupper-zero : (c : ℕ) → c ≢ 0 → toupper c ≢ 0
toupper-zero c there e = ground (arith, there, e)

map_at :
    (found np : List ℕ) (c d : ℕ)
    → toupper c ≡ toupper d
    → map toupper (found ++ (c ∷ np)) ≡ map toupper (found ++ (d ∷ np))
map_at [] np c d e = ap (λ x. x ∷ map toupper np) e
map_at (x ∷ found) np c d e = ap (λ zs. toupper x ∷ zs) (map_at found np c d e)

-- The character is the next one of the needle.
continues_lem :
    (found np needle : List ℕ) (c : ℕ)
    → c ≢ 0
    → toupper c ≡ toupper (get_or np 0 0)
    → map toupper (found ++ np) ≡ map toupper needle
    → map toupper (found ++ (c ∷ []) ++ drop 1 np) ≡ map toupper needle
continues_lem found [] needle c there e same = ground (arith, toupper-zero c there e)
continues_lem found (d ∷ np) needle c there e same =
    ap (map toupper) (append_assoc found (c ∷ []) np) ∙ (map_at found np c d e ∙ same)

if_so : {A : Type 0} (b : Bool) (x y z : A) → b ≡ true → (if b then x else y) ≡ z → x ≡ z
if_so true x y z so e = e
if_so false x y z so e = ground (arith, so)

if_not : {A : Type 0} (b : Bool) (x y z : A) → b ≡ false → (if b then x else y) ≡ z → y ≡ z
if_not true x y z not_so e = ground (arith, not_so)
if_not false x y z not_so e = e

matched :
    (haystack needle : List ℕ) (p c : ℕ) (cs np : List ℕ) (startn : ℕ)
    → c ≢ 0
    → toupper c ≡ toupper (get_or np 0 0)
    → IsAt haystack needle p (some (np, startn)) (c ∷ cs)
    → IsAt haystack needle (suc p) (some (drop 1 np, startn)) cs
matched haystack needle p c cs np startn there e (before, found, parts, start, place, same) = (
  before,
  found ++ (c ∷ []),
  parts ∙ ap (λ zs. before ++ zs) (snoc found c cs),
  start,
  omega (arith, place, length-append found (c ∷ [])),
  continues_lem found np needle c there e same,
)

begun :
    (haystack needle : List ℕ) (p : ℕ) (cs : List ℕ)
    → IsAt haystack needle p none cs
    → IsAt haystack needle p (some (needle, p)) cs
begun haystack needle p cs (before, parts, place) =
    (before, [], parts, place, omega (arith, place), refl)

ended :
    (haystack needle : List ℕ) (p : ℕ) (cs np : List ℕ) (startn : ℕ)
    → length np ≡ 0
    → IsAt haystack needle p (some (np, startn)) cs
    → Occurs haystack needle startn
ended haystack needle p cs [] startn e (before, found, parts, start, place, same) = record {
  before = before;
  found = found;
  after = cs;
  parts = parts;
  place = start;
  same = ap (map toupper) (sym (append-nil found)) ∙ same;
}
ended haystack needle p cs (d ∷ np) startn e at = ground (arith, e)

search_loop-Occurs :
    (cs haystack needle : List ℕ) (p i : ℕ) (state : Option (List ℕ × ℕ))
    → IsText cs
    → IsAt haystack needle p state cs
    → search_loop cs p state needle ≡ some i
    → Occurs haystack needle i
unfolding search_loop IsText
search_loop-Occurs [] haystack needle p i state chars at e = ground (arith, e)
search_loop-Occurs (c ∷ cs) haystack needle p i none (there, chars) at e =
    let starts = search_loop cs (suc p) (some (drop 1 needle, p)) needle in
    let rest = search_loop cs (suc p) none needle in
    let test = toupper c == toupper (get_or needle 0 0) in
    elim (Bool-cases test) [
      | inl same ↦
          search_loop-Occurs cs haystack needle (suc p) i (some (drop 1 needle, p)) chars
            (matched haystack needle p c cs needle p there (ground (arith, same))
              (begun haystack needle p (c ∷ cs) at))
            (if_so test starts rest (some i) same e)
      | inr other ↦
          search_loop-Occurs cs haystack needle (suc p) i none chars
            (passes haystack needle p c cs none at) (if_not test starts rest (some i) other e)
    ]
search_loop-Occurs (c ∷ cs) haystack needle p i (some (np, startn)) (there, chars) at e =
    let continues = search_loop cs (suc p) (some (drop 1 np, startn)) needle in
    let rest = search_loop cs (suc p) none needle in
    let test = toupper c == toupper (get_or np 0 0) in
    let last = length (drop 1 np) == 0 in
    let found = if last then some startn else continues in
    elim (Bool-cases test) [
      | inr other ↦
          search_loop-Occurs cs haystack needle (suc p) i none chars
            (passes haystack needle p c cs (some (np, startn)) at)
            (if_not test found rest (some i) other e)
      | inl same ↦
          let at' = matched haystack needle p c cs np startn there (ground (arith, same)) at in
          let e' = if_so test found rest (some i) same e in
          elim (Bool-cases last) [
            | inl done ↦
                subst (Occurs haystack needle)
                  (some-injective startn i (if_so last (some startn) continues (some i) done e'))
                  (ended haystack needle (suc p) cs (drop 1 np) startn (ground (arith, done)) at')
            | inr more ↦
                search_loop-Occurs cs haystack needle (suc p) i (some (drop 1 np, startn)) chars at'
                  (if_not last (some startn) continues (some i) more e')
          ]
    ]

-- Where strcasestr says that a string contains another, it does: the characters there are those of the other,
-- up to their case.
pub strcasestr-Occurs :
    (haystack needle : List ℕ) (i : ℕ)
    → IsText haystack
    → strcasestr haystack needle ≡ some i
    → Occurs haystack needle i
strcasestr-Occurs haystack needle i chars e =
    search_loop-Occurs haystack haystack needle 0 i none chars ([], refl, refl) e

either : {x y z : Option ℕ} (b : Bool) → x ≡ z → y ≡ z → (if b then x else y) ≡ z
either true p q = p
either false p q = q

skipped : (b : Bool) (x : Option ℕ) {y z : Option ℕ} → b ≡ false → y ≡ z → (if b then x else y) ≡ z
skipped true x e q = ground (arith, e)
skipped false x e q = q

-- In the loop, for a needle of one character.
single_none :
    (cs : List ℕ) (p n startn : ℕ)
    → IsText cs
    → (search_loop cs p none (n ∷ []) ≡ none)
      × (search_loop cs p (some ([], startn)) (n ∷ []) ≡ none)
unfolding search_loop IsText
single_none [] p n startn chars = (refl, refl)
single_none (c ∷ cs) p n startn (there, chars) =
    let (a, b) = single_none cs (suc p) n startn chars in
    let (a', b') = single_none cs (suc p) n p chars in
    let upper = toupper-zero c there in
    let ends : (toupper c == 0) ≡ false = ground (arith, upper) in
    (either (toupper c == toupper n) b' a, skipped (toupper c == 0) _ ends a)

-- strcasestr finds no needle of one character, whether the string contains it or not.
pub strcasestr_single :
    (haystack : List ℕ) (n : ℕ) → IsText haystack → strcasestr haystack (n ∷ []) ≡ none
strcasestr_single haystack n chars = (single_none haystack 0 n 0 chars).0
