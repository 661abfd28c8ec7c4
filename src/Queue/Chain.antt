-- ===== src/Queue/Chain.antt =====
-- queue.c: the chain of nodes that a list of items stands for.
use daemonlib.Base.{
  ℕ, ◌≡◌, ◌≢◌, refl, ap, Bool, true, false, ◌||◌, some, List, [], ◌∷◌, ◌++◌, length, arith, ◌==◌,
}
use daemonlib.Queue.{Ptr, null, QueueNode, Heap, Queue}

abbrev pub node : Ptr → ℕ → QueueNode
node next item = record { next = next; item = item }

-- Address and item of each node, in order.
abbrev pub Cells : Type 0
Cells = List (Ptr × ℕ)

abbrev pub has : Ptr → Cells → Bool
has a [] = false
has a ((p, v) ∷ xs) = a == p || has a xs

abbrev pub first : Cells → Ptr
first [] = null
first ((p, v) ∷ xs) = p

abbrev pub last : Cells → Ptr
last [] = null
last ((p, v) ∷ []) = p
last (x ∷ y ∷ xs) = last (y ∷ xs)

abbrev pub items : Cells → List ℕ
items [] = []
items ((p, v) ∷ xs) = v ∷ items xs

-- Each node is allocated, points to the one behind it, and occurs once.
abbrev pub Chain : Heap → Cells → Type 0
Chain h [] = Unit {0}
Chain h ((p, v) ∷ xs) =
    (p ≢ null) × (h p ≡ some (node (first xs) v)) × (has p xs ≡ false) × Chain h xs

pub record IsQueue (h : Heap) (q : Queue) (xs : Cells) : Type 0 where
  pub head : q.head ≡ first xs
  pub tail : q.tail ≡ last xs
  pub count : q.count ≡ length xs
  pub chain : Chain h xs

-- A chain survives any change that spares its own nodes.
pub Chain-frame :
    (h g : Heap) (xs : Cells) → Chain h xs → ((a : Ptr) → has a xs ≡ true → g a ≡ h a) → Chain g xs
Chain-frame h g [] c same = tt
Chain-frame h g ((p, v) ∷ xs) (ne, at, once, rest) same =
    (ne, ground (arith, same p), once, Chain-frame h g xs rest (λ a i. same a (ground arith)))

pub has-append : (a : Ptr) (xs ys : Cells) → has a (xs ++ ys) ≡ (has a xs || has a ys)
has-append a [] ys = refl
has-append a ((p, v) ∷ xs) ys = ground (arith, has-append a xs ys)

pub last-append : (xs : Cells) (p : Ptr) (v : ℕ) → last (xs ++ ((p, v) ∷ [])) ≡ p
last-append [] p v = refl
last-append ((a, w) ∷ []) p v = refl
last-append ((a, w) ∷ y ∷ ys) p v = last-append (y ∷ ys) p v

pub items-append : (xs ys : Cells) → items (xs ++ ys) ≡ items xs ++ items ys
items-append [] ys = refl
items-append ((p, v) ∷ xs) ys = ap (λ l. v ∷ l) (items-append xs ys)

-- The last node is allocated, if there is one.
pub last-node :
    (h : Heap) (p : Ptr) (v : ℕ) (xs : Cells)
    → Chain h ((p, v) ∷ xs)
    → (w : ℕ) × (h (last ((p, v) ∷ xs)) ≡ some (node null w)) × (last ((p, v) ∷ xs) ≢ null)
last-node h p v [] (ne, at, once, rest) = (v, at, ne)
last-node h p v ((q, w) ∷ xs) (ne, at, once, rest) = last-node h q w xs rest

pub last-has : (p : Ptr) (v : ℕ) (xs : Cells) → has (last ((p, v) ∷ xs)) ((p, v) ∷ xs) ≡ true
last-has p v [] = ground arith
last-has p v ((q, w) ∷ xs) = ground (arith, last-has q w xs)

-- A fresh node hung behind the last one makes a longer chain.
pub Chain-append :
    (h g : Heap) (p : Ptr) (v w fresh : ℕ) (xs : Cells)
    → Chain h ((p, v) ∷ xs)
    → fresh ≢ null
    → has fresh ((p, v) ∷ xs) ≡ false
    → h (last ((p, v) ∷ xs)) ≡ some (node null w)
    → g (last ((p, v) ∷ xs)) ≡ some (node fresh w)
    → g fresh ≡ some (node null 0)
    → ((a : Ptr) → has a ((p, v) ∷ xs) ≡ true → a ≢ last ((p, v) ∷ xs) → g a ≡ h a)
    → Chain g (((p, v) ∷ xs) ++ ((fresh, 0) ∷ []))
Chain-append h g p v w fresh [] (ne, at, once, rest) new out was now set same =
    (ne, ground arith, ground arith, (new, set, refl, tt))
Chain-append h g p v w fresh ((q, u) ∷ xs) (ne, at, once, rest) new out was now set same = (
  ne,
  ground (arith, same p, last-has q u xs),
  ground (arith, has-append p xs ((fresh, 0) ∷ [])),
  Chain-append h g q u w fresh xs rest new (ground arith) was now set
      (λ a i n. same a (ground arith) n),
)
