-- ===== src/Queue/Refine.antt =====
-- queue.c: each function does to the chain what a queue does to its items, with no stray access.
use daemonlib.Base.{
  ℕ, zero, suc, ◌+◌, ◌-◌, ◌<◌, ◌≡◌, ◌≢◌, refl, ◌∙◌, sym, subst, if◌then◌else◌, true, false, Option,
  none, some, List, [], ◌∷◌, ◌++◌, length, length-append, arith, ◌==◌, append_assoc, append-nil,
}
use daemonlib.Queue.{
  Ptr, null, QueueNode, Heap, write, Queue, done, set_next, queue_push, queue_pop, queue_peek,
  destroy_loop, queue_destroy,
}
use daemonlib.Queue.Chain.{
  node, Cells, has, first, last, items, Chain, IsQueue, Chain-frame, last-append, last-node,
  last-has, Chain-append,
}

-- What a function leaves alone: every address that is neither `fresh` nor a node of the queue.
abbrev pub SameOutside : Ptr → Cells → Heap → Heap → Type 0
SameOutside fresh xs h g = (a : Ptr) → a ≢ fresh → has a xs ≡ false → g a ≡ h a

fresh-out :
    (h : Heap) (fresh : Ptr) (xs : Cells) → Chain h xs → h fresh ≡ none → has fresh xs ≡ false
fresh-out h fresh [] c unused = refl
fresh-out h fresh ((p, v) ∷ xs) (ne, at, once, rest) unused =
    ground (arith, fresh-out h fresh xs rest unused)

-- What `queue_push` returns.
record Pushed (h : Heap) (fresh : Ptr) (q : Queue) (xs : Cells) (q' : Queue) (g : Heap)
    : Type 0 where
  runs : queue_push fresh q h ≡ done (fresh, q') g
  is : IsQueue g q' (xs ++ ((fresh, 0) ∷ []))
  same : SameOutside fresh xs h g

push-empty :
    (h : Heap) (fresh : Ptr) (q : Queue)
    → IsQueue h q []
    → fresh ≢ null
    → (q' : Queue) × (g : Heap) × Pushed h fresh q [] q' g
unfolding queue_push
push-empty h fresh q is new =
    let h' = write h fresh (some (node null 0)) in
    (
      record q { head = fresh; tail = fresh; count = q.count + 1 },
      h',
      record {
        runs = ground (arith, is.head, is.tail);
        is = record {
          head = refl;
          tail = refl;
          count = omega (arith, is.count);
          chain = (new, ground arith, refl, tt);
        };
        same = λ a ne out. ground arith;
      },
    )

write-same : (h : Heap) (p : Ptr) (c : Option QueueNode) → write h p c p ≡ c
write-same h p c = ground arith

write-other : (h : Heap) (p : Ptr) (c : Option QueueNode) (a : Ptr) → a ≢ p → write h p c a ≡ h a
write-other h p c a ne = ground arith

has-apart : (xs : Cells) {a b : Ptr} → has a xs ≡ true → has b xs ≡ false → a ≢ b
has-apart xs i o e = ground arith

set_next-node :
    (h : Heap) (p q n w : ℕ)
    → h p ≡ some (node n w)
    → set_next p q h ≡ some (write h p (some (node q w)))
unfolding set_next
set_next-node h p q n w at = rw (set_next, at) refl

push-runs :
    (h : Heap) (fresh : Ptr) (q : Queue) (g : Heap)
    → fresh ≢ null
    → q.head ≢ null
    → q.tail ≢ null
    → set_next q.tail fresh (write h fresh (some (node null 0))) ≡ some g
    → queue_push fresh q h ≡ done (fresh, record q { tail = fresh; count = q.count + 1 }) g
unfolding queue_push
push-runs h fresh q g new head tail linked = ground (arith, linked)

push-some :
    (h : Heap) (fresh : Ptr) (q : Queue) (p : Ptr) (v : ℕ) (xs : Cells)
    → IsQueue h q ((p, v) ∷ xs)
    → fresh ≢ null
    → h fresh ≡ none
    → (q' : Queue) × (g : Heap) × Pushed h fresh q ((p, v) ∷ xs) q' g
push-some h fresh q p v xs is new unused =
    let (w, at, ne) = last-node h p v xs is.chain in
    let out = fresh-out h fresh ((p, v) ∷ xs) is.chain unused in
    let h' = write h fresh (some (node null 0)) in
    let g = write h' q.tail (some (node fresh w)) in
    let at' : h q.tail ≡ some (node null w) = rw is.tail at in
    let ne' : q.tail ≢ null = rw is.tail ne in
    let head' : q.head ≢ null = rw is.head (is.chain.0) in
    let in_chain : has q.tail ((p, v) ∷ xs) ≡ true =
      subst (λ a. has a ((p, v) ∷ xs) ≡ true) (sym is.tail) (last-has p v xs) in
    let apart : q.tail ≢ fresh = has-apart ((p, v) ∷ xs) in_chain out in
    let at'' = write-other h fresh (some (node null 0)) q.tail apart ∙ at' in
    let linked = set_next-node h' q.tail fresh null w at'' in
    (
      record q { tail = fresh; count = q.count + 1 },
      g,
      record {
        runs = push-runs h fresh q g new head' ne' linked;
        is = record {
          head = is.head;
          tail = sym (last-append ((p, v) ∷ xs) fresh 0);
          count = omega (arith, is.count, length-append ((p, v) ∷ xs) ((fresh, 0) ∷ []));
          chain =
              Chain-append h g p v w fresh xs is.chain new out at
                (subst (λ a. g a ≡ some (node fresh w)) is.tail (write-same h' q.tail _))
                (write-other h' q.tail _ fresh (λ e. apart (sym e)) ∙ write-same h fresh _)
                (λ a i n.
                  write-other h' q.tail _ a (λ e. n (e ∙ is.tail))
                  ∙ write-other h fresh _ a (λ e. has-apart ((p, v) ∷ xs) i out e));
        };
        same = λ a n o.
            write-other h' q.tail _ a (λ e. has-apart ((p, v) ∷ xs) in_chain o (sym e))
            ∙ write-other h fresh _ a n;
      },
    )

-- On a queue with the items `xs`, `queue_push` at a node that `calloc` returns and no one else uses
-- runs without a stray access, adds a zeroed item behind the others, and writes to no node but the new
-- one and the queue's own.
queue_push_refines :
    (h : Heap) (fresh : Ptr) (q : Queue) (xs : Cells)
    → IsQueue h q xs
    → fresh ≢ null
    → h fresh ≡ none
    → (q' : Queue) × (g : Heap) × (queue_push fresh q h ≡ done (fresh, q') g)
      × IsQueue g q' (xs ++ ((fresh, 0) ∷ []))
      × SameOutside fresh xs h g
queue_push_refines h fresh q [] is new unused =
    let (q', g, p) = push-empty h fresh q is new in (q', g, p.runs, p.is, p.same)
queue_push_refines h fresh q ((a, v) ∷ xs) is new unused =
    let (q', g, p) = push-some h fresh q a v xs is new unused in (q', g, p.runs, p.is, p.same)

pop-tail :
    (h : Heap) (p : Ptr) (v : ℕ) (xs : Cells) (t : Ptr)
    → t ≡ last ((p, v) ∷ xs)
    → Chain h xs
    → (if first xs == null then null else t) ≡ last xs
pop-tail h p v [] t e c = refl
pop-tail h p v ((a, w) ∷ xs) t e (ne, at, once, rest) = ground (arith, e)

-- On a queue with a first item `v`, `queue_pop` hands `v` to the destroy function, frees its node, and
-- leaves the queue of the other items. `queue_peek` points at that item.
queue_pop_refines :
    (h : Heap) (q : Queue) (p : Ptr) (v : ℕ) (xs : Cells)
    → IsQueue h q ((p, v) ∷ xs)
    → (q' : Queue) × (g : Heap) × (queue_pop q h ≡ done (q', v ∷ []) g)
      × IsQueue g q' xs
      × (g ≡ write h p none)
      × (queue_peek q ≡ p)
unfolding queue_pop queue_peek
queue_pop_refines h q p v xs is =
    let (ne, at, once, rest) = is.chain in
    let g = write h p none in
    let head' : q.head ≡ p = is.head in
    let some_items : (q.count == 0) ≡ false = ground (arith, is.count) in
    (
      record q {
        count = q.count - 1;
        head = first xs;
        tail = if first xs == null then null else q.tail;
      },
      g,
      ground (arith, some_items, head', at),
      record {
        head = refl;
        tail = pop-tail h p v xs q.tail is.tail rest;
        count = omega (arith, is.count);
        chain = Chain-frame h g xs rest (λ a i. ground arith);
      },
      refl,
      rw (some_items, head'),
    )

-- Nothing outside the nodes `xs` differs, and those are free.
abbrev pub Freed : Cells → Heap → Heap → Type 0
Freed xs h g = (a : Ptr) → g a ≡ (if has a xs then none else h a)

destroy_loop-Chain :
    (h : Heap) (xs : Cells) (k : ℕ) (acc : List ℕ)
    → Chain h xs
    → length xs < k
    → (g : Heap) × (destroy_loop k (first xs) h acc ≡ done (acc ++ items xs) g) × Freed xs h g
unfolding destroy_loop
destroy_loop-Chain h xs zero acc c enough = absurd (omega arith)
destroy_loop-Chain h [] (suc k) acc c enough = (h, rw (append-nil acc) refl, λ a. refl)
destroy_loop-Chain h ((p, v) ∷ xs) (suc k) acc (ne, at, once, rest) enough =
    let h' = write h p none in
    let c = Chain-frame h h' xs rest (λ a i. ground arith) in
    let (g, runs, freed) = destroy_loop-Chain h' xs k (acc ++ (v ∷ [])) c (omega arith) in
    let e = append_assoc acc (v ∷ []) (items xs) in
    (g, ground (arith, runs, at, e), λ a. ground (arith, freed a))

-- `queue_destroy` ends without a stray access, hands every item to the destroy function once and in
-- order, and frees every node of the queue and nothing else.
pub queue_destroy_refines :
    (h : Heap) (q : Queue) (xs : Cells)
    → IsQueue h q xs
    → (g : Heap) × (queue_destroy q h ≡ done (items xs) g) × Freed xs h g
unfolding queue_destroy
queue_destroy_refines h q xs is =
    let (g, runs, freed) =
      destroy_loop-Chain h xs (suc q.count) [] is.chain (omega (arith, is.count)) in
    (g, rw is.head runs, freed)
