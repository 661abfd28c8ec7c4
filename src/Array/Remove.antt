-- ===== src/Array/Remove.antt =====
-- array.c: removing an item.
use native.Mathlib.Nat.{mul_comm, mul-suc, mul-add}
use daemonlib.Base.{
  ℕ, ◌+◌, ◌-◌, ◌*◌, ◌≡◌, refl, sym, ap, ap₂, ◌∙◌, subst, Bool, List, [], ◌∷◌, ◌++◌, append_assoc,
  length, length-append, length-replicate, length-take, length-drop, take-append-drop, take, drop,
  replicate, ltb, if◌then◌else◌, Bool-cases, inl, inr, arith,
}
use daemonlib.Array.{
  Heap, Array, width, overwrite, block_at, free, array_get, array_remove, remove_slot,
}
use daemonlib.Array.Blocks.{overwrite-append, block_at-append}
use daemonlib.Array.Slots.{
  flat, IsSized, IsClean, flat-append, length-flat, IsSized-append, replicate-add, one_slot,
}

-- The bytes after a removal: the blocks `as_`, `x`, `cs` and `rest` stand one behind the other.
moved :
    (as_ x cs rest : List ℕ) (w : ℕ)
    → length x ≡ w
    → overwrite (as_ ++ (x ++ (cs ++ rest))) (length as_) cs
      ≡ as_ ++ (cs ++ (drop (length cs) (x ++ cs) ++ rest))
moved as_ x cs rest w e =
    let k = length cs in
    let front = take k (x ++ cs) in
    let back = drop k (x ++ cs) in
    let size : length front ≡ length cs =
      omega (arith, length-take k (x ++ cs), length-append x cs) in
    let cut : x ++ (cs ++ rest) ≡ front ++ (back ++ rest) =
      sym (append_assoc x cs rest)
      ∙ ap (λ l. l ++ rest) (sym (take-append-drop k (x ++ cs)))
      ∙ append_assoc front back rest in
    ap (λ l. overwrite (as_ ++ l) (length as_) cs) cut
    ∙ overwrite-append (length as_) as_ front (back ++ rest) cs refl size

zeroed :
    (as_ cs y rest : List ℕ) (w : ℕ)
    → length y ≡ w
    → overwrite (as_ ++ (cs ++ (y ++ rest))) (length as_ + length cs) (replicate w 0)
      ≡ (as_ ++ cs) ++ (replicate w 0 ++ rest)
zeroed as_ cs y rest w e =
    ap (λ bs. overwrite bs (length as_ + length cs) (replicate w 0))
      (sym (append_assoc as_ cs (y ++ rest)))
    ∙ overwrite-append (length as_ + length cs) (as_ ++ cs) y rest (replicate w 0)
        (length-append as_ cs) (e ∙ sym (length-replicate w 0))

overwrite_nothing :
    (bs : List ℕ) (at : ℕ) (block : List ℕ) → length block ≡ 0 → overwrite bs at block ≡ bs
overwrite_nothing bs at [] e = let f : at + 0 ≡ at = omega arith in rw f (take-append-drop at bs)
overwrite_nothing bs at (b ∷ block) e = absurd (omega arith)

-- The bytes that `array_remove` leaves.
removed_bytes :
    (as_ x cs rest : List ℕ) (w n : ℕ)
    → length x ≡ w
    → n ≡ length cs
    → let bs = as_ ++ (x ++ (cs ++ rest)) in
      overwrite
        (if ltb 0 n then overwrite bs (length as_) cs else bs)
        (length as_ + length cs)
        (replicate w 0)
      ≡ (as_ ++ cs) ++ (replicate w 0 ++ rest)
removed_bytes as_ x cs rest w n e f =
    let bs = as_ ++ (x ++ (cs ++ rest)) in
    let y = drop (length cs) (x ++ cs) in
    let size : length y ≡ w =
      omega (arith, length-drop (length cs) (x ++ cs), length-append x cs) in
    let same : (if ltb 0 n then overwrite bs (length as_) cs else bs)
        ≡ overwrite bs (length as_) cs =
      elim (Bool-cases (ltb 0 n)) [
        | inl some_left ↦ rw some_left refl
        | inr none_left ↦
            rw none_left (sym (overwrite_nothing bs (length as_) cs (ground (arith, f))))
      ] in
    ap (λ l. overwrite l (length as_ + length cs) (replicate w 0)) (same ∙ moved as_ x cs rest w e)
    ∙ zeroed as_ cs y rest w size

pub IsSized-parts :
    (w : ℕ) (as_ : List (List ℕ)) (x : List ℕ) (cs : List (List ℕ))
    → IsSized w (as_ ++ (x ∷ cs))
    → IsSized w as_ × (length x ≡ w) × IsSized w cs
IsSized-parts w [] x cs (e, s) = (tt, e, s)
IsSized-parts w (y ∷ as_) x cs (e, s) = let (f, g, r) = IsSized-parts w as_ x cs s in ((e, f), g, r)

-- The same, at the numbers that `array_remove` computes.
remove_slot_lem :
    (w i count : ℕ) (bs as_ x cs rest : List ℕ)
    → bs ≡ as_ ++ (x ++ (cs ++ rest))
    → length as_ ≡ w * i
    → length x ≡ w
    → (count - i - 1) * w ≡ length cs
    → w * (count - 1) ≡ length as_ + length cs
    → remove_slot w bs i count ≡ (as_ ++ cs) ++ (replicate w 0 ++ rest)
remove_slot_lem w i count bs as_ x cs rest e la lx lc total =
    let front : length (as_ ++ x) ≡ w * (i + 1) =
      grind (arith, length-append as_ x, la, lx, mul-suc w i) in
    let tail : block_at bs (w * (i + 1)) ((count - i - 1) * w) ≡ cs =
      ap (λ l. block_at l (w * (i + 1)) ((count - i - 1) * w))
        (e ∙ sym (append_assoc as_ x (cs ++ rest)))
      ∙ block_at-append _ _ (as_ ++ x) cs rest front (sym lc) in
    rw (tail, e, total, ← la) (removed_bytes as_ x cs rest w _ lx lc)

-- Removing an item at an index in range drops its slot and keeps the others in order, zeroes the slot
-- that is unused now, hands the item to the destroy function, if there is one, and frees it, if it
-- stands on the heap.
pub array_remove_lem :
    (destroys : Bool) (a : Array) (as_ cs : List (List ℕ)) (x : List ℕ) (h : Heap)
    → IsClean a (as_ ++ (x ∷ cs))
    → let (places, a', h') = array_remove (length as_) destroys a h in
      IsClean a' (as_ ++ cs)
      × (places ≡ (if destroys then array_get a (length as_) ∷ [] else []))
      × (h' ≡ free h (array_get a (length as_)))
unfolding array_remove
array_remove_lem destroys a as_ cs x h clean =
    let w = width a in
    let i = length as_ in
    let zeros = replicate ((a.allocated - a.count) * w) 0 in
    let count : a.count ≡ i + (length cs + 1) =
      omega (arith, clean.count, length-append as_ (x ∷ cs)) in
    let (sa, sx, sc) = IsSized-parts w as_ x cs clean.sized in
    let la : length (flat as_) ≡ w * i = length-flat w as_ sa ∙ mul_comm i w in
    let lc : (a.count - i - 1) * w ≡ length (flat cs) =
      ap (λ k. k * w) (let e : a.count - i - 1 ≡ length cs = omega (arith, count) in e)
      ∙ sym (length-flat w cs sc) in
    let bytes : a.bytes ≡ flat as_ ++ (x ++ (flat cs ++ zeros)) =
      clean.bytes
      ∙ ap (λ l. l ++ zeros) (flat-append as_ (x ∷ cs))
      ∙ append_assoc (flat as_) (x ++ flat cs) zeros
      ∙ ap (λ l. flat as_ ++ l) (append_assoc x (flat cs) zeros) in
    let total : w * (a.count - 1) ≡ length (flat as_) + length (flat cs) =
      let e : a.count - 1 ≡ i + length cs = omega (arith, count) in
      ap (λ k. w * k) e
      ∙ mul-add w i (length cs)
      ∙ ap₂ (λ k l. k + l) (sym la) (mul_comm w (length cs) ∙ sym (length-flat w cs sc)) in
    let grown : w + (a.allocated - a.count) * w ≡ (a.allocated - (a.count - 1)) * w =
      let e : a.count - 1 + 1 ≡ a.count = omega (arith, count) in
      subst (λ k. w + (a.allocated - k) * w ≡ (a.allocated - (a.count - 1)) * w) e
        (one_slot a.allocated (a.count - 1) w (omega (arith, clean.within, count))) in
    (
      record {
        bytes =
            remove_slot_lem w i a.count a.bytes (flat as_) x (flat cs) zeros bytes la sx lc total
            ∙ ap₂ (λ k l. k ++ l) (sym (flat-append as_ cs))
                (replicate-add w ((a.allocated - a.count) * w) 0 ∙ ap (λ k. replicate k 0) grown);
        count = omega (arith, count, length-append as_ cs);
        sized = IsSized-append w as_ cs sa sc;
        room = length-replicate _ 0;
        within = omega (arith, clean.within);
      },
      refl,
      refl,
    )
