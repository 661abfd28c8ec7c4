-- ===== src/Array/Resize.antt =====
-- array.c: what shrinking an array leaves behind.
use daemonlib.Base.{
  ℕ, ◌+◌, ◌-◌, ◌*◌, ◌≤◌, ◌≡◌, refl, sym, ap, ap₂, ◌∙◌, subst, Bool, true, false, some, List, [],
  ◌∷◌, ◌++◌, append_assoc, append-nil, length, length-append, length-replicate, replicate, ltb, leb,
  arith,
}
use daemonlib.Array.{
  Ptr, Heap, Array, width, inside, array_reserve, array_append, array_resize, release_loop,
}
use daemonlib.Array.Slots.{flat, Holds, IsClean, flat-append, length-flat, IsSized-append, widths}
use daemonlib.Array.Append.{array_of}
use daemonlib.Array.Remove.{IsSized-parts}

shrunk :
    (memory destroys : Bool) (fresh : List Ptr) (n : ℕ) (a : Array) (h : Heap)
    → n ≤ a.count
    → (array_resize memory fresh n destroys a h).0
      ≡ (true, record a { count = n }, (release_loop (a.count - n) n a h).1)
unfolding array_resize
shrunk memory destroys fresh n a h le =
    let e : ltb a.count n ≡ false = ground (arith, le) in rw (array_resize, e) refl

append_fits :
    (memory : Bool) (p : Ptr) (n c z : ℕ) (bs : List ℕ) (h : Heap)
    → c + 1 ≤ n
    → array_append memory p (array_of true n c z bs) h
      ≡ (some (inside (z * c)), array_of true n (c + 1) z bs, h)
unfolding array_append array_reserve
append_fits memory p n c z bs h le =
    let e : leb (c + 1) n ≡ true = ground (arith, le) in rw (array_append, array_reserve, e) refl

-- What the shrunk array holds once an item was appended.
stale-Holds :
    (a : Array) (xs ys : List (List ℕ)) (x : List ℕ)
    → IsClean a (xs ++ (x ∷ ys))
    → Holds
        (record a { count = length xs + 1 })
        (xs ++ (x ∷ []))
        (flat ys ++ replicate ((a.allocated - a.count) * width a) 0)
stale-Holds a xs ys x clean =
    let w = width a in
    let zeros = replicate {A = ℕ} ((a.allocated - a.count) * w) 0 in
    let (sx, e, sy) = IsSized-parts w xs x ys clean.sized in
    let total : a.count ≡ length xs + 1 + length ys =
      omega (arith, clean.count, length-append xs (x ∷ ys)) in
    record {
      bytes =
          clean.bytes
          ∙ ap (λ l. l ++ zeros)
              (flat-append xs (x ∷ ys)
                ∙ sym (append_assoc (flat xs) x (flat ys))
                ∙ ap (λ l. l ++ flat ys)
                    (sym (flat-append xs (x ∷ []) ∙ ap (λ l. flat xs ++ l) (append-nil x))))
          ∙ append_assoc (flat (xs ++ (x ∷ []))) (flat ys) zeros;
      count = omega (arith, length-append xs (x ∷ []));
      sized = IsSized-append w xs (x ∷ []) sx (e, tt);
      room =
          length-append (flat ys) zeros
          ∙ ap₂ (λ k l. k + l)
              (length-flat w ys sy
                ∙ ap (λ k. k * w)
                    (let f : length ys ≡ a.count - (length xs + 1) = omega (arith, total) in f))
              (length-replicate ((a.allocated - a.count) * w) 0)
          ∙ widths a.allocated a.count (length xs + 1) w (omega (arith, total)) clean.within;
      within = omega (arith, total, clean.within);
    }

-- A relocatable array that is shrunk keeps the bytes of the items that it drops, and the next
-- `array_append` returns an item with the old bytes of the first of them, not a zeroed one.
pub array_append_stale :
    (memory memory' destroys : Bool) (fresh : List Ptr) (p : Ptr) (a : Array)
    (xs ys : List (List ℕ)) (x : List ℕ) (h : Heap)
    → IsClean a (xs ++ (x ∷ ys))
    → a.relocatable ≡ true
    → let ((ok, a', h'), places) = array_resize memory fresh (length xs) destroys a h in
      let (place, a'', h'') = array_append memory' p a' h' in
      (place ≡ some (inside (a.size * length xs)))
      × Holds a'' (xs ++ (x ∷ [])) (flat ys ++ replicate ((a.allocated - a.count) * width a) 0)
array_append_stale memory memory' destroys fresh p a xs ys x h clean moves =
    let n = length xs in
    let total : a.count ≡ n + 1 + length ys =
      omega (arith, clean.count, length-append xs (x ∷ ys)) in
    let small = shrunk memory destroys fresh n a h (omega (arith, total)) in
    let h' = (release_loop (a.count - n) n a h).1 in
    let again : array_append memory' p (record a { count = n }) h'
        ≡ (some (inside (a.size * n)), record a { count = n + 1 }, h') =
      subst
        (λ k.
          array_append memory' p (array_of k a.allocated n a.size a.bytes) h'
          ≡ (some (inside (a.size * n)), array_of k a.allocated (n + 1) a.size a.bytes, h'))
        (sym moves)
        (append_fits memory' p a.allocated n a.size a.bytes h'
          (omega (arith, total, clean.within))) in
    rw (small, again) (refl, stale-Holds a xs ys x clean)
