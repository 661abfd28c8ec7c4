-- ===== src/Array/Append.antt =====
-- array.c: creating, reserving and appending.
use native.Mathlib.Nat.{add-mul}
use daemonlib.Base.{
  ℕ, ◌+◌, ◌-◌, ◌*◌, ◌≤◌, ◌<◌, ◌≡◌, refl, sym, ap, ◌∙◌, subst, Bool, true, false, not, ◌&&◌, ◌||◌,
  Option, none, some, List, [], ◌∷◌, ◌++◌, append_assoc, append-nil, length, length-append,
  length-replicate, take, take_all, replicate, leb, ◌==◌, if◌then◌else◌, Bool-cases, inl, inr,
  arith,
}
use daemonlib.Array.{
  Ptr, Heap, write, Array, width, grow_allocation, overwrite, Place, inside, outside, array_reserve,
  append_reserved, array_append,
}
use daemonlib.Array.Blocks.{overwrite-append}
use daemonlib.Array.Slots.{
  flat, Holds, IsClean, flat-append, length-flat, IsSized-append, replicate-add, widths, one_slot,
}

-- The array after a growth to `g` slots.
abbrev pub grown : ℕ → Array → Array
grown g a = record a {
  allocated = g;
  bytes = take (a.allocated * width a) a.bytes ++ replicate ((g - a.allocated) * width a) 0;
}

pub sum_widths : (l r c n w : ℕ) → l ≡ c * w → r ≡ (n - c) * w → c ≤ n → l + r ≡ n * w
sum_widths l r c n w e f le =
    rw (e, f) (sym (add-mul c (n - c) w) ∙ (let g : c + (n - c) ≡ n = omega arith in rw g refl))

pub length-bytes :
    (a : Array) (xs : List (List ℕ)) (rest : List ℕ)
    → Holds a xs rest
    → length a.bytes ≡ a.allocated * width a
length-bytes a xs rest h =
    let f : length (flat xs) ≡ a.count * width a =
      length-flat (width a) xs h.sized ∙ ap (λ k. k * width a) (sym h.count) in
    ap length h.bytes
    ∙ length-append (flat xs) rest
    ∙ sum_widths _ _ a.count a.allocated (width a) f h.room h.within

pub grown-IsClean :
    (g : ℕ) (a : Array) (xs : List (List ℕ))
    → IsClean a xs
    → a.allocated ≤ g
    → IsClean (grown g a) xs
grown-IsClean g a xs h le =
    let w = width a in
    let size = length-bytes a xs _ h in
    record {
      bytes =
          ap (λ l. l ++ replicate ((g - a.allocated) * w) 0)
            (take_all _ a.bytes (omega (arith, size)) ∙ h.bytes)
          ∙ append_assoc (flat xs) (replicate ((a.allocated - a.count) * w) 0)
              (replicate ((g - a.allocated) * w) 0)
          ∙ ap (λ l. flat xs ++ l)
              (replicate-add ((a.allocated - a.count) * w) ((g - a.allocated) * w) 0
                ∙ ap (λ k. replicate k 0) (widths g a.allocated a.count w h.within le));
      count = h.count;
      sized = h.sized;
      room = length-replicate _ 0;
      within = omega (arith, h.within);
    }

reserve_more :
    (memory : Bool) (n : ℕ) (a : Array) (xs : List (List ℕ))
    → IsClean a xs
    → a.allocated < n
    → let r : Bool × Array = if memory then (true, grown (grow_allocation n) a) else (false, a) in
      IsClean r.1 xs
      × (r.0 ≡ true → n ≤ r.1.allocated)
      × (r.1.count ≡ a.count)
      × (r.1.size ≡ a.size)
      × (r.1.relocatable ≡ a.relocatable)
reserve_more true n a xs h more =
    (grown-IsClean (grow_allocation n) a xs h (omega arith), λ ok. omega arith, refl, refl, refl)
reserve_more false n a xs h more = (h, λ ok. absurd (ground arith), refl, refl, refl)

-- After a call that succeeds there is room for `n` slots.
pub array_reserve-IsClean :
    (memory : Bool) (n : ℕ) (a : Array) (xs : List (List ℕ))
    → IsClean a xs
    → let (ok, a') = array_reserve memory n a in
      IsClean a' xs
      × (ok ≡ true → n ≤ a'.allocated)
      × (a'.count ≡ a.count)
      × (a'.size ≡ a.size)
      × (a'.relocatable ≡ a.relocatable)
unfolding array_reserve
array_reserve-IsClean memory n a xs h = elim (Bool-cases (leb n a.allocated)) [
  | inl fits ↦ rw (array_reserve, fits) (h, λ ok. ground (arith, fits), refl, refl, refl)
  | inr more ↦ rw (array_reserve, more) (reserve_more memory n a xs h (ground (arith, more)))
]

-- The slot that `array_append` adds, and the place of the item.
abbrev pub new_slot : Bool → ℕ → Ptr → List ℕ
new_slot relocatable size fresh = if relocatable then replicate size 0 else fresh ∷ []

abbrev pub new_place : Bool → ℕ → ℕ → Ptr → Place
new_place relocatable size count fresh =
    if relocatable then inside (size * count) else outside fresh

-- One slot more in front of the zeros.
pub grow_by :
    (a : Array) (xs : List (List ℕ)) (x bs : List ℕ)
    → IsClean a xs
    → a.count < a.allocated
    → length x ≡ width a
    → bs ≡ flat xs ++ (x ++ replicate ((a.allocated - (a.count + 1)) * width a) 0)
    → IsClean (record a { count = a.count + 1; bytes = bs }) (xs ++ (x ∷ []))
grow_by a xs x bs h room size e =
    let zeros = replicate ((a.allocated - (a.count + 1)) * width a) 0 in
    record {
      bytes =
          e
          ∙ sym (append_assoc (flat xs) x zeros)
          ∙ ap (λ l. l ++ zeros)
              (sym (flat-append xs (x ∷ []) ∙ ap (λ l. flat xs ++ l) (append-nil x)));
      count = omega (arith, h.count, length-append xs (x ∷ []));
      sized = IsSized-append (width a) xs (x ∷ []) h.sized (size, tt);
      room = length-replicate _ 0;
      within = omega arith;
    }

-- The zeros behind the items start with a slot of zeros.
pub zeros_first :
    (a : Array) (xs : List (List ℕ))
    → IsClean a xs
    → a.count < a.allocated
    → a.bytes
      ≡ flat xs ++ (replicate (width a) 0 ++ replicate ((a.allocated - (a.count + 1)) * width a) 0)
zeros_first a xs h room =
    h.bytes
    ∙ ap (λ l. flat xs ++ l)
        (ap (λ k. replicate k 0) (sym (one_slot a.allocated a.count (width a) room))
          ∙ sym (replicate-add (width a) ((a.allocated - (a.count + 1)) * width a) 0))

appended-inside :
    (fresh : Ptr) (a : Array) (xs : List (List ℕ))
    → IsClean a xs
    → a.count < a.allocated
    → IsClean (record a { count = a.count + 1 }) (xs ++ (replicate (width a) 0 ∷ []))
appended-inside fresh a xs h room =
    grow_by a xs (replicate (width a) 0) a.bytes h room (length-replicate (width a) 0)
      (zeros_first a xs h room)

pub appended-outside :
    (fresh : Ptr) (a : Array) (xs : List (List ℕ))
    → a.relocatable ≡ false
    → IsClean a xs
    → a.count < a.allocated
    → IsClean
        (record a { count = a.count + 1; bytes = overwrite a.bytes a.count (fresh ∷ []) })
        (xs ++ ((fresh ∷ []) ∷ []))
appended-outside fresh a xs e h room =
    let one : width a ≡ 1 = ground (arith, e) in
    let zeros = replicate ((a.allocated - (a.count + 1)) * width a) 0 in
    let size : length (flat xs) ≡ a.count =
      length-flat (width a) xs h.sized ∙ (rw one (omega (arith, h.count))) in
    let first : replicate (width a) 0 ≡ 0 ∷ [] = rw one refl in
    grow_by a xs (fresh ∷ []) _ h room (sym one) (
      ap (λ bs. overwrite bs a.count (fresh ∷ []))
        (zeros_first a xs h room ∙ ap (λ l. flat xs ++ (l ++ zeros)) first)
      ∙ overwrite-append a.count (flat xs) (0 ∷ []) zeros (fresh ∷ []) size refl)

-- Whether the allocations that `array_append` needs succeed: `realloc` only if no slot is unused, and `calloc`
-- only for an item outside the array.
abbrev pub has_memory : Bool → Ptr → Array → Bool
has_memory memory fresh a =
    (leb (a.count + 1) a.allocated || memory) && (a.relocatable || not (fresh == 0))

-- With memory a zeroed item was added; without it, there is no place and all is as it was.
abbrev pub Appends :
    (given : Bool)
    → Bool
    → ℕ
    → ℕ
    → Ptr
    → List (List ℕ)
    → Heap
    → Option Place × Array × Heap
    → Type 0
Appends false relocatable size count fresh xs h (place, a', h') =
    (place ≡ none) × IsClean a' xs × (h' ≡ h)
Appends true relocatable size count fresh xs h (place, a', h') =
    (place ≡ some (new_place relocatable size count fresh))
    × IsClean a' (xs ++ (new_slot relocatable size fresh ∷ []))
    × (h' ≡ (if relocatable then h else write h fresh (some (replicate size 0))))

abbrev pub array_of : Bool → ℕ → ℕ → ℕ → List ℕ → Array
array_of k n c z bs = record { allocated = n; count = c; size = z; relocatable = k; bytes = bs }

append_kinds :
    (k : Bool) (n c z : ℕ) (bs : List ℕ) (fresh : Ptr) (xs : List (List ℕ)) (h : Heap)
    → IsClean (array_of k n c z bs) xs
    → c < n
    → Appends
        (k || not (fresh == 0))
        k
        z
        c
        fresh
        xs
        h
        (append_reserved (true, array_of k n c z bs) fresh h)
append_kinds true n c z bs fresh xs h clean room =
    (refl, appended-inside fresh (array_of true n c z bs) xs clean room, refl)
append_kinds false n c z bs fresh xs h clean room = elim (Bool-cases (fresh == 0)) [
  | inl failed ↦ rw failed (refl, clean, refl)
  | inr given ↦
      rw given (refl, appended-outside fresh (array_of false n c z bs) xs refl clean room, refl)
]

append_reserved_lem :
    (ok : Bool) (fresh : Ptr) (a : Array) (xs : List (List ℕ)) (h : Heap)
    → IsClean a xs
    → (ok ≡ true → a.count < a.allocated)
    → Appends
        (ok && (a.relocatable || not (fresh == 0)))
        a.relocatable
        a.size
        a.count
        fresh
        xs
        h
        (append_reserved (ok, a) fresh h)
append_reserved_lem false fresh a xs h clean room = (refl, clean, refl)
append_reserved_lem true fresh a xs h clean room =
    append_kinds a.relocatable a.allocated a.count a.size a.bytes fresh xs h clean (room refl)

Appends-same :
    (r : Bool × Array) (k : Bool) (size count : ℕ) (fresh : Ptr) (xs : List (List ℕ)) (h : Heap)
    → r.1.count ≡ count
    → r.1.size ≡ size
    → r.1.relocatable ≡ k
    → IsClean r.1 xs
    → (r.0 ≡ true → count < r.1.allocated)
    → Appends (r.0 && (k || not (fresh == 0))) k size count fresh xs h (append_reserved r fresh h)
Appends-same (ok, a) k size count fresh xs h e f g clean room =
    let given = λ (k : Bool). ok && (k || not (fresh == 0)) in
    let r = append_reserved (ok, a) fresh h in
    subst (λ c. Appends (given k) k size c fresh xs h r) e
      (subst (λ n. Appends (given k) k n a.count fresh xs h r) f
        (subst (λ b. Appends (given b) b a.size a.count fresh xs h r) g
          (append_reserved_lem ok fresh a xs h clean (λ done. omega (arith, room done, e)))))

array_reserve-ok :
    (memory : Bool) (n : ℕ) (a : Array)
    → (array_reserve memory n a).0 ≡ (leb n a.allocated || memory)
unfolding array_reserve
array_reserve-ok memory n a = ground arith

-- On an array whose unused slots are zero, `array_append` fails, and keeps the items and the heap, exactly if
-- an allocation that it needs fails: of more slots, if all are used, or of the item, if it lies outside the
-- array. Else it adds one item behind the others: zero bytes inside the array if it is relocatable, and else
-- a pointer to zero bytes on the heap. The unused slots stay zero.
pub array_append_lem :
    (memory : Bool) (fresh : Ptr) (a : Array) (xs : List (List ℕ)) (h : Heap)
    → IsClean a xs
    → Appends
        (has_memory memory fresh a)
        a.relocatable
        a.size
        a.count
        fresh
        xs
        h
        (array_append memory fresh a h)
unfolding array_append
array_append_lem memory fresh a xs h clean =
    let (clean', room, count', size', kind') =
      array_reserve-IsClean memory (a.count + 1) a xs clean in
    subst
      (λ ok.
        Appends (ok && (a.relocatable || not (fresh == 0))) a.relocatable a.size a.count fresh xs h
          (array_append memory fresh a h))
      (array_reserve-ok memory (a.count + 1) a)
      (Appends-same (array_reserve memory (a.count + 1) a) a.relocatable a.size a.count fresh xs h
        count' size' kind' clean' (λ done. omega (arith, room done)))
