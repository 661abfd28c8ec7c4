-- ===== src/Array/Tests.antt =====
-- array.c: an array of two items of two bytes, and the theorems at it.
use daemonlib.Base.{
  none, ◌-◌, ◌*◌, ◌≡◌, refl, true, false, some, [], ◌∷◌, ◌++◌, replicate, if◌then◌else◌, arith,
}
use daemonlib.Array.{
  Heap, Array, width, inside, free, array_get, array_append, array_remove, array_resize,
}
use daemonlib.Array.Slots.{flat, Holds, IsClean}
use daemonlib.Array.Append.{Appends, has_memory, array_append_lem}
use daemonlib.Array.Remove.{array_remove_lem}
use daemonlib.Array.Resize.{array_append_stale}

abbrev two_pairs : Array
two_pairs = record {
  allocated = 3;
  count = 2;
  size = 2;
  relocatable = true;
  bytes = 1 ∷ 2 ∷ 3 ∷ 4 ∷ 0 ∷ 0 ∷ [];
}

abbrev no_items : Heap
no_items p = none

two_pairs-IsClean : IsClean two_pairs ((1 ∷ 2 ∷ []) ∷ (3 ∷ 4 ∷ []) ∷ [])
two_pairs-IsClean = record {
  bytes = refl;
  count = refl;
  sized = (refl, (refl, tt));
  room = refl;
  within = omega arith;
}

array_append_lem_example :
    Appends
      (has_memory true 9 two_pairs)
      true
      2
      2
      9
      ((1 ∷ 2 ∷ []) ∷ (3 ∷ 4 ∷ []) ∷ [])
      no_items
      (array_append true 9 two_pairs no_items)
array_append_lem_example =
    array_append_lem true 9 two_pairs ((1 ∷ 2 ∷ []) ∷ (3 ∷ 4 ∷ []) ∷ []) no_items two_pairs-IsClean

array_remove_lem_example :
    let (places, a', h') = array_remove 0 true two_pairs no_items in
    IsClean a' ((3 ∷ 4 ∷ []) ∷ [])
    × (places ≡ (if true then array_get two_pairs 0 ∷ [] else []))
    × (h' ≡ free no_items (array_get two_pairs 0))
array_remove_lem_example =
    array_remove_lem true two_pairs [] ((3 ∷ 4 ∷ []) ∷ []) (1 ∷ 2 ∷ []) no_items two_pairs-IsClean

array_append_stale_example :
    let ((ok, a', h'), places) = array_resize true [] 1 false two_pairs no_items in
    let (place, a'', h'') = array_append true 9 a' h' in
    (place ≡ some (inside (2 * 1)))
    × Holds a''
        ((1 ∷ 2 ∷ []) ∷ (3 ∷ 4 ∷ []) ∷ [])
        (flat [] ++ replicate ((3 - 2) * width two_pairs) 0)
array_append_stale_example =
    array_append_stale true true false [] 9 two_pairs ((1 ∷ 2 ∷ []) ∷ []) [] (3 ∷ 4 ∷ []) no_items
      two_pairs-IsClean refl
