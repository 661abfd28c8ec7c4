-- ===== src/Array.antt =====
-- array.c: arrays of items of one size. A relocatable array holds the bytes of its items, any other
-- the pointers to them: `bytes` is a list of bytes, or of pointers, and `width` how many of them a slot
-- takes. Whether an allocation succeeds is an argument; no product overflows an `int`.
mod Slots
mod Blocks
mod Append
mod Remove
mod Resize
mod Tests
use daemonlib.Base.{
  ℕ, zero, suc, ◌+◌, ◌-◌, ◌*◌, ◌/◌, Bool, true, false, not, Option, none, some, List, [], ◌∷◌, ◌++◌,
  length, take, drop, replicate, get_or, ltb, leb, ◌==◌, if◌then◌else◌,
}

abbrev pub Ptr : Type 0
Ptr = ℕ

-- The items of arrays that are not relocatable.
abbrev pub Heap : Type 0
Heap = Ptr → Option (List ℕ)

abbrev pub write : Heap → Ptr → Option (List ℕ) → Heap
write h p c q = if q == p then c else h q

pub record Array : Type 0 where
  pub allocated : ℕ
  pub count : ℕ
  pub size : ℕ
  pub relocatable : Bool
  pub bytes : List ℕ

abbrev pub width : Array → ℕ
width a = if a.relocatable then a.size else 1

-- `GROW_ALLOCATION`; it gives 16 at 0, where the difference is -1.
abbrev pub grow_allocation : ℕ → ℕ
grow_allocation n = ((n - 1) / 16 + 1) * 16

-- `memset` or `memmove` of a block, and the source of one.
abbrev pub overwrite : List ℕ → ℕ → List ℕ → List ℕ
overwrite bytes at block = take at bytes ++ (block ++ drop (at + length block) bytes)

abbrev pub block_at : List ℕ → ℕ → ℕ → List ℕ
block_at bytes at n = take n (drop at bytes)

-- A pointer to an item: at an offset inside `bytes`, or on the heap.
pub data Place : Type 0 where
  inside : ℕ → Place
  outside : Ptr → Place

pub array_get : Array → ℕ → Place
array_get a i = if a.relocatable then inside (a.size * i) else outside (get_or a.bytes i 0)

abbrev pub free : Heap → Place → Heap
free h (inside offset) = h
free h (outside p) = write h p none

-- Whether it returns 0, and the array.
pub array_create : Bool → ℕ → ℕ → Bool → Bool × Array
array_create memory reserve size relocatable =
    let reserve' = grow_allocation reserve in
    let empty : Array = record {
      allocated = 0;
      count = 0;
      size = size;
      relocatable = relocatable;
      bytes = [];
    } in
    if memory
    then (
      true,
      record empty {
        allocated = reserve';
        bytes = replicate (reserve' * (if relocatable then size else 1)) 0;
      },
    )
    else (false, empty)

-- The items from `i` on, `k` of them: they go to the destroy function, if there is one, and are freed.
pub release_loop : ℕ → ℕ → Array → Heap → List Place × Heap
release_loop zero i a h = ([], h)
release_loop (suc k) i a h =
    let (places, h') = release_loop k (i + 1) a (free h (array_get a i)) in
    (array_get a i ∷ places, h')

-- The places handed to the destroy function, if `destroys`, and the heap.
pub array_destroy : Bool → Array → Heap → List Place × Heap
array_destroy destroys a h =
    let (places, h') = release_loop a.count 0 a h in (if destroys then places else [], h')

-- `realloc` keeps the old bytes; the new ones are set to zero.
pub array_reserve : Bool → ℕ → Array → Bool × Array
array_reserve memory reserve a =
    let reserve' = grow_allocation reserve in
    if leb reserve a.allocated
    then (true, a)
    else (if memory
        then (
          true,
          record a {
            allocated = reserve';
            bytes =
                take (a.allocated * width a) a.bytes
                ++ replicate ((reserve' - a.allocated) * width a) 0;
          },
        )
        else (false, a))

-- The items from `c` on, `k` of them, are freed from the last to the first.
pub unwind_loop : ℕ → ℕ → Array → Heap → Heap
unwind_loop zero c a h = h
unwind_loop (suc k) c a h = unwind_loop k c a (free h (array_get a (c + k)))

-- The loop that fills the new slots of an array that is not relocatable, `done` of them so far and `k` to come.
-- `fresh` is what the calls of `calloc` return.
pub fill_loop : ℕ → ℕ → List Ptr → Array → Heap → Bool × Array × Heap
fill_loop zero done fresh a h = (true, a, h)
fill_loop (suc k) done [] a h = (false, a, unwind_loop done a.count a h)
fill_loop (suc k) done (p ∷ fresh) a h =
    let rest =
      fill_loop k (done + 1) fresh
        (record a { bytes = overwrite a.bytes (a.count + done) (p ∷ []) })
        (write h p (some (replicate a.size 0))) in
    if p == 0 then (false, a, unwind_loop done a.count a h) else rest

abbrev pub with_count : ℕ → Bool × Array × Heap → Bool × Array × Heap
with_count count (true, a, h) = (true, record a { count = count }, h)
with_count count (false, a, h) = (false, a, h)

-- Whether it returns 0, the array and the heap, and the places handed to the destroy function.
pub array_resize : Bool → List Ptr → ℕ → Bool → Array → Heap → (Bool × Array × Heap) × List Place
array_resize memory fresh count destroys a h =
    let (ok, a') = array_reserve memory count a in
    let (places, h') = release_loop (a.count - count) count a h in
    if ltb a.count count
    then (
      if not ok
          then (false, a', h)
          else (if a'.relocatable
              then with_count count (true, a', h)
              else with_count count (fill_loop (count - a.count) 0 fresh a' h)),
      [],
    )
    else (with_count count (true, a, h'), if destroys then places else [])

-- What `array_append` does with the outcome of `array_reserve`.
abbrev pub append_reserved : Bool × Array → Ptr → Heap → Option Place × Array × Heap
append_reserved (false, a) fresh h = (none, a, h)
append_reserved (true, a) fresh h =
    if a.relocatable
    then (some (inside (a.size * a.count)), record a { count = a.count + 1 }, h)
    else (if fresh == 0 then (none, a, h) else (
      some (outside fresh),
      record a { count = a.count + 1; bytes = overwrite a.bytes a.count (fresh ∷ []) },
      write h fresh (some (replicate a.size 0)),
    ))

-- The new item, the array and the heap; `fresh` is what `calloc` returns, 0 on failure.
pub array_append : Bool → Ptr → Array → Heap → Option Place × Array × Heap
array_append memory fresh a h = append_reserved (array_reserve memory (a.count + 1) a) fresh h

-- The bytes after the slots behind slot `i` of `count` were moved down, and the last one was cleared.
abbrev pub remove_slot : ℕ → List ℕ → ℕ → ℕ → List ℕ
remove_slot w bytes i count =
    let tail = (count - i - 1) * w in
    let moved =
      if ltb 0 tail then overwrite bytes (w * i) (block_at bytes (w * (i + 1)) tail) else bytes in
    overwrite moved (w * (count - 1)) (replicate w 0)

-- The places handed to the destroy function, the array and the heap.
pub array_remove : ℕ → Bool → Array → Heap → List Place × Array × Heap
array_remove i destroys a h = (
  if destroys then array_get a i ∷ [] else [],
  record a { bytes = remove_slot (width a) a.bytes i a.count; count = a.count - 1 },
  free h (array_get a i),
)

pub array_swap : Array → Array → Array × Array
array_swap a other = (other, a)
