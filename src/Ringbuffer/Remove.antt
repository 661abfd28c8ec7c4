-- ===== src/Ringbuffer/Remove.antt =====
-- ringbuffer.c: taking bytes off the front, and where `uint16_t` is too small for it.
use daemonlib.Base.{
  ℕ, zero, ◌%◌, ◌+◌, ◌-◌, ◌≤◌, ◌<◌, ◌^◌, ◌≡◌, ◌≢◌, refl, ap, ◌∙◌, sym, Bool, true, false, Option,
  none, some, List, length, drop, get_elem?, get_or, get_elem?-eq-get_or, arith, ◌==◌,
  if◌then◌else◌, min, suc,
}
use daemonlib.Base.Cyclic.{cyclic, advance, mod-advance, drop-cyclic}
use daemonlib.Ringbuffer.{Ringbuffer, bump, ringbuffer_get_used, ringbuffer_remove, ringbuffer_get}
use daemonlib.Ringbuffer.Refine.{IsValid, contents, length-contents, ringbuffer_sizes}

-- The ring that starts `k` cells later.
abbrev moved : Ringbuffer → ℕ → Ringbuffer
moved rb k = record rb { start = advance rb.size rb.start k }

used-moved :
    (rb : Ringbuffer) (k : ℕ)
    → IsValid rb
    → k ≤ ringbuffer_get_used rb
    → ringbuffer_get_used (moved rb k) ≡ ringbuffer_get_used rb - k
unfolding ringbuffer_get_used
used-moved rb k v h = ground arith

IsValid-moved :
    (rb : Ringbuffer) (k : ℕ) → IsValid rb → k ≤ ringbuffer_get_used rb → IsValid (moved rb k)
IsValid-moved rb k v h = let less = (ringbuffer_sizes rb v).1 in ground arith

contents-moved :
    (rb : Ringbuffer) (k : ℕ)
    → IsValid rb
    → k ≤ ringbuffer_get_used rb
    → contents (moved rb k) ≡ drop k (contents rb)
unfolding contents
contents-moved rb k v h =
    let used = ringbuffer_get_used rb in
    let less = (ringbuffer_sizes rb v).1 in
    ap (cyclic rb.buffer rb.size (advance rb.size rb.start k)) (used-moved rb k v h)
    ∙ sym (drop-cyclic rb.buffer rb.size rb.start used k v.start_in h (omega arith))

-- A queue's `get`: nothing from an empty one, otherwise the oldest byte.
abbrev pub pop : List ℕ → Bool × Option ℕ × List ℕ
pop q = if length q == 0 then (false, none, q) else (true, get_elem? q 0, drop 1 q)

get_elem?-cyclic :
    (buf : List ℕ) (size h n : ℕ)
    → 0 < n
    → get_elem? (cyclic buf size h n) 0 ≡ some (get_or buf h 0)
get_elem?-cyclic buf size h zero some_bytes = absurd (omega arith)
get_elem?-cyclic buf size h (suc n) some_bytes = refl

first_byte :
    (rb : Ringbuffer)
    → IsValid rb
    → 0 < ringbuffer_get_used rb
    → get_elem? rb.buffer rb.start ≡ get_elem? (contents rb) 0
unfolding contents
first_byte rb v some_bytes =
    get_elem?-eq-get_or rb.buffer rb.start 0 (omega arith)
    ∙ sym (get_elem?-cyclic rb.buffer rb.size rb.start (ringbuffer_get_used rb) some_bytes)

-- On a valid ring `ringbuffer_get` returns false when the ring is empty, and otherwise hands out the
-- oldest byte, always one inside the buffer, and leaves the rest. The ring stays valid.
ringbuffer_get_refines :
    (rb : Ringbuffer)
    → IsValid rb
    → let (done, byte, rb') = ringbuffer_get rb in
      ((done, byte, contents rb') ≡ pop (contents rb)) × IsValid rb'
unfolding ringbuffer_get
ringbuffer_get_refines rb v =
    let (total, less, empty, full, mark) = ringbuffer_sizes rb v in
    let next : bump rb.size rb.start ≡ advance rb.size rb.start 1 = ground arith in
    ground (
      arith,
      empty,
      next,
      length-contents rb,
      first_byte rb v,
      contents-moved rb 1 v,
      IsValid-moved rb 1 v,
    )

-- On a valid ring, as long as `start` plus the number of bytes to remove stays below 2 ^ 16 (always,
-- if the size is at most 2 ^ 15), `ringbuffer_remove` drops the `num` oldest bytes, or all if there are
-- fewer, and the ring stays valid.
ringbuffer_remove_refines :
    (rb : Ringbuffer) (num : ℕ)
    → IsValid rb
    → rb.start + min (ringbuffer_get_used rb) num < 2 ^ 16
    → (contents (ringbuffer_remove rb num) ≡ drop (min (length (contents rb)) num) (contents rb))
      × IsValid (ringbuffer_remove rb num)
unfolding ringbuffer_remove
ringbuffer_remove_refines rb num v fits =
    let k = min (ringbuffer_get_used rb) num in
    let le : k ≤ ringbuffer_get_used rb = omega arith in
    let less = (ringbuffer_sizes rb v).1 in
    ground (arith, length-contents rb, contents-moved rb k v le, IsValid-moved rb k v le)

-- On a valid ring whose `start` plus the bytes to remove reaches 2 ^ 16, the sum wraps before it is
-- compared with the size, and `ringbuffer_remove` leaves `start` at a cell other than the one after the
-- removed bytes.
pub ringbuffer_remove_wraps :
    (rb : Ringbuffer) (num : ℕ)
    → IsValid rb
    → 2 ^ 16 ≤ rb.start + min (ringbuffer_get_used rb) num
    → (ringbuffer_remove rb num).start ≢ (rb.start + min (ringbuffer_get_used rb) num) % rb.size
unfolding ringbuffer_remove
ringbuffer_remove_wraps rb num v over =
    let k = min (ringbuffer_get_used rb) num in
    let less = (ringbuffer_sizes rb v).1 in
    ground (arith, mod-advance rb.size rb.start k v.start_in (omega arith))
