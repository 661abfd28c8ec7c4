-- ===== src/Ringbuffer/Refine.antt =====
-- ringbuffer.c: a valid ring is a queue of at most `size - 1` bytes.
use daemonlib.Base.{
  ◌≢◌, ℕ, suc, ◌+◌, ◌-◌, ◌≤◌, ◌<◌, ◌^◌, ◌≡◌, refl, ap, ◌∙◌, true, false, List, [], ◌∷◌, ◌++◌,
  length, length-set, set, arith, ◌==◌, if◌then◌else◌, inl, inr, Bool-cases, not, min,
}
use daemonlib.Base.Cyclic.{cyclic, advance, length-cyclic, cyclic-set, cyclic-set_outside}
use daemonlib.Ringbuffer.{
  Ringbuffer, u32, bump, ringbuffer_get_used, ringbuffer_get_free, ringbuffer_is_empty,
  ringbuffer_is_full, ringbuffer_add,
}

pub record IsValid (rb : Ringbuffer) : Type 0 where
  pub storage : rb.size ≤ length rb.buffer
  pub word : rb.size < 2 ^ 16
  pub start_in : rb.start < rb.size
  pub end_in : rb.end < rb.size

unfoldable pub contents : Ringbuffer → List ℕ
contents rb = cyclic rb.buffer rb.size rb.start (ringbuffer_get_used rb)

pub length-contents : (rb : Ringbuffer) → length (contents rb) ≡ ringbuffer_get_used rb
unfolding contents
length-contents rb = length-cyclic rb.buffer rb.size rb.start (ringbuffer_get_used rb)

-- No arithmetic of the size functions wraps: used and free cells make up the ring, `used` stays below
-- the size, the ring counts as empty exactly when nothing is used, and as full exactly when one more
-- byte would not fit; asking lowers the low watermark to what was free, and changes nothing else.
pub ringbuffer_sizes :
    (rb : Ringbuffer)
    → IsValid rb
    → let used = ringbuffer_get_used rb in
      let (free, rb') = ringbuffer_get_free rb in
      (used + free ≡ rb.size)
      × (used < rb.size)
      × (ringbuffer_is_empty rb ≡ (used == 0))
      × ((ringbuffer_is_full rb).0 ≡ (used + 1 == rb.size))
      × (rb' ≡ record rb { low_watermark = min rb.low_watermark free })
unfolding ringbuffer_get_used ringbuffer_get_free ringbuffer_is_empty ringbuffer_is_full
ringbuffer_sizes rb v = (ground arith, ground arith, ground arith, ground arith, ground arith)

end-advance :
    (rb : Ringbuffer) → IsValid rb → rb.end ≡ advance rb.size rb.start (ringbuffer_get_used rb)
unfolding ringbuffer_get_used
end-advance rb v = ground arith

bump-advance : (size i : ℕ) → size < 2 ^ 16 → i < size → bump size i ≡ advance size i 1
bump-advance size i w h = ground arith

-- A byte behind the others.
cyclic-end :
    (rb : Ringbuffer) (byte : ℕ)
    → IsValid rb
    → let used = ringbuffer_get_used rb in
      (cyclic (set rb.buffer rb.end byte) rb.size rb.start (suc used) ≡ contents rb ++ (byte ∷ []))
      × (cyclic (set rb.buffer rb.end byte) rb.size rb.start used ≡ contents rb)
unfolding contents
cyclic-end rb byte v =
    let used = ringbuffer_get_used rb in
    let less = (ringbuffer_sizes rb v).1 in
    let at = end-advance rb v in
    (
      cyclic-set rb.buffer rb.size byte used rb.start rb.end v.storage v.start_in less at,
      cyclic-set_outside rb.buffer rb.size byte used used rb.start rb.end v.start_in (omega arith)
          less at,
    )

-- How far `end` is from `start` after it moved on by one.
used-bump :
    (rb : Ringbuffer)
    → IsValid rb
    → ((bump rb.size rb.end == rb.start) ≡ (ringbuffer_get_used rb + 1 == rb.size))
      × (bump rb.size rb.end ≢ rb.start
          → ringbuffer_get_used (record rb { end = bump rb.size rb.end })
            ≡ suc (ringbuffer_get_used rb))
unfolding ringbuffer_get_used
used-bump rb v = (ground arith, λ ne. ground arith)

bump-back :
    (size end : ℕ)
    → size < 2 ^ 16
    → end < size
    → let end' = bump size end in (if end' == 0 then size - 1 else end' - 1) ≡ end
bump-back size end w h = ground arith

abbrev refused : Ringbuffer → ℕ → Ringbuffer
refused rb byte = record rb {
  buffer = set rb.buffer rb.end byte;
  overflows = u32 (rb.overflows + 1);
}

abbrev stored : Ringbuffer → ℕ → Ringbuffer
stored rb byte = record rb { buffer = set rb.buffer rb.end byte; end = bump rb.size rb.end }

ringbuffer_add-cases :
    (rb : Ringbuffer) (byte : ℕ)
    → IsValid rb
    → ringbuffer_add rb byte ≡ (
        if ringbuffer_get_used rb + 1 == rb.size
        then (false, refused rb byte)
        else (true, stored rb byte))
unfolding ringbuffer_add
ringbuffer_add-cases rb byte v = rw (← (used-bump rb v).0, bump-back rb.size rb.end v.word v.end_in)

contents-refused :
    (rb : Ringbuffer) (byte : ℕ) → IsValid rb → contents (refused rb byte) ≡ contents rb
unfolding contents ringbuffer_get_used
contents-refused rb byte v = (cyclic-end rb byte v).1

contents-stored :
    (rb : Ringbuffer) (byte : ℕ)
    → IsValid rb
    → (ringbuffer_get_used rb + 1 == rb.size) ≡ false
    → contents (stored rb byte) ≡ contents rb ++ (byte ∷ [])
unfolding contents ringbuffer_get_used
contents-stored rb byte v room =
    let (turn, longer) = used-bump rb v in
    ap (cyclic (set rb.buffer rb.end byte) rb.size rb.start) (longer (ground (arith, turn, room)))
    ∙ (cyclic-end rb byte v).0

IsValid-refused : (rb : Ringbuffer) (byte : ℕ) → IsValid rb → IsValid (refused rb byte)
IsValid-refused rb byte v = omega (arith, length-set rb.buffer rb.end byte)

IsValid-stored : (rb : Ringbuffer) (byte : ℕ) → IsValid rb → IsValid (stored rb byte)
IsValid-stored rb byte v = ground (arith, length-set rb.buffer rb.end byte)

-- On a valid ring `ringbuffer_add` refuses a byte exactly when the ring holds `size - 1` bytes: it then
-- counts the overflow and keeps the bytes. Otherwise the byte goes behind the others and the count
-- stays. The ring stays valid.
ringbuffer_add_refines :
    (rb : Ringbuffer) (byte : ℕ)
    → IsValid rb
    → let q = contents rb in
      let full = length q + 1 == rb.size in
      let (done, rb') = ringbuffer_add rb byte in
      (done ≡ not full)
      × (contents rb' ≡ (if full then q else q ++ (byte ∷ [])))
      × (rb'.overflows ≡ (if full then u32 (rb.overflows + 1) else rb.overflows))
      × IsValid rb'
ringbuffer_add_refines rb byte v =
    let cases = ringbuffer_add-cases rb byte v in
    elim (Bool-cases (ringbuffer_get_used rb + 1 == rb.size)) [
      | inl full ↦
          rw (length-contents, cases, full)
            (refl, contents-refused rb byte v, refl, IsValid-refused rb byte v)
      | inr more ↦
          rw (length-contents, cases, more)
            (refl, contents-stored rb byte v more, refl, IsValid-stored rb byte v)
    ]
