-- ===== src/Ringbuffer.antt =====
-- ringbuffer.c: a byte ring with `uint16_t` indices, one cell of which stays unused. A function that
-- updates `*rb` returns the new ring beside its result; the widths of the fields are written out.
mod Refine
mod Remove
mod Tests
use daemonlib.Base.{
  ℕ, ◌+◌, ◌-◌, ◌%◌, ◌^◌, min, Bool, true, false, Option, none, some, List, get_elem?, set, ltb, leb,
  ◌==◌, if◌then◌else◌,
}

pub record Ringbuffer : Type 0 where
  pub overflows : ℕ
  pub start : ℕ
  pub end : ℕ
  pub size : ℕ
  pub low_watermark : ℕ
  pub buffer : List ℕ

abbrev pub u16 : ℕ → ℕ
u16 n = n % 2 ^ 16

abbrev pub u32 : ℕ → ℕ
u32 n = n % 2 ^ 32

-- The sums are computed in `int` and cut to `uint16_t` by the return; neither is negative where the
-- branch is taken.
pub ringbuffer_get_used : Ringbuffer → ℕ
ringbuffer_get_used rb =
    if ltb rb.end rb.start then u16 (rb.size + rb.end - rb.start) else u16 (rb.end - rb.start)

pub ringbuffer_get_free : Ringbuffer → ℕ × Ringbuffer
ringbuffer_get_free rb =
    let free = u16 (rb.size + 2 ^ 16 - ringbuffer_get_used rb) in
    if ltb free rb.low_watermark then (free, record rb { low_watermark = free }) else (free, rb)

pub ringbuffer_is_empty : Ringbuffer → Bool
ringbuffer_is_empty rb = rb.start == rb.end

pub ringbuffer_is_full : Ringbuffer → Bool × Ringbuffer
ringbuffer_is_full rb = let (free, rb') = ringbuffer_get_free rb in (ltb free 2, rb')

-- `rb->end++`, going round at `size`.
abbrev pub bump : ℕ → ℕ → ℕ
bump size i = if leb size (u16 (i + 1)) then 0 else u16 (i + 1)

pub ringbuffer_add : Ringbuffer → ℕ → Bool × Ringbuffer
ringbuffer_add rb byte =
    let buffer' = set rb.buffer rb.end byte in
    let end' = bump rb.size rb.end in
    if end' == rb.start
    then (
      false,
      record rb {
        buffer = buffer';
        overflows = u32 (rb.overflows + 1);
        end = if end' == 0 then rb.size - 1 else end' - 1;
      },
    )
    else (true, record rb { buffer = buffer'; end = end' })

-- `rb->start += incr` is cut to `uint16_t` before it is compared.
pub ringbuffer_remove : Ringbuffer → ℕ → Ringbuffer
ringbuffer_remove rb num =
    let incr = min (ringbuffer_get_used rb) num in
    let start' = u16 (rb.start + incr) in
    record rb { start = if leb rb.size start' then start' - rb.size else start' }

-- The option is what goes through `data`; `none` beside `true` would be a read outside the buffer.
pub ringbuffer_get : Ringbuffer → Bool × Option ℕ × Ringbuffer
ringbuffer_get rb =
    if ringbuffer_is_empty rb
    then (false, none, rb)
    else (true, get_elem? rb.buffer rb.start, record rb { start = bump rb.size rb.start })

pub ringbuffer_init : ℕ → List ℕ → Ringbuffer
ringbuffer_init size buffer = record {
  overflows = 0;
  start = 0;
  end = 0;
  size = size;
  low_watermark = size;
  buffer = buffer;
}
