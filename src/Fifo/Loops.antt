-- ===== src/Fifo/Loops.antt =====
-- fifo.c: the two copy loops do what one copy of all bytes would do, within the fuel given.
use native.Mathlib.Decide.{dec_lt}
use daemonlib.Base.{
  ℕ, zero, suc, ◌+◌, ◌-◌, ◌≤◌, ◌<◌, min, ◌≡◌, ap, ◌∙◌, Bool, true, List, [], ◌++◌, length,
  length-append, append_assoc, append-nil, arith,
}
use daemonlib.Base.Cyclic.{slice, length-slice, slice-append}
use daemonlib.Fifo.{
  Fifo, wrote, write_waits, read, writable_at_all, writable_at_once, readable_at_all,
  readable_at_once, put_block, take_block, write_loop, read_loop,
}
use daemonlib.Fifo.Sizes.{
  IsValid, contents, length-contents, Put, Put-nil, Put-append, put_block-Put, IsValid-AtOnce,
  Taken, Taken-nil, Taken-append, take_block-Taken, IsValid-ReadOnce,
}

-- One round with space left.
record Round (k : ℕ) (b : Bool) (f : Fifo) (src : List ℕ) (len n : ℕ) (w : ℕ) (f' : Fifo)
    : Type 0 where
  turns : write_loop (suc k) b f src len n ≡ write_loop k b f' src len (n + w)
  puts : Put f (slice src n w) f'
  some_bytes : 0 < w
  fits : w ≤ len - n
  space : writable_at_all f' + w ≡ writable_at_all f

round :
    (k : ℕ) (b : Bool) (f : Fifo) (src : List ℕ) (len n : ℕ)
    → IsValid f
    → 0 < len - n
    → 0 < writable_at_all f
    → (w : ℕ) × (f' : Fifo) × Round k b f src len n w f'
unfolding write_loop
round k b f src len n v more space =
    let once = IsValid-AtOnce v in
    let w = min (writable_at_once f) (len - n) in
    let block = slice src n w in
    let f' = put_block f block w in
    let size = length-slice src n w in
    let puts : Put f block f' = rw size at (put_block-Put f block v (omega arith)) in
    let positive = once.some_space space in
    (
      w,
      f',
      record {
        turns = ground arith;
        puts = puts;
        some_bytes = omega arith;
        fits = omega arith;
        space = omega (arith, puts.space);
      },
    )

-- A call that has room for the `m` bytes that are left writes them and returns `len`.
pub write_loop_all :
    (k : ℕ) (b : Bool) (f : Fifo) (src : List ℕ) (len n m : ℕ)
    → IsValid f
    → n + m ≡ len
    → m < k
    → m ≤ writable_at_all f
    → (f' : Fifo) × (write_loop k b f src len n ≡ (wrote len, f')) × Put f (slice src n m) f'
unfolding write_loop slice
write_loop_all zero b f src len n m v le fuel room = absurd (omega arith)
write_loop_all (suc k) b f src len n zero v le fuel room = (f, ground arith, Put-nil v)
write_loop_all (suc k) b f src len n (suc m) v le fuel room =
    let (w, f', r) = round k b f src len n v (omega arith) (omega arith) in
    let left = suc m - w in
    let (g, runs, puts) =
      write_loop_all k b f' src len (n + w) left r.puts.valid (omega (arith, r.fits))
        (omega (arith, r.some_bytes)) (omega (arith, r.space)) in
    let whole : w + left ≡ suc m = omega (arith, r.fits) in
    let blocks : slice src n w ++ slice src (n + w) left ≡ slice src n (suc m) =
      slice-append src n w left ∙ ap (slice src n) whole in
    (
      g,
      r.turns ∙ runs,
      rw blocks at (Put-append (slice src n w) (slice src (n + w) left) r.puts puts),
    )

-- A blocking call that has more left than room fills the room and waits with the FIFO full.
pub write_loop_blocks :
    (k : ℕ) (f : Fifo) (src : List ℕ) (len n : ℕ)
    → IsValid f
    → len - n < k
    → writable_at_all f < len - n
    → (f' : Fifo) × (write_loop k true f src len n ≡ (write_waits (n + writable_at_all f), f'))
      × Put f (slice src n (writable_at_all f)) f'
unfolding write_loop slice
write_loop_blocks zero f src len n v fuel room = absurd (omega arith)
write_loop_blocks (suc k) f src len n v fuel room = elim (dec_lt 0 (writable_at_all f)) [
  | no full ↦
      let nothing : writable_at_all f ≡ 0 = omega arith in
      let same : n + 0 ≡ n = omega arith in
      (f, rw (nothing, same) (ground arith), rw nothing (Put-nil v))
  | yes space ↦
      let (w, f', r) = round k true f src len n v (omega arith) space in
      let (g, runs, puts) =
        write_loop_blocks k f' src len (n + w) r.puts.valid (omega (arith, r.fits, r.some_bytes))
          (omega (arith, r.space)) in
      let whole : w + writable_at_all f' ≡ writable_at_all f = omega (arith, r.space) in
      let place : n + w + writable_at_all f' ≡ n + writable_at_all f = omega arith in
      (
        g,
        r.turns ∙ rw place at runs,
        rw (slice-append, whole) at
            (Put-append (slice src n w) (slice src (n + w) (writable_at_all f')) r.puts puts),
      )
]

-- The reading loop takes as many bytes as it may and the FIFO has, in order.
pub read_loop_all :
    (k : ℕ) (f : Fifo) (len : ℕ) (out : List ℕ)
    → IsValid f
    → len < k
    → (block : List ℕ) × (f' : Fifo) × (read_loop k f len out ≡ (read (out ++ block), f'))
      × Taken f block f'
      × (length block ≡ min len (readable_at_all f))
unfolding read_loop
read_loop_all zero f len out v fuel = absurd (omega arith)
read_loop_all (suc k) f len out v fuel = elim (dec_lt 0 (min len (readable_at_all f))) [
  | no done ↦ ([], f, rw append-nil (ground arith), Taken-nil v, omega arith)
  | yes more ↦
      let w = min (readable_at_once f) len in
      let once = IsValid-ReadOnce v in
      let positive = once.some_bytes (omega arith) in
      let first = slice f.buffer f.begin w in
      let taken = take_block-Taken f w v (omega arith) in
      let size = length-slice f.buffer f.begin w in
      let turn : read_loop (suc k) f len out
          ≡ read_loop k (take_block f w) (len - w) (out ++ first) =
        ground arith in
      let (rest, g, runs, taken', size') =
        read_loop_all k (take_block f w) (len - w) (out ++ first) taken.valid (omega arith) in
      (
        first ++ rest,
        g,
        turn ∙ runs ∙ rw append_assoc,
        Taken-append first rest taken taken',
        omega (
          arith,
          size,
          size',
          length-append first rest,
          ap length taken.removed,
          length-contents f,
          length-contents (take_block f w),
          length-append first (contents (take_block f w)),
          once.fits,
        ),
      )
]
