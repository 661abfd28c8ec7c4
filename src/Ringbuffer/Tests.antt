-- ===== src/Ringbuffer/Tests.antt =====
-- ringbuffer.c: runs on small rings and on one of 40000 cells, and the theorems at them.
use daemonlib.Base.{
  ℕ, ◌+◌, ◌%◌, ◌≡◌, ◌≢◌, refl, true, List, [], ◌∷◌, length, length-replicate, replicate, min, arith,
}
use daemonlib.Ringbuffer.{Ringbuffer, ringbuffer_get_used, ringbuffer_add, ringbuffer_remove}
use daemonlib.Ringbuffer.Refine.{IsValid, contents}
use daemonlib.Ringbuffer.Remove.{ringbuffer_remove_wraps}

-- 8, 9 round the end of the array.
abbrev wrapped : Ringbuffer
wrapped = record {
  overflows = 0;
  start = 3;
  end = 1;
  size = 4;
  low_watermark = 4;
  buffer = 9 ∷ 7 ∷ 6 ∷ 8 ∷ [];
}

wrapped-IsValid : IsValid wrapped
wrapped-IsValid = omega arith

contents-wrapped : contents wrapped ≡ 8 ∷ 9 ∷ []
unfolding contents ringbuffer_get_used
contents-wrapped = refl

add_wrapped : (ringbuffer_add wrapped 5).0 ≡ true
unfolding ringbuffer_add
add_wrapped = refl

-- A ring of 40000 cells that holds 39999 bytes from the last cell on.
big_buffer : List ℕ
big_buffer = replicate 40000 0

abbrev big : Ringbuffer
big = record {
  overflows = 0;
  start = 39999;
  end = 39998;
  size = 40000;
  low_watermark = 0;
  buffer = big_buffer;
}

length-big_buffer : length big_buffer ≡ 40000
unfolding big_buffer
length-big_buffer = length-replicate {A = ℕ} 40000 0

big-IsValid : IsValid big
big-IsValid = record {
  storage = omega (arith, length-big_buffer);
  word = omega arith;
  start_in = omega arith;
  end_in = omega arith;
}

used-big : ringbuffer_get_used big ≡ 39999
unfolding ringbuffer_get_used
used-big = refl

ringbuffer_remove_wraps_example :
    (ringbuffer_remove big 30000).start ≢ (39999 + min (ringbuffer_get_used big) 30000) % 40000
unfolding ringbuffer_get_used
ringbuffer_remove_wraps_example = ringbuffer_remove_wraps big 30000 big-IsValid (omega arith)
