-- ===== src/Fifo/Sizes.antt =====
-- fifo.c: the four size functions, the bytes that a FIFO holds, and what one block copy does.
use native.Mathlib.Nat.{mod-lt}
use daemonlib.Base.{
  ℕ, ◌+◌, ◌%◌, ◌≤◌, ◌<◌, ◌≡◌, refl, ap, ◌∙◌, List, [], ◌++◌, length, length-append, append-nil,
  append_assoc, sym, arith,
}
use daemonlib.Base.Cyclic.{
  cyclic, copy, slice, advance, mod-advance, length-cyclic, length-copy, cyclic-copy, cyclic-slice,
}
use daemonlib.Fifo.{
  Fifo, writable_at_all, writable_at_once, readable_at_all, readable_at_once, put_block, take_block,
  fifo_shutdown, fifo_create,
}

-- The indices lie in the ring, and the ring in the caller's memory.
pub record IsValid (f : Fifo) : Type 0 where
  pub storage : f.length ≤ length f.buffer
  pub begin_in : f.begin < f.length
  pub end_in : f.end < f.length

-- The bytes in the FIFO, oldest first.
unfoldable pub contents : Fifo → List ℕ
contents f = cyclic f.buffer f.length f.begin (readable_at_all f)

pub length-contents : (f : Fifo) → length (contents f) ≡ readable_at_all f
unfolding contents
length-contents f = length-cyclic f.buffer f.length f.begin (readable_at_all f)

-- One byte of the ring always stays unused.
pub writable-add-readable :
    {f : Fifo} → IsValid f → writable_at_all f + readable_at_all f + 1 ≡ f.length
unfolding writable_at_all readable_at_all
writable-add-readable v = ground arith

-- What can be written at once fits, ends inside the array, and is something if there is space.
pub record AtOnce (f : Fifo) : Type 0 where
  pub fits : writable_at_once f ≤ writable_at_all f
  pub inside : f.end + writable_at_once f ≤ f.length
  pub some_space : 0 < writable_at_all f → 0 < writable_at_once f
  pub end_at : f.end ≡ advance f.length f.begin (readable_at_all f)

pub IsValid-AtOnce : {f : Fifo} → IsValid f → AtOnce f
unfolding writable_at_all writable_at_once readable_at_all
IsValid-AtOnce v = record {
  fits = ground arith;
  inside = ground arith;
  some_space = λ h. ground arith;
  end_at = ground arith;
}

-- What can be read at once is in the FIFO, ends inside the array, and is something if there is any.
pub record ReadOnce (f : Fifo) : Type 0 where
  pub fits : readable_at_once f ≤ readable_at_all f
  pub inside : f.begin + readable_at_once f ≤ f.length
  pub some_bytes : 0 < readable_at_all f → 0 < readable_at_once f

pub IsValid-ReadOnce : {f : Fifo} → IsValid f → ReadOnce f
unfolding readable_at_all readable_at_once
IsValid-ReadOnce v = record {
  fits = ground arith;
  inside = ground arith;
  some_bytes = λ h. ground arith;
}

-- A block that fits goes behind the bytes that are there, and shortens the space by its length.
pub record Put (f : Fifo) (block : List ℕ) (f' : Fifo) : Type 0 where
  pub valid : IsValid f'
  pub appended : contents f' ≡ contents f ++ block
  pub space : writable_at_all f' + length block ≡ writable_at_all f
  pub shut : f'.shutdown ≡ f.shutdown
  pub ring : f'.length ≡ f.length

readable-put_block :
    (f : Fifo) (block : List ℕ) (n : ℕ)
    → IsValid f
    → n ≤ writable_at_once f
    → readable_at_all (put_block f block n) ≡ readable_at_all f + n
unfolding readable_at_all writable_at_once put_block
readable-put_block f block n v h = ground (arith, mod-advance f.length f.end n)

end-put_block : (f : Fifo) (n : ℕ) → IsValid f → (f.end + n) % f.length < f.length
end-put_block f n v = mod-lt (f.end + n) (omega arith)

pub put_block-Put :
    (f : Fifo) (block : List ℕ)
    → IsValid f
    → length block ≤ writable_at_once f
    → Put f block (put_block f block (length block))
unfolding contents put_block writable_at_all
put_block-Put f block v h =
    let once = IsValid-AtOnce v in
    let n = length block in
    let f' = put_block f block n in
    let longer = readable-put_block f block n v h in
    let valid' : IsValid f' = record {
      storage = omega (arith, length-copy f.buffer f.end block);
      begin_in = v.begin_in;
      end_in = end-put_block f n v;
    } in
    let total = writable-add-readable v in
    let total' = writable-add-readable valid' in
    record {
      valid = valid';
      appended =
          ap (cyclic (copy f.buffer f.end block) f.length f.begin) longer
          ∙ cyclic-copy f.buffer f.length (readable_at_all f) f.begin f.end block v.storage
              v.begin_in (omega (arith, once.fits)) once.end_at (omega (arith, once.inside));
      space = omega arith;
      shut = refl;
      ring = refl;
    }

-- Nothing put.
pub Put-nil : {f : Fifo} → IsValid f → Put f [] f
Put-nil {f} v = record {
  valid = v;
  appended = sym (append-nil (contents f));
  space = omega arith;
  shut = refl;
  ring = refl;
}

-- One block after another.
pub Put-append : {f g h : Fifo} (xs ys : List ℕ) → Put f xs g → Put g ys h → Put f (xs ++ ys) h
Put-append {f} xs ys p q = record {
  valid = q.valid;
  appended = q.appended ∙ ap (λ l. l ++ ys) p.appended ∙ append_assoc (contents f) xs ys;
  space = omega (arith, length-append xs ys, p.space, q.space);
  shut = q.shut ∙ p.shut;
  ring = q.ring ∙ p.ring;
}

-- The first `n` bytes are taken.
pub record Taken (f : Fifo) (block : List ℕ) (f' : Fifo) : Type 0 where
  pub valid : IsValid f'
  pub removed : contents f ≡ block ++ contents f'
  pub shut : f'.shutdown ≡ f.shutdown
  pub ring : f'.length ≡ f.length

readable-take_block :
    (f : Fifo) (n : ℕ)
    → IsValid f
    → n ≤ readable_at_once f
    → n + readable_at_all (take_block f n) ≡ readable_at_all f
unfolding readable_at_all readable_at_once take_block
readable-take_block f n v h = ground (arith, mod-advance f.length f.begin n)

pub take_block-Taken :
    (f : Fifo) (n : ℕ)
    → IsValid f
    → n ≤ readable_at_once f
    → Taken f (slice f.buffer f.begin n) (take_block f n)
unfolding contents take_block
take_block-Taken f n v h =
    let once = IsValid-ReadOnce v in
    let inside : f.begin + n ≤ f.length = omega (arith, once.inside) in
    record {
      valid = record {
        storage = v.storage;
        begin_in = mod-lt (f.begin + n) (omega arith);
        end_in = v.end_in;
      };
      removed =
          ap (cyclic f.buffer f.length f.begin) (sym (readable-take_block f n v h))
          ∙ cyclic-slice f.buffer f.length f.begin n (readable_at_all (take_block f n)) v.begin_in
              inside
          ∙ ap
              (λ j.
                slice f.buffer f.begin n
                ++ cyclic f.buffer f.length j (readable_at_all (take_block f n)))
              (sym (mod-advance f.length f.begin n v.begin_in (omega arith)));
      shut = refl;
      ring = refl;
    }

-- Nothing taken.
pub Taken-nil : {f : Fifo} → IsValid f → Taken f [] f
Taken-nil v = record { valid = v; removed = refl; shut = refl; ring = refl }

-- One block after another.
pub Taken-append :
    {f g h : Fifo} (xs ys : List ℕ) → Taken f xs g → Taken g ys h → Taken f (xs ++ ys) h
Taken-append {h} xs ys p q = record {
  valid = q.valid;
  removed = p.removed ∙ ap (λ l. xs ++ l) q.removed ∙ sym (append_assoc xs ys (contents h));
  shut = q.shut ∙ p.shut;
  ring = q.ring ∙ p.ring;
}

-- A shutdown leaves the bytes in the ring, for the readers to drain.
pub fifo_shutdown-IsValid :
    {f : Fifo} → IsValid f → IsValid (fifo_shutdown f) × (contents (fifo_shutdown f) ≡ contents f)
unfolding fifo_shutdown contents readable_at_all
fifo_shutdown-IsValid v = (omega arith, refl)

pub fifo_create-IsValid :
    (buffer : List ℕ) (len : ℕ)
    → len ≤ length buffer
    → 0 < len
    → IsValid (fifo_create buffer len) × (contents (fifo_create buffer len) ≡ [])
unfolding fifo_create contents readable_at_all
fifo_create-IsValid buffer len holds some_room = (omega arith, refl)
