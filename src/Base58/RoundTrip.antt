-- ===== src/Base58/RoundTrip.antt =====
-- base58.c: every `uint32_t` is written in at most six characters and read back.
use native.Mathlib.Nat.{div-add-mod}
use mathlib.Core.List.{reverse, reverse-reverse}
use daemonlib.Base.{
  ℕ, zero, suc, ◌+◌, ◌-◌, ◌*◌, ◌/◌, ◌%◌, ◌^◌, ◌≤◌, ◌<◌, ◌≡◌, refl, ap, ◌∙◌, false, ltb, some, List,
  [], ◌∷◌, ◌++◌, length, replicate, length-replicate, length-append, length-reverse,
  get_or-append_replicate, append-nil, ◌==◌, get_or, arith, Bool-cases, inl, inr, map, ltb→lt,
}
use daemonlib.Base58.{
  alphabet, base58_max_length, base58_encode, ok, c_string, index_of, u32, decode_loop,
  base58_decode,
}
use daemonlib.Base58.Digits.{
  char, index_of-char, digits, encode_loop-digits, length-digits, div-lt-pow, room_left,
  digits-ne-nil, IsText, IsText-digits, IsText-reverse, c_string-append,
}

-- One character whose digit does not take the number past 32 bits.
decode_step :
    (c k : ℕ) (cs : List ℕ) (value base : ℕ)
    → index_of alphabet c ≡ some k
    → value + k * base < 2 ^ 32
    → decode_loop (c ∷ cs) value base ≡ decode_loop cs (value + k * base) (u32 (base * 58))
unfolding decode_loop
decode_step c k cs value base found fits = ground (arith, found)

-- The lowest digit of `v` at weight `base`, and the rest at the next weight.
split_digit : (v base : ℕ) → v * base ≡ v % 58 * base + v / 58 * (base * 58)
split_digit v base = omega (arith, ap (λ (t : ℕ). t * base) (div-add-mod v 58))

weight_fits : (v base : ℕ) → 58 ≤ v → v * base < 2 ^ 32 → u32 (base * 58) ≡ base * 58
weight_fits v base big fits = let more : 58 * base ≤ v * base = grind arith in omega arith

-- The digits of `v`, read from weight `base` on, add `v * base`.
decode_loop-digits :
    (room v value base : ℕ)
    → v < 58 ^ room
    → 0 < room
    → value + v * base < 2 ^ 32
    → decode_loop (map char (digits room v)) value base ≡ ok (value + v * base)
unfolding digits
decode_loop-digits zero v value base h some_room fits = absurd (omega arith)
decode_loop-digits (suc room) v value base h some_room fits = elim (Bool-cases (ltb v 58)) [
  | inl last ↦ rw last (
      decode_step (char v) v [] value base (index_of-char v (ltb→lt v 58 last)) fits
      ∙ unfold decode_loop in refl)
  | inr more ↦
      let big : 58 ≤ v = ground arith in
      let split = split_digit v base in
      let weight = weight_fits v base big (omega arith) in
      let total : value + v % 58 * base + v / 58 * (base * 58) ≡ value + v * base = omega arith in
      let first =
        decode_step (char (v % 58)) (v % 58) (map char (digits room (v / 58))) value base
          (index_of-char (v % 58) (omega arith)) (omega arith) in
      let rest =
        decode_loop-digits room (v / 58) (value + v % 58 * base) (base * 58) (div-lt-pow room v h)
          (room_left room v h big) (omega arith) in
      rw more
        (first ∙ ap (decode_loop (map char (digits room (v / 58))) _) weight ∙ rest ∙ ap ok total)
]

-- What the encoder leaves in memory for a text of up to seven characters, stored back to front.
record Padded (text : List ℕ) (bytes : List ℕ) : Type 0 where
  size : length bytes ≡ base58_max_length
  terminated : get_or bytes (base58_max_length - 1) 1 ≡ 0
  string : c_string bytes ≡ reverse text

pad-Padded :
    (text : List ℕ)
    → IsText text
    → length text ≤ 7
    → Padded text (reverse text ++ replicate (8 - length text) 0)
pad-Padded text t short =
    let len = length-reverse text in
    let k = 8 - length text in
    let one : suc (7 - length text) ≡ k = omega arith in
    record {
      size =
          omega (
            arith,
            length-append (reverse text) (replicate k 0),
            len,
            length-replicate {A = ℕ} k 0,
          );
      terminated = get_or-append_replicate (reverse text) k 7 0 1 (omega arith) (omega arith);
      string = rw (← one) (
          c_string-append (reverse text) _ (IsText-reverse text t)
          ∙ unfold c_string in append-nil (reverse text));
    }

-- Every `uint32_t` is encoded without a write outside `reverse`, in `base58_max_length` bytes whose
-- last one is NUL, and `base58_decode` reads the same number back from them.
pub base58_decode-encode :
    (v : ℕ)
    → v < 2 ^ 32
    → (bytes : List ℕ) × (base58_encode v ≡ some bytes)
      × (length bytes ≡ base58_max_length)
      × (get_or bytes (base58_max_length - 1) 1 ≡ 0)
      × (base58_decode bytes ≡ ok v)
unfolding base58_encode base58_decode
base58_decode-encode v h =
    let ds = map char (digits 8 v) in
    let runs = encode_loop-digits 8 v [] (omega arith) (omega arith) in
    let short = length-digits 8 6 v (omega arith) (omega arith) in
    let p = pad-Padded ds (IsText-digits 8 v) (omega arith) in
    let some_text : (length (reverse ds) == 0) ≡ false =
      ground (arith, digits-ne-nil 7 v, length-reverse ds) in
    let value : 0 + v * 1 ≡ v = omega arith in
    (
      reverse ds ++ replicate (8 - length ds) 0,
      rw runs,
      p.size,
      p.terminated,
      rw (p.string, some_text, reverse-reverse)
          (decode_loop-digits 8 v 0 1 (omega arith) (omega arith) (omega arith) ∙ ap ok value),
    )
