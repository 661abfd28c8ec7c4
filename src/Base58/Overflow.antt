-- ===== src/Base58/Overflow.antt =====
-- base58.c: the range check of `base58_decode` compares after `k * base` has been cut to 32 bits.
use daemonlib.Base.{ℕ, ◌*◌, ◌≤◌, ◌<◌, ◌^◌, ◌≡◌, refl, some, List, [], ◌∷◌, arith}
use daemonlib.Base58.{alphabet, ok, c_string, index_of, u32, decode_loop, base58_decode}
use daemonlib.Base58.Digits.{char, char-pos, index_of-char, IsText-cons}

abbrev pub ones : List ℕ
ones = b'1' ∷ b'1' ∷ b'1' ∷ b'1' ∷ b'1' ∷ []

last_digit :
    (c k base : ℕ)
    → index_of alphabet c ≡ some k
    → decode_loop (c ∷ []) 0 base ≡ ok (u32 (k * base))
unfolding decode_loop
last_digit c k base found = ground (arith, found)

-- A digit `k` of 7 or more in the sixth place stands for a number of 2 ^ 32 or more, and yet
-- `base58_decode` reports no range error on it: followed by five zero digits it returns that number cut
-- to 32 bits.
pub base58_decode_overflow :
    (k : ℕ)
    → 7 ≤ k
    → k < 58
    → (2 ^ 32 ≤ k * 58 ^ 5) × (base58_decode (char k ∷ ones) ≡ ok (u32 (k * 58 ^ 5)))
unfolding base58_decode
base58_decode_overflow k big small =
    let text : c_string (char k ∷ ones) ≡ char k ∷ ones =
      IsText-cons (char k) ones (char-pos k small) (unfold c_string in refl) in
    (
      omega arith,
      rw text
          (unfold decode_loop index_of in last_digit (char k) k (58 ^ 5) (index_of-char k small)),
    )
