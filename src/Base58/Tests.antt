-- ===== src/Base58/Tests.antt =====
-- base58.c: runs of both functions, and the theorems at numbers.
use daemonlib.Base.{ℕ, ◌-◌, ◌*◌, ◌≤◌, ◌^◌, ◌≡◌, refl, some, List, [], ◌∷◌, length, get_or, arith}
use daemonlib.Base58.{
  base58_max_length, base58_encode, encode_loop, ok, einval, u32, index_of, c_string, decode_loop,
  base58_decode,
}
use daemonlib.Base58.Digits.{char}
use daemonlib.Base58.RoundTrip.{base58_decode-encode}
use daemonlib.Base58.Overflow.{ones, base58_decode_overflow}

encode_58 : base58_encode 58 ≡ some (b'2' ∷ b'1' ∷ 0 ∷ 0 ∷ 0 ∷ 0 ∷ 0 ∷ 0 ∷ [])
unfolding base58_encode encode_loop
encode_58 = refl

decode_21 : base58_decode (b'2' ∷ b'1' ∷ 0 ∷ b'x' ∷ []) ≡ ok 58
unfolding base58_decode c_string decode_loop index_of
decode_21 = refl

decode_zero : base58_decode (b'0' ∷ 0 ∷ []) ≡ einval
unfolding base58_decode c_string decode_loop index_of
decode_zero = refl

base58_decode-encode_example :
    (bytes : List ℕ) × (base58_encode 4_294_967_295 ≡ some bytes)
    × (length bytes ≡ base58_max_length)
    × (get_or bytes (base58_max_length - 1) 1 ≡ 0)
    × (base58_decode bytes ≡ ok 4_294_967_295)
base58_decode-encode_example = base58_decode-encode 4_294_967_295 (omega arith)

base58_decode_overflow_example :
    (2 ^ 32 ≤ 7 * 58 ^ 5) × (base58_decode (char 7 ∷ ones) ≡ ok (u32 (7 * 58 ^ 5)))
base58_decode_overflow_example = base58_decode_overflow 7 (omega arith) (omega arith)
