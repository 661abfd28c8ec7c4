-- ===== src/Packet/Fields.antt =====
-- packet.c: the bit fields of the header.
use daemonlib.Base.{
  ℕ, ◌-◌, ◌*◌, ◌/◌, ◌<◌, ◌≡◌, refl, ◌∙◌, Bool-cases, inl, inr, ltb, Bool, true, false, not, ◌&&◌,
  ◌==◌, bit_and, bit_or, arith,
}
use daemonlib.Base.Table.{check_all, check_all-holds}
use daemonlib.Packet.{
  PacketHeader, packet_header_get_sequence_number, packet_header_set_sequence_number,
  packet_header_get_response_expected, packet_header_set_response_expected,
  packet_header_get_error_code, packet_header_set_error_code,
}

-- Both bytes are bytes.
abbrev pub IsHeader : PacketHeader → Type 0
IsHeader h = (h.sequence_number_and_options < 256) × (h.error_code_and_future_use < 256)

abbrev same : Bool → Bool → Bool
same true b = b
same false b = not b

same-eq : (a b : Bool) → same a b ≡ true → a ≡ b
same-eq true true h = refl
same-eq true false h = absurd (ground arith)
same-eq false true h = absurd (ground arith)
same-eq false false h = refl

-- A new sequence number `n` in the byte `x`.
abbrev put_number : ℕ → ℕ → ℕ
put_number n x = bit_or (bit_and x (255 - 0xF0)) (bit_and (n * 16) 0xF0)

abbrev number_test : ℕ → ℕ → Bool
number_test n x =
    (bit_and (put_number n x / 16) 0x0F == n)
    && same (bit_and (put_number n x / 8) 0x01 == 0x01) (bit_and (x / 8) 0x01 == 0x01)

number_table : check_all 16 (λ n. check_all 256 (λ x. number_test n x)) ≡ true
unfolding check_all
number_table = refl

number_holds : (n x : ℕ) → n < 16 → x < 256 → number_test n x ≡ true
number_holds n x small byte =
    check_all-holds 256 (number_test n) x
      (check_all-holds 16 (λ m. check_all 256 (λ y. number_test m y)) n number_table small) byte

abbrev flag_test : ℕ → Bool
flag_test x =
    (bit_and (bit_or x 8 / 8) 0x01 == 0x01)
    && not (bit_and (bit_and x (255 - 8) / 8) 0x01 == 0x01)
    && (bit_and (bit_or x 8 / 16) 0x0F == bit_and (x / 16) 0x0F)
    && (bit_and (bit_and x (255 - 8) / 16) 0x0F == bit_and (x / 16) 0x0F)

flag_table : check_all 256 flag_test ≡ true
unfolding check_all
flag_table = refl

abbrev code_test : ℕ → ℕ → Bool
code_test e x = bit_and (bit_or (bit_and x (255 - 0xC0)) (bit_and (e * 64) 0xC0) / 64) 0x03 == e

code_table : check_all 4 (λ e. check_all 256 (λ x. code_test e x)) ≡ true
unfolding check_all
code_table = refl

-- A sequence number below 16 is read back as it was set, and leaves the response-expected bit and the
-- error code as they were.
packet_header_get-set_sequence_number :
    (h : PacketHeader) (n : ℕ)
    → IsHeader h
    → n < 16
    → let h' = packet_header_set_sequence_number h n in
      (packet_header_get_sequence_number h' ≡ n)
      × (packet_header_get_response_expected h' ≡ packet_header_get_response_expected h)
      × (packet_header_get_error_code h' ≡ packet_header_get_error_code h)
unfolding packet_header_get_sequence_number packet_header_set_sequence_number
    packet_header_get_response_expected packet_header_get_error_code
packet_header_get-set_sequence_number h n (byte, other) small =
    let x = h.sequence_number_and_options in
    let t = number_holds n x small byte in
    (ground (arith, t), same-eq _ _ (ground (arith, t)), refl)

-- The response-expected bit is read back as it was set, and leaves the sequence number and the error
-- code as they were.
packet_header_get-set_response_expected :
    (h : PacketHeader) (b : Bool)
    → IsHeader h
    → let h' = packet_header_set_response_expected h b in
      (packet_header_get_response_expected h' ≡ b)
      × (packet_header_get_sequence_number h' ≡ packet_header_get_sequence_number h)
      × (packet_header_get_error_code h' ≡ packet_header_get_error_code h)
unfolding packet_header_get_sequence_number packet_header_set_response_expected
    packet_header_get_response_expected packet_header_get_error_code
packet_header_get-set_response_expected h true (byte, other) =
    let t = check_all-holds 256 flag_test h.sequence_number_and_options flag_table byte in
    (ground (arith, t), ground (arith, t), refl)
packet_header_get-set_response_expected h false (byte, other) =
    let t = check_all-holds 256 flag_test h.sequence_number_and_options flag_table byte in
    (ground (arith, t), ground (arith, t), refl)

-- An error code, one of four, is read back as it was set, and leaves the sequence number and the
-- response-expected bit as they were.
packet_header_get-set_error_code :
    (h : PacketHeader) (e : ℕ)
    → IsHeader h
    → e < 4
    → let h' = packet_header_set_error_code h e in
      (packet_header_get_error_code h' ≡ e)
      × (packet_header_get_sequence_number h' ≡ packet_header_get_sequence_number h)
      × (packet_header_get_response_expected h' ≡ packet_header_get_response_expected h)
unfolding packet_header_get_sequence_number packet_header_set_error_code
    packet_header_get_response_expected packet_header_get_error_code
packet_header_get-set_error_code h e (byte, other) small =
    let x = h.error_code_and_future_use in
    let t =
      check_all-holds 256 (code_test e) x
        (check_all-holds 4 (λ d. check_all 256 (λ y. code_test d y)) e code_table small) other in
    (ground (arith, t), refl, refl)

bound_table :
    check_all 256 (λ x.
      ltb (bit_or x 8) 256
      && ltb (bit_and x (255 - 8)) 256
      && check_all 16 (λ n. ltb (put_number n x) 256))
    ≡ true
unfolding check_all
bound_table = refl

put_number_bound : (n x : ℕ) → n < 16 → x < 256 → put_number n x < 256
put_number_bound n x small byte =
    let t = check_all-holds 256 _ x bound_table byte in
    let u : check_all 16 (λ m. ltb (put_number m x) 256) ≡ true = ground (arith, t) in
    let v = check_all-holds 16 (λ m. ltb (put_number m x) 256) n u small in ground (arith, v)

put_flag-IsHeader :
    (h : PacketHeader) (b : Bool) → IsHeader h → IsHeader (packet_header_set_response_expected h b)
unfolding packet_header_set_response_expected
put_flag-IsHeader h b (byte, other) =
    let x = h.sequence_number_and_options in
    let t = check_all-holds 256 _ x bound_table byte in
    elim (Bool-cases b) [
      | inl on ↦ rw on (ground (arith, t), other)
      | inr off ↦ rw off (ground (arith, t), other)
    ]

-- A sequence number below 16, a response-expected bit and an error code below 4 that are set one after
-- the other in any header are all read back.
packet_header_get-set :
    (h : PacketHeader) (n : ℕ) (b : Bool) (e : ℕ)
    → IsHeader h
    → n < 16
    → e < 4
    → let h' =
        packet_header_set_error_code
          (packet_header_set_response_expected (packet_header_set_sequence_number h n) b)
          e in
      (packet_header_get_sequence_number h' ≡ n)
      × (packet_header_get_response_expected h' ≡ b)
      × (packet_header_get_error_code h' ≡ e)
unfolding packet_header_set_sequence_number
packet_header_get-set h n b e (byte, other) small few =
    let h1 = packet_header_set_sequence_number h n in
    let h2 = packet_header_set_response_expected h1 b in
    let is1 : IsHeader h1 = (put_number_bound n h.sequence_number_and_options small byte, other) in
    let is2 : IsHeader h2 = put_flag-IsHeader h1 b is1 in
    let (n1, b1, e1) = packet_header_get-set_sequence_number h n (byte, other) small in
    let (b2, n2, e2) = packet_header_get-set_response_expected h1 b is1 in
    let (e3, n3, b3) = packet_header_get-set_error_code h2 e is2 few in (n3 ∙ n2 ∙ n1, b3 ∙ b2, e3)
