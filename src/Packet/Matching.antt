-- ===== src/Packet/Matching.antt =====
-- packet.c: what validity and matching mean for one another.
use daemonlib.Base.{ℕ, ◌≤◌, ◌≡◌, ◌≢◌, ◌↔◌, true, none, arith}
use daemonlib.Packet.{
  PacketHeader, header_size, packet_size, packet_header_get_sequence_number,
  packet_header_get_response_expected, packet_header_is_valid_request,
  packet_header_is_valid_response, response, packet_get_response_type, packet_is_matching_response,
}

-- `packet_header_is_valid_request` accepts exactly the headers with a length from the header's to the
-- packet's size, a function ID and a sequence number other than 0, and
-- `packet_header_is_valid_response` those with such a length, a UID and a function ID other than 0, and
-- the response-expected bit.
packet_header_is_valid_iff :
    (h : PacketHeader)
    → ((packet_header_is_valid_request h ≡ none) ↔ (
        (header_size ≤ h.length)
        × (h.length ≤ packet_size)
        × (h.function_id ≢ 0)
        × (packet_header_get_sequence_number h ≢ 0)))
      × ((packet_header_is_valid_response h ≡ none) ↔ (
          (header_size ≤ h.length)
          × (h.length ≤ packet_size)
          × (h.uid ≢ 0)
          × (h.function_id ≢ 0)
          × (packet_header_get_response_expected h ≡ true)))
unfolding packet_header_is_valid_request packet_header_is_valid_response
packet_header_is_valid_iff h = (ground arith, ground arith)

-- A packet that matches a valid request is a response, never a callback, and it matches no other
-- header than those with the request's UID, function ID and sequence number.
pub packet_is_matching_response-response :
    (packet request other : PacketHeader) (enumeration_type : ℕ)
    → packet_header_is_valid_request request ≡ none
    → packet_is_matching_response packet request ≡ true
    → (packet_get_response_type packet enumeration_type ≡ response)
      × ((packet_is_matching_response packet other ≡ true) ↔ (
          (other.uid ≡ request.uid)
          × (other.function_id ≡ request.function_id)
          × (packet_header_get_sequence_number other ≡ packet_header_get_sequence_number request)))
unfolding packet_header_is_valid_request packet_is_matching_response packet_get_response_type
packet_is_matching_response-response packet request other enumeration_type valid match_ =
    (ground arith, ground arith)
