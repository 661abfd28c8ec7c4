-- ===== src/Packet/Tests.antt =====
-- packet.c: a request and its response, and the theorems at them.
use daemonlib.Base.{◌≡◌, ◌↔◌, refl, true, none, arith}
use daemonlib.Packet.{
  PacketHeader, packet_header_get_sequence_number, packet_header_is_valid_request, response,
  packet_get_response_type, packet_is_matching_response,
}
use daemonlib.Packet.Fields.{IsHeader}
use daemonlib.Packet.Matching.{packet_is_matching_response-response}

abbrev request : PacketHeader
request = record {
  uid = 100;
  length = 8;
  function_id = 3;
  sequence_number_and_options = 88;
  error_code_and_future_use = 0;
}

abbrev reply : PacketHeader
reply = record request { length = 12 }

request-IsHeader : IsHeader request
request-IsHeader = (omega arith, omega arith)

request_valid : packet_header_is_valid_request request ≡ none
unfolding packet_header_is_valid_request packet_header_get_sequence_number
request_valid = refl

reply_matches : packet_is_matching_response reply request ≡ true
unfolding packet_is_matching_response packet_header_get_sequence_number
reply_matches = refl

packet_is_matching_response-response_example :
    (packet_get_response_type reply 0 ≡ response)
    × ((packet_is_matching_response reply request ≡ true) ↔ (
        (request.uid ≡ request.uid)
        × (request.function_id ≡ request.function_id)
        × (packet_header_get_sequence_number request ≡ packet_header_get_sequence_number request)))
packet_is_matching_response-response_example =
    packet_is_matching_response-response reply request request 0 request_valid reply_matches
