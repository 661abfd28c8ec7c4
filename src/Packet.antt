-- ===== src/Packet.antt =====
-- packet.c and packet.h: the header that every packet starts with. `uid` is the number whose little
-- endian bytes the header holds; the packet trace is not compiled in.
mod Fields
mod Matching
mod Tests
use daemonlib.Base.{
  ℕ, ◌+◌, ◌-◌, ◌*◌, ◌/◌, Bool, true, false, not, Option, none, some, ltb, ◌==◌, if◌then◌else◌,
  bit_and, bit_or,
}

pub record PacketHeader : Type 0 where
  pub uid : ℕ
  pub length : ℕ
  pub function_id : ℕ
  pub sequence_number_and_options : ℕ
  pub error_code_and_future_use : ℕ

-- `sizeof(PacketHeader)` and `sizeof(Packet)`.
abbrev pub header_size : ℕ
header_size = 8

abbrev pub packet_size : ℕ
packet_size = 80

abbrev pub callback_enumerate : ℕ
callback_enumerate = 253

pub data Message : Type 0 where
  length_too_small length_too_big invalid_uid invalid_function_id : Message
  invalid_sequence_number invalid_response_expected : Message

pub packet_header_get_sequence_number : PacketHeader → ℕ
packet_header_get_sequence_number h = bit_and (h.sequence_number_and_options / 16) 0x0F

-- `~0xF0` leaves the low four bits of the byte.
pub packet_header_set_sequence_number : PacketHeader → ℕ → PacketHeader
packet_header_set_sequence_number h n = record h {
  sequence_number_and_options =
      bit_or (bit_and h.sequence_number_and_options (255 - 0xF0)) (bit_and (n * 16) 0xF0);
}

pub packet_header_get_response_expected : PacketHeader → Bool
packet_header_get_response_expected h = bit_and (h.sequence_number_and_options / 8) 0x01 == 0x01

pub packet_header_set_response_expected : PacketHeader → Bool → PacketHeader
packet_header_set_response_expected h b =
    if b
    then record h { sequence_number_and_options = bit_or h.sequence_number_and_options 8 }
    else record h { sequence_number_and_options = bit_and h.sequence_number_and_options (255 - 8) }

pub packet_header_get_error_code : PacketHeader → ℕ
packet_header_get_error_code h = bit_and (h.error_code_and_future_use / 64) 0x03

pub packet_header_set_error_code : PacketHeader → ℕ → PacketHeader
packet_header_set_error_code h e = record h {
  error_code_and_future_use =
      bit_or (bit_and h.error_code_and_future_use (255 - 0xC0)) (bit_and (e * 64) 0xC0);
}

-- `none` stands for true, the message for false.
pub packet_header_is_valid_request : PacketHeader → Option Message
packet_header_is_valid_request h =
    if ltb h.length header_size
    then some length_too_small
    else (if ltb packet_size h.length
        then some length_too_big
        else (if h.function_id == 0
            then some invalid_function_id
            else (if packet_header_get_sequence_number h == 0
                then some invalid_sequence_number
                else none)))

pub packet_header_is_valid_response : PacketHeader → Option Message
packet_header_is_valid_response h =
    if ltb h.length header_size
    then some length_too_small
    else (if ltb packet_size h.length
        then some length_too_big
        else (if h.uid == 0
            then some invalid_uid
            else (if h.function_id == 0
                then some invalid_function_id
                else (if not (packet_header_get_response_expected h)
                    then some invalid_response_expected
                    else none))))

pub data ResponseType : Type 0 where
  response callback available connected disconnected unknown : ResponseType

-- `enumeration_type` is the byte of an EnumerateCallback.
pub packet_get_response_type : PacketHeader → ℕ → ResponseType
packet_get_response_type h enumeration_type =
    if not (packet_header_get_sequence_number h == 0)
    then response
    else (if not (h.function_id == callback_enumerate)
        then callback
        else (if enumeration_type == 0
            then available
            else (if enumeration_type == 1
                then connected
                else (if enumeration_type == 2 then disconnected else unknown))))

pub packet_is_matching_response : PacketHeader → PacketHeader → Bool
packet_is_matching_response packet pending =
    if not (packet.uid == pending.uid)
    then false
    else (if not (packet.function_id == pending.function_id)
        then false
        else (if not (
              packet_header_get_sequence_number packet == packet_header_get_sequence_number pending)
            then false
            else true))
