-- ===== src/Frame/Key.antt =====
-- include/stream/frame.hpp, namespace key: command keys and the response bit.
use rabbitmq_ai.Common.{ℕ, ◌%◌, ◌^◌, Bool, not, ◌==◌, bit_and, bit_or}

abbrev pub query_publisher_sequence : ℕ
query_publisher_sequence = 0x0005

abbrev pub store_offset : ℕ
store_offset = 0x000A

abbrev pub query_offset : ℕ
query_offset = 0x000B

abbrev pub create : ℕ
create = 0x000D

abbrev pub delete : ℕ
delete = 0x000E

abbrev pub metadata_update : ℕ
metadata_update = 0x0010

abbrev pub peer_properties : ℕ
peer_properties = 0x0011

abbrev pub sasl_handshake : ℕ
sasl_handshake = 0x0012

abbrev pub sasl_authenticate : ℕ
sasl_authenticate = 0x0013

abbrev pub tune : ℕ
tune = 0x0014

abbrev pub open_key : ℕ
open_key = 0x0015

abbrev pub close : ℕ
close = 0x0016

abbrev pub heartbeat : ℕ
heartbeat = 0x0017

abbrev pub response_bit : ℕ
response_bit = 0x8000

abbrev pub key_mask : ℕ
key_mask = 0x7FFF

unfoldable pub response_of : ℕ → ℕ
response_of request_key = bit_or request_key response_bit % 2 ^ 16

unfoldable pub request_of : ℕ → ℕ
request_of any_key = bit_and any_key key_mask % 2 ^ 16

unfoldable pub is_response : ℕ → Bool
is_response any_key = not (bit_and any_key response_bit == 0)
