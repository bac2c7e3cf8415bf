-- ===== src/Examples/Bodies.antt =====
-- The bodies of commands at concrete inputs.
use rabbitmq_ai.Common.{length, ◌++◌, ◌≡◌, refl, some, List, [], ◌∷◌, Bytes, arith}
use rabbitmq_ai.Utf8.{is_valid_utf8, utf8_loop, utf8_step}
use rabbitmq_ai.Buffer.{new_reader, write_raw, write_byte}
use rabbitmq_ai.Buffer.Bounds.{IsDecodeError, Ends}
use rabbitmq_ai.Codec.{
  write_string, write_array_prefix, write_i16, write_u16, write_i32, write_u32, write_u64,
  write_u64_loop,
}
use rabbitmq_ai.Common.Int.{to_unsigned, to_signed}
use rabbitmq_ai.Codec.Carries.{encoded}
use rabbitmq_ai.Codec.Strings.{IsText}
use rabbitmq_ai.Codec.Truncated.{RefusesDecode}
use rabbitmq_ai.Commands.{KeyValue, encode_kv_array, encode_kv_loop}
use rabbitmq_ai.Commands.Arrays.{IsProperties}
use rabbitmq_ai.Commands.Lifecycle
use rabbitmq_ai.Commands.RoundTrip.{RoundTrips}
use rabbitmq_ai.Result.{ok}
use rabbitmq_ai.Frame.{encode_request_frame, read_frame_auto}
use rabbitmq_ai.Frame.Key.{is_response, response_of}
use rabbitmq_ai.Frame.RoundTrip.{received}
use rabbitmq_ai.Commands.Messages.{Message, body_of, command_of}
use rabbitmq_ai.Commands.Messages.Received.{message-RoundTrips, message-received}
use rabbitmq_ai.Commands.Messages.Refused.{message-Ends, message-truncated}

abbrev plain : Bytes
plain = 80 ∷ 76 ∷ 65 ∷ 73 ∷ 78 ∷ []

abbrev s1 : Bytes
s1 = 0x73 ∷ 0x31 ∷ []

plain-IsText : IsText plain
unfolding is_valid_utf8 utf8_loop utf8_step
plain-IsText = record { short = omega arith; utf8 = refl }

s1-IsText : IsText s1
unfolding is_valid_utf8 utf8_loop utf8_step
s1-IsText = record { short = omega arith; utf8 = refl }

abbrev pairs : List KeyValue
pairs = (plain, s1) ∷ []

pairs-IsProperties : IsProperties pairs
pairs-IsProperties = (omega arith, ((plain-IsText, s1-IsText), tt))

-- A CreateRequest for the stream "s1" with no arguments, cut before its last byte.
abbrev create_s1 : Lifecycle.CreateRequest
create_s1 = record { stream = s1; arguments = [] }

abbrev create_s1_front : Bytes
create_s1_front = 0 ∷ 2 ∷ 0x73 ∷ 0x31 ∷ 0 ∷ 0 ∷ 0 ∷ []

created_bytes :
    encoded (Lifecycle.encode_create_request create_s1) ≡ 0 ∷ 2 ∷ 0x73 ∷ 0x31 ∷ 0 ∷ 0 ∷ 0 ∷ 0 ∷ []
unfolding Lifecycle.encode_create_request encode_kv_array encode_kv_loop write_string
    write_array_prefix write_i16 write_u16 write_i32 write_u32 write_raw write_byte to_unsigned
    to_signed
created_bytes = refl

-- A StoreOffset cut inside its second string.
abbrev store_s1 : Lifecycle.StoreOffset
store_s1 = record { reference = []; stream = s1; offset = 1 }

nothing-IsText : IsText []
unfolding is_valid_utf8 utf8_loop
nothing-IsText = record { short = omega arith; utf8 = refl }

stored_bytes :
    encoded (Lifecycle.encode_store_offset store_s1)
    ≡ 0 ∷ 0 ∷ 0 ∷ 2 ∷ 0x73 ∷ 0x31 ∷ 0 ∷ 0 ∷ 0 ∷ 0 ∷ 0 ∷ 0 ∷ 0 ∷ 1 ∷ []
unfolding Lifecycle.encode_store_offset write_string write_i16 write_u16 write_u64 write_u64_loop
    write_raw write_byte to_unsigned to_signed
stored_bytes = refl

-- Two bytes of garbage.
abbrev garbage : Bytes
garbage = 1 ∷ 2 ∷ []

-- An OpenResponse, followed by a byte of something else.
abbrev opened : Message
opened = Message.open_response (record { response_code = 1; connection_properties = pairs })

message-RoundTrips_example : RoundTrips (command_of opened) (body_of opened) (7 ∷ [])
message-RoundTrips_example = message-RoundTrips opened (7 ∷ []) (omega arith, pairs-IsProperties)

message-truncated_example :
    RefusesDecode (Lifecycle.decode_create_request (new_reader create_s1_front)).0
message-truncated_example =
    message-truncated (Message.create_request create_s1) create_s1_front [] 0
      (s1-IsText, (omega arith, tt)) tt created_bytes

-- The answer to a query, framed with the id 100.
abbrev queried : Message
queried = Message.query_offset_response (record { response_code = 1; offset = 300 })

message-Ends_example :
    Ends IsDecodeError
      (new_reader garbage)
      (Lifecycle.decode_query_offset_response (new_reader garbage))
message-Ends_example = message-Ends queried garbage tt

abbrev queried_body : Bytes
queried_body = encoded ((command_of queried).encode_body (body_of queried))

queried_length : length queried_body ≡ 10
unfolding Lifecycle.encode_query_offset_response write_u16 write_u64 write_u64_loop write_byte
queried_length = refl

message-received_example :
    ((read_frame_auto
        (new_reader (encode_request_frame (command_of queried).key 1 100 queried_body ++ 5 ∷ []))).0
      ≡ ok (received (command_of queried).key 1 queried_body (some 100)))
    × ((Lifecycle.decode_query_offset_response (new_reader queried_body)).0 ≡ ok (body_of queried))
message-received_example =
    message-received queried 100 (5 ∷ []) (omega arith, omega arith)
      (unfold is_response response_of in refl) (omega arith) (omega (arith, queried_length))
