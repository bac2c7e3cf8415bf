-- ===== src/Frame/ResponseCode.antt =====
-- include/stream/frame.hpp, namespace response_code.
use rabbitmq_ai.Common.{ℕ}

abbrev pub ok : ℕ
ok = 0x01

abbrev pub stream_does_not_exist : ℕ
stream_does_not_exist = 0x02

abbrev pub subscription_id_already_exists : ℕ
subscription_id_already_exists = 0x03

abbrev pub subscription_id_does_not_exist : ℕ
subscription_id_does_not_exist = 0x04

abbrev pub stream_already_exists : ℕ
stream_already_exists = 0x05

abbrev pub stream_not_available : ℕ
stream_not_available = 0x06

abbrev pub sasl_mechanism_not_supported : ℕ
sasl_mechanism_not_supported = 0x07

abbrev pub authentication_failure : ℕ
authentication_failure = 0x08

abbrev pub sasl_error : ℕ
sasl_error = 0x09

abbrev pub sasl_challenge : ℕ
sasl_challenge = 0x0A

abbrev pub sasl_authentication_failure_loopback : ℕ
sasl_authentication_failure_loopback = 0x0B

abbrev pub virtual_host_access_failure : ℕ
virtual_host_access_failure = 0x0C

abbrev pub unknown_frame : ℕ
unknown_frame = 0x0D

abbrev pub frame_too_large : ℕ
frame_too_large = 0x0E

abbrev pub internal_error : ℕ
internal_error = 0x0F

abbrev pub access_refused : ℕ
access_refused = 0x10

abbrev pub precondition_failed : ℕ
precondition_failed = 0x11

abbrev pub publisher_does_not_exist : ℕ
publisher_does_not_exist = 0x12

abbrev pub no_offset : ℕ
no_offset = 0x13
