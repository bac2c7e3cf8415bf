-- ===== src/Errors.antt =====
-- include/stream/errors.hpp, src/errors.cpp: the typed errors of the public API.
use rabbitmq_ai.Common.{ℕ, Bytes, String, Option, none, some}

-- StreamError::Kind
pub data Kind : Type 0 where
  configuration_error connect_failed authentication_failed : Kind
  sasl_mechanism_not_supported virtual_host_access_denied protocol_violation : Kind
  request_timeout connection_not_open connection_closed : Kind
  stream_already_exists stream_does_not_exist reference_too_long : Kind
  io_error decode_error encode_error server_error : Kind

pub record StreamError : Type 0 where
  pub kind : Kind
  pub message : Bytes
  pub server_code : Option ℕ

-- StreamError(Kind, std::string)
abbrev pub stream_error : Kind → Bytes → StreamError
stream_error k msg = record { kind = k; message = msg; server_code = none }

-- StreamError(Kind, std::string, std::uint16_t)
abbrev pub stream_error_code : Kind → Bytes → ℕ → StreamError
stream_error_code k msg code = record { kind = k; message = msg; server_code = some code }

unfoldable pub to_string : Kind → String
to_string Kind.configuration_error = "ConfigurationError"
to_string Kind.connect_failed = "ConnectFailed"
to_string Kind.authentication_failed = "AuthenticationFailed"
to_string Kind.sasl_mechanism_not_supported = "SaslMechanismNotSupported"
to_string Kind.virtual_host_access_denied = "VirtualHostAccessDenied"
to_string Kind.protocol_violation = "ProtocolViolation"
to_string Kind.request_timeout = "RequestTimeout"
to_string Kind.connection_not_open = "ConnectionNotOpen"
to_string Kind.connection_closed = "ConnectionClosed"
to_string Kind.stream_already_exists = "StreamAlreadyExists"
to_string Kind.stream_does_not_exist = "StreamDoesNotExist"
to_string Kind.reference_too_long = "ReferenceTooLong"
to_string Kind.io_error = "IoError"
to_string Kind.decode_error = "DecodeError"
to_string Kind.encode_error = "EncodeError"
to_string Kind.server_error = "ServerError"
