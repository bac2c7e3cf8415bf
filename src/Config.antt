-- ===== src/Config.antt =====
-- include/stream/config.hpp: the configuration of a connection. The log sink has no effect on what is
-- modelled and is left out; timeouts are in milliseconds.
use rabbitmq_ai.Common.{ℕ, Bool, false, [], Bytes, text, length, ◌==◌, if◌then◌else◌}
use rabbitmq_ai.Errors.{Kind, stream_error}
use rabbitmq_ai.Result.{Result, ok, err}

pub record ConnectionConfig : Type 0 where
  pub host : Bytes
  pub port : ℕ
  pub virtual_host : Bytes
  pub username : Bytes
  pub password : Bytes
  pub connection_name : Bytes
  pub tls : Bool
  pub requested_heartbeat_seconds : ℕ
  pub requested_frame_max_bytes : ℕ
  pub connect_timeout : ℕ
  pub request_timeout : ℕ

abbrev pub default_config : ConnectionConfig
default_config = record {
  host = text "localhost";
  port = 5552;
  virtual_host = text "/";
  username = text "guest";
  password = text "guest";
  connection_name = [];
  tls = false;
  requested_heartbeat_seconds = 60;
  requested_frame_max_bytes = 1048576;
  connect_timeout = 30000;
  request_timeout = 10000;
}

unfoldable pub validate : ConnectionConfig → Result (Unit {0})
validate c =
    if length c.host == 0
    then err (stream_error Kind.configuration_error (text "host must not be empty"))
    else if c.port == 0
    then err (stream_error Kind.configuration_error (text "port must be non-zero"))
    else if length c.virtual_host == 0
    then err (stream_error Kind.configuration_error (text "virtual_host must not be empty"))
    else ok tt
