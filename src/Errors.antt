-- ===== src/Errors.antt =====
-- src/errors.rs: the error types, and `QoS` of src/lib.rs.
use lmc_rs.Prelude.{ℕ, Bool, leb}

pub data Qos : Type 0 where
  at_most_once at_least_once exactly_once : Qos

-- `qos as u8`
abbrev pub qos_code : Qos → ℕ
qos_code at_most_once = 0
qos_code at_least_once = 1
qos_code exactly_once = 2

-- The derived order, `a >= b`.
abbrev pub qos_ge : Qos → Qos → Bool
qos_ge a b = leb (qos_code b) (qos_code a)

pub data ServerConnectError : Type 0 where
  unacceptable_protocol_version identifier_rejected server_unavailable : ServerConnectError
  bad_user_name_or_password not_authorized protocol_error : ServerConnectError
  unknown : ℕ → ServerConnectError

pub data TimeoutKind : Type 0 where
  dns_lookup tcp_connect mqtt_connect : TimeoutKind

-- The errors of rustls and of the system that the source wraps are passed on and never read, so they have no
-- field here.
pub data ConnectError : Type 0 where
  invalid_hostname tls_error io_error lookup_host_error hostname_not_found : ConnectError
  timeout : TimeoutKind → ConnectError
  oneshot_recv_error : ConnectError
  server_error : ServerConnectError → ConnectError

pub data PublishError : Type 0 where
  transceiver_task_terminated : PublishError

pub data TryPublishError : Type 0 where
  queue_full transceiver_task_terminated : TryPublishError

pub data SubscribeError : Type 0 where
  refused_by_broker transceiver_task_terminated : SubscribeError

-- The `Utf8Error` that the source wraps is passed on and never read, so it has no field here.
pub data PacketDecodeError : Type 0 where
  reached_end_unexpectedly utf8_error malformed_packet reached_max_size : PacketDecodeError
  invalid_packet_id : ℕ → PacketDecodeError

-- The outcome of decoding code: Rust's `Result`, and the panics that it can run into.
pub data Decoded {ℓ} (A : Type ℓ) : Type ℓ where
  ok : A → Decoded A
  err : PacketDecodeError → Decoded A
  panicked : Decoded A

-- The errors of an `io::Result` that the program tells apart. `decode_failed` is the conversion of a
-- `PacketDecodeError` into an `io::Error`, whose kind is `Other`.
pub data IoError : Type 0 where
  would_block : IoError
  other_error : IoError
  decode_failed : PacketDecodeError → IoError

-- An `io::Result`, and the panics of the code that returns it.
pub data IoResult {ℓ} (A : Type ℓ) : Type ℓ where
  done : A → IoResult A
  failed : IoError → IoResult A
  crashed : IoResult A
