-- ===== src/Client/Connecting.antt =====
-- `Client::connect` of src/lib.rs over the answers of the system, of tokio and of the broker.
pub mod Opened
use lmc_rs.Prelude.{ℕ, Bool, true, false, Option, none, some, List, [], ◌∷◌, if◌then◌else◌}
use lmc_rs.Errors.{
  ConnectError, io_error, lookup_host_error, hostname_not_found, timeout, oneshot_recv_error,
  server_error, TimeoutKind, dns_lookup, tcp_connect, mqtt_connect, ServerConnectError,
}
use lmc_rs.Options.{SocketAddr, v4, v6, OptionsT, IpVersionSet, supports, separate_connection_cfg}
use lmc_rs.Commands.{Command, disconnect}
use lmc_rs.Client.Host.{host_and_port, host_only}

-- `Result<A, ConnectError>`
pub data Connected (A : Type 0) : Type 0 where
  ok : A → Connected A
  err : ConnectError → Connected A

infixl 5 ◌>>=◌
abbrev pub ◌>>=◌ : {A B : Type 0} → Connected A → (A → Connected B) → Connected B
ok a >>= f = f a
err e >>= f = err e

-- What `time::timeout` gives.
pub data Timed (A : Type 0) : Type 0 where
  elapsed : Timed A
  finished : A → Timed A

-- `.map_err(|_| ConnectError::Timeout(..))?`
abbrev pub or_timeout : {A : Type 0} → TimeoutKind → Timed A → Connected A
or_timeout kind elapsed = err (timeout kind)
or_timeout kind (finished a) = ok a

-- `.map_err(..)?` on an `io::Result`, and `ok_or`; `none` is the error.
abbrev pub or_error : {A : Type 0} → ConnectError → Option A → Connected A
or_error e none = err e
or_error e (some a) = ok a

-- The answers of the outside: `create_connection`, `lookup_host`, `TcpSocket::new_v6` and `new_v4`,
-- `connect` and `set_nodelay`. `Address` is a socket address, of one of two kinds.
pub record Outside (Config Connection Address Socket Stream : Type 0) : Type 0 where
  pub kind : Address → SocketAddr
  pub create_connection : Config → List ℕ → Connected Connection
  pub lookup_host : List ℕ → Timed (Option (List Address))
  pub new_v6 : Option Socket
  pub new_v4 : Option Socket
  pub connect : Socket → Address → Timed (Option Stream)
  pub set_nodelay : Stream → Option Stream

abbrev pub is_ipv6 : SocketAddr → Bool
is_ipv6 v4 = false
is_ipv6 v6 = true

module _ {Config Connection Address Socket Stream : Type 0}
    (out : Outside Config Connection Address Socket Stream) where
  open out use {kind, create_connection, lookup_host, new_v6, new_v4, connect, set_nodelay}

  -- `.filter(|addr| ..).next()`
  unfoldable pub first_supported : IpVersionSet → List Address → Option Address
  unfolding supports
  first_supported versions [] = none
  first_supported versions (addr ∷ addrs) =
      let rest = first_supported versions addrs in
      if supports versions (kind addr) then some addr else rest

  abbrev pub socket_for : Address → Option Socket
  socket_for addr = if is_ipv6 (kind addr) then new_v6 else new_v4

  abbrev pub without_delay : Bool → Stream → Connected Stream
  without_delay true stream = or_error io_error (set_nodelay stream)
  without_delay false stream = ok stream

  -- `connect` up to the stream, with the address that it is connected to.
  unfoldable pub open_stream : List ℕ → OptionsT Config → Connected (Connection × Address × Stream)
  unfolding host_and_port host_only first_supported
  open_stream host options = do
    let parts = host_and_port host options.default_port
    conn ← create_connection (separate_connection_cfg options).1 (host_only parts)
    answer ← or_timeout dns_lookup (lookup_host parts.0)
    addrs ← or_error lookup_host_error answer
    addr ← or_error hostname_not_found (first_supported options.enabled_ip_versions addrs)
    socket ← or_error io_error (socket_for addr)
    connected ← or_timeout tcp_connect (connect socket addr)
    stream ← or_error io_error connected
    ready ← without_delay options.no_delay stream
    ok (conn, addr, ready)

-- What the task reports of the connection: whether a session was present, or the broker's error.
pub data Report : Type 0 where
  accepted : Bool → Report
  rejected : ServerConnectError → Report

-- The result of the wait for it, where `none` is that the sender was dropped, and the commands that
-- `connect` sends before it returns.
unfoldable pub conn_result : Timed (Option Report) → Connected Bool × List Command
conn_result (finished (some (accepted was_session_present))) = (ok was_session_present, [])
conn_result (finished (some (rejected e))) = (err (server_error e), [])
conn_result (finished none) = (err oneshot_recv_error, [])
conn_result elapsed = (err (timeout mqtt_connect), disconnect ∷ [])

-- `Client`, but for its handles.
pub record Client : Type 0 where
  pub was_session_present : Bool

unfoldable pub make_client : Connected Bool → Connected Client
make_client r =
    r >>= λ was_session_present. ok (record { was_session_present = was_session_present })
