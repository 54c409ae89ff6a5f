-- ===== src/Options.antt =====
-- src/options.rs: the options of a connection and the methods that set them. A duration is a number of
-- milliseconds; the configuration of TLS is rustls's, and only stored here.
pub mod Configured
use lmc_rs.Prelude.{
  ℕ, ◌-◌, Bool, true, false, not, Option, none, some, List, [], ◌∷◌, bit_and, bit_or, ◌==◌,
  if◌then◌else◌,
}
use lmc_rs.Errors.{Qos}
use lmc_rs.Packets.Outgoing.Connect.{LastWill}

pub record IpVersionSet : Type 0 where
  pub bits : ℕ

abbrev pub v4_bit : ℕ
v4_bit = 1

abbrev pub v6_bit : ℕ
v6_bit = 2

abbrev pub all : IpVersionSet
all = record { bits = bit_or v4_bit v6_bit }

-- `!Self::V4_BIT` is `255 - v4_bit`.
abbrev pub without_v4 : IpVersionSet → IpVersionSet
without_v4 s = record { bits = bit_and s.bits (255 - v4_bit) }

abbrev pub without_v6 : IpVersionSet → IpVersionSet
without_v6 s = record { bits = bit_and s.bits (255 - v6_bit) }

-- The two kinds of a `SocketAddr`.
pub data SocketAddr : Type 0 where
  v4 v6 : SocketAddr

unfoldable pub supports : IpVersionSet → SocketAddr → Bool
supports s v4 = not (bit_and s.bits v4_bit == 0)
supports s v6 = not (bit_and s.bits v6_bit == 0)

pub record OptionsT (C : Type 0) : Type 0 where
  pub clean_session : Bool
  pub keep_alive : ℕ
  pub client_id : List ℕ
  pub last_will : Option LastWill
  pub username : Option (List ℕ)
  pub password : Option (List ℕ)
  pub no_delay : Bool
  pub enabled_ip_versions : IpVersionSet
  pub connection_cfg : C
  pub dns_timeout : ℕ
  pub tcp_connect_timeout : ℕ
  pub mqtt_connect_timeout : ℕ
  pub packets_resend_delay : ℕ
  pub default_port : ℕ
  pub default_port_changed : Bool

abbrev pub Options : Type 0
Options = OptionsT (Unit {0})

abbrev pub new : List ℕ → Options
new client_id = record {
  clean_session = false;
  keep_alive = 30;
  client_id = client_id;
  last_will = none;
  username = none;
  password = none;
  no_delay = false;
  enabled_ip_versions = all;
  connection_cfg = tt;
  dns_timeout = 3_000;
  tcp_connect_timeout = 10_000;
  mqtt_connect_timeout = 3_000;
  packets_resend_delay = 1_000;
  default_port = 1883;
  default_port_changed = false;
}

abbrev pub map_connection_cfg : {C D : Type 0} → (C → D) → OptionsT C → OptionsT D
map_connection_cfg f o = record {
  clean_session = o.clean_session;
  keep_alive = o.keep_alive;
  client_id = o.client_id;
  last_will = o.last_will;
  username = o.username;
  password = o.password;
  no_delay = o.no_delay;
  enabled_ip_versions = o.enabled_ip_versions;
  connection_cfg = f o.connection_cfg;
  dns_timeout = o.dns_timeout;
  tcp_connect_timeout = o.tcp_connect_timeout;
  mqtt_connect_timeout = o.mqtt_connect_timeout;
  packets_resend_delay = o.packets_resend_delay;
  default_port = o.default_port;
  default_port_changed = o.default_port_changed;
}

module _ {C : Type 0} where
  abbrev pub set_clean_session : OptionsT C → OptionsT C
  set_clean_session o = record o { clean_session = true }

  abbrev pub set_keep_alive : ℕ → OptionsT C → OptionsT C
  set_keep_alive keep_alive o = record o { keep_alive = keep_alive }

  abbrev pub set_last_will_ex : LastWill → OptionsT C → OptionsT C
  set_last_will_ex last_will o = record o { last_will = some last_will }

  abbrev pub set_last_will : List ℕ → List ℕ → Bool → Qos → OptionsT C → OptionsT C
  set_last_will topic message retain qos =
      set_last_will_ex (record { topic = topic; message = message; retain = retain; qos = qos })

  abbrev pub set_username : List ℕ → OptionsT C → OptionsT C
  set_username username o = record o { username = some username }

  abbrev pub set_password : List ℕ → OptionsT C → OptionsT C
  set_password password o = record o { password = some password }

  abbrev pub set_no_delay : OptionsT C → OptionsT C
  set_no_delay o = record o { no_delay = true }

  abbrev pub disable_ipv4 : OptionsT C → OptionsT C
  disable_ipv4 o = record o { enabled_ip_versions = without_v4 o.enabled_ip_versions }

  abbrev pub disable_ipv6 : OptionsT C → OptionsT C
  disable_ipv6 o = record o { enabled_ip_versions = without_v6 o.enabled_ip_versions }

  abbrev pub set_dns_timeout : ℕ → OptionsT C → OptionsT C
  set_dns_timeout to o = record o { dns_timeout = to }

  abbrev pub set_tcp_connect_timeout : ℕ → OptionsT C → OptionsT C
  set_tcp_connect_timeout to o = record o { tcp_connect_timeout = to }

  abbrev pub set_mqtt_connect_timeout : ℕ → OptionsT C → OptionsT C
  set_mqtt_connect_timeout to o = record o { mqtt_connect_timeout = to }

  abbrev pub set_all_timeouts : ℕ → ℕ → ℕ → OptionsT C → OptionsT C
  set_all_timeouts dns tcp_connect mqtt_connect o = record o {
    dns_timeout = dns;
    tcp_connect_timeout = tcp_connect;
    mqtt_connect_timeout = mqtt_connect;
  }

  abbrev pub set_all_timeouts_to : ℕ → OptionsT C → OptionsT C
  set_all_timeouts_to to o = record o {
    dns_timeout = to;
    tcp_connect_timeout = to;
    mqtt_connect_timeout = to;
  }

  abbrev pub set_packets_resend_delay : ℕ → OptionsT C → OptionsT C
  set_packets_resend_delay delay o = record o { packets_resend_delay = delay }

  unfoldable pub set_default_port : ℕ → OptionsT C → OptionsT C
  set_default_port port o = record o { default_port = port; default_port_changed = true }

  abbrev pub separate_connection_cfg : OptionsT C → Options × C
  separate_connection_cfg o = (map_connection_cfg (λ _. tt) o, o.connection_cfg)

-- `enable_tls_ex`
unfoldable pub enable_tls_ex : {C D : Type 0} → D → OptionsT C → OptionsT D
enable_tls_ex tls_config o =
    let ret = map_connection_cfg (λ _. tls_config) o in
    if ret.default_port_changed then ret else record ret { default_port = 8883 }
