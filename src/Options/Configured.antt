-- ===== src/Options/Configured.antt =====
-- The options of src/options.rs after any calls of their methods.
use lmc_rs.Prelude.{
  ap, ◌∙◌, ℕ, ◌≡◌, refl, Bool, true, false, List, [], ◌∷◌, Option, none, some, arith, bit_and,
}
use lmc_rs.Packets.Outgoing.Connect.{LastWill}
use lmc_rs.Errors.{Qos}
use lmc_rs.Options.{
  OptionsT, IpVersionSet, v4, v6, supports, new, set_clean_session, set_keep_alive,
  set_last_will_ex, set_last_will, set_username, set_password, set_no_delay, disable_ipv4,
  disable_ipv6, set_dns_timeout, set_tcp_connect_timeout, set_mqtt_connect_timeout,
  set_all_timeouts, set_all_timeouts_to, set_packets_resend_delay, set_default_port, enable_tls_ex,
}

-- The calls of the methods that every configuration has.
pub data Call : Type 0 where
  clean_session : Call
  keep_alive : ℕ → Call
  last_will_ex : LastWill → Call
  last_will : List ℕ → List ℕ → Bool → Qos → Call
  username password : List ℕ → Call
  no_delay : Call
  without_ipv4 without_ipv6 : Call
  dns_timeout tcp_connect_timeout mqtt_connect_timeout : ℕ → Call
  all_timeouts : ℕ → ℕ → ℕ → Call
  all_timeouts_to : ℕ → Call
  resend_delay : ℕ → Call
  default_port : ℕ → Call

abbrev call : {C : Type 0} → Call → OptionsT C → OptionsT C
call clean_session o = set_clean_session o
call (keep_alive n) o = set_keep_alive n o
call (last_will_ex w) o = set_last_will_ex w o
call (last_will topic message retain qos) o = set_last_will topic message retain qos o
call (username u) o = set_username u o
call (password p) o = set_password p o
call no_delay o = set_no_delay o
call without_ipv4 o = disable_ipv4 o
call without_ipv6 o = disable_ipv6 o
call (dns_timeout n) o = set_dns_timeout n o
call (tcp_connect_timeout n) o = set_tcp_connect_timeout n o
call (mqtt_connect_timeout n) o = set_mqtt_connect_timeout n o
call (all_timeouts a b c) o = set_all_timeouts a b c o
call (all_timeouts_to n) o = set_all_timeouts_to n o
call (resend_delay n) o = set_packets_resend_delay n o
call (default_port p) o = set_default_port p o

abbrev pub configure : {C : Type 0} → List Call → OptionsT C → OptionsT C
configure [] o = o
configure (x ∷ xs) o = configure xs (call x o)

-- What a call leaves of a port that was set, and of the versions of IP.
abbrev port_after : Option ℕ → Call → Option ℕ
port_after o (default_port p) = some p
port_after o _ = o

abbrev v4_after : Bool → Call → Bool
v4_after b without_ipv4 = false
v4_after b _ = b

abbrev v6_after : Bool → Call → Bool
v6_after b without_ipv6 = false
v6_after b _ = b

-- The port of the last call that sets one, and whether no call disables a version of IP.
abbrev pub port_set : Option ℕ → List Call → Option ℕ
port_set o [] = o
port_set o (x ∷ xs) = port_set (port_after o x) xs

abbrev pub v4_left : Bool → List Call → Bool
v4_left b [] = b
v4_left b (x ∷ xs) = v4_left (v4_after b x) xs

abbrev pub v6_left : Bool → List Call → Bool
v6_left b [] = b
v6_left b (x ∷ xs) = v6_left (v6_after b x) xs

abbrev pub or_port : Option ℕ → ℕ → ℕ
or_port none d = d
or_port (some p) d = p

abbrev changed : Option ℕ → Bool
changed none = false
changed (some p) = true

abbrev code : Bool → Bool → ℕ
code true true = 3
code true false = 1
code false true = 2
code false false = 0

-- `d` is the port where none is set.
abbrev Shows : {C : Type 0} → ℕ → Option ℕ → Bool → Bool → OptionsT C → Type 0
Shows d set b c o =
    (o.default_port ≡ or_port set d)
    × (o.default_port_changed ≡ changed set)
    × (o.enabled_ip_versions.bits ≡ code b c)

mask_v4 : (b c : Bool) → bit_and (code b c) 254 ≡ code false c
mask_v4 true true = refl
mask_v4 true false = refl
mask_v4 false true = refl
mask_v4 false false = refl

mask_v6 : (b c : Bool) → bit_and (code b c) 253 ≡ code b false
mask_v6 true true = refl
mask_v6 true false = refl
mask_v6 false true = refl
mask_v6 false false = refl

call-Shows :
    {C : Type 0} (d : ℕ) (x : Call) (set : Option ℕ) (b c : Bool) (o : OptionsT C)
    → Shows d set b c o
    → Shows d (port_after set x) (v4_after b x) (v6_after c x) (call x o)
unfolding set_default_port
call-Shows d0 clean_session set b c o h = h
call-Shows d0 (keep_alive n) set b c o h = h
call-Shows d0 (last_will_ex w) set b c o h = h
call-Shows d0 (last_will topic message retain qos) set b c o h = h
call-Shows d0 (username u) set b c o h = h
call-Shows d0 (password p) set b c o h = h
call-Shows d0 no_delay set b c o h = h
call-Shows d0 without_ipv4 set b c o h = (h.0, h.1, ap (λ n. bit_and n 254) h.2 ∙ mask_v4 b c)
call-Shows d0 without_ipv6 set b c o h = (h.0, h.1, ap (λ n. bit_and n 253) h.2 ∙ mask_v6 b c)
call-Shows d0 (dns_timeout n) set b c o h = h
call-Shows d0 (tcp_connect_timeout n) set b c o h = h
call-Shows d0 (mqtt_connect_timeout n) set b c o h = h
call-Shows d0 (all_timeouts d e f) set b c o h = h
call-Shows d0 (all_timeouts_to n) set b c o h = h
call-Shows d0 (resend_delay n) set b c o h = h
call-Shows d0 (default_port p) set b c o h = (refl, refl, h.2)

configure-Shows :
    {C : Type 0} (d : ℕ) (xs : List Call) (set : Option ℕ) (b c : Bool) (o : OptionsT C)
    → Shows d set b c o
    → Shows d (port_set set xs) (v4_left b xs) (v6_left c xs) (configure xs o)
configure-Shows d [] set b c o h = h
configure-Shows d (x ∷ xs) set b c o h =
    configure-Shows d xs (port_after set x) (v4_after b x) (v6_after c x) (call x o)
      (call-Shows d x set b c o h)

supports-code :
    (s : IpVersionSet) (b c : Bool) → s.bits ≡ code b c → (supports s v4 ≡ b) × (supports s v6 ≡ c)
unfolding supports
supports-code s true true e = rw e (refl, refl)
supports-code s true false e = rw e (refl, refl)
supports-code s false true e = rw e (refl, refl)
supports-code s false false e = rw e (refl, refl)

enable_tls_ex-Shows :
    {C D : Type 0} (cfg : D) (set : Option ℕ) (b c : Bool) (o : OptionsT C)
    → Shows 1883 set b c o
    → Shows 8883 set b c (enable_tls_ex cfg o)
unfolding enable_tls_ex
enable_tls_ex-Shows cfg none b c o h = ground (arith, h.0, h.1, h.2)
enable_tls_ex-Shows cfg (some p) b c o h = ground (arith, h.0, h.1, h.2)

-- What options show of the port and of the two versions of IP.
abbrev pub Configures : {C : Type 0} → ℕ → Bool → Bool → OptionsT C → Type 0
Configures port four six o =
    (o.default_port ≡ port)
    × (supports o.enabled_ip_versions v4 ≡ four)
    × (supports o.enabled_ip_versions v6 ≡ six)

Shows-Configures :
    {C : Type 0} (d : ℕ) (set : Option ℕ) (b c : Bool) (o : OptionsT C)
    → Shows d set b c o
    → Configures (or_port set d) b c o
Shows-Configures d set b c o h =
    let ip = supports-code o.enabled_ip_versions b c h.2 in (h.0, ip.0, ip.1)

-- After any calls of the methods that set an option on new options, the default port is the one that was set
-- last, and 1883 without one; and an address is supported unless a call has disabled its version of IP. Where
-- TLS is enabled between any calls and any others, all this holds of the calls before and after it together,
-- but that without a port it is 8883.
pub configure-new :
    {D : Type 0} (client_id : List ℕ) (calls more : List Call) (cfg : D)
    → let o = configure calls (new client_id) in
      Configures (or_port (port_set none calls) 1883) (v4_left true calls) (v6_left true calls) o
      × Configures
          (or_port (port_set (port_set none calls) more) 8883)
          (v4_left (v4_left true calls) more)
          (v6_left (v6_left true calls) more)
          (configure more (enable_tls_ex cfg o))
configure-new client_id calls more cfg =
    let o = configure calls (new client_id) in
    let set = port_set none calls in
    let four = v4_left true calls in
    let six = v6_left true calls in
    let s = configure-Shows 1883 calls none true true (new client_id) (refl, refl, refl) in
    let secure = enable_tls_ex-Shows cfg set four six o s in
    (
      Shows-Configures 1883 set four six o s,
      Shows-Configures 8883 (port_set set more) (v4_left four more) (v6_left six more)
          (configure more (enable_tls_ex cfg o))
          (configure-Shows 8883 more set four six (enable_tls_ex cfg o) secure),
    )
