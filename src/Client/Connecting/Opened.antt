-- ===== src/Client/Connecting/Opened.antt =====
-- The stream of `Client::connect` of src/lib.rs.
use lmc_rs.Prelude.{
  ℕ, ◌≡◌, refl, ap, ◌∙◌, subst, Bool, true, false, Option, none, some, List, [], ◌∷◌, if◌then◌else◌,
  Bool-cases, inl, inr,
}
use lmc_rs.Errors.{
  ConnectError, io_error, lookup_host_error, hostname_not_found, dns_lookup, tcp_connect,
  TimeoutKind,
}
use lmc_rs.Options.{SocketAddr, v4, v6, OptionsT, IpVersionSet, supports, separate_connection_cfg}
use lmc_rs.Client.Host.{host_and_port, host_only}
use lmc_rs.Client.Connecting.{
  Connected, ok, err, ◌>>=◌, Timed, elapsed, finished, or_timeout, or_error, Outside, is_ipv6,
  first_supported, socket_for, without_delay, open_stream,
}

bind_ok :
    {A B P : Type 0} {x : Connected A} {f : A → Connected B} {b : B}
    → (x >>= f) ≡ ok b
    → ((a : A) → x ≡ ok a → f a ≡ ok b → P)
    → P
bind_ok {x} e h = bind_cases x e h
  where
    bind_cases :
        {A B P : Type 0} {f : A → Connected B} {b : B} (x : Connected A)
        → (x >>= f) ≡ ok b
        → ((a : A) → x ≡ ok a → f a ≡ ok b → P)
        → P
    bind_cases (ok a) e h = h a refl e
    bind_cases (err x) e h = absurd cc

opened_inj :
    {A B C : Type 0} {x y : A × B × C} → ok x ≡ ok y → (x.0 ≡ y.0) × (x.1 ≡ y.1) × (x.2 ≡ y.2)
opened_inj {A} {B} {C} {x} {y} e =
    let same : x ≡ y = cc in
    (
      ap (λ (r : A × B × C). r.0) same,
      ap (λ (r : A × B × C). r.1) same,
      ap (λ (r : A × B × C). r.2) same,
    )

or_error-ok :
    {A : Type 0} (x : ConnectError) (o : Option A) (a : A) → or_error x o ≡ ok a → o ≡ some a
or_error-ok x none a e = absurd cc
or_error-ok x (some b) a e = cc

or_timeout-ok :
    {A : Type 0} (kind : TimeoutKind) (o : Timed A) (a : A)
    → or_timeout kind o ≡ ok a
    → o ≡ finished a
or_timeout-ok kind elapsed a e = absurd cc
or_timeout-ok kind (finished b) a e = cc

module _ {Config Connection Address Socket Stream : Type 0}
    (out : Outside Config Connection Address Socket Stream) where
  open out use {kind, create_connection, lookup_host, new_v4, new_v6, connect, set_nodelay}

  -- The address is the first of the list that is supported.
  abbrev pub IsFirst : IpVersionSet → Address → List Address → Type 0
  IsFirst versions addr [] = ⊥
  IsFirst versions addr (a ∷ addrs) =
      if supports versions (kind a) then a ≡ addr else IsFirst versions addr addrs

  first_supported-IsFirst :
      (versions : IpVersionSet) (addrs : List Address) (addr : Address)
      → first_supported out versions addrs ≡ some addr
      → (supports versions (kind addr) ≡ true) × IsFirst versions addr addrs
  unfolding first_supported
  first_supported-IsFirst versions [] addr e = absurd cc
  first_supported-IsFirst versions (a ∷ addrs) addr e =
      elim (Bool-cases (supports versions (kind a))) [
        | inl good ↦
            let found : some a ≡ some addr = rw good at e in
            let same : a ≡ addr = cc in
            (subst (λ (x : Address). supports versions (kind x) ≡ true) same good, rw good same)
        | inr bad ↦
            let r = first_supported-IsFirst versions addrs addr (rw bad at e) in (r.0, rw bad r.1)
      ]

  -- The socket is one of the version of the address.
  abbrev pub IsSocketOf : SocketAddr → Socket → Type 0
  IsSocketOf v4 socket = new_v4 ≡ some socket
  IsSocketOf v6 socket = new_v6 ≡ some socket

  socket_for-IsSocketOf :
      (addr : Address) (socket : Socket)
      → socket_for out addr ≡ some socket
      → IsSocketOf (kind addr) socket
  socket_for-IsSocketOf addr socket e = go (kind addr) e
    where
      go :
          (k : SocketAddr)
          → (if is_ipv6 k then new_v6 else new_v4) ≡ some socket
          → IsSocketOf k socket
      go v4 e = e
      go v6 e = e

  -- The stream as it was connected, or as `set_nodelay` gives it back.
  abbrev pub IsTuned : Bool → Stream → Stream → Type 0
  IsTuned true stream ready = set_nodelay stream ≡ some ready
  IsTuned false stream ready = stream ≡ ready

  without_delay-IsTuned :
      (b : Bool) (stream ready : Stream)
      → without_delay out b stream ≡ ok ready
      → IsTuned b stream ready
  without_delay-IsTuned true stream ready e = or_error-ok io_error (set_nodelay stream) ready e
  without_delay-IsTuned false stream ready e = cc

  -- What stands when there is a stream: the connection is configured for the name before the colon, and the
  -- stream is one to the address, tuned as the options say.
  abbrev pub Opens : List ℕ → OptionsT Config → Connection → Address → Stream → Type 0
  Opens host options conn addr ready =
      let parts = host_and_port host options.default_port in
      (create_connection (separate_connection_cfg options).1 (host_only parts) ≡ ok conn)
      × ((addrs : List Address) × (lookup_host parts.0 ≡ finished (some addrs))
          × (supports options.enabled_ip_versions (kind addr) ≡ true)
          × IsFirst options.enabled_ip_versions addr addrs)
      × ((socket : Socket) × (stream : Stream) × IsSocketOf (kind addr) socket
          × (connect socket addr ≡ finished (some stream))
          × IsTuned options.no_delay stream ready)

  -- If `connect` gets a stream, the connection that it makes is for the host without its port; the address is
  -- the first of the resolved ones whose version the options enable; and the stream is the one that a socket
  -- of that version has connected to that address, behind `set_nodelay` if the options ask for it.
  pub open_stream-Opens :
      (host : List ℕ) (options : OptionsT Config) (conn : Connection) (addr : Address)
      (ready : Stream)
      → open_stream out host options ≡ ok (conn, addr, ready)
      → Opens host options conn addr ready
  unfolding open_stream
  open_stream-Opens host options conn addr ready e = bind_ok e (λ conn1 c1 e1.
      bind_ok e1 (λ answer c2 e2. bind_ok e2 (λ addrs c3 e3. bind_ok e3 (λ addr1 c4 e4.
        bind_ok e4 (λ socket c5 e5. bind_ok e5 (λ connected c6 e6. bind_ok e6 (λ stream c7 e7.
          bind_ok {x = without_delay out options.no_delay stream}
            {f = λ (s : Stream). ok (conn1, addr1, s)} e7
            (λ last c8 e8.
              let same = opened_inj {x = (conn1, addr1, last)} e8 in
              let versions = options.enabled_ip_versions in
              let first =
                first_supported-IsFirst versions addrs addr1
                  (or_error-ok hostname_not_found _ addr1 c4) in
              let resolved =
                or_timeout-ok dns_lookup _ answer c2
                ∙ ap finished (or_error-ok lookup_host_error answer addrs c3) in
              let joined =
                or_timeout-ok tcp_connect _ connected c6
                ∙ ap finished (or_error-ok io_error connected stream c7) in
              let tuned =
                subst (IsTuned options.no_delay stream) same.2
                  (without_delay-IsTuned options.no_delay stream last c8) in
              subst (λ (x : Address). Opens host options conn x ready) same.1
                (
                  c1 ∙ ap ok same.0,
                  (addrs, resolved, first.0, first.1),
                  (
                    socket,
                    stream,
                    socket_for-IsSocketOf addr1 socket (or_error-ok io_error _ socket c5),
                    joined,
                    tuned,
                  ),
                )))))))))
