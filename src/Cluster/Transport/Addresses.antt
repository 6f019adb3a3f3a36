-- ===== src/Cluster/Transport/Addresses.antt =====
-- internal/cluster/transport/tls.go: the listeners of a transport and the address that it advertises,
-- and internal/common/net.go. The resolver, the sockets and the interfaces are the parameter `Network`.
use betterkey.Prelude.{
  ℕ, Bool, not, List, [], ◌∷◌, ◌++◌, Option, none, some, Bytes, str, same, length, ◌==◌,
  if◌then◌else◌,
}
use betterkey.Common.Result.{Result, ok, err, panic, failed, ◌>>=◌, ◌>>◌, check}
use betterkey.Common.Services.{or_error}

-- An IP address is the list of its bytes.
pub record TcpAddr : Type 0 where
  pub ip : Option Bytes
  pub port : ℕ

pub record Network : Type 0 where
  pub parse_ip : Bytes → Option Bytes
  pub to4 : Bytes → Option Bytes
  pub ip_string : Bytes → Bytes
  pub is_loopback : Bytes → Bool
  pub lookup_ip : Bytes → Option (List Bytes)
  -- `sockaddr.GetPrivateIP`
  pub get_private_ip : Option Bytes
  -- The port that a listener is bound to, if it can be opened.
  pub listen : TcpAddr → Option ℕ

pub record NetTransportConfig : Type 0 where
  pub bind_addrs : List Bytes
  pub bind_port : ℕ

-- A listener keeps the address that it was asked to listen on.
pub record Transport : Type 0 where
  pub config : NetTransportConfig
  pub tcp_listeners : List TcpAddr

module _ (k : Network) where
  abbrev pub first_public : List Bytes → Result Bytes
  first_public [] = err (failed (str "no non-loopback address found"))
  first_public (addr ∷ addrs) =
      if not (k.is_loopback addr) then ok (k.ip_string addr) else first_public addrs

  -- `ResolveIP`
  abbrev resolve_host : Bytes → Option Bytes → Result Bytes
  resolve_host host (some ip) = ok host
  resolve_host host none = do addrs ← or_error (k.lookup_ip host) (str "lookup"); first_public addrs

  unfoldable pub resolve_ip : Bytes → Result Bytes
  resolve_ip host = resolve_host host (k.parse_ip host)

  -- The first error ends the loop; the listeners so far are returned beside it.
  abbrev pub after_listen :
      Option ℕ
      → List TcpAddr
      → (ℕ → Result (Unit {0}) × List TcpAddr)
      → Result (Unit {0}) × List TcpAddr
  after_listen none opened next = (err (failed (str "Failed to start TCP listener")), opened)
  after_listen (some bound) opened next = next bound

  -- The loop over the addresses, with the port that the first listener was given in place of zero.
  unfoldable pub open_listeners : ℕ → List Bytes → List TcpAddr → Result (Unit {0}) × List TcpAddr
  open_listeners port [] opened = (ok tt, opened)
  open_listeners port (addr ∷ addrs) opened =
      let tcp_addr : TcpAddr = record { ip = k.parse_ip addr; port = port } in
      after_listen (k.listen tcp_addr) opened (λ bound.
        open_listeners (if port == 0 then bound else port) addrs (opened ++ tcp_addr ∷ []))

  -- The listeners that are open in the end: on an error, the deferred `Shutdown` closes all of them.
  abbrev pub opened_or_closed :
      NetTransportConfig → Result (Unit {0}) × List TcpAddr → Result Transport × List TcpAddr
  opened_or_closed config (ok u, opened) =
      (ok (record { config = config; tcp_listeners = opened }), opened)
  opened_or_closed config (err e, opened) = (err e, [])
  opened_or_closed config (panic, opened) = (panic, [])

  unfoldable pub new_net_transport : NetTransportConfig → Result Transport × List TcpAddr
  unfolding open_listeners
  new_net_transport config =
      if length config.bind_addrs == 0
      then (err (failed (str "At least one bind address is required")), [])
      else opened_or_closed config (open_listeners config.bind_port config.bind_addrs [])

  abbrev first_listener : List TcpAddr → Result TcpAddr
  first_listener [] = panic
  first_listener (l ∷ ls) = ok l

  unfoldable pub get_auto_bind_port : Transport → Result ℕ
  get_auto_bind_port t = do l ← first_listener t.tcp_listeners; ok l.port

  listener_address : Transport → Result (Option Bytes)
  listener_address t = do l ← first_listener t.tcp_listeners; ok l.ip

  abbrev first_bind_addr : List Bytes → Result Bytes
  first_bind_addr [] = panic
  first_bind_addr (a ∷ as') = ok a

  abbrev pub or_itself : Bytes → Option Bytes → Bytes
  or_itself ip none = ip
  or_itself ip (some ip4) = ip4

  private_address : Result (Option Bytes)
  private_address = do
    ip ← or_error k.get_private_ip (str "Failed to get interface addresses")
    check (not (same ip [])) (failed (str "No private IP address found"))
    parsed ← or_error (k.parse_ip ip) (str "Failed to parse advertise address")
    ok (some parsed)

  -- The address where none is given.
  unfoldable pub bound_address : Transport → Result (Option Bytes)
  unfolding private_address listener_address
  bound_address t = do
    bind_addr ← first_bind_addr t.config.bind_addrs
    if same bind_addr (str "0.0.0.0") then private_address else listener_address t

  unfoldable pub final_advertise_addr : Bytes → ℕ → Transport → Result (Option Bytes × ℕ)
  unfolding bound_address get_auto_bind_port
  final_advertise_addr ip port t =
      if not (same ip [])
      then (do
        parsed ← or_error (k.parse_ip ip) (str "Failed to parse advertise address")
        ok (some (or_itself parsed (k.to4 parsed)), port))
      else (do
        advertise_addr ← bound_address t
        advertise_port ← get_auto_bind_port t
        ok (advertise_addr, advertise_port))
