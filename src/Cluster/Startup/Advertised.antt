-- ===== src/Cluster/Startup/Advertised.antt =====
-- Where a node that `NewNode` has made listens, and what it advertises.
use betterkey.Prelude.{
  ℕ, ◌≡◌, ◌∙◌, refl, ap, sym, subst, inl, inr, Bool, true, false, not, List, [], ◌∷◌, Option, none,
  some, Bytes, same, same_refl, eq_of_same, contains, ◌||◌, length, ◌==◌, Bool-cases, Option-cases,
}
use betterkey.Common.Config.{ClusterConfig}
use betterkey.Common.Result.{Result, ok, err, panic, must, require, >>=-eq-ok, ok-injective}
use betterkey.Common.Services.{deref, or_error, or_error-eq-ok}
use betterkey.Sgx.Report.{EnclaveConfig}
use betterkey.Sgx.Tls.{new_node_tls_config}
use betterkey.Cluster.Node.{new_node}
use betterkey.Cluster.Transport.Addresses.{
  Network, TcpAddr, Transport, resolve_ip, open_listeners, new_net_transport, get_auto_bind_port,
  final_advertise_addr, first_public, or_itself, after_listen, opened_or_closed,
}
use betterkey.Cluster.Startup.{Outside, ClusterNode, check_config, node_config, new_cluster_node}

-- What is relied on of package net: the text of an address that the resolver has parses to an address of
-- the same kind, and the empty text is none.
pub record IsNetwork (k : Network) : Type 0 where
  pub parsed : Bytes → Bytes
  pub parse-string :
      (host : Bytes) (addrs : List Bytes) (a : Bytes)
      → k.lookup_ip host ≡ some addrs
      → contains addrs a ≡ true
      → k.parse_ip (k.ip_string a) ≡ some (parsed a)
  pub parsed_loopback : (a : Bytes) → k.is_loopback (parsed a) ≡ k.is_loopback a
  pub nothing : k.parse_ip [] ≡ none

-- An address that a host name stands for: the name itself, or one that the resolver has, which is no
-- loopback address.
pub data Names (k : Network) (host ip : Bytes) : Type 0 where
  literal : k.parse_ip host ≡ some ip → Names k host ip
  resolved :
      (addrs : List Bytes) (addr : Bytes)
      → k.parse_ip host ≡ none
      → k.lookup_ip host ≡ some addrs
      → contains addrs addr ≡ true
      → k.parse_ip (k.ip_string addr) ≡ some ip
      → k.is_loopback ip ≡ false
      → Names k host ip

must-ok {ℓ} : {A : Type ℓ} (m : Result A) {a : A} → must m ≡ ok a → m ≡ ok a
must-ok (ok a) e = e
must-ok (err f) e = cc e
must-ok panic e = cc e

module _ (k : Network) (laws : IsNetwork k) where
  first_public-found :
      (addrs : List Bytes) (text : Bytes)
      → first_public k addrs ≡ ok text
      → (addr : Bytes) × (contains addrs addr ≡ true)
        × (k.is_loopback addr ≡ false)
        × (text ≡ k.ip_string addr)
  unfolding contains
  first_public-found [] text e = cc e
  first_public-found (a ∷ addrs) text e = elim (Bool-cases (k.is_loopback a)) [
    | inl l ↦
        let (addr, found, public, is_text) = first_public-found addrs text (rw l at e) in
        (addr, or_true (same a addr) found, public, is_text)
    | inr l ↦ (a, rw (same_refl a) refl, l, sym (ok-injective (rw l at e)))
  ]
    where
      or_true : (b : Bool) {c : Bool} → c ≡ true → (b || c) ≡ true
      or_true true h = refl
      or_true false h = h

  -- What `ResolveIP` returns parses to an address of the host.
  resolve_ip-Names :
      (host text : Bytes)
      → resolve_ip k host ≡ ok text
      → (ip : Bytes) × (k.parse_ip text ≡ some ip) × Names k host ip
  unfolding resolve_ip
  resolve_ip-Names host text e = elim (Option-cases (k.parse_ip host)) [
    | inl no_ip ↦
        let (addrs, looked_up, rest) =
          >>=-eq-ok (or_error (k.lookup_ip host) _) _ (rw no_ip at e) in
        let (addr, found, public, is_text) = first_public-found addrs text rest in
        let parses = laws.parse-string host addrs addr (or_error-eq-ok _ _ looked_up) found in
        (
          laws.parsed addr,
          rw is_text parses,
          resolved addrs addr no_ip (or_error-eq-ok _ _ looked_up) found parses
              (laws.parsed_loopback addr ∙ public),
        )
    | inr (ip, is_ip) ↦ (
      ip,
      subst (λ t. k.parse_ip t ≡ some ip) (ok-injective (rw is_ip at e)) is_ip,
      literal is_ip,
    )
  ]

  -- An address that is given is advertised as it parses, in four bytes where it can be.
  given_address :
      (text ip : Bytes) (port : ℕ) (t : Transport)
      → k.parse_ip text ≡ some ip
      → final_advertise_addr k text port t ≡ ok (some (or_itself k ip (k.to4 ip)), port)
  unfolding final_advertise_addr
  given_address text ip port t e = elim (Bool-cases (same text [])) [
    | inl empty ↦ cc (laws.nothing, ap k.parse_ip (eq_of_same text [] empty), e)
    | inr given ↦ rw (given, e) refl
  ]

  one_listener :
      (addr : Bytes) (port : ℕ) (t : Transport)
      → (new_net_transport k (record { bind_addrs = addr ∷ []; bind_port = port })).0 ≡ ok t
      → get_auto_bind_port k t ≡ ok port
  unfolding new_net_transport open_listeners get_auto_bind_port
  one_listener addr port t e = go (k.listen asked) e
    where
      asked : TcpAddr
      asked = record { ip = k.parse_ip addr; port = port }

      go :
          (o : Option ℕ)
          → (opened_or_closed k
              (record { bind_addrs = addr ∷ []; bind_port = port })
              (after_listen k o [] (λ bound. (ok tt, asked ∷ [])))).0
            ≡ ok t
          → get_auto_bind_port k t ≡ ok port
      go none h = cc h
      go (some bound) h = subst (λ u. get_auto_bind_port k u ≡ ok port) (ok-injective h) refl

-- What the guards ask of a configuration.
pub record IsChecked (c : ClusterConfig) : Type 0 where
  pub port : (c.port == 0) ≡ false
  pub peers : (length c.peer_addresses == 0) ≡ false
  pub uris : (length c.valkey_uris == 0) ≡ false
  pub bind : (length c.bind_address == 0) ≡ false

require-not : (b : Bool) {u : Unit {0}} → require (not b) ≡ ok u → b ≡ false
require-not true e = cc e
require-not false e = refl

check_config-IsChecked : (c : ClusterConfig) → check_config c ≡ ok tt → IsChecked c
unfolding check_config
check_config-IsChecked c e =
    let (u1, port, e1) = >>=-eq-ok (require (not (c.port == 0))) _ e in
    let (u2, peers, e2) = >>=-eq-ok (require (not (length c.peer_addresses == 0))) _ e1 in
    let (u3, uris, e3) = >>=-eq-ok (require (not (length c.valkey_uris == 0))) _ e2 in
    record {
      port = require-not _ port;
      peers = require-not _ peers;
      uris = require-not _ uris;
      bind = require-not _ e3;
    }

-- What a node is whose process has come through `NewNode`.
pub record IsStarted (o : Outside) (now : ℕ) (c : ClusterConfig) (e : Option EnclaveConfig)
    (made : ClusterNode) : Type 0 where
  pub checked : IsChecked c
  pub node : made.node ≡ new_node (node_config o c e) now
  pub tls : new_node_tls_config o.enclave o.issuer o.draws c.node_host e ≡ ok made.node_tls
  pub bound : get_auto_bind_port o.network made.transport ≡ ok c.port
  pub ip : Bytes
  pub named : Names o.network c.node_host ip
  pub advertised :
      final_advertise_addr o.network made.memberlist_config.advertise_addr
        made.memberlist_config.advertise_port made.transport
      ≡ ok (some (or_itself o.network ip (o.network.to4 ip)), c.port)

-- Where `NewNode` returns, the configuration has a port, peers, Valkey servers and an address to bind
-- to. The node listens on the port that the memberlist advertises for it, which is the configured one,
-- and advertises an address of its host name: the name itself, if it is an address, else one that the
-- resolver has for it and that is no loopback address. Its TLS is made for its name and its enclave.
pub new_cluster_node-IsStarted :
    (o : Outside) (laws : IsNetwork o.network) (now : ℕ) (c : ClusterConfig)
    (e : Option EnclaveConfig) (made : ClusterNode)
    → new_cluster_node o now (some c) e ≡ ok made
    → IsStarted o now c e made
unfolding new_cluster_node
new_cluster_node-IsStarted o laws now c e made h =
    let (u1, checks, e1) = >>=-eq-ok (check_config c) _ h in
    let (hostname, host, e2) = >>=-eq-ok (deref o.hostname) _ e1 in
    let (node_tls, tls, e3) =
      >>=-eq-ok (must (new_node_tls_config o.enclave o.issuer o.draws c.node_host e)) _ e2 in
    let (u2, valkey, e4) = >>=-eq-ok (require (o.valkey_connects c)) _ e3 in
    let (text, resolves, e5) = >>=-eq-ok (must (resolve_ip o.network c.node_host)) _ e4 in
    let (transport, opens, e6) = >>=-eq-ok (must (new_net_transport o.network _).0) _ e5 in
    let (ip, parses, names) =
      resolve_ip-Names o.network laws c.node_host text (must-ok _ resolves) in
    subst (IsStarted o now c e) (ok-injective e6) (record {
      checked = check_config-IsChecked c checks;
      node = refl;
      tls = must-ok _ tls;
      bound = one_listener o.network laws c.bind_address c.port transport (must-ok _ opens);
      ip = ip;
      named = names;
      advertised = given_address o.network laws text ip c.port transport parses;
    })
