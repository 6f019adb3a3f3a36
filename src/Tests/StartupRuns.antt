-- ===== src/Tests/StartupRuns.antt =====
-- A node that starts where its name stands for a loopback address and a public one.
use betterkey.Prelude.{
  refl, Bool, true, false, [], ◌∷◌, Option, none, some, Bytes, str, if◌then◌else◌, ◌==◌,
}
use betterkey.Common.Config.{ClusterConfig}
use betterkey.Sgx.KeyStore.{absent}
use betterkey.Cluster.Node.{new_node}
use betterkey.Cluster.Transport.Addresses.{Network, resolve_ip, open_listeners, new_net_transport}
use betterkey.Cluster.Startup.{
  Outside, ClusterNode, check_config, node_config, memberlist_of, new_cluster_node,
}
use betterkey.Cluster.Startup.Advertised.{IsNetwork, IsStarted, new_cluster_node-IsStarted}
use betterkey.Tests.ReportRuns.{config}
use betterkey.Tests.TlsRuns.{issuing, issuer, draws, node_tls}

-- An address in text is a colon and its bytes.
abbrev parse : Bytes → Option Bytes
parse [] = none
parse (b ∷ bs) = if b == 58 then some bs else none

abbrev loopback : Bytes → Bool
loopback [] = false
loopback (b ∷ bs) = b == 127

abbrev network : Network
network = record {
  parse_ip = parse;
  to4 = λ ip. some ip;
  ip_string = λ ip. 58 ∷ ip;
  is_loopback = loopback;
  lookup_ip = λ host. some ((127 ∷ 0 ∷ 0 ∷ 1 ∷ []) ∷ (10 ∷ 0 ∷ 0 ∷ 7 ∷ []) ∷ []);
  get_private_ip = none;
  listen = λ addr. some addr.port;
}

network-IsNetwork : IsNetwork network
network-IsNetwork = record {
  parsed = λ a. a;
  parse-string = λ host addrs a looked_up found. refl;
  parsed_loopback = λ a. refl;
  nothing = refl;
}

abbrev pub outside : Outside
outside = record {
  hostname = some (str "host");
  enclave = issuing;
  issuer = issuer;
  draws = draws (str "b");
  join_path = λ folder file. file;
  disk = λ path. absent;
  valkey_connects = λ c. true;
  sha256 = λ b. b;
  network = network;
}

abbrev pub cluster_config : ClusterConfig
cluster_config = record {
  id = str "c";
  encryption_key = str "k";
  port = 7946;
  peer_addresses = str "a" ∷ str "b" ∷ [];
  seed_nodes = str "a" ∷ str "b" ∷ [];
  bind_address = 58 ∷ 10 ∷ 0 ∷ 0 ∷ 7 ∷ [];
  node_host = str "b";
  master_key_folder = [];
  valkey_uris = str "v" ∷ [];
  valkey_user = [];
  valkey_password = [];
  valkey_namespace = [];
  valkey_tls = true;
  domains = [];
  server_port = 443;
  acme_dns_token = [];
  acme_owner = [];
  acme_retry_delay = 0;
  acme_retry_count = 0;
  acme_provider = [];
  dev_mode = false;
  enforce_seal_quote_verify = true;
  enforce_key_request_quote_verify = true;
  journal_endpoint = [];
  journal_region = [];
  journal_access_key = [];
  journal_secret_key = [];
}

abbrev pub started : ClusterNode
started = record {
  node = new_node (node_config outside cluster_config (some config)) 0;
  hostname = str "host";
  configured_peer_addresses = cluster_config.peer_addresses;
  node_tls = node_tls (str "b");
  memberlist_config = memberlist_of outside cluster_config (58 ∷ 10 ∷ 0 ∷ 0 ∷ 7 ∷ []);
  transport = record {
    config = record { bind_addrs = cluster_config.bind_address ∷ []; bind_port = 7946 };
    tcp_listeners = record { ip = some (10 ∷ 0 ∷ 0 ∷ 7 ∷ []); port = 7946 } ∷ [];
  };
}

new_cluster_node-IsStarted_example : IsStarted outside 0 cluster_config (some config) started
unfolding new_cluster_node check_config resolve_ip open_listeners new_net_transport node_tls
new_cluster_node-IsStarted_example =
    new_cluster_node-IsStarted outside network-IsNetwork 0 cluster_config (some config) started refl
