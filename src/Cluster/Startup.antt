-- ===== src/Cluster/Startup.antt =====
-- internal/cluster/node.go: the whole of `NewNode`, with its checks of the configuration, the TLS of the
-- node, its stores, its transport and the settings of the memberlist. A check that fails, and
-- `log.Fatalf`, end the process.
pub mod Advertised
use betterkey.Prelude.{
  ℕ, Bool, true, false, not, List, [], ◌∷◌, Option, none, some, Bytes, length, ◌==◌,
}
use betterkey.Common.Config.{ClusterConfig}
use betterkey.Common.Result.{Result, ok, must, require, ◌>>=◌, ◌>>◌}
use betterkey.Common.Services.{deref}
use betterkey.Sgx.Report.{EnclaveConfig, Enclave}
use betterkey.Sgx.KeyStore.{File}
use betterkey.Sgx.Tls.{Issuer, Draws, NodeTlsConfig, new_node_tls_config}
use betterkey.Cluster.Node.{Node, Config, new_node}
use betterkey.Cluster.Transport.Addresses.{
  Network, NetTransportConfig, Transport, resolve_ip, new_net_transport,
}

-- What a start meets: the host, the enclave, the disk, the Valkey servers and the network.
pub record Outside : Type 0 where
  pub hostname : Option Bytes
  pub enclave : Enclave
  pub issuer : Issuer
  pub draws : Draws
  pub join_path : Bytes → Bytes → Bytes
  pub disk : Bytes → File
  pub valkey_connects : ClusterConfig → Bool
  pub sha256 : Bytes → Bytes
  pub network : Network

-- The fields of `memberlist.Config` that are set, the intervals in seconds.
pub record MemberlistConfig : Type 0 where
  pub probe_interval : ℕ
  pub probe_timeout : ℕ
  pub gossip_interval : ℕ
  pub push_pull_interval : ℕ
  pub name : Bytes
  pub secret_key : Bytes
  pub bind_port : ℕ
  pub advertise_port : ℕ
  pub bind_addr : Bytes
  pub advertise_addr : Bytes

pub record ClusterNode : Type 0 where
  pub node : Node
  pub hostname : Bytes
  pub configured_peer_addresses : List Bytes
  pub node_tls : NodeTlsConfig
  pub memberlist_config : MemberlistConfig
  pub transport : Transport

abbrev pub has_enclave : Option EnclaveConfig → Bool
has_enclave none = false
has_enclave (some c) = true

-- What the model of a node reads of the configuration, with the file of its master key.
abbrev pub node_config : Outside → ClusterConfig → Option EnclaveConfig → Config
node_config o c enclave_config = record {
  node_host = c.node_host;
  id = c.id;
  seed_nodes = c.seed_nodes;
  file = o.disk (o.join_path c.master_key_folder c.node_host);
  has_sgx = has_enclave enclave_config;
}

abbrev pub memberlist_of : Outside → ClusterConfig → Bytes → MemberlistConfig
memberlist_of o c advertise_addr = record {
  probe_interval = 30;
  probe_timeout = 10;
  gossip_interval = 5;
  push_pull_interval = 60;
  name = c.node_host;
  secret_key = o.sha256 c.encryption_key;
  bind_port = c.port;
  advertise_port = c.port;
  bind_addr = c.bind_address;
  advertise_addr = advertise_addr;
}

-- The guards on the configuration.
unfoldable pub check_config : ClusterConfig → Result (Unit {0})
check_config c = do
  require (not (c.port == 0))
  require (not (length c.peer_addresses == 0))
  require (not (length c.valkey_uris == 0))
  require (not (length c.bind_address == 0))

-- `NewNode`, at a time.
unfoldable pub new_cluster_node :
    Outside → ℕ → Option ClusterConfig → Option EnclaveConfig → Result ClusterNode
unfolding check_config
new_cluster_node o now cluster_config enclave_config = do
  c ← deref cluster_config
  check_config c
  hostname ← deref o.hostname
  node_tls ← must (new_node_tls_config o.enclave o.issuer o.draws c.node_host enclave_config)
  require (o.valkey_connects c)
  advertise_addr ← must (resolve_ip o.network c.node_host)
  transport ← must (
      (new_net_transport o.network
        (record { bind_addrs = c.bind_address ∷ []; bind_port = c.port })).0)
  ok (record {
    node = new_node (node_config o c enclave_config) now;
    hostname = hostname;
    configured_peer_addresses = c.peer_addresses;
    node_tls = node_tls;
    memberlist_config = memberlist_of o c advertise_addr;
    transport = transport;
  })
