-- ===== src/Cluster/Node.antt =====
-- internal/cluster/node.go and state.go: a node, its construction, start, round of `onNoKey`, and
-- its queries for a key. What memberlist calls is in the module Delegate, the handlers of messages in
-- the module Handlers.
pub mod Delegate
pub mod Handlers
pub mod Challenge
pub mod Retrying
use betterkey.Prelude.{
  ℕ, Bool, true, false, not, List, [], ◌∷◌, ◌++◌, Option, none, some, Bytes, same, contains, length,
  ◌==◌, if◌then◌else◌,
}
use betterkey.Common.Result.{Result, ok, panic, require, ◌>>=◌, ◌>>◌}
use betterkey.Common.Model.{NodeInfo, NodeMeta, Member, Platform}
use betterkey.Common.Services.{deref, member_vault}
use betterkey.Common.Set.{Set, new_set, add, add_all, remove, sorted}
use betterkey.Sgx.KeyStore.{File, MasterKeyStore, new_masterkey_store, read}
use betterkey.Cluster.Message.{
  PeerMessage, Peer, msg_type_keyinit, node_state_no_key, node_state_seeding, node_state_validating,
  node_state_query_key, node_state_ready, members_can_provide_key,
}
use betterkey.Cluster.Seed.{Seed, start_seed_as_master, start_seed_as_slave}
use betterkey.Cluster.HeartBeat.{
  HeartBeatManager, new_heart_beat_manager, local_heart_beat, on_remote_heart_beat,
}

-- A goroutine that was started and has not run yet. The last two are loops that wait for a member to
-- appear: the flag says that an earlier attempt has failed.
pub data Task : Type 0 where
  send_init forward_key : PeerMessage → Task
  cleanup : Task
  ask_key send_challenge : List Peer → Task
  answer_challenge : Bytes → PeerMessage → Bool → Task
  answer_query : Bytes → PeerMessage → Task

pub record Node : Type 0 where
  pub id : Bytes
  pub cluster : Bytes
  pub seed_nodes : List Bytes
  pub node_info : NodeInfo
  pub state : ℕ
  pub seed : Seed
  pub master_ks : MasterKeyStore
  pub heartbeat_manager : HeartBeatManager
  pub in_messages : List PeerMessage
  pub state_change_messages : List ℕ
  pub tasks : List Task

-- What the outside decides in one step: randomness, the clock, the disk, the members of the
-- memberlist (twice, since `copyClusterPeers` reads them again), and which sends succeed.
pub record World : Type 0 where
  pub heartbeat_nonce : Bytes
  pub heartbeat_draw : Bytes
  pub seal_draw : Bytes
  pub file_draw : Bytes
  pub master_key : Bytes
  pub now : ℕ
  pub written : Bool
  pub members : List Peer
  pub copied_members : List Peer
  pub delivers : Bytes → Bool

pub record Config : Type 0 where
  pub node_host : Bytes
  pub id : Bytes
  pub seed_nodes : List Bytes
  pub file : File
  pub has_sgx : Bool

abbrev pub config_info : Config → NodeInfo
config_info c = record { id = c.node_host; cluster_id = c.id }

abbrev pub heartbeat_window : ℕ
heartbeat_window = 900

-- The seed nodes of a configuration, and those but the node itself.
unfoldable pub configured_seed_nodes : Config → List Bytes
configured_seed_nodes c = sorted (add_all new_set c.seed_nodes)

unfoldable pub other_seed_nodes : Config → List Bytes
other_seed_nodes c = sorted (remove (add_all new_set c.seed_nodes) c.node_host)

-- `NewNode`, behind its checks of the configuration and with a store and a transport that open.
unfoldable pub new_node : Config → ℕ → Node
unfolding configured_seed_nodes other_seed_nodes
new_node c now = record {
  id = c.node_host;
  cluster = c.id;
  seed_nodes = configured_seed_nodes c;
  node_info = config_info c;
  state = 0;
  seed = record {
    key_exchange_stat = [];
    id = config_info c;
    generated_key = [];
    other_seed_nodes = other_seed_nodes c;
    other_members = [];
  };
  master_ks = new_masterkey_store (config_info c) c.file c.has_sgx;
  heartbeat_manager = new_heart_beat_manager heartbeat_window now;
  in_messages = [];
  state_change_messages = [];
  tasks = [];
}

unfoldable pub set_status : ℕ → Node → Node
set_status stat n = record n {
  state = stat;
  state_change_messages = n.state_change_messages ++ stat ∷ [];
}

unfoldable pub spawn : Task → Node → Node
spawn t n = record n { tasks = n.tasks ++ t ∷ [] }

module _ (x : Platform) where
  -- `NodeStatus`: a READY node adds a heartbeat, for which it reads its key.
  unfoldable pub node_status : World → Node → Result (Node × NodeMeta)
  node_status w n =
      if n.state == node_state_ready
      then (do
        (ks, mk) ← read x n.master_ks
        hb ← local_heart_beat x (member_vault mk) w.heartbeat_nonce w.heartbeat_draw
        ok (
          record n { master_ks = ks },
          record {
            id = n.node_info.id;
            cluster_id = n.node_info.cluster_id;
            state = n.state;
            heart_beat = hb;
          },
        ))
      else ok (
        n,
        record {
          id = n.node_info.id;
          cluster_id = n.node_info.cluster_id;
          state = n.state;
          heart_beat = none;
        },
      )

  unfoldable pub start_with_key : Option Member → Node → Result Node
  unfolding set_status
  start_with_key none n = ok (set_status node_state_no_key n)
  start_with_key (some m) n = do
    info ← deref m.node_info
    require (same info.cluster_id n.cluster)
    ok (
        set_status (if contains n.seed_nodes n.id then node_state_ready else node_state_validating)
          n)

  -- `Start`, up to the wait for a first peer; a seed node with a key is READY once it has joined one.
  unfoldable pub start : Node → Result Node
  unfolding start_with_key
  start n = do
    (ks, local_id) ← read x n.master_ks
    start_with_key local_id (record n { master_ks = ks })

abbrev add_names : Set → List Peer → Set
add_names s [] = s
add_names s (p ∷ ps) = add_names (add s p.name) ps

unfoldable pub sorted_peer_names : List Peer → List Bytes
sorted_peer_names peers = sorted (add_names new_set peers)

abbrev contains_all : List Bytes → List Bytes → Bool
contains_all names [] = true
contains_all names (s ∷ ss) = if contains names s then contains_all names ss else false

unfoldable pub all_seed_peers_joined : Node → List Peer → Bool
unfolding sorted_peer_names
all_seed_peers_joined n members =
    contains_all (sorted_peer_names members) (sorted (add (add_all new_set n.seed_nodes) n.id))

unfoldable pub other_online_peers : Bytes → List Peer → List Peer
other_online_peers id [] = []
other_online_peers id (p ∷ ps) =
    let rest = other_online_peers id ps in if same p.name id then rest else p ∷ rest

unfoldable pub all_seed_nodes : Node → List Bytes
all_seed_nodes n = sorted (add_all (add new_set n.id) n.seed.other_seed_nodes)

-- `first == c.id`; the list of names is empty only where `c.id` is, and indexing it then panics.
unfoldable pub is_master : Bytes → List Bytes → Result Bool
is_master id [] = panic
is_master id (first ∷ rest) = ok (same first id)

unfoldable pub seed_as : Bool → World → List Peer → Node → Result Node
unfolding spawn
seed_as true w peers n = do
  let key_init : PeerMessage = record {
    sender = some n.node_info;
    type = msg_type_keyinit;
    content = w.master_key;
  }
  s ← start_seed_as_master key_init peers n.seed
  ok (spawn (send_init key_init) (record n { seed = s }))
seed_as false w peers n = ok (record n { seed = start_seed_as_slave peers n.seed })

-- `(c *Node) seed` of seed.go.
unfoldable pub seed_node : World → List Peer → Node → Result Node
unfolding set_status seed_as is_master
seed_node w peers n = do
  let seeding = set_status node_state_seeding n
  master ← is_master n.id (all_seed_nodes n)
  seed_as master w (other_online_peers n.id peers) seeding

-- `queryKey` of query.go.
unfoldable pub query_key : List Peer → Node → Node
unfolding set_status spawn
query_key peers n = spawn (ask_key peers) (set_status node_state_query_key n)

-- One round of the second loop of `onNoKey`: it ends the loop when it changes the state.
unfoldable pub on_no_key_round : World → Node → Result Node
unfolding seed_node query_key all_seed_peers_joined
on_no_key_round w n =
    if members_can_provide_key w.members
    then ok (query_key w.members n)
    else if contains n.seed_nodes n.id
    then (if all_seed_peers_joined n w.members then seed_node w w.copied_members n else ok n)
    else ok n

-- One round of the wait of `validatingExistingKey` in validate.go: whether it ends, and the node.
unfoldable pub validating_round : World → Node → Bool × Node
unfolding spawn
validating_round w n =
    if members_can_provide_key w.members
    then (true, spawn (send_challenge w.members) n)
    else (false, n)
