-- ===== src/Tests/ClusterRuns.antt =====
-- Two seed nodes of a fresh cluster, and what the theorems on internal/cluster say of them.
use betterkey.Prelude.{
  ◌≡◌, refl, true, List, [], ◌∷◌, none, arith, All, Bytes, str, same, less, contains, lookup, put,
}
use betterkey.Common.Result.{ok}
use betterkey.Common.Set.{sorted, add, add_all, remove, new_set}
use betterkey.Sgx.KeyStore.{absent, load, read, write}
use betterkey.Cluster.Message.{Peer, node_state_ready, members_can_provide_key}
use betterkey.Cluster.Election.{IsLeader, election, names_of}
use betterkey.Cluster.Seed.{
  key_received, forward_key_to_other_seed_peers, send_seed_key, start_seed_as_master,
  start_seed_as_slave,
}
use betterkey.Cluster.Node.{
  Config, World, Node, new_node, configured_seed_nodes, all_seed_nodes, is_master,
  other_online_peers, node_status, start, on_no_key_round,
}
use betterkey.Cluster.Node.Delegate.{notify_msg}
use betterkey.Cluster.Node.Handlers.{dispatch, handle_seed_key, loop_round, run_task}
use betterkey.Cluster.System.{
  Status, unborn, stopped, running, Event, boot, look_for_key, deliver, handle, run, nothing_yet,
  run_all, step,
}
use betterkey.Cluster.Seed.Exchange.{all_received}
use betterkey.Cluster.System.Agreement.{key_agreement, HasKey, Fits}
use betterkey.Tests.SamplePlatform.{sample, sample-IsLawful, decrypt}

abbrev pub seeds : List Bytes
seeds = str "b" ∷ str "a" ∷ []

abbrev pub config : Bytes → Config
config host = record {
  node_host = host;
  id = str "c";
  seed_nodes = seeds;
  file = absent;
  has_sgx = true;
}

abbrev pub peers : List Peer
peers = record { name = str "a"; meta = none } ∷ record { name = str "b"; meta = none } ∷ []

abbrev pub key_of_a : Bytes
key_of_a =
    7 ∷ 7 ∷ 7 ∷ 7 ∷ 7 ∷ 7 ∷ 7 ∷ 7 ∷ 7 ∷ 7 ∷ 7 ∷ 7 ∷ 7 ∷ 7 ∷ 7 ∷ 7 ∷ 7 ∷ 7 ∷ 7 ∷ 7 ∷ 7 ∷ 7 ∷ 7 ∷ 7
    ∷ 7 ∷ 7 ∷ 7 ∷ 7 ∷ 7 ∷ 7 ∷ 7 ∷ 200 ∷ []

abbrev pub world : World
world = record {
  heartbeat_nonce = [];
  heartbeat_draw = [];
  seal_draw = [];
  file_draw = [];
  master_key = key_of_a;
  now = 5;
  written = true;
  members = peers;
  copied_members = peers;
  delivers = λ p. true;
}

abbrev both_seed : List Event
both_seed =
    boot (config (str "a")) 0
    ∷ boot (config (str "b")) 0
    ∷ look_for_key (str "a") world
    ∷ look_for_key (str "b") world
    ∷ run (str "a") 0 world
    ∷ deliver 0
    ∷ handle (str "b") world
    ∷ run (str "b") 0 world
    ∷ deliver 1
    ∷ handle (str "a") world
    ∷ []

abbrev node_or : Node → Status → Node
node_or n unborn = n
node_or n stopped = n
node_or n (running m) = m

final : Bytes → Node
unfolding run_all step new_node on_no_key_round loop_round run_task notify_msg start read write load
    sorted add add_all remove new_set decrypt same less contains is_master all_seed_nodes
    members_can_provide_key key_received forward_key_to_other_seed_peers send_seed_key
    start_seed_as_master other_online_peers node_status dispatch handle_seed_key start_seed_as_slave
    put all_received lookup
final i = node_or (new_node (config i) 0) ((run_all sample nothing_yet both_seed).nodes i)

both_ready :
    ((final (str "a")).state ≡ node_state_ready) × ((final (str "b")).state ≡ node_state_ready)
unfolding final
both_ready = (refl, refl)

final_runs : (run_all sample nothing_yet both_seed).nodes (str "a") ≡ running (final (str "a"))
unfolding final
final_runs = refl

first_of_seeds : sorted (names_of seeds) ≡ str "a" ∷ str "b" ∷ []
unfolding final
first_of_seeds = refl

both_seed-Fits : All (Fits seeds (λ i. key_of_a)) both_seed
both_seed-Fits = (
  (refl, (λ b. refl), (omega arith, omega arith)),
  (
    (refl, (λ b. refl), (omega arith, omega arith)),
    (refl, (refl, (tt, (tt, (tt, (tt, (tt, (tt, tt)))))))),
  ),
)

key_agreement_example : HasKey sample key_of_a (final (str "a")).master_ks
key_agreement_example =
    key_agreement sample sample-IsLawful seeds (λ i. key_of_a) (str "a") (str "b" ∷ [])
      first_of_seeds (omega arith) both_seed (str "a") (final (str "a")) both_seed-Fits final_runs
      both_ready.0

seed_a : contains (configured_seed_nodes (config (str "a"))) (str "a") ≡ true
unfolding final
seed_a = refl

seed_b : contains (configured_seed_nodes (config (str "b"))) (str "b") ≡ true
unfolding final
seed_b = refl

election_example :
    (first : Bytes) × IsLeader seeds first
    × (is_master (str "a") (all_seed_nodes (new_node (config (str "a")) 0))
        ≡ ok (same first (str "a")))
    × (is_master (str "b") (all_seed_nodes (new_node (config (str "b")) 3))
        ≡ ok (same first (str "b")))
election_example = election (config (str "a")) (config (str "b")) 0 3 seed_a seed_b (λ b. refl)
