-- ===== src/Tests/NodeRuns.antt =====
-- Messages, heartbeats and windows on concrete nodes, and what the theorems on internal/cluster say of
-- them.
use betterkey.Prelude.{
  ℕ, ◌≡◌, ◌≢◌, ◌≤◌, ◌+◌, ◌<◌, ◌⊎◌, refl, inl, true, false, List, [], ◌∷◌, ◌++◌, ◌&&◌, none, some,
  arith, All, Bytes, str, same, same_iff, contains, lookup, put, length, ltb,
}
use betterkey.Common.Hex.{encode_to_string, decode_string}
use betterkey.Common.Result.{ok, panic}
use betterkey.Common.Model.{HeartBeat}
use betterkey.Common.Services.{Vault, member_vault, vault_seal, vault_unseal}
use betterkey.Sgx.KeyStore.{read}
use betterkey.Cluster.Message.{
  PeerMessage, Peer, node_state_ready, msg_type_keyinit, msg_type_challenge,
  msg_type_challenge_resp,
}
use betterkey.Cluster.Seed.{
  Seed, Received, key_received, record_received, key_size, forward_key_to_other_seed_peers,
}
use betterkey.Cluster.Seed.Exchange.{all_received}
use betterkey.Cluster.Seed.Marks.{IsExchange}
use betterkey.Cluster.Seed.Completion.{Completes, key_received-Completes, key_received_refuses}
use betterkey.Cluster.HeartBeat.{
  PeerHeartBeat, HeartBeatManager, HeartBeatWindow, on_tick, process_window, local_heart_beat,
  validate_nonce,
}
use betterkey.Cluster.HeartBeat.Windows.{
  total_at, errors_at, samples_of, failures_of, passing, window_counts, tick_splits,
}
use betterkey.Cluster.HeartBeat.Exchange.{arrived, heart_beat_accepted}
use betterkey.Cluster.Node.{Node, new_node, answer_challenge, spawn, set_status}
use betterkey.Cluster.Node.Handlers.{handle_key_challenge_request, handle_key_challenge_response}
use betterkey.Cluster.Node.Challenge.{Holds, challenge_completes}
use betterkey.Tests.SamplePlatform.{sample, sample-IsLawful, decrypt}
use betterkey.Tests.StoreRuns.{info, secret, member}
use betterkey.Tests.ClusterRuns.{config, world, key_of_a}

-- A seed node that has adopted the key of the first, and gets it from the second.
abbrev exchanging : Seed
exchanging = record {
  id = info;
  other_seed_nodes = str "a" ∷ str "b" ∷ [];
  other_members = [];
  generated_key = key_of_a;
  key_exchange_stat = (str "a", record { received_from = true; sent_to = true }) ∷ [];
}

exchanging-IsExchange : IsExchange exchanging.other_seed_nodes exchanging.key_exchange_stat
unfolding contains
exchanging-IsExchange = record {
  once = (refl, tt);
  known = λ b c. ground (arith, c, same_iff (str "a") b, same_iff (str "b") b);
}

abbrev received_of_b : Received
received_of_b = record_received key_of_a (str "b") exchanging

key_received-Completes_example :
    (contains exchanging.other_seed_nodes (str "b") ≡ true)
    × (length key_of_a ≡ key_size)
    × Completes key_of_a exchanging received_of_b
unfolding key_received contains same put lookup all_received
key_received-Completes_example =
    key_received-Completes key_of_a (str "b") exchanging received_of_b exchanging-IsExchange refl

key_received_refuses_example : key_received key_of_a (str "d") exchanging ≡ panic
unfolding contains same
key_received_refuses_example = key_received_refuses key_of_a (str "d") exchanging (inl refl)

abbrev forwarded : PeerMessage
forwarded = record { sender = some info; type = msg_type_keyinit; content = key_of_a }

abbrev after_forward : Seed
after_forward = (forward_key_to_other_seed_peers (λ b. true) forwarded exchanging).0

-- A node whose file held a key.
abbrev keyed_node : Node
keyed_node =
    let n : Node = new_node (config (str "a")) 0 in
    record n { master_ks = record n.master_ks { cached_masterkey = some member } }

abbrev key_bytes : Bytes
key_bytes = 10 ∷ 11 ∷ []

keyed_node-Holds : Holds sample keyed_node key_bytes
unfolding read decode_string
keyed_node-Holds = record {
  store = keyed_node.master_ks;
  member = member;
  info = info;
  secret = secret;
  reads = refl;
  named = refl;
  keyed = refl;
  decodes = refl;
}

abbrev challenge : PeerMessage
challenge = record { sender = some info; type = msg_type_challenge; content = info.id }

challenge_completes_example :
    (response : PeerMessage) × (handle_key_challenge_request sample world challenge keyed_node
      ≡ ok (
          spawn
            (answer_challenge info.id response false)
            (record keyed_node { master_ks = keyed_node.master_ks })))
    × (response.type ≡ msg_type_challenge_resp)
    × (handle_key_challenge_response sample response keyed_node
        ≡ ok (set_status node_state_ready (record keyed_node { master_ks = keyed_node.master_ks })))
unfolding keyed_node-Holds
challenge_completes_example =
    challenge_completes sample sample-IsLawful world challenge keyed_node keyed_node key_bytes
      (key_bytes ++ info.id) info keyed_node-Holds keyed_node-Holds refl refl refl

abbrev good_response : PeerMessage
good_response = record {
  sender = some info;
  type = msg_type_challenge_resp;
  content = key_bytes ++ info.id;
}

abbrev two_peers : List Peer
two_peers = record { name = str "a"; meta = none } ∷ record { name = str "b"; meta = none } ∷ []

-- Heartbeats.
abbrev nonce : Bytes
nonce = 1 ∷ 2 ∷ []

abbrev beat : HeartBeat
beat = record { nonce = encode_to_string nonce; value = encode_to_string (key_bytes ++ nonce) }

heart_beat_accepted_example :
    validate_nonce sample (member_vault (some member)) (arrived (str "b") beat 4) ≡ ok tt
unfolding local_heart_beat vault_seal decode_string
heart_beat_accepted_example =
    heart_beat_accepted sample sample-IsLawful member member secret secret nonce [] (str "b") 4 beat
      refl refl refl (omega arith, (omega arith, tt)) refl

-- Three samples: one of the window, one beyond it, one older than the last tick.
abbrev sample_at : ℕ → PeerHeartBeat
sample_at t = record { id = str "b"; nonce = beat.nonce; encrypted_nonce = beat.value; ts = t }

abbrev manager : HeartBeatManager
manager = record {
  samples = sample_at 10 ∷ sample_at 40 ∷ sample_at 3 ∷ [];
  window = 20;
  last_run_ts = 5;
}

abbrev vault : Vault
vault = member_vault (some member)

abbrev window : HeartBeatWindow
window = record { from = 5; window = 20; stats = (str "b", record { total = 1; errors = 0 }) ∷ [] }

window_counts_example :
    ((w : HeartBeatWindow) × (some window ≡ some w)
      × (node_state_ready ≡ node_state_ready)
      × (w.from ≡ 5)
      × (w.window ≡ 20)
      × ((id : Bytes)
          → (total_at id w.stats ≡ samples_of id (sample_at 10 ∷ []))
            × (errors_at id w.stats ≡ failures_of sample vault id (sample_at 10 ∷ []))
            × (errors_at id w.stats ≤ total_at id w.stats)))
    ⊎ ((some window ≡ none) × (node_state_ready ≢ node_state_ready))
unfolding process_window vault_unseal decode_string encode_to_string decrypt same put lookup
window_counts_example =
    window_counts sample vault manager node_state_ready (sample_at 10 ∷ []) (some window) refl

tick_splits_example :
    All (λ s. (5 ≤ s.ts) × (s.ts ≤ 5 + 20)) (on_tick 60 manager).1
    × All (λ s. 5 + 20 < s.ts) (on_tick 60 manager).0.samples
    × (passing (λ s. true) (on_tick 60 manager).1
          + passing (λ s. true) (on_tick 60 manager).0.samples
          + passing (λ s. true && ltb s.ts 5) manager.samples
        ≡ passing (λ s. true) manager.samples)
    × ((on_tick 60 manager).0.last_run_ts ≡ 60)
tick_splits_example = tick_splits (λ s. true) 60 manager

abbrev late_window : HeartBeatWindow
late_window = record window { from = 60 }
