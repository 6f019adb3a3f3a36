-- ===== src/Tests/ProgramRuns.antt =====
-- A restarted seed node whose web server is opened.
use betterkey.Prelude.{refl, true, [], ◌∷◌, some, str, same, less, contains, none}
use betterkey.Common.Config.{ClusterConfig}
use betterkey.Common.Hex.{encode_to_string, decode_string}
use betterkey.Common.Model.{NodeMeta}
use betterkey.Common.Result.{Result, ok, err, panic}
use betterkey.Common.Services.{vault_seal}
use betterkey.Common.Set.{new_set, add_all, sorted}
use betterkey.Sgx.KeyStore.{holding, read, load}
use betterkey.Cluster.Bootstrap.{new_listener, on_state_changed}
use betterkey.Cluster.HeartBeat.{local_heart_beat}
use betterkey.Cluster.Lifecycle.{Process, notify_state_change, Reach, starts, tells}
use betterkey.Cluster.Node.{Config, Node, World, new_node, start, node_status}
use betterkey.Cluster.Startup.{Outside, node_config}
use betterkey.Program.{open_server, bootstrap_round}
use betterkey.Program.Opening.{IsOpen, bootstrap_round-IsOpen}
use betterkey.Tests.LifecycleRuns.{key_file}
use betterkey.Tests.ReportRuns.{config}
use betterkey.Tests.SamplePlatform.{sample}
use betterkey.Tests.StartupRuns.{outside, cluster_config, started}
use betterkey.Tests.WebSamples.{memory}

abbrev site : Outside
site = record outside { disk = λ path. holding key_file }

abbrev seed_config : ClusterConfig
seed_config = record cluster_config { node_host = str "a" }

abbrev restarted : Config
restarted = node_config site seed_config (some config)

abbrev world : World
world = record {
  heartbeat_nonce = 1 ∷ [];
  heartbeat_draw = 2 ∷ [];
  seal_draw = [];
  file_draw = [];
  master_key = [];
  now = 0;
  written = true;
  members = [];
  copied_members = [];
  delivers = λ b. true;
}

abbrev node_of : Result Node → Node
node_of (ok n) = n
node_of (err e) = new_node restarted 0
node_of panic = new_node restarted 0

abbrev begun : Process
begun = record { node = node_of (start sample (new_node restarted 0)); listener = new_listener }

abbrev process_of : Result Process → Process
process_of (ok p) = p
process_of (err e) = begun
process_of panic = begun

ready_process : Process
unfolding start new_node read load notify_state_change on_state_changed contains same sorted add_all
    new_set less
ready_process = process_of (notify_state_change begun)

ready-Reach : Reach sample restarted 0 ready_process
unfolding ready_process
ready-Reach = tells begun ready_process (starts begun.node refl) refl

abbrev status_of : Result (Node × NodeMeta) → Node × NodeMeta
status_of (ok s) = s
status_of (err e) = (begun.node, record { id = []; cluster_id = []; state = 0; heart_beat = none })
status_of panic = (begun.node, record { id = []; cluster_id = []; state = 0; heart_beat = none })

status : Node × NodeMeta
unfolding ready_process node_status local_heart_beat vault_seal decode_string encode_to_string
status = status_of (node_status sample world ready_process.node)

bootstrap_round-IsOpen_example :
    IsOpen sample site memory
      (λ i. true)
      seed_config
      started
      ready_process
      (open_server sample site world memory (λ i. true) seed_config started ready_process)
unfolding status bootstrap_round
bootstrap_round-IsOpen_example =
    bootstrap_round-IsOpen sample site world memory (λ i. true) seed_config (some config) started 0
      ready_process _ status.0 status.1 ready-Reach refl refl
