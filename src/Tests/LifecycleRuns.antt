-- ===== src/Tests/LifecycleRuns.antt =====
-- A seed node that starts with its key, and what the theorems on its states say of it.
use betterkey.Prelude.{
  ◌≡◌, refl, [], none, some, Bytes, str, same, less, contains, ◌==◌, if◌then◌else◌,
}
use betterkey.Common.Result.{Result, ok, err, panic}
use betterkey.Common.Set.{new_set, add_all, sorted}
use betterkey.Sgx.KeyStore.{holding, read, load}
use betterkey.Cluster.Message.{node_state_ready}
use betterkey.Cluster.Bootstrap.{new_listener, on_state_changed}
use betterkey.Cluster.Node.{Config, Node, new_node, start}
use betterkey.Cluster.Lifecycle.{Process, notify_state_change, Reach, starts, tells}
use betterkey.Cluster.Lifecycle.Telling.{IsOrderly, Reach-IsOrderly, told_all-released}
use betterkey.Tests.SamplePlatform.{sample}
use betterkey.Tests.StoreRuns.{member}
use betterkey.Tests.ClusterRuns.{config}

abbrev pub key_file : Bytes
key_file = elim (sample.marshal_member member) [ none ↦ [] | some b ↦ b ]

abbrev restarted : Config
restarted = record (config (str "a")) { file = holding key_file }

abbrev node_of : Result Node → Node
node_of (ok n) = n
node_of (err e) = new_node restarted 0
node_of panic = new_node restarted 0

abbrev started : Process
started = record { node = node_of (start sample (new_node restarted 0)); listener = new_listener }

abbrev process_of : Result Process → Process
process_of (ok p) = p
process_of (err e) = started
process_of panic = started

released_process : Process
unfolding start new_node read load notify_state_change on_state_changed contains same sorted add_all
    new_set less
released_process = process_of (notify_state_change started)

released-Reach : Reach sample restarted 0 released_process
unfolding released_process
released-Reach = tells started released_process (starts started.node refl) refl

Reach-IsOrderly_example : IsOrderly sample released_process
Reach-IsOrderly_example = Reach-IsOrderly sample restarted 0 released_process released-Reach

told_all-released_example :
    (released_process.listener.is_done ≡ (released_process.node.state == node_state_ready))
    × (released_process.listener.countdown
        ≡ (if released_process.node.state == node_state_ready then 0 else 1))
unfolding released_process
told_all-released_example =
    told_all-released sample restarted 0 released_process released-Reach refl

is_released :
    (released_process.node.state ≡ node_state_ready) × (released_process.listener.countdown ≡ 0)
unfolding released_process
is_released = (refl, refl)
