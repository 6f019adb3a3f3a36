-- ===== src/Cluster/Lifecycle.antt =====
-- internal/cluster/state.go: the states of a node from `Start` on, and the goroutine that tells the
-- listener of bootstrap.go of them. A process is a node and its listener; its goroutines and the
-- memberlist let it act in any order.
pub mod Moves
pub mod Rounds
pub mod History
pub mod Telling
pub mod Keyed
pub mod ReadyKey
use betterkey.Prelude.{ℕ, ◌≡◌, List, [], ◌∷◌, Option, some, Bytes, get_elem?}
use betterkey.Common.Model.{NodeMeta, Platform}
use betterkey.Common.Result.{Result, ok, ◌>>=◌}
use betterkey.Cluster.Message.{PeerMessage, node_state_no_key, node_state_validating}
use betterkey.Cluster.HeartBeat.{HeartBeatManager}
use betterkey.Cluster.Bootstrap.{NodeStateListener, new_listener, on_state_changed}
use betterkey.Cluster.Node.{
  Node, World, Task, Config, new_node, start, node_status, on_no_key_round, validating_round,
}
use betterkey.Cluster.Node.Delegate.{notify_msg, merge_remote_state}
use betterkey.Cluster.Node.Handlers.{loop_round, run_task}
use betterkey.Cluster.System.{remove_at}

pub record Process : Type 0 where
  pub node : Node
  pub listener : NodeStateListener

-- One round of `notifyStateChange`, which waits while no state is there. `UpdateNode`, which comes
-- behind, hands the state on to the memberlist; its error is only logged.
unfoldable pub tell : List ℕ → Process → Result Process
tell [] p = ok p
tell (st ∷ rest) p = do
  told ← on_state_changed st p.listener
  ok (record { node = record (p.node) { state_change_messages = rest }; listener = told })

unfoldable pub notify_state_change : Process → Result Process
unfolding tell
notify_state_change p = tell p.node.state_change_messages p

-- What the goroutines of a node and the memberlist do to it.
pub data Act (x : Platform) (n n' : Node) : Type 0 where
  is_told : (p : Option PeerMessage) → notify_msg p n ≡ ok n' → Act x n n'
  merges : (m : Option NodeMeta) (now : ℕ) → merge_remote_state m now n ≡ ok n' → Act x n n'
  is_asked : (w : World) (m : NodeMeta) → node_status x w n ≡ ok (n', m) → Act x n n'
  handles : (w : World) → loop_round x w n ≡ ok n' → Act x n n'
  looks_for_key :
      (w : World) → n.state ≡ node_state_no_key → on_no_key_round w n ≡ ok n' → Act x n n'
  waits_to_validate :
      (w : World) → n.state ≡ node_state_validating → (validating_round w n).1 ≡ n' → Act x n n'
  runs :
      (w : World) (k : ℕ) (t : Task)
      → get_elem? n.tasks k ≡ some t
      → (run_task w t (record n { tasks = remove_at n.tasks k })).0 ≡ n'
      → Act x n n'
  ticks : (m : HeartBeatManager) → record n { heartbeat_manager = m } ≡ n' → Act x n n'

-- The processes that a start of a node leads to.
pub data Reach (x : Platform) (c : Config) (now : ℕ) : Process → Type 0 where
  starts :
      (n : Node)
      → start x (new_node c now) ≡ ok n
      → Reach x c now (record { node = n; listener = new_listener })
  acts :
      (p : Process) (n : Node)
      → Reach x c now p
      → Act x p.node n
      → Reach x c now (record p { node = n })
  tells : (p p' : Process) → Reach x c now p → notify_state_change p ≡ ok p' → Reach x c now p'
