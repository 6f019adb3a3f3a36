-- ===== src/Cluster/System.antt =====
-- A cluster: nodes that run side by side, with the messages that they have sent to one another. A
-- schedule is a list of events, each of which lets one node or one goroutine make one step. The rest
-- of internal/cluster runs inside these steps. A message stays on the network: it may arrive late,
-- twice, out of order, or never. A node that panics stops for good.
pub mod Agreement
use betterkey.Prelude.{
  ℕ, zero, suc, Bool, true, false, List, [], ◌∷◌, ◌++◌, Option, none, some, Bytes, same, get_elem?,
  ◌==◌, if◌then◌else◌,
}
use betterkey.Common.Result.{Result, ok, err, panic}
use betterkey.Common.Model.{Platform}
use betterkey.Cluster.Message.{Envelope, node_state_no_key}
use betterkey.Cluster.Node.{Node, World, Task, Config, new_node, start, on_no_key_round}
use betterkey.Cluster.Node.Delegate.{notify_msg}
use betterkey.Cluster.Node.Handlers.{loop_round, run_task}

pub data Status : Type 0 where
  unborn stopped : Status
  running : Node → Status

pub record System : Type 0 where
  pub nodes : Bytes → Status
  pub net : List Envelope

abbrev pub nothing_yet : System
nothing_yet = record { nodes = λ i. unborn; net = [] }

pub data Event : Type 0 where
  -- The process of a node starts, at the given time.
  boot : Config → ℕ → Event
  -- A round of the loop of `onNoKey`.
  look_for_key : Bytes → World → Event
  -- The message of that place in the network reaches its target.
  deliver : ℕ → Event
  -- A round of `loop` at a node.
  handle : Bytes → World → Event
  -- The goroutine of that place at a node.
  run : Bytes → ℕ → World → Event

unfoldable pub set_node : Bytes → Status → System → System
set_node i st s = record s { nodes = λ j. if same i j then st else s.nodes j }

unfoldable pub outcome : Bytes → Result Node → System → System
unfolding set_node
outcome i (ok n) s = set_node i (running n) s
outcome i (err e) s = set_node i stopped s
outcome i panic s = set_node i stopped s

-- The step of a node, if it runs.
abbrev at_node : Status → (Node → System) → System → System
at_node unborn f s = s
at_node stopped f s = s
at_node (running n) f s = f n

unfoldable pub remove_at : List Task → ℕ → List Task
remove_at [] k = []
remove_at (t ∷ ts) zero = ts
remove_at (t ∷ ts) (suc k) = t ∷ remove_at ts k

unfoldable pub sent : Bytes → Node × List Envelope → System → System
unfolding set_node
sent i r s = record (set_node i (running r.0) s) { net = s.net ++ r.1 }

module _ (x : Platform) where
  unfoldable pub boot_node : Status → Config → ℕ → System → System
  unfolding outcome
  boot_node unborn c now s = outcome c.node_host (start x (new_node c now)) s
  boot_node stopped c now s = s
  boot_node (running n) c now s = s

  unfoldable pub deliver_envelope : Option Envelope → System → System
  unfolding outcome
  deliver_envelope none s = s
  deliver_envelope (some e) s =
      at_node (s.nodes e.target) (λ n. outcome e.target (notify_msg (some e.message) n) s) s

  unfoldable pub run_at : Option Task → Bytes → ℕ → World → Node → System → System
  unfolding sent remove_at
  run_at none i k w n s = s
  run_at (some t) i k w n s = sent i (run_task w t (record n { tasks = remove_at n.tasks k })) s

  unfoldable pub step : System → Event → System
  unfolding boot_node deliver_envelope run_at
  step s (boot c now) = boot_node (s.nodes c.node_host) c now s
  step s (look_for_key i w) =
      at_node (s.nodes i)
        (λ n. if n.state == node_state_no_key then outcome i (on_no_key_round w n) s else s) s
  step s (deliver k) = deliver_envelope (get_elem? s.net k) s
  step s (handle i w) = at_node (s.nodes i) (λ n. outcome i (loop_round x w n) s) s
  step s (run i k w) = at_node (s.nodes i) (λ n. run_at (get_elem? n.tasks k) i k w n s) s

  unfoldable pub run_all : System → List Event → System
  run_all s [] = s
  run_all s (e ∷ es) = run_all (step s e) es
