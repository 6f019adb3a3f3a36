-- ===== src/Cluster/System/Agreement/Tasks.antt =====
-- A goroutine that runs on a node that knows the one key.
use betterkey.Prelude.{◌<◌, ◌≢◌, sym, Bool, List, arith, Bytes, All, subst}
use betterkey.Common.Hex.{IsByte}
use betterkey.Common.Model.{Platform}
use betterkey.Common.Laws.{IsLawful}
use betterkey.Cluster.Message.{PeerMessage, Envelope, node_state_no_key}
use betterkey.Cluster.Node.{
  Node, World, Task, send_init, forward_key, cleanup, ask_key, send_challenge, answer_challenge,
  answer_query,
}
use betterkey.Cluster.Node.Handlers.{run_task, after_round, Round, returned, again}
use betterkey.Cluster.System.Agreement.Keys.{
  IsOldKey, IsGood, IsGoodTask, AreGoodTasks, AreGoodEnvelopes,
}
use betterkey.Cluster.System.Agreement.Seeding.{
  IsGoodRound, send_seed_key-AreGood, send_query-AreGood, send_one_challenge-AreGood,
  challenge_round-IsGoodRound, query_round-IsGoodRound, forward-AreGood, key-forward,
  check_cleanup-IsOldKey,
}
use betterkey.Cluster.System.Agreement.Nodes.{IsGoodNode, spawn-IsGoodNode, seed-IsGoodNode}

module _ (x : Platform) (lawful : IsLawful x) (k : Bytes) (bytes : All IsByte k)
    (seeds : List Bytes) (i : Bytes) where
  abbrev IsGoodHere : Node → Type 0
  IsGoodHere = IsGoodNode x k seeds i

  abbrev AfterTask : Node × List Envelope → Type 0
  AfterTask r = IsGoodHere r.0 × AreGoodEnvelopes k r.1

  after_round-AfterTask :
      (retry : Bool → Task) (r : Round) (n : Node)
      → n.state ≢ node_state_no_key
      → ((failed : Bool) → IsGoodTask k (retry failed))
      → IsGoodRound k r
      → IsGoodHere n
      → AfterTask (after_round retry r n)
  unfolding after_round
  after_round-AfterTask retry (returned out) n old t g v = (v, g)
  after_round-AfterTask retry (again failed) n old t g v =
      (spawn-IsGoodNode x k seeds i (retry failed) n old (t failed) v, tt)

  not_a_key : (pm : PeerMessage) → pm.type < 4 → IsGood k pm
  not_a_key pm h = record {
    key_init = λ e. absurd (omega arith);
    key_response = λ e. absurd (omega arith);
  }

  -- A goroutine that runs.
  pub run_task-AfterTask :
      (w : World) (t : Task) (n : Node)
      → n.state ≢ node_state_no_key
      → IsGoodTask k t
      → IsGoodHere n
      → AfterTask (run_task w t n)
  unfolding run_task
  run_task-AfterTask w (send_init pm) n old g v =
      (v, send_seed_key-AreGood k w.delivers pm g n.seed.other_members)
  run_task-AfterTask w (forward_key pm) n old g v = (
    spawn-IsGoodNode x k seeds i cleanup _ old tt (
        seed-IsGoodNode x k seeds i n _ old
          (subst (IsOldKey k) (sym (key-forward k w.delivers pm n.seed)) v.key) v),
    forward-AreGood k w.delivers pm n.seed g,
  )
  run_task-AfterTask w cleanup n old g v =
      (seed-IsGoodNode x k seeds i n _ old (check_cleanup-IsOldKey k n.seed v.key) v, tt)
  run_task-AfterTask w (ask_key peers) n old g v =
      (v, send_query-AreGood k w.delivers _ (not_a_key _ (omega arith)) n.id peers)
  run_task-AfterTask w (send_challenge peers) n old g v =
      (v, send_one_challenge-AreGood k w.delivers _ (not_a_key _ (omega arith)) n.id peers)
  run_task-AfterTask w (answer_challenge target pm failed) n old g v =
      after_round-AfterTask (answer_challenge target pm) _ n old (λ _. g)
        (challenge_round-IsGoodRound k w.delivers pm g target failed w.members) v
  run_task-AfterTask w (answer_query target pm) n old g v =
      after_round-AfterTask (λ _. answer_query target pm) _ n old (λ _. g)
        (query_round-IsGoodRound k w.delivers pm g target w.members) v

  -- Other goroutines, all good.
  pub tasks-IsGoodNode :
      (n : Node) (ts : List Task)
      → n.state ≢ node_state_no_key
      → AreGoodTasks k ts
      → IsGoodHere n
      → IsGoodHere (record n { tasks = ts })
  tasks-IsGoodNode n ts old g v = record {
    name = v.name;
    known_seeds = v.known_seeds;
    unsown = λ e. absurd (old e);
    key = v.key;
    store = v.store;
    inbox = v.inbox;
    good_tasks = g;
    has_key = v.has_key;
    unvalidated = v.unvalidated;
  }
