-- ===== src/Cluster/Lifecycle/Rounds.antt =====
-- What the delegate methods, the waits and the goroutines of a node do to its state.
use betterkey.Prelude.{
  ℕ, ◌≡◌, refl, inl, inr, Bool, true, false, List, [], Option, none, some, Bool-cases, Option-cases,
  same, contains, if◌then◌else◌,
}
use betterkey.Common.Model.{NodeMeta}
use betterkey.Common.Services.{deref}
use betterkey.Common.Result.{require, Post, Post-then}
use betterkey.Cluster.Message.{
  PeerMessage, Peer, node_state_no_key, node_state_seeding, members_can_provide_key,
}
use betterkey.Cluster.Seed.{start_seed_as_master}
use betterkey.Cluster.Node.{
  Node, World, Task, send_init, forward_key, cleanup, ask_key, send_challenge, answer_challenge,
  answer_query, spawn, set_status, on_no_key_round, seed_node, seed_as, query_key, is_master,
  all_seed_nodes, other_online_peers, all_seed_peers_joined, validating_round,
}
use betterkey.Cluster.Node.Delegate.{notify_msg, receive_message, merge_remote_state}
use betterkey.Cluster.Node.Handlers.{Round, returned, again, after_round, run_task}
use betterkey.Cluster.Lifecycle.Moves.{Kept, Moved}

pub notify_msg-Moved : (p : Option PeerMessage) (n : Node) → Post (Moved n) (notify_msg p n)
unfolding notify_msg receive_message
notify_msg-Moved none n = inl (refl, refl)
notify_msg-Moved (some p) n =
    Post-then _ (deref p.sender) _
      (λ sender. Post-then _ (require (same sender.cluster_id n.cluster)) _ (λ u. inl (refl, refl)))

seed_node-Moved :
    (w : World) (peers : List Peer) (n : Node)
    → n.state ≡ node_state_no_key
    → Post (Moved n) (seed_node w peers n)
unfolding seed_node seed_as set_status spawn
seed_node-Moved w peers n e = Post-then _ (is_master n.id (all_seed_nodes n)) _ (λ b. seeds b)
  where
    seeds :
        (b : Bool)
        → Post
            (Moved n)
            (seed_as b w (other_online_peers n.id peers) (set_status node_state_seeding n))
    seeds true = Post-then _ (start_seed_as_master _ _ n.seed) _ (λ s. inr (rw e refl, refl))
    seeds false = inr (rw e refl, refl)

pub on_no_key_round-Moved :
    (w : World) (n : Node) → n.state ≡ node_state_no_key → Post (Moved n) (on_no_key_round w n)
unfolding on_no_key_round query_key set_status spawn
on_no_key_round-Moved w n e = elim (Bool-cases (members_can_provide_key w.members)) [
  | inl p ↦ rw p (inr (rw e refl, refl))
  | inr p ↦ rw p (elim (Bool-cases (contains n.seed_nodes n.id)) [
    | inl s ↦ rw s (elim (Bool-cases (all_seed_peers_joined n w.members)) [
      | inl j ↦ rw j (seed_node-Moved w w.copied_members n e)
      | inr j ↦ rw j (inl (refl, refl))
    ])
    | inr s ↦ rw s (inl (refl, refl))
  ])
]

pub validating_round-Kept : (w : World) (n : Node) → Kept n (validating_round w n).1
unfolding validating_round spawn
validating_round-Kept w n = elim (Bool-cases (members_can_provide_key w.members)) [
  | inl p ↦ rw p (refl, refl)
  | inr p ↦ rw p (refl, refl)
]

after_round-Kept : (retry : Bool → Task) (r : Round) (n : Node) → Kept n (after_round retry r n).0
unfolding after_round spawn
after_round-Kept retry (returned out) n = (refl, refl)
after_round-Kept retry (again failed) n = (refl, refl)

pub run_task-Kept : (w : World) (t : Task) (n : Node) → Kept n (run_task w t n).0
unfolding run_task spawn
run_task-Kept w (send_init pm) n = (refl, refl)
run_task-Kept w (forward_key pm) n = (refl, refl)
run_task-Kept w cleanup n = (refl, refl)
run_task-Kept w (ask_key peers) n = (refl, refl)
run_task-Kept w (send_challenge peers) n = (refl, refl)
run_task-Kept w (answer_challenge target pm failed) n = after_round-Kept _ _ n
run_task-Kept w (answer_query target pm) n = after_round-Kept _ _ n

if-Kept : (b : Bool) (n m : Node) → Kept n m → Kept n (if b then n else m)
if-Kept true n m h = (refl, refl)
if-Kept false n m h = h

pub merge_remote_state-Moved :
    (o : Option NodeMeta) (now : ℕ) (n : Node) → Post (Moved n) (merge_remote_state o now n)
unfolding merge_remote_state
merge_remote_state-Moved none now n = inl (refl, refl)
merge_remote_state-Moved (some m) now n =
    Post-then _ (require (same m.cluster_id n.cluster)) _ (λ u.
      inl (elim (Option-cases m.heart_beat) [
        | inl e ↦ rw e (refl, refl)
        | inr (hb, e) ↦
            rw e
              (if-Kept (same m.id n.node_info.id) n _ (if-Kept (same hb.nonce []) n _ (refl, refl)))
      ]))
