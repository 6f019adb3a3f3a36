-- ===== src/Cluster/Lifecycle/ReadyKey.antt =====
-- A node that is READY has a master key, whatever its goroutines, the peers and the memberlist do.
use betterkey.Prelude.{
  ℕ, ◌≡◌, refl, subst, ◌∙◌, inl, inr, Bool, true, false, List, [], ◌∷◌, Option, none, some, arith,
  Bool-cases, Option-cases, same, contains, ◌==◌, if◌then◌else◌,
}
use betterkey.Common.Model.{NodeMeta, Member, Platform}
use betterkey.Common.Result.{
  Result, ok, require, Post, Post-bind, Post-then, Post-ok, >>=-eq-ok, ok-injective,
}
use betterkey.Common.Services.{deref, member_vault}
use betterkey.Sgx.KeyStore.{MasterKeyStore, read}
use betterkey.Cluster.Bootstrap.{on_state_changed}
use betterkey.Cluster.HeartBeat.{local_heart_beat}
use betterkey.Cluster.Message.{
  PeerMessage, node_state_seeding, node_state_validating, node_state_query_key, node_state_ready,
  msg_type_keyinit, msg_type_keyquery, msg_type_challenge, msg_type_challenge_resp,
  msg_type_keyquery_resp, members_can_provide_key,
}
use betterkey.Cluster.Seed.{start_seed_as_master}
use betterkey.Cluster.Node.{
  Node, World, Config, Task, send_init, forward_key, cleanup, ask_key, send_challenge,
  answer_challenge, answer_query, new_node, node_status, start, start_with_key, set_status, spawn,
  on_no_key_round, seed_node, seed_as, query_key, is_master, all_seed_nodes, other_online_peers,
  all_seed_peers_joined, validating_round,
}
use betterkey.Cluster.Node.Delegate.{notify_msg, receive_message, merge_remote_state}
use betterkey.Cluster.Node.Handlers.{
  handle_key_response, dispatch, loop_message, take_message, loop_round, Round, returned, again,
  after_round, run_task,
}
use betterkey.Cluster.Lifecycle.{
  Process, tell, notify_state_change, Act, is_told, merges, is_asked, handles, looks_for_key,
  waits_to_validate, runs, ticks, Reach, starts, acts, tells,
}
use betterkey.Cluster.Lifecycle.Keyed.{
  has_key, IsKeyed, reads-IsKeyed, handle_query_key-IsKeyed, handle_key_challenge_request-IsKeyed,
  handle_key_challenge_response-IsKeyed, store_key-IsKeyed, handle_seed_key-IsKeyed, is_there,
  Reads, read-Reads,
}

if-Post :
    (b : Bool) (r s : Result Node)
    → Post IsKeyed r
    → Post IsKeyed s
    → Post IsKeyed (if b then r else s)
if-Post true r s h k = h
if-Post false r s h k = k

module _ (x : Platform) where
  dispatch-IsKeyed :
      (w : World) (state : ℕ) (msg : PeerMessage) (n : Node)
      → IsKeyed n
      → Post IsKeyed (dispatch x w state msg n)
  unfolding dispatch handle_key_response
  dispatch-IsKeyed w state msg n h =
      if-Post (state == node_state_seeding) _ _
        (if-Post (msg.type == msg_type_keyinit) _ _ (handle_seed_key-IsKeyed x w msg n h) h)
        (if-Post (state == node_state_ready) _ _
          (if-Post (msg.type == msg_type_keyquery) _ _ (handle_query_key-IsKeyed x msg n h) (
            if-Post (msg.type == msg_type_challenge) _ _
              (handle_key_challenge_request-IsKeyed x w msg n h) h))
          (if-Post (state == node_state_validating) _ _
            (if-Post (msg.type == msg_type_challenge_resp) _ _
              (handle_key_challenge_response-IsKeyed x msg n h) h)
            (if-Post (state == node_state_query_key) _ _
              (if-Post (msg.type == msg_type_keyquery_resp) _ _
                (store_key-IsKeyed x w msg.content n) h)
              h)))

  -- What `NodeStatus` leaves, for a node that is READY with the member that was read.
  pub node_status-IsKeyed :
      (w : World) (n : Node)
      → IsKeyed n
      → Post (λ (r : Node × NodeMeta). IsKeyed r.0) (node_status x w n)
  unfolding node_status
  node_status-IsKeyed w n keyed = elim (Bool-cases (n.state == node_state_ready)) [
    | inl e ↦ rw e (
        Post-bind (Reads n.master_ks) _ (read x n.master_ks) _ (read-Reads x n.master_ks)
          (λ r reads.
            Post-then _ (local_heart_beat x (member_vault r.1) w.heartbeat_nonce w.heartbeat_draw) _
              (λ hb ready. reads.2 ∙ keyed ready)))
    | inr e ↦ rw e keyed
  ]

  loop_round-IsKeyed : (w : World) (n : Node) → IsKeyed n → Post IsKeyed (loop_round x w n)
  unfolding loop_round take_message loop_message
  loop_round-IsKeyed w n keyed = take n.in_messages
    where
      take : (msgs : List PeerMessage) → Post IsKeyed (take_message x w msgs n)
      take [] = keyed
      take (msg ∷ rest) =
          Post-bind _ IsKeyed (node_status x w (record n { in_messages = rest })) _
            (node_status-IsKeyed w (record n { in_messages = rest }) keyed)
            (λ r h.
              Post-then _ (deref msg.sender) _ (λ sender. dispatch-IsKeyed w r.1.state msg r.0 h))

  start-IsKeyed : (n : Node) → IsKeyed n → Post IsKeyed (start x n)
  unfolding start start_with_key set_status
  start-IsKeyed n keyed = reads-IsKeyed x n _ keyed (λ r ready there. with_key r.0 r.1 there)
    where
      with_key :
          (ks : MasterKeyStore) (o : Option Member)
          → (is_there o ≡ true → has_key ks ≡ true)
          → Post IsKeyed (start_with_key x o (record n { master_ks = ks }))
      with_key ks none there = λ state. absurd (omega (arith, state))
      with_key ks (some m) there = Post-then _ (deref m.node_info) _ (λ info.
          Post-then _ (require (same info.cluster_id n.cluster)) _ (λ u. λ state. there refl))

notify_msg-IsKeyed : (p : Option PeerMessage) (n : Node) → IsKeyed n → Post IsKeyed (notify_msg p n)
unfolding notify_msg receive_message
notify_msg-IsKeyed none n keyed = keyed
notify_msg-IsKeyed (some p) n keyed =
    Post-then _ (deref p.sender) _
      (λ sender. Post-then _ (require (same sender.cluster_id n.cluster)) _ (λ u. keyed))

if-IsKeyed : (b : Bool) (n m : Node) → IsKeyed n → IsKeyed m → IsKeyed (if b then n else m)
if-IsKeyed true n m h k = h
if-IsKeyed false n m h k = k

merge_remote_state-IsKeyed :
    (o : Option NodeMeta) (now : ℕ) (n : Node)
    → IsKeyed n
    → Post IsKeyed (merge_remote_state o now n)
unfolding merge_remote_state
merge_remote_state-IsKeyed none now n keyed = keyed
merge_remote_state-IsKeyed (some m) now n keyed =
    Post-then _ (require (same m.cluster_id n.cluster)) _ (λ u. elim (Option-cases m.heart_beat) [
      | inl e ↦ rw e keyed
      | inr (hb, e) ↦ rw e (
          if-IsKeyed (same m.id n.node_info.id) n _ keyed
            (if-IsKeyed (same hb.nonce []) n _ keyed keyed))
    ])

-- Where the state is not READY, nothing is asked of the store.
unready-IsKeyed : (n : Node) → (n.state == node_state_ready) ≡ false → IsKeyed n
unready-IsKeyed n e = λ state. absurd (ground (arith, e, state))

on_no_key_round-IsKeyed : (w : World) (n : Node) → IsKeyed n → Post IsKeyed (on_no_key_round w n)
unfolding on_no_key_round query_key seed_node seed_as set_status spawn
on_no_key_round-IsKeyed w n keyed =
    if-Post (members_can_provide_key w.members) _ _ (λ state. absurd (omega (arith, state)))
      (if-Post (contains n.seed_nodes n.id) _ _
        (if-Post (all_seed_peers_joined n w.members) _ _
          (Post-then _ (is_master n.id (all_seed_nodes n)) _ seeds) keyed)
        keyed)
  where
    seeds :
        (b : Bool)
        → Post IsKeyed (
            seed_as b w
              (other_online_peers n.id w.copied_members)
              (set_status node_state_seeding n))
    seeds true =
        Post-then _ (start_seed_as_master _ _ n.seed) _ (λ s state. absurd (omega (arith, state)))
    seeds false = λ state. absurd (omega (arith, state))

validating_round-IsKeyed : (w : World) (n : Node) → IsKeyed n → IsKeyed (validating_round w n).1
unfolding validating_round spawn
validating_round-IsKeyed w n keyed = elim (Bool-cases (members_can_provide_key w.members)) [
  | inl p ↦ rw p keyed
  | inr p ↦ rw p keyed
]

after_round-IsKeyed :
    (retry : Bool → Task) (r : Round) (n : Node) → IsKeyed n → IsKeyed (after_round retry r n).0
unfolding after_round spawn
after_round-IsKeyed retry (returned out) n keyed = keyed
after_round-IsKeyed retry (again failed) n keyed = keyed

run_task-IsKeyed : (w : World) (t : Task) (n : Node) → IsKeyed n → IsKeyed (run_task w t n).0
unfolding run_task spawn
run_task-IsKeyed w (send_init pm) n keyed = keyed
run_task-IsKeyed w (forward_key pm) n keyed = keyed
run_task-IsKeyed w cleanup n keyed = keyed
run_task-IsKeyed w (ask_key peers) n keyed = keyed
run_task-IsKeyed w (send_challenge peers) n keyed = keyed
run_task-IsKeyed w (answer_challenge target pm failed) n keyed = after_round-IsKeyed _ _ n keyed
run_task-IsKeyed w (answer_query target pm) n keyed = after_round-IsKeyed _ _ n keyed

Act-IsKeyed : (x : Platform) (n n' : Node) → Act x n n' → IsKeyed n → IsKeyed n'
Act-IsKeyed x n n' (is_told p e) keyed = Post-ok IsKeyed _ (notify_msg-IsKeyed p n keyed) e
Act-IsKeyed x n n' (merges m now e) keyed =
    Post-ok IsKeyed _ (merge_remote_state-IsKeyed m now n keyed) e
Act-IsKeyed x n n' (is_asked w m e) keyed = Post-ok _ _ (node_status-IsKeyed x w n keyed) e
Act-IsKeyed x n n' (handles w e) keyed = Post-ok IsKeyed _ (loop_round-IsKeyed x w n keyed) e
Act-IsKeyed x n n' (looks_for_key w s e) keyed =
    Post-ok IsKeyed _ (on_no_key_round-IsKeyed w n keyed) e
Act-IsKeyed x n n' (waits_to_validate w s e) keyed =
    subst IsKeyed e (validating_round-IsKeyed w n keyed)
Act-IsKeyed x n n' (runs w k t got e) keyed = subst IsKeyed e (run_task-IsKeyed w t _ keyed)
Act-IsKeyed x n n' (ticks m e) keyed = subst IsKeyed e keyed

tell-IsKeyed :
    (queue : List ℕ) (p p' : Process) → tell queue p ≡ ok p' → IsKeyed p.node → IsKeyed p'.node
unfolding tell
tell-IsKeyed [] p p' e keyed = subst (λ q. IsKeyed q.node) (ok-injective e) keyed
tell-IsKeyed (s ∷ rest) p p' e keyed =
    let (l, heard, done) = >>=-eq-ok (on_state_changed s p.listener) _ e in
    subst (λ (q : Process). IsKeyed q.node) (ok-injective done) keyed

pub Reach-IsKeyed :
    (x : Platform) (c : Config) (now : ℕ) (p : Process) → Reach x c now p → IsKeyed p.node
unfolding new_node notify_state_change
Reach-IsKeyed x c now p (starts n e) =
    Post-ok IsKeyed _ (start-IsKeyed x (new_node c now) (unready-IsKeyed (new_node c now) refl)) e
Reach-IsKeyed x c now p (acts q n r a) = Act-IsKeyed x q.node n a (Reach-IsKeyed x c now q r)
Reach-IsKeyed x c now p (tells q q' r e) =
    tell-IsKeyed q.node.state_change_messages q q' e (Reach-IsKeyed x c now q r)
