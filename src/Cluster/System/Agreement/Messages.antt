-- ===== src/Cluster/System/Agreement/Messages.antt =====
-- A round of the message loop and an arriving message, on a node that knows the one key.
use betterkey.Prelude.{
  ℕ, ◌≡◌, ◌≢◌, ◌⊎◌, inl, inr, ◌∙◌, sym, List, [], ◌∷◌, ◌++◌, Option, none, some, arith, Bytes, All,
  All-append, Bool-cases, same, length, ◌==◌, if◌then◌else◌,
}
use betterkey.Common.Hex.{IsByte}
use betterkey.Common.Result.{ok, require, Post, Post-bind, Post-then}
use betterkey.Common.Model.{Platform}
use betterkey.Common.Services.{deref}
use betterkey.Common.Laws.{IsLawful}
use betterkey.Sgx.KeyStore.{write}
use betterkey.Cluster.Message.{
  PeerMessage, msg_type_challenge, msg_type_keyquery, msg_type_keyquery_resp, msg_type_keyinit,
  node_state_no_key, node_state_seeding, node_state_validating, node_state_query_key,
  node_state_ready,
}
use betterkey.Cluster.Seed.{key_received}
use betterkey.Cluster.Node.{Node, World, node_status}
use betterkey.Cluster.Node.Delegate.{notify_msg, receive_message}
use betterkey.Cluster.Node.Handlers.{
  store_key, start_forwarding, handle_seed_key, handle_query_key, handle_key_challenge_request,
  handle_key_response, dispatch, loop_message, take_message, loop_round,
}
use betterkey.Cluster.System.Agreement.Keys.{
  IsGood, AreGoodMessages, HasKey, IsGoodStore, write-HasKey,
}
use betterkey.Cluster.System.Agreement.Seeding.{
  IsGoodForward, IsGoodReceipt, key_received-IsGoodReceipt,
}
use betterkey.Cluster.System.Agreement.Nodes.{
  IsGoodNode, stored-IsGoodNode, spawn-IsGoodNode, set_status-IsGoodNode, seed-IsGoodNode,
  SameState, node_status-IsGoodNode, handle_query_key-IsGoodNode,
  handle_key_challenge_request-IsGoodNode,
}

module _ (x : Platform) (lawful : IsLawful x) (k : Bytes) (bytes : All IsByte k)
    (seeds : List Bytes) (i : Bytes) where
  abbrev IsGoodHere : Node → Type 0
  IsGoodHere = IsGoodNode x k seeds i

  store_key-IsGoodNode : (w : World) (n : Node) → IsGoodHere n → Post IsGoodHere (store_key x w k n)
  unfolding store_key
  store_key-IsGoodNode w n v =
      Post-bind (λ ks. IsGoodStore x k ks × HasKey x k ks) IsGoodHere (write x n.master_ks _ _ _) _
        (write-HasKey x lawful k bytes n.master_ks w.now w.file_draw w.written v.store)
        (λ ks g.
          set_status-IsGoodNode x k seeds i node_state_ready (record n { master_ks = ks })
            (omega arith) (omega arith) (λ _. g.1)
            (stored-IsGoodNode x k seeds i n ks v g.0 (λ _. g.1)))

  start_forwarding-IsGoodNode :
      (o : Option PeerMessage) (n : Node)
      → n.state ≢ node_state_no_key
      → IsGoodForward k o
      → IsGoodHere n
      → IsGoodHere (start_forwarding o n)
  unfolding start_forwarding
  start_forwarding-IsGoodNode none n old g v = v
  start_forwarding-IsGoodNode (some pm) n old g v = spawn-IsGoodNode x k seeds i _ n old g v

  returned-IsGoodNode :
      (w : World) (r : Bytes) (n : Node)
      → (r ≡ []) ⊎ (r ≡ k)
      → IsGoodHere n
      → Post IsGoodHere (if length r == 0 then ok n else store_key x w r n)
  returned-IsGoodNode w r n (inl e) v = rw e v
  returned-IsGoodNode w r n (inr e) v = elim (Bool-cases (length r == 0)) [
    | inl z ↦ rw z v
    | inr z ↦ rw z (rw e (store_key-IsGoodNode w n v))
  ]

  handle_seed_key-IsGoodNode :
      (w : World) (msg : PeerMessage) (n : Node)
      → n.state ≢ node_state_no_key
      → msg.content ≡ k
      → IsGoodHere n
      → Post IsGoodHere (handle_seed_key x w msg n)
  unfolding handle_seed_key
  handle_seed_key-IsGoodNode w msg n old e v = Post-then IsGoodHere (deref msg.sender) _ (λ sender.
      Post-bind (IsGoodReceipt k) IsGoodHere (key_received msg.content sender.id n.seed) _
        (rw e (key_received-IsGoodReceipt k sender.id n.seed v.key))
        (λ r g. returned-IsGoodNode w r.returned _ g.returned (
          start_forwarding-IsGoodNode r.forwards (record n { seed = r.seed }) old g.forwarded
            (seed-IsGoodNode x k seeds i n r.seed old g.key v))))

  dispatch-IsGoodNode :
      (w : World) (state : ℕ) (msg : PeerMessage) (n : Node)
      → state ≡ n.state
      → IsGood k msg
      → IsGoodHere n
      → Post IsGoodHere (dispatch x w state msg n)
  unfolding dispatch handle_key_response
  dispatch-IsGoodNode w state msg n e g v = elim (Bool-cases (state == node_state_seeding)) [
    | inl s ↦ rw s (elim (Bool-cases (msg.type == msg_type_keyinit)) [
      | inl t ↦ rw t (
          handle_seed_key-IsGoodNode w msg n (ground (arith, s)) (g.key_init (ground (arith, t))) v)
      | inr t ↦ rw t v
    ])
    | inr s ↦ rw s (elim (Bool-cases (state == node_state_ready)) [
      | inl r ↦ rw r (ready (ground (arith, r)))
      | inr r ↦ rw r (elim (Bool-cases (state == node_state_validating)) [
        | inl u ↦ absurd (v.unvalidated (ground (arith, u)))
        | inr u ↦ rw u (elim (Bool-cases (state == node_state_query_key)) [
          | inl q ↦ rw q (elim (Bool-cases (msg.type == msg_type_keyquery_resp)) [
            | inl t ↦ rw t (rw (g.key_response (ground (arith, t))) (store_key-IsGoodNode w n v))
            | inr t ↦ rw t v
          ])
          | inr q ↦ rw q v
        ])
      ])
    ])
  ]
    where
      ready :
          n.state ≡ node_state_ready
          → Post IsGoodHere (
              if msg.type == msg_type_keyquery
              then handle_query_key x msg n
              else if msg.type == msg_type_challenge
              then handle_key_challenge_request x w msg n
              else ok n)
      ready r = elim (Bool-cases (msg.type == msg_type_keyquery)) [
        | inl t ↦ rw t (handle_query_key-IsGoodNode x k seeds i msg n bytes r v)
        | inr t ↦ rw t (elim (Bool-cases (msg.type == msg_type_challenge)) [
          | inl c ↦ rw c (handle_key_challenge_request-IsGoodNode x k seeds i w msg n r v)
          | inr c ↦ rw c v
        ])
      ]

  loop_message-IsGoodNode :
      (w : World) (msg : PeerMessage) (n : Node)
      → IsGood k msg
      → IsGoodHere n
      → Post IsGoodHere (loop_message x w msg n)
  unfolding loop_message
  loop_message-IsGoodNode w msg n g v =
      Post-bind (SameState x k seeds i n) IsGoodHere (node_status x w n) _
        (node_status-IsGoodNode x k seeds i w n v)
        (λ r s.
          Post-then IsGoodHere (deref msg.sender) _
            (λ sender. dispatch-IsGoodNode w r.1.state msg r.0 (s.2 ∙ sym s.1) g s.0))

  -- An inbox that holds good messages only.
  inbox-IsGoodNode :
      (n : Node) (ms : List PeerMessage)
      → AreGoodMessages k ms
      → IsGoodHere n
      → IsGoodHere (record n { in_messages = ms })
  inbox-IsGoodNode n ms g v = record {
    name = v.name;
    known_seeds = v.known_seeds;
    unsown = v.unsown;
    key = v.key;
    store = v.store;
    inbox = g;
    good_tasks = v.good_tasks;
    has_key = v.has_key;
    unvalidated = v.unvalidated;
  }

  take_message-IsGoodNode :
      (w : World) (ms : List PeerMessage) (n : Node)
      → AreGoodMessages k ms
      → IsGoodHere n
      → Post IsGoodHere (take_message x w ms n)
  unfolding take_message
  take_message-IsGoodNode w [] n g v = v
  take_message-IsGoodNode w (msg ∷ ms) n g v =
      loop_message-IsGoodNode w msg (record n { in_messages = ms }) g.0
        (inbox-IsGoodNode n ms g.1 v)

  -- A round of the message loop.
  pub loop_round-IsGoodNode :
      (w : World) (n : Node) → IsGoodHere n → Post IsGoodHere (loop_round x w n)
  unfolding loop_round
  loop_round-IsGoodNode w n v = take_message-IsGoodNode w n.in_messages n v.inbox v

  -- The arrival of a message.
  pub notify_msg-IsGoodNode :
      (msg : PeerMessage) (n : Node)
      → IsGood k msg
      → IsGoodHere n
      → Post IsGoodHere (notify_msg (some msg) n)
  unfolding notify_msg receive_message
  notify_msg-IsGoodNode msg n g v = Post-then IsGoodHere (deref msg.sender) _ (λ sender.
      Post-then IsGoodHere (require (same sender.cluster_id n.cluster)) _ (λ _.
        inbox-IsGoodNode n (n.in_messages ++ msg ∷ [])
          (All-append (IsGood k) n.in_messages (msg ∷ []) v.inbox (g, tt)) v))
