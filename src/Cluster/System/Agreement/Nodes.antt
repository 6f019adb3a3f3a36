-- ===== src/Cluster/System/Agreement/Nodes.antt =====
-- The handlers of a node that knows the one key.
use betterkey.Prelude.{
  ℕ, ◌≡◌, ◌≢◌, refl, inl, inr, List, [], ◌∷◌, Option, none, some, arith, Bytes, All, All-append,
  Bool-cases, ◌==◌,
}
use betterkey.Common.Hex.{IsByte, encode_to_string, decode_string, decode_string-encode_to_string}
use betterkey.Common.Result.{must, Post, Post-bind, Post-then}
use betterkey.Common.Model.{NodeMeta, Member, Platform, MasterSecret, secret_of}
use betterkey.Common.Services.{deref, member_vault, member_seal}
use betterkey.Common.Set.{sorted, remove}
use betterkey.Sgx.KeyStore.{MasterKeyStore, read}
use betterkey.Cluster.HeartBeat.{local_heart_beat}
use betterkey.Cluster.Message.{
  PeerMessage, node_state_no_key, node_state_validating, node_state_ready,
}
use betterkey.Cluster.Seed.{Seed}
use betterkey.Cluster.Election.{names_of}
use betterkey.Cluster.Node.{Node, World, Task, spawn, set_status, node_status}
use betterkey.Cluster.Node.Handlers.{handle_query_key, handle_key_challenge_request}
use betterkey.Cluster.System.Agreement.Keys.{
  IsOldKey, IsGoodTask, AreGoodTasks, AreGoodMessages, IsGoodMember, HasKey, IsGoodStore, AfterRead,
  read-AfterRead,
}
use betterkey.Cluster.System.Agreement.Seeding.{IsGood-any}

module _ (k : Bytes) where
  abbrev HoldsSecret : Member → Type 0
  HoldsSecret m = secret_of m ≡ some (encode_to_string k)

  deref-member : (o : Option Member) → IsGoodMember k o → Post HoldsSecret (deref o)
  deref-member none g = tt
  deref-member (some m) g = g

  deref-secret :
      (o : Option MasterSecret)
      → (elim o [ none ↦ none | some s ↦ some s.secret ]) ≡ some (encode_to_string k)
      → Post (λ s. s.secret ≡ encode_to_string k) (deref o)
  deref-secret none h = tt
  deref-secret (some s) h = cc

module _ (x : Platform) (k : Bytes) (seeds : List Bytes) where
  -- A node of the cluster that knows no other key than `k`. Until it seeds or asks for the key, its
  -- seed is as it was made, and it has started no goroutine.
  pub record IsGoodNode (i : Bytes) (n : Node) : Type 0 where
    pub name : n.id ≡ i
    pub known_seeds : n.seed_nodes ≡ sorted (names_of seeds)
    pub unsown :
        n.state ≡ node_state_no_key
        → (n.seed.other_seed_nodes ≡ sorted (remove (names_of seeds) i)) × (n.tasks ≡ [])
    pub key : IsOldKey k n.seed.generated_key
    pub store : IsGoodStore x k n.master_ks
    pub inbox : AreGoodMessages k n.in_messages
    pub good_tasks : AreGoodTasks k n.tasks
    pub has_key : n.state ≡ node_state_ready → HasKey x k n.master_ks
    pub unvalidated : n.state ≢ node_state_validating

  module _ (i : Bytes) where
    -- The store after a read.
    pub stored-IsGoodNode :
        (n : Node) (ks : MasterKeyStore)
        → IsGoodNode i n
        → IsGoodStore x k ks
        → (HasKey x k n.master_ks → HasKey x k ks)
        → IsGoodNode i (record n { master_ks = ks })
    stored-IsGoodNode n ks v s h = record {
      name = v.name;
      known_seeds = v.known_seeds;
      unsown = v.unsown;
      key = v.key;
      store = s;
      inbox = v.inbox;
      good_tasks = v.good_tasks;
      has_key = λ e. h (v.has_key e);
      unvalidated = v.unvalidated;
    }

    pub spawn-IsGoodNode :
        (t : Task) (n : Node)
        → n.state ≢ node_state_no_key
        → IsGoodTask k t
        → IsGoodNode i n
        → IsGoodNode i (spawn t n)
    unfolding spawn
    spawn-IsGoodNode t n old g v = record {
      name = v.name;
      known_seeds = v.known_seeds;
      unsown = λ e. absurd (old e);
      key = v.key;
      store = v.store;
      inbox = v.inbox;
      good_tasks = All-append (IsGoodTask k) n.tasks (t ∷ []) v.good_tasks (g, tt);
      has_key = v.has_key;
      unvalidated = v.unvalidated;
    }

    -- Another seed with an old key, at a node that is past the start.
    pub seed-IsGoodNode :
        (n : Node) (s : Seed)
        → n.state ≢ node_state_no_key
        → IsOldKey k s.generated_key
        → IsGoodNode i n
        → IsGoodNode i (record n { seed = s })
    seed-IsGoodNode n s old h v = record {
      name = v.name;
      known_seeds = v.known_seeds;
      unsown = λ e. absurd (old e);
      key = h;
      store = v.store;
      inbox = v.inbox;
      good_tasks = v.good_tasks;
      has_key = v.has_key;
      unvalidated = v.unvalidated;
    }

    -- A step to another state than NO_KEY, VALIDATING and READY.
    pub set_status-IsGoodNode :
        (stat : ℕ) (n : Node)
        → stat ≢ node_state_no_key
        → stat ≢ node_state_validating
        → (stat ≡ node_state_ready → HasKey x k n.master_ks)
        → IsGoodNode i n
        → IsGoodNode i (set_status stat n)
    unfolding set_status
    set_status-IsGoodNode stat n old valid h v = record {
      name = v.name;
      known_seeds = v.known_seeds;
      unsown = λ e. absurd (old e);
      key = v.key;
      store = v.store;
      inbox = v.inbox;
      good_tasks = v.good_tasks;
      has_key = h;
      unvalidated = valid;
    }

    abbrev pub SameState : Node → Node × NodeMeta → Type 0
    SameState n r = IsGoodNode i r.0 × (r.0.state ≡ n.state) × (r.1.state ≡ n.state)

    pub node_status-IsGoodNode :
        (w : World) (n : Node) → IsGoodNode i n → Post (SameState n) (node_status x w n)
    unfolding node_status
    node_status-IsGoodNode w n v = elim (Bool-cases (n.state == node_state_ready)) [
      | inl e ↦ rw e (
          Post-bind (AfterRead x k n.master_ks) (SameState n) (read x n.master_ks) _
            (read-AfterRead x k n.master_ks v.store)
            (λ r g.
              Post-then (SameState n)
                (local_heart_beat x (member_vault r.1) w.heartbeat_nonce w.heartbeat_draw) _
                (λ hb. (stored-IsGoodNode n r.0 v g.0 g.2, refl, refl))))
      | inr e ↦ rw e (v, refl, refl)
    ]

    pub handle_query_key-IsGoodNode :
        (p : PeerMessage) (n : Node)
        → All IsByte k
        → n.state ≡ node_state_ready
        → IsGoodNode i n
        → Post (IsGoodNode i) (handle_query_key x p n)
    unfolding handle_query_key
    handle_query_key-IsGoodNode p n bytes e v =
        Post-bind (AfterRead x k n.master_ks) (IsGoodNode i) (read x n.master_ks) _
          (read-AfterRead x k n.master_ks v.store)
          (λ r g.
            Post-bind (HoldsSecret k) (IsGoodNode i) (deref r.1) _ (deref-member k r.1 g.1) (λ m h.
              Post-bind (λ s. s.secret ≡ encode_to_string k) (IsGoodNode i) (deref m.master_secret)
                _ (deref-secret k m.master_secret h)
                (λ s hs.
                  Post-bind (λ c. c ≡ k) (IsGoodNode i) (deref (decode_string s.secret)) _
                    (rw (hs, decode_string-encode_to_string k bytes) refl)
                    (λ c hc. Post-then (IsGoodNode i) (deref p.sender) _ (λ sender.
                      spawn-IsGoodNode _ (record n { master_ks = r.0 }) (omega arith)
                        (IsGood-any k _ hc) (stored-IsGoodNode n r.0 v g.0 g.2))))))

    pub handle_key_challenge_request-IsGoodNode :
        (w : World) (p : PeerMessage) (n : Node)
        → n.state ≡ node_state_ready
        → IsGoodNode i n
        → Post (IsGoodNode i) (handle_key_challenge_request x w p n)
    unfolding handle_key_challenge_request
    handle_key_challenge_request-IsGoodNode w p n e v =
        Post-bind (AfterRead x k n.master_ks) (IsGoodNode i) (read x n.master_ks) _
          (read-AfterRead x k n.master_ks v.store)
          (λ r g. Post-then (IsGoodNode i) (deref r.1) _ (λ m.
            Post-then (IsGoodNode i) (must (member_seal x m w.seal_draw p.content)) _ (λ enc.
              Post-then (IsGoodNode i) (deref p.sender) _ (λ sender.
                spawn-IsGoodNode _ (record n { master_ks = r.0 }) (omega arith)
                  (record {
                    key_init = λ c. absurd (omega arith);
                    key_response = λ c. absurd (omega arith);
                  })
                  (stored-IsGoodNode n r.0 v g.0 g.2)))))
