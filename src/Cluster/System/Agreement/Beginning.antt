-- ===== src/Cluster/System/Agreement/Beginning.antt =====
-- A node that starts without a key, and its decision to ask for the key or to seed.
use betterkey.Prelude.{
  ℕ, ◌≡◌, ◌≢◌, refl, ap, inl, inr, ◌∙◌, sym, Bool, true, false, List, ◌∷◌, arith, Bytes, Bool-cases,
  same, same_iff, contains, length, ◌==◌, subst,
}
use betterkey.Common.Result.{ok, Post, Post-bind}
use betterkey.Common.Model.{Platform}
use betterkey.Common.Laws.{IsAscii}
use betterkey.Common.Set.{sorted, remove}
use betterkey.Common.Set.Order.{SameElements}
use betterkey.Sgx.KeyStore.{absent, load, read, remember}
use betterkey.Cluster.Message.{Peer, node_state_no_key, node_state_seeding, members_can_provide_key}
use betterkey.Cluster.Seed.{key_size, start_seed_as_master, start_seed_as_slave}
use betterkey.Cluster.Election.{names_of, sorted-names_of, sorted-others, sorted-with_self}
use betterkey.Cluster.Node.{
  Node, World, Config, new_node, start, start_with_key, set_status, all_seed_nodes, is_master,
  seed_as, seed_node, query_key, ask_key, all_seed_peers_joined, on_no_key_round,
  other_online_peers,
}
use betterkey.Cluster.System.Agreement.Seeding.{IsGood-any}
use betterkey.Cluster.System.Agreement.Nodes.{
  IsGoodNode, set_status-IsGoodNode, spawn-IsGoodNode, seed-IsGoodNode,
}

module _ (x : Platform) (k : Bytes) (seeds : List Bytes) where
  -- A node that is made with the seed nodes of the cluster and finds no file.
  pub start-IsGoodNode :
      (c : Config) (now : ℕ)
      → c.file ≡ absent
      → SameElements c.seed_nodes seeds
      → IsAscii c.node_host × IsAscii c.id
      → Post (IsGoodNode x k seeds c.node_host) (start x (new_node c now))
  unfolding start start_with_key new_node read remember load
  start-IsGoodNode c now fresh same_seeds ascii =
      rw (fresh, load)
        (record {
          name = refl;
          known_seeds = sorted-names_of c.seed_nodes seeds same_seeds;
          unsown = λ _. (sorted-others c.seed_nodes seeds c.node_host same_seeds, refl);
          key = inl refl;
          store = record { disk = inl refl; cache = tt; ascii = ascii };
          inbox = tt;
          good_tasks = tt;
          has_key = λ e. absurd (omega arith);
          unvalidated = λ e. absurd (omega arith);
        })

module _ (x : Platform) (draw : Bytes → Bytes) (seeds : List Bytes) (leader : Bytes)
    (rest : List Bytes) (first : sorted (names_of seeds) ≡ leader ∷ rest) (i : Bytes) where
  abbrev the_key : Bytes
  the_key = draw leader

  abbrev IsGoodHere : Node → Type 0
  IsGoodHere = IsGoodNode x the_key seeds i

  seed_as-IsGoodNode :
      (master : Bool) (w : World) (peers : List Peer) (n : Node)
      → (master ≡ true → w.master_key ≡ the_key)
      → n.state ≢ node_state_no_key
      → IsGoodHere n
      → Post IsGoodHere (seed_as master w peers n)
  unfolding seed_as start_seed_as_master start_seed_as_slave
  seed_as-IsGoodNode false w peers n e old v =
      seed-IsGoodNode x the_key seeds i n _ old (inr (inl refl)) v
  seed_as-IsGoodNode true w peers n e old v = elim (Bool-cases (length w.master_key == key_size)) [
    | inl h ↦ rw h (
        spawn-IsGoodNode x the_key seeds i _ _ old (IsGood-any the_key _ (e refl))
          (seed-IsGoodNode x the_key seeds i n _ old (inr (inr (e refl))) v))
    | inr h ↦ rw h tt
  ]

  abbrev IsUnsown : Node → Type 0
  IsUnsown n = n.seed.other_seed_nodes ≡ sorted (remove (names_of seeds) i)

  decision :
      (n : Node)
      → IsUnsown n
      → n.id ≡ i
      → n.seed_nodes ≡ sorted (names_of seeds)
      → contains n.seed_nodes n.id ≡ true
      → is_master n.id (all_seed_nodes n) ≡ ok (same leader n.id)
  unfolding all_seed_nodes is_master
  decision n others name known inside =
      let others' : n.seed.other_seed_nodes ≡ sorted (remove (names_of seeds) n.id) =
        others ∙ ap (λ t. sorted (remove (names_of seeds) t)) (sym name) in
      let member : contains (sorted (names_of seeds)) n.id ≡ true =
        subst (λ t. contains t n.id ≡ true) known inside in
      rw (others', sorted-with_self seeds n.id member, first, is_master)

  seeding : Node → Node
  seeding n = set_status node_state_seeding n

  seed_node-IsGoodNode :
      (w : World) (peers : List Peer) (n : Node)
      → w.master_key ≡ draw i
      → n.state ≡ node_state_no_key
      → contains n.seed_nodes n.id ≡ true
      → IsGoodHere n
      → Post IsGoodHere (seed_node w peers n)
  unfolding seed_node seeding
  seed_node-IsGoodNode w peers n drawn unsown inside v =
      Post-bind (λ b. b ≡ same leader n.id) IsGoodHere (is_master n.id (all_seed_nodes n)) _
        (rw (decision n (v.unsown unsown).0 v.name v.known_seeds inside) refl)
        (λ b e.
          seed_as-IsGoodNode b w (other_online_peers n.id peers) (seeding n)
            (λ m. drawn ∙ ap draw (sym v.name ∙ sym ((same_iff leader n.id).0 (sym e ∙ m))))
            (omega arith)
            (set_status-IsGoodNode x the_key seeds i node_state_seeding n (omega arith)
              (omega arith) (λ c. absurd (omega arith)) v))

  query_key-IsGoodNode :
      (peers : List Peer) (n : Node) → IsGoodHere n → IsGoodHere (query_key peers n)
  unfolding query_key
  query_key-IsGoodNode peers n v =
      spawn-IsGoodNode x the_key seeds i (ask_key peers) (set_status 4 n) (omega arith) tt (
        set_status-IsGoodNode x the_key seeds i 4 n (omega arith) (omega arith)
          (λ e. absurd (omega arith)) v)

  -- A round of the loop of `onNoKey`, at a node whose random source would draw `draw i`.
  pub on_no_key_round-IsGoodNode :
      (w : World) (n : Node)
      → w.master_key ≡ draw i
      → n.state ≡ node_state_no_key
      → IsGoodHere n
      → Post IsGoodHere (on_no_key_round w n)
  unfolding on_no_key_round
  on_no_key_round-IsGoodNode w n drawn unsown v =
      elim (Bool-cases (members_can_provide_key w.members)) [
        | inl e ↦ rw e (query_key-IsGoodNode w.members n v)
        | inr e ↦ rw e (elim (Bool-cases (contains n.seed_nodes n.id)) [
          | inl c ↦ rw c (elim (Bool-cases (all_seed_peers_joined n w.members)) [
            | inl a ↦ rw a (seed_node-IsGoodNode w w.copied_members n drawn unsown c v)
            | inr a ↦ rw a v
          ])
          | inr c ↦ rw c v
        ])
      ]
