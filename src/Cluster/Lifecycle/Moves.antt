-- ===== src/Cluster/Lifecycle/Moves.antt =====
-- What each operation of a node does to its state, and what it has to tell of it.
use betterkey.Prelude.{
  ℕ, ltb, ◌||◌, ◌&&◌, ◌∙◌, ap, subst, sym, ◌≡◌, ◌⊎◌, refl, inl, inr, Bool, true, List, [], ◌∷◌,
  ◌++◌, Option, none, some, arith, Bytes, Bool-cases, ◌==◌, length, same, contains, if◌then◌else◌,
}
use betterkey.Common.Model.{NodeMeta, Member, Platform}
use betterkey.Common.Hex.{decode_string}
use betterkey.Common.Services.{deref, member_vault, member_seal, member_unseal}
use betterkey.Common.Result.{ok, require, must, Post, Post-map, Post-bind, Post-then}
use betterkey.Sgx.KeyStore.{MasterKeyStore, read, write}
use betterkey.Cluster.HeartBeat.{local_heart_beat}
use betterkey.Cluster.Message.{
  PeerMessage, node_state_no_key, node_state_seeding, node_state_validating, node_state_query_key,
  node_state_ready, msg_type_keyinit, msg_type_keyquery, msg_type_challenge,
  msg_type_challenge_resp, msg_type_keyquery_resp,
}
use betterkey.Cluster.Seed.{key_received}
use betterkey.Cluster.Node.{Node, World, spawn, set_status, node_status, start, start_with_key}
use betterkey.Cluster.Node.Handlers.{
  handle_query_key, handle_key_challenge_request, handle_key_challenge_response,
  handle_key_response, handle_seed_key, store_key, start_forwarding, dispatch, loop_round,
  take_message,
}

-- The changes of state that a node may make.
abbrev pub may_follow : ℕ → ℕ → Bool
may_follow old new =
    if old == 0
    then (new == node_state_no_key || new == node_state_validating || new == node_state_ready)
    else if old == node_state_no_key
    then (new == node_state_seeding || new == node_state_query_key)
    else (ltb old node_state_ready && new == node_state_ready)

abbrev pub Kept : Node → Node → Type 0
Kept n n' = (n'.state ≡ n.state) × (n'.state_change_messages ≡ n.state_change_messages)

abbrev pub Changed : Node → Node → Type 0
Changed n n' =
    (may_follow n.state n'.state ≡ true)
    × (n'.state_change_messages ≡ n.state_change_messages ++ n'.state ∷ [])

abbrev pub Moved : Node → Node → Type 0
Moved n n' = Kept n n' ⊎ Changed n n'

-- A move behind a step that keeps the state.
Moved-Kept : (n m n' : Node) → Kept n m → Moved m n' → Moved n n'
Moved-Kept n m n' (s, q) (inl (s', q')) = inl (s' ∙ s, q' ∙ q)
Moved-Kept n m n' (s, q) (inr (may, q')) =
    inr (subst (λ t. may_follow t n'.state ≡ true) s may, q' ∙ ap (λ t. t ++ n'.state ∷ []) q)

start_forwarding-Kept : (o : Option PeerMessage) (n : Node) → Kept n (start_forwarding o n)
unfolding start_forwarding spawn
start_forwarding-Kept none n = (refl, refl)
start_forwarding-Kept (some pm) n = (refl, refl)

module _ (x : Platform) where
  pub node_status-Kept :
      (w : World) (n : Node)
      → Post (λ (r : Node × NodeMeta). Kept n r.0 × (r.1.state ≡ n.state)) (node_status x w n)
  unfolding node_status
  node_status-Kept w n = elim (Bool-cases (n.state == node_state_ready)) [
    | inl e ↦ rw e (
        Post-then _ (read x n.master_ks) _ (λ r.
          Post-then _ (local_heart_beat x (member_vault r.1) w.heartbeat_nonce w.heartbeat_draw) _
            (λ hb. ((refl, refl), refl))))
    | inr e ↦ rw e ((refl, refl), refl)
  ]

  handle_query_key-Kept : (p : PeerMessage) (n : Node) → Post (Moved n) (handle_query_key x p n)
  unfolding handle_query_key spawn
  handle_query_key-Kept p n = Post-then _ (read x n.master_ks) _ (λ r.
      Post-then _ (deref r.1) _ (λ m. Post-then _ (deref m.master_secret) _ (λ s.
        Post-then _ (deref (decode_string s.secret)) _
          (λ c. Post-then _ (deref p.sender) _ (λ sender. inl (refl, refl))))))

  handle_key_challenge_request-Kept :
      (w : World) (p : PeerMessage) (n : Node)
      → Post (Moved n) (handle_key_challenge_request x w p n)
  unfolding handle_key_challenge_request spawn
  handle_key_challenge_request-Kept w p n = Post-then _ (read x n.master_ks) _ (λ r.
      Post-then _ (deref r.1) _ (λ m.
        Post-then _ (must (member_seal x m w.seal_draw p.content)) _
          (λ enc. Post-then _ (deref p.sender) _ (λ sender. inl (refl, refl)))))

  handle_key_challenge_response-Changed :
      (p : PeerMessage) (n : Node)
      → n.state ≡ node_state_validating
      → Post (Moved n) (handle_key_challenge_response x p n)
  unfolding handle_key_challenge_response set_status
  handle_key_challenge_response-Changed p n e = Post-then _ (read x n.master_ks) _ (λ r.
      Post-then _ (deref r.1) _ (λ m. Post-then _ (must (member_unseal x m p.content)) _ (λ dec.
        Post-then _ (deref m.node_info) _ (λ info.
          Post-then _ (require (same dec info.id)) _ (λ u. inr (ground (arith, e), refl))))))

  store_key-Changed :
      (w : World) (k : Bytes) (n : Node)
      → may_follow n.state node_state_ready ≡ true
      → Post (Moved n) (store_key x w k n)
  unfolding store_key set_status
  store_key-Changed w k n e =
      Post-then _ (write x n.master_ks _ w.file_draw w.written) _ (λ ks. inr (e, refl))

  returned-Moved :
      (w : World) (k : Bytes) (n m : Node)
      → Kept n m
      → n.state ≡ node_state_seeding
      → Post (Moved n) (if length k == 0 then ok m else store_key x w k m)
  returned-Moved w k n m kept e = elim (Bool-cases (length k == 0)) [
    | inl z ↦ rw z (inl kept)
    | inr z ↦ rw z (
        Post-map (Moved m) (Moved n) (store_key x w k m) (λ n' moved. Moved-Kept n m n' kept moved)
          (store_key-Changed w k m (rw (kept.0, e) refl)))
  ]

  handle_seed_key-Moved :
      (w : World) (msg : PeerMessage) (n : Node)
      → n.state ≡ node_state_seeding
      → Post (Moved n) (handle_seed_key x w msg n)
  unfolding handle_seed_key
  handle_seed_key-Moved w msg n e = Post-then _ (deref msg.sender) _ (λ sender.
      Post-then _ (key_received msg.content sender.id n.seed) _ (λ r.
        returned-Moved w r.returned n _
          (start_forwarding-Kept r.forwards (record n { seed = r.seed })) e))

  pub dispatch-Moved :
      (w : World) (state : ℕ) (msg : PeerMessage) (n : Node)
      → state ≡ n.state
      → Post (Moved n) (dispatch x w state msg n)
  unfolding dispatch handle_key_response
  dispatch-Moved w state msg n e = elim (Bool-cases (state == node_state_seeding)) [
    | inl s ↦ rw s (elim (Bool-cases (msg.type == msg_type_keyinit)) [
      | inl t ↦ rw t (handle_seed_key-Moved w msg n (ground (arith, s)))
      | inr t ↦ rw t (inl (refl, refl))
    ])
    | inr s ↦ rw s (elim (Bool-cases (state == node_state_ready)) [
      | inl r ↦ rw r (elim (Bool-cases (msg.type == msg_type_keyquery)) [
        | inl t ↦ rw t (handle_query_key-Kept msg n)
        | inr t ↦ rw t (elim (Bool-cases (msg.type == msg_type_challenge)) [
          | inl u ↦ rw u (handle_key_challenge_request-Kept w msg n)
          | inr u ↦ rw u (inl (refl, refl))
        ])
      ])
      | inr r ↦ rw r (elim (Bool-cases (state == node_state_validating)) [
        | inl v ↦ rw v (elim (Bool-cases (msg.type == msg_type_challenge_resp)) [
          | inl t ↦ rw t (handle_key_challenge_response-Changed msg n (ground (arith, v)))
          | inr t ↦ rw t (inl (refl, refl))
        ])
        | inr v ↦ rw v (elim (Bool-cases (state == node_state_query_key)) [
          | inl q ↦ rw q (elim (Bool-cases (msg.type == msg_type_keyquery_resp)) [
            | inl t ↦ rw t (store_key-Changed w msg.content n (ground (arith, q)))
            | inr t ↦ rw t (inl (refl, refl))
          ])
          | inr q ↦ rw q (inl (refl, refl))
        ])
      ])
    ])
  ]

  pub loop_round-Moved : (w : World) (n : Node) → Post (Moved n) (loop_round x w n)
  unfolding loop_round
  loop_round-Moved w n = take n.in_messages
    where
      take : (msgs : List PeerMessage) → Post (Moved n) (take_message x w msgs n)
      take [] = inl (refl, refl)
      take (msg ∷ rest) =
          Post-bind _ (Moved n) (node_status x w (record n { in_messages = rest })) _
            (node_status-Kept w (record n { in_messages = rest }))
            (λ r kept. Post-then _ (deref msg.sender) _ (λ sender.
              Post-map (Moved r.0) (Moved n) _ (λ n' moved. Moved-Kept n r.0 n' kept.0 moved)
                (dispatch-Moved w r.1.state msg r.0 (kept.1 ∙ sym kept.0.0))))

  pub start-Moved : (n : Node) → n.state ≡ 0 → Post (Moved n) (start x n)
  unfolding start start_with_key set_status
  start-Moved n e = Post-then _ (read x n.master_ks) _ (λ r. with_key r.0 r.1)
    where
      with_key :
          (ks : MasterKeyStore) (o : Option Member)
          → Post (Moved n) (start_with_key x o (record n { master_ks = ks }))
      with_key ks none = inr (rw e refl, refl)
      with_key ks (some m) = Post-then _ (deref m.node_info) _ (λ info.
          Post-then _ (require (same info.cluster_id n.cluster)) _ (λ u. inr (
            elim (Bool-cases (contains n.seed_nodes n.id)) [
              | inl s ↦ rw (s, e) refl
              | inr s ↦ rw (s, e) refl
            ],
            refl,
          )))
