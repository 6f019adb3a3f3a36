-- ===== src/Cluster/Node/Handlers.antt =====
-- The loop over incoming messages (state.go), its handlers (seed.go, query.go, validate.go), and the
-- goroutines that send.
use betterkey.Prelude.{
  ℕ, Bool, true, false, List, [], ◌∷◌, Option, none, some, Bytes, same, length, ◌==◌, if◌then◌else◌,
}
use betterkey.Common.Hex.{encode_to_string, decode_string}
use betterkey.Common.Result.{Result, ok, require, must, ◌>>=◌, ◌>>◌}
use betterkey.Common.Model.{Platform}
use betterkey.Common.Services.{deref, member_seal, member_unseal}
use betterkey.Sgx.KeyStore.{read, write}
use betterkey.Cluster.Message.{
  PeerMessage, Peer, Envelope, is_ready, msg_type_challenge, msg_type_challenge_resp,
  msg_type_keyquery, msg_type_keyquery_resp, msg_type_keyinit, node_state_seeding,
  node_state_validating, node_state_query_key, node_state_ready,
}
use betterkey.Cluster.Seed.{
  key_received, forward_key_to_other_seed_peers, check_cleanup, send_seed_key,
}
use betterkey.Cluster.Node.{
  Node, World, Task, send_init, forward_key, cleanup, ask_key, send_challenge, answer_challenge,
  answer_query, set_status, spawn, node_status,
}

-- `go s.fowardKeyToOtherSeedPeers(b)`
unfoldable pub start_forwarding : Option PeerMessage → Node → Node
unfolding spawn
start_forwarding none n = n
start_forwarding (some pm) n = spawn (forward_key pm) n

module _ (x : Platform) where
  -- The new key goes to the disk, and the node is READY.
  unfoldable pub store_key : World → Bytes → Node → Result Node
  unfolding set_status
  store_key w k n = do
    ks ←
        write x n.master_ks
          (record { secret = encode_to_string k; creator_id = []; created = w.now }) w.file_draw
          w.written
    ok (set_status node_state_ready (record n { master_ks = ks }))

  unfoldable pub handle_seed_key : World → PeerMessage → Node → Result Node
  unfolding start_forwarding store_key
  handle_seed_key w msg n = do
    sender ← deref msg.sender
    r ← key_received msg.content sender.id n.seed
    let n' = start_forwarding r.forwards (record n { seed = r.seed })
    if length r.returned == 0 then ok n' else store_key w r.returned n'

  unfoldable pub handle_query_key : PeerMessage → Node → Result Node
  unfolding spawn
  handle_query_key p n = do
    (ks, mk) ← read x n.master_ks
    m ← deref mk
    secret ← deref m.master_secret
    k ← deref (decode_string secret.secret)
    sender ← deref p.sender
    ok (
        spawn
          (answer_query sender.id
            (record { sender = some n.node_info; type = msg_type_keyquery_resp; content = k }))
          (record n { master_ks = ks }))

  unfoldable pub handle_key_response : World → PeerMessage → Node → Result Node
  unfolding store_key
  handle_key_response w p n = store_key w p.content n

  unfoldable pub handle_key_challenge_request : World → PeerMessage → Node → Result Node
  unfolding spawn
  handle_key_challenge_request w p n = do
    (ks, local_id) ← read x n.master_ks
    m ← deref local_id
    enc ← must (member_seal x m w.seal_draw p.content)
    sender ← deref p.sender
    ok (
        spawn
          (answer_challenge sender.id
            (record { sender = some n.node_info; type = msg_type_challenge_resp; content = enc })
            false)
          (record n { master_ks = ks }))

  unfoldable pub handle_key_challenge_response : PeerMessage → Node → Result Node
  unfolding set_status
  handle_key_challenge_response p n = do
    (ks, local_id) ← read x n.master_ks
    m ← deref local_id
    dec ← must (member_unseal x m p.content)
    info ← deref m.node_info
    require (same dec info.id)
    ok (set_status node_state_ready (record n { master_ks = ks }))

  -- The switch of `loop` on the state that `NodeStatus` has read.
  unfoldable pub dispatch : World → ℕ → PeerMessage → Node → Result Node
  dispatch w state msg n =
      if state == node_state_seeding
      then (if msg.type == msg_type_keyinit then handle_seed_key w msg n else ok n)
      else if state == node_state_ready
      then (if msg.type == msg_type_keyquery
          then handle_query_key msg n
          else if msg.type == msg_type_challenge
          then handle_key_challenge_request w msg n
          else ok n)
      else if state == node_state_validating
      then (if msg.type == msg_type_challenge_resp
          then handle_key_challenge_response msg n
          else ok n)
      else if state == node_state_query_key
      then (if msg.type == msg_type_keyquery_resp then handle_key_response w msg n else ok n)
      else ok n

  unfoldable pub loop_message : World → PeerMessage → Node → Result Node
  loop_message w msg n = do
    (n', status) ← node_status x w n
    sender ← deref msg.sender
    dispatch w status.state msg n'

  unfoldable pub take_message : World → List PeerMessage → Node → Result Node
  unfolding loop_message
  take_message w [] n = ok n
  take_message w (msg ∷ rest) n = loop_message w msg (record n { in_messages = rest })

  -- One round of `loop`, which waits while no message is there.
  unfoldable pub loop_round : World → Node → Result Node
  unfolding take_message
  loop_round w n = take_message w n.in_messages n

-- The goroutine of `queryKey`: the first READY peer is asked, and no other.
unfoldable pub send_query : (Bytes → Bool) → Bytes → PeerMessage → List Peer → List Envelope
send_query delivers id pm [] = []
send_query delivers id pm (m ∷ ms) =
    let rest = send_query delivers id pm ms in
    if same m.name id
    then rest
    else if is_ready m
    then (if delivers m.name then record { target = m.name; message = pm } ∷ [] else [])
    else rest

-- The goroutine of `validatingExistingKey`: READY peers are tried until one send succeeds.
unfoldable pub send_one_challenge : (Bytes → Bool) → Bytes → PeerMessage → List Peer → List Envelope
send_one_challenge delivers id pm [] = []
send_one_challenge delivers id pm (m ∷ ms) =
    let rest = send_one_challenge delivers id pm ms in
    if same m.name id
    then rest
    else if is_ready m
    then (if delivers m.name then record { target = m.name; message = pm } ∷ [] else rest)
    else rest

-- How a round of a retry loop ends: it returns, with or without a message, or it sleeps for another
-- round with its flag.
pub data Round : Type 0 where
  returned : List Envelope → Round
  again : Bool → Round

-- One round of the goroutine of `handleKeyChallengeRequest`; the flag is `err != nil`.
unfoldable pub challenge_round : (Bytes → Bool) → Bytes → PeerMessage → Bool → List Peer → Round
challenge_round delivers target pm failed [] = again failed
challenge_round delivers target pm failed (m ∷ ms) =
    let rest = challenge_round delivers target pm failed ms in
    if same m.name target
    then (if failed
        then rest
        else if delivers m.name
        then returned (record { target = m.name; message = pm } ∷ [])
        else again true)
    else rest

-- One round of the goroutine of `handleQueryKey`, which returns after one attempt.
unfoldable pub query_round : (Bytes → Bool) → Bytes → PeerMessage → List Peer → Round
query_round delivers target pm [] = again false
query_round delivers target pm (m ∷ ms) =
    let rest = query_round delivers target pm ms in
    if same m.name target
    then returned (if delivers m.name then record { target = m.name; message = pm } ∷ [] else [])
    else rest

unfoldable pub after_round : (Bool → Task) → Round → Node → Node × List Envelope
unfolding spawn
after_round retry (returned out) n = (n, out)
after_round retry (again failed) n = (spawn (retry failed) n, [])

-- A goroutine runs to its end, or to the end of its round.
unfoldable pub run_task : World → Task → Node → Node × List Envelope
unfolding after_round spawn
run_task w (send_init pm) n = (n, send_seed_key w.delivers pm n.seed.other_members)
run_task w (forward_key pm) n =
    let (s, out) = forward_key_to_other_seed_peers w.delivers pm n.seed in
    (spawn cleanup (record n { seed = s }), out)
run_task w cleanup n = (record n { seed = check_cleanup n.seed }, [])
run_task w (ask_key peers) n = (
  n,
  send_query w.delivers n.id
      (record { sender = some n.node_info; type = msg_type_keyquery; content = [] }) peers,
)
run_task w (send_challenge peers) n = (
  n,
  send_one_challenge w.delivers n.id
      (record { sender = some n.node_info; type = msg_type_challenge; content = n.node_info.id })
      peers,
)
run_task w (answer_challenge target pm failed) n =
    after_round (answer_challenge target pm) (challenge_round w.delivers target pm failed w.members)
      n
run_task w (answer_query target pm) n =
    after_round (λ _. answer_query target pm) (query_round w.delivers target pm w.members) n
