-- ===== src/Cluster/Seed.antt =====
-- internal/cluster/seed.go: the exchange by which the seed nodes come to hold the key that the first
-- of them drew. `delivers` says of each peer whether `SendReliable` to it succeeds.
pub mod Exchange
pub mod Marks
pub mod Completion
use betterkey.Prelude.{
  ℕ, Bool, true, false, ◌&&◌, not, List, [], ◌∷◌, ◌++◌, Option, none, some, Bytes, same, contains,
  length, ltb, ◌==◌, lookup, put, if◌then◌else◌,
}
use betterkey.Common.Result.{Result, ok, panic, require, ◌>>=◌, ◌>>◌}
use betterkey.Common.Model.{NodeInfo}
use betterkey.Cluster.Message.{PeerMessage, Peer, Envelope, msg_type_keyinit}
use Exchange.{KeyExchange, Exchanges, all_received, all_complete}

pub record Seed : Type 0 where
  pub key_exchange_stat : Exchanges
  pub id : NodeInfo
  pub generated_key : Bytes
  pub other_seed_nodes : List Bytes
  pub other_members : List Peer

abbrev pub dummy_key : Bytes
dummy_key = 1 ∷ []

abbrev pub key_size : ℕ
key_size = 32

unfoldable pub has_received_keys_from_all_seed_peers : Seed → Bool
has_received_keys_from_all_seed_peers s =
    if ltb (length s.key_exchange_stat) (length s.other_seed_nodes)
    then false
    else all_received s.key_exchange_stat

unfoldable pub cleaned_up : Seed → Seed
cleaned_up s = record s {
  generated_key = [];
  key_exchange_stat = [];
  other_seed_nodes = [];
  other_members = [];
}

unfoldable pub check_cleanup : Seed → Seed
unfolding cleaned_up
check_cleanup s =
    if length s.other_seed_nodes == length s.key_exchange_stat
    then (if all_complete s.key_exchange_stat then cleaned_up s else s)
    else cleaned_up s

-- The loop over `otherMembers` for one name: whether a send succeeded, and what was sent.
unfoldable pub send_to_named :
    (Bytes → Bool) → PeerMessage → Bytes → List Peer → Bool × List Envelope
send_to_named delivers pm name [] = (false, [])
send_to_named delivers pm name (n ∷ ns) =
    let rest = send_to_named delivers pm name ns in
    if same n.name name && delivers n.name
    then (true, record { target = n.name; message = pm } ∷ rest.1)
    else rest

abbrev pub not_exchanged : KeyExchange
not_exchanged = record { sent_to = false; received_from = false }

abbrev pub found_or_new : Option KeyExchange → KeyExchange
found_or_new none = not_exchanged
found_or_new (some ex) = ex

-- One round of the loop over `otherSeedNodes`: the entry of the peer afterwards, and what was sent.
unfoldable pub forward_to :
    (Bytes → Bool) → PeerMessage → List Peer → KeyExchange → Bytes → KeyExchange × List Envelope
unfolding send_to_named
forward_to delivers pm members ex name =
    if ex.sent_to
    then (ex, [])
    else let (done, out) = send_to_named delivers pm name members in
      (record ex { sent_to = done }, out)

unfoldable pub forward_loop :
    (Bytes → Bool) → PeerMessage → List Peer → List Bytes → Exchanges → Exchanges × List Envelope
unfolding forward_to
forward_loop delivers pm members [] stat = (stat, [])
forward_loop delivers pm members (name ∷ names) stat =
    let (ex, out) = forward_to delivers pm members (found_or_new (lookup name stat)) name in
    let (stat', rest) = forward_loop delivers pm members names (put name ex stat) in
    (stat', out ++ rest)

-- `fowardKeyToOtherSeedPeers`, which starts `checkCleanup` at its end.
unfoldable pub forward_key_to_other_seed_peers :
    (Bytes → Bool) → PeerMessage → Seed → Seed × List Envelope
unfolding forward_loop
forward_key_to_other_seed_peers delivers pm s =
    let (stat, out) =
      forward_loop delivers pm s.other_members s.other_seed_nodes s.key_exchange_stat in
    (record s { key_exchange_stat = stat }, out)

-- `startSeedAsMaster` up to the goroutine that sends the key to every peer.
unfoldable pub start_seed_as_master : PeerMessage → List Peer → Seed → Result Seed
start_seed_as_master key_init members s = do
  require (length key_init.content == key_size)
  ok (record s {
    generated_key = key_init.content;
    key_exchange_stat = [];
    other_members = members;
  })

-- The goroutine of `startSeedAsMaster`.
unfoldable pub send_seed_key : (Bytes → Bool) → PeerMessage → List Peer → List Envelope
send_seed_key delivers pm [] = []
send_seed_key delivers pm (p ∷ ps) =
    let rest = send_seed_key delivers pm ps in
    if delivers p.name then record { target = p.name; message = pm } ∷ rest else rest

unfoldable pub start_seed_as_slave : List Peer → Seed → Seed
start_seed_as_slave members s = record s {
  generated_key = dummy_key;
  key_exchange_stat = [];
  other_members = members;
}

unfoldable pub mark_received : Option KeyExchange → KeyExchange
mark_received none = record { sent_to = false; received_from = true }
mark_received (some ex) = record ex { received_from = true }

-- What `keyReceived` leaves: the seed, the key that it returns (empty until the exchange is complete),
-- and the message that it has started to forward.
pub record Received : Type 0 where
  pub seed : Seed
  pub returned : Bytes
  pub forwards : Option PeerMessage

-- The first key from a peer takes the place of the dummy.
unfoldable pub adopt_key : Bytes → Seed → Seed
adopt_key k s = if same dummy_key s.generated_key then record s { generated_key = k } else s

unfoldable pub record_received : Bytes → Bytes → Seed → Received
unfolding mark_received has_received_keys_from_all_seed_peers
record_received k sender_id s = record {
  seed = marked;
  returned = if has_received_keys_from_all_seed_peers marked then k else [];
  forwards = some (record { sender = some s.id; type = msg_type_keyinit; content = k });
}
  where
    marked : Seed
    marked = record s {
      key_exchange_stat =
          put sender_id (mark_received (lookup sender_id s.key_exchange_stat)) s.key_exchange_stat;
    }

unfoldable pub accept_key : Bytes → Bytes → Seed → Result Received
unfolding adopt_key record_received
accept_key k sender_id s =
    if length s.generated_key == 0
    then ok (record { seed = s; returned = []; forwards = none })
    else do
      let s' = adopt_key k s
      require (same k s'.generated_key)
      ok (record_received k sender_id s')

unfoldable pub key_received : Bytes → Bytes → Seed → Result Received
unfolding accept_key
key_received k sender_id s = do
  require (contains s.other_seed_nodes sender_id)
  require (length k == key_size)
  accept_key k sender_id s
