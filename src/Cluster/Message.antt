-- ===== src/Cluster/Message.antt =====
-- The constants and messages of internal/cluster/state.go. A message is what json.Unmarshal makes of
-- the bytes that were sent: its `sender` is a pointer, which a JSON text may leave nil.
use betterkey.Prelude.{
  ℕ, Bool, true, false, List, [], ◌∷◌, Option, none, some, Bytes, ◌==◌, if◌then◌else◌,
}
use betterkey.Common.Model.{NodeInfo, NodeMeta}

abbrev pub msg_type_challenge : ℕ
msg_type_challenge = 1

abbrev pub msg_type_challenge_resp : ℕ
msg_type_challenge_resp = 2

abbrev pub msg_type_keyquery : ℕ
msg_type_keyquery = 3

abbrev pub msg_type_keyquery_resp : ℕ
msg_type_keyquery_resp = 4

abbrev pub msg_type_keyinit : ℕ
msg_type_keyinit = 5

abbrev pub node_state_no_key : ℕ
node_state_no_key = 1

abbrev pub node_state_seeding : ℕ
node_state_seeding = 2

abbrev pub node_state_validating : ℕ
node_state_validating = 3

abbrev pub node_state_query_key : ℕ
node_state_query_key = 4

abbrev pub node_state_ready : ℕ
node_state_ready = 5

pub record PeerMessage : Type 0 where
  pub sender : Option NodeInfo
  pub type : ℕ
  pub content : Bytes

-- A member of the memberlist: its name, and what `NodeMetaFromBytes` makes of its `Meta` (`none` for
-- bad JSON).
pub record Peer : Type 0 where
  pub name : Bytes
  pub meta : Option NodeMeta

-- A message on its way to the node of that name.
pub record Envelope : Type 0 where
  pub target : Bytes
  pub message : PeerMessage

-- `err == nil && ni.State == NODE_STATE_READY`
unfoldable pub is_ready : Peer → Bool
is_ready p = elim p.meta [ none ↦ false | some m ↦ m.state == node_state_ready ]

unfoldable pub members_can_provide_key : List Peer → Bool
unfolding is_ready
members_can_provide_key [] = false
members_can_provide_key (m ∷ ms) = if is_ready m then true else members_can_provide_key ms
