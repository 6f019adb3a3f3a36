-- ===== src/Cluster/Node/Delegate.antt =====
-- What the memberlist asks of a node and tells it: the delegate methods of node.go.
use betterkey.Prelude.{ℕ, List, [], ◌∷◌, ◌++◌, Option, none, some, same, if◌then◌else◌}
use betterkey.Common.Result.{Result, ok, require, ◌>>=◌, ◌>>◌}
use betterkey.Common.Model.{NodeMeta}
use betterkey.Common.Services.{deref}
use betterkey.Cluster.Message.{PeerMessage, Peer}
use betterkey.Cluster.HeartBeat.{on_remote_heart_beat}
use betterkey.Cluster.Node.{Node, World}

unfoldable pub receive_message : Option PeerMessage → Node → Result Node
receive_message none n = ok n
receive_message (some p) n = do
  sender ← deref p.sender
  require (same sender.cluster_id n.cluster)
  ok (record n { in_messages = n.in_messages ++ p ∷ [] })

-- `NotifyMsg`, on what json.Unmarshal makes of the bytes.
unfoldable pub notify_msg : Option PeerMessage → Node → Result Node
unfolding receive_message
notify_msg p n = receive_message p n

merge_state : Option NodeMeta → ℕ → Node → Result Node
merge_state none now n = ok n
merge_state (some m) now n = do
  require (same m.cluster_id n.cluster)
  ok (elim m.heart_beat [
    | none ↦ n
    | some hb ↦
        if same m.id n.node_info.id
        then n
        else if same hb.nonce []
        then n
        else record n { heartbeat_manager = on_remote_heart_beat m.id hb now n.heartbeat_manager }
  ])

-- `MergeRemoteState`, on what json.Unmarshal makes of the bytes, once the memberlist is there.
unfoldable pub merge_remote_state : Option NodeMeta → ℕ → Node → Result Node
unfolding merge_state
merge_remote_state m now n = merge_state m now n

-- `NodeMeta`: the stable fields alone.
unfoldable pub node_meta : Node → NodeMeta
node_meta n = record {
  id = n.node_info.id;
  cluster_id = n.node_info.cluster_id;
  state = n.state;
  heart_beat = none;
}

-- `ActiveMemberNodes`: the readable metas of the other members.
unfoldable pub active_member_nodes : World → Node → List NodeMeta
active_member_nodes w n = metas w.members
  where
    metas : List Peer → List NodeMeta
    metas [] = []
    metas (p ∷ ps) =
        let rest = metas ps in
        if same p.name n.id then rest else elim p.meta [ none ↦ rest | some m ↦ m ∷ rest ]
