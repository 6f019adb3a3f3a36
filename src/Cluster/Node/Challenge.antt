-- ===== src/Cluster/Node/Challenge.antt =====
-- The challenge of validate.go, by which a restarted node checks its key against the cluster's, and
-- the loops that answer.
use betterkey.Prelude.{◌≡◌, refl, false, some, arith, Bytes, same_refl}
use betterkey.Common.Hex.{decode_string}
use betterkey.Common.Result.{ok}
use betterkey.Common.Model.{NodeInfo, MasterSecret, Member, Platform}
use betterkey.Common.Services.{member_seal, member_unseal}
use betterkey.Common.Laws.{IsLawful}
use betterkey.Sgx.KeyStore.{MasterKeyStore, read}
use betterkey.Cluster.Message.{PeerMessage, msg_type_challenge_resp, node_state_ready}
use betterkey.Cluster.Node.{Node, World, answer_challenge, spawn, set_status}
use betterkey.Cluster.Node.Handlers.{handle_key_challenge_request, handle_key_challenge_response}

-- A key that the node can read: the store afterwards, the member, its secret and the bytes of that.
pub record Holds (x : Platform) (n : Node) (k : Bytes) : Type 0 where
  pub store : MasterKeyStore
  pub member : Member
  pub info : NodeInfo
  pub secret : MasterSecret
  pub reads : read x n.master_ks ≡ ok (store, some member)
  pub named : member.node_info ≡ some info
  pub keyed : member.master_secret ≡ some secret
  pub decodes : decode_string secret.secret ≡ some k

module _ (x : Platform) where
  module _ (lawful : IsLawful x) where
    -- Where both nodes hold the same key and the challenge is the restarted node's id, the peer starts
    -- to send, to the sender of the challenge, a response that makes the restarted node READY, if the
    -- library encrypts the challenge at all.
    pub challenge_completes :
        (w : World) (p : PeerMessage) (peer n : Node) (k sealed : Bytes) (sender : NodeInfo)
        (hp : Holds x peer k) (hn : Holds x n k)
        → p.sender ≡ some sender
        → p.content ≡ hn.info.id
        → x.encrypt w.seal_draw p.content k ≡ some sealed
        → (response : PeerMessage) × (handle_key_challenge_request x w p peer
            ≡ ok (
                spawn
                  (answer_challenge sender.id response false)
                  (record peer { master_ks = hp.store })))
          × (response.type ≡ msg_type_challenge_resp)
          × (handle_key_challenge_response x response n
              ≡ ok (set_status node_state_ready (record n { master_ks = hn.store })))
    unfolding handle_key_challenge_request handle_key_challenge_response member_seal member_unseal
    challenge_completes w p peer n k sealed sender hp hn from content done = (
      record { sender = some peer.node_info; type = msg_type_challenge_resp; content = sealed },
      ground (arith, hp.reads, hp.keyed, hp.decodes, from, done),
      refl,
      ground (
        arith,
        hn.reads,
        hn.named,
        hn.keyed,
        hn.decodes,
        lawful.decrypt-encrypt w.seal_draw p.content k sealed done,
        content,
        same_refl hn.info.id,
      ),
    )
