-- ===== src/Cluster/HeartBeat/Exchange.antt =====
-- A heartbeat travels from the node that makes it to a peer that checks it.
use betterkey.Prelude.{◌≡◌, some, arith, Bytes, All, same_refl, inl, inr, Option-cases, ℕ}
use betterkey.Common.Hex.{IsByte, decode_string, decode_string-encode_to_string, decode_string-All}
use betterkey.Common.Result.{ok}
use betterkey.Common.Model.{HeartBeat, Member, MasterSecret, Platform}
use betterkey.Common.Laws.{IsLawful}
use betterkey.Common.Services.{member_vault, vault_seal, vault_unseal}
use betterkey.Cluster.HeartBeat.{PeerHeartBeat, local_heart_beat, validate_nonce}

abbrev pub arrived : Bytes → HeartBeat → ℕ → PeerHeartBeat
arrived id hb now = record { id = id; nonce = hb.nonce; encrypted_nonce = hb.value; ts = now }

module _ (x : Platform) (lawful : IsLawful x) where
  -- A heartbeat that a node makes of a random nonce is valid at every peer that holds the same secret,
  -- whatever else the two members say.
  pub heart_beat_accepted :
      (m peer : Member) (s : MasterSecret) (t : MasterSecret) (nonce draw id : Bytes) (now : ℕ)
      (hb : HeartBeat)
      → m.master_secret ≡ some s
      → peer.master_secret ≡ some t
      → s.secret ≡ t.secret
      → All IsByte nonce
      → local_heart_beat x (member_vault (some m)) nonce draw ≡ ok (some hb)
      → validate_nonce x (member_vault (some peer)) (arrived id hb now) ≡ ok tt
  unfolding local_heart_beat validate_nonce vault_seal vault_unseal
  heart_beat_accepted m peer s t nonce draw id now hb hs ht same_secret bytes e =
      elim (Option-cases (decode_string s.secret)) [
        | inl bad ↦ ground (arith, bad)
        | inr (k, good) ↦ elim (Option-cases (x.encrypt draw nonce k)) [
          | inl bad ↦ ground (arith, good, bad)
          | inr (sealed, done) ↦ ground (
            arith,
            good,
            done,
            lawful.decrypt-encrypt draw nonce k sealed done,
            decode_string-encode_to_string nonce bytes,
            decode_string-encode_to_string sealed (
                lawful.encrypt-IsByte draw nonce k sealed bytes (decode_string-All s.secret k good)
                  done),
            same_refl nonce,
          )
        ]
      ]
