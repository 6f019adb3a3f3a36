-- ===== src/Cluster/HeartBeat.antt =====
-- internal/cluster/heartbeat.go. Times are Unix seconds, and `window` is in seconds. The provider of
-- the vault is read once for a window. `windowHandler` is handed the window that is returned.
pub mod Windows
pub mod Exchange
use betterkey.Prelude.{
  ℕ, ◌+◌, ◌-◌, Bool, List, [], ◌∷◌, ◌++◌, Option, none, some, Bytes, str, same, ltb, leb, ◌==◌,
  Dict, lookup, put, if◌then◌else◌,
}
use betterkey.Common.Hex.{encode_to_string, decode_string}
use betterkey.Common.Result.{
  Error, Result, ok, err, panic, no_encryption_service, nonce_mismatched, ◌>>=◌, ◌>>◌, check, must,
}
use betterkey.Common.Model.{HeartBeat, HeartBeatStat, Member, Platform}
use betterkey.Common.Services.{Vault, nil_vault, member_vault, or_error, vault_seal, vault_unseal}
use betterkey.Cluster.Message.{node_state_ready}

pub record PeerHeartBeat : Type 0 where
  pub id : Bytes
  pub nonce : Bytes
  pub encrypted_nonce : Bytes
  pub ts : ℕ

pub record HeartBeatManager : Type 0 where
  pub samples : List PeerHeartBeat
  pub window : ℕ
  pub last_run_ts : ℕ

pub record HeartBeatWindow : Type 0 where
  pub from : ℕ
  pub window : ℕ
  pub stats : Dict HeartBeatStat

abbrev pub new_heart_beat_manager : ℕ → ℕ → HeartBeatManager
new_heart_beat_manager window now = record { samples = []; window = window; last_run_ts = now }

-- The loop of `Start`: the samples to process now, and those that stay in the buffer.
unfoldable pub split_samples : ℕ → ℕ → List PeerHeartBeat → List PeerHeartBeat × List PeerHeartBeat
split_samples last max [] = ([], [])
split_samples last max (s ∷ ss) =
    let rest = split_samples last max ss in
    if ltb s.ts last
    then rest
    else if leb (s.ts - last) max
    then (s ∷ rest.0, rest.1)
    else (rest.0, s ∷ rest.1)

-- One tick: the manager afterwards, and what `processWindow` is started on.
unfoldable pub on_tick : ℕ → HeartBeatManager → HeartBeatManager × List PeerHeartBeat
unfolding split_samples
on_tick now hbm =
    let (ready, later) = split_samples hbm.last_run_ts hbm.window hbm.samples in
    (record hbm { samples = later; last_run_ts = now }, ready)

unfoldable pub on_remote_heart_beat : Bytes → HeartBeat → ℕ → HeartBeatManager → HeartBeatManager
on_remote_heart_beat peer_id hb now hbm = record hbm { samples = hbm.samples ++ phb ∷ [] }
  where
    phb : PeerHeartBeat
    phb = record { id = peer_id; nonce = hb.nonce; encrypted_nonce = hb.value; ts = now }

module _ (x : Platform) where
  -- `nonce` is the random nonce, `draw` the randomness of its encryption.
  unfoldable pub local_heart_beat : Vault → Bytes → Bytes → Result (Option HeartBeat)
  local_heart_beat nil_vault nonce draw = ok none
  local_heart_beat (member_vault m) nonce draw = do
    sealed ← must (vault_seal x (member_vault m) draw nonce)
    ok (some (record { nonce = encode_to_string nonce; value = encode_to_string sealed }))

  unfoldable pub validate_nonce : Vault → PeerHeartBeat → Result (Unit {0})
  validate_nonce nil_vault hb = err no_encryption_service
  validate_nonce (member_vault m) hb = do
    nonce ← or_error (decode_string hb.nonce) (str "hex")
    enc_nonce ← or_error (decode_string hb.encrypted_nonce) (str "hex")
    decrypted ← vault_unseal x (member_vault m) enc_nonce
    check (same nonce decrypted) nonce_mismatched

-- One more sample of a peer, valid or not.
unfoldable pub count_sample : Option HeartBeatStat → ℕ → HeartBeatStat
count_sample none failed = record { total = 1; errors = failed }
count_sample (some ps) failed = record { total = ps.total + 1; errors = ps.errors + failed }

unfoldable pub add_sample : Dict HeartBeatStat → Bytes → ℕ → Dict HeartBeatStat
unfolding count_sample
add_sample stats id failed = put id (count_sample (lookup id stats) failed) stats

-- 1 for an error, 0 for none; a panic passes on.
abbrev failure_count : Result (Unit {0}) → Result ℕ
failure_count (ok u) = ok 0
failure_count (err e) = ok 1
failure_count panic = panic

module _ (x : Platform) (vault : Vault) where
  unfoldable pub count_samples :
      List PeerHeartBeat → Dict HeartBeatStat → Result (Dict HeartBeatStat)
  unfolding add_sample validate_nonce
  count_samples [] stats = ok stats
  count_samples (hb ∷ hbs) stats = do
    failed ← failure_count (validate_nonce x vault hb)
    count_samples hbs (add_sample stats hb.id failed)

  -- `state` is the state of the node, `none` an early return.
  unfoldable pub process_window :
      HeartBeatManager → ℕ → List PeerHeartBeat → Result (Option HeartBeatWindow)
  unfolding count_samples
  process_window hbm state ready =
      if state == node_state_ready
      then (do
        stats ← count_samples ready []
        ok (some (record { from = hbm.last_run_ts; window = hbm.window; stats = stats })))
      else ok none
