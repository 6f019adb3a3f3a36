-- ===== src/Tests/RetryRuns.antt =====
-- The loops that answer, on three rounds in which the target appears and a send fails.
use betterkey.Prelude.{
  ◌≡◌, refl, true, false, [], ◌∷◌, ◌++◌, none, some, str, contains, same, if◌then◌else◌,
}
use betterkey.Cluster.Message.{PeerMessage, msg_type_challenge_resp}
use betterkey.Cluster.Node.Retrying.{Sight, query_loop, challenge_loop, loops-first_seen}
use betterkey.Tests.ClusterRuns.{peers}

abbrev response : PeerMessage
response = record { sender = none; type = msg_type_challenge_resp; content = 9 ∷ [] }

abbrev nobody : Sight
nobody = record { members = []; delivers = λ b. true }

abbrev lossy : Sight
lossy = record { members = peers; delivers = λ b. false }

abbrev healthy : Sight
healthy = record { members = peers; delivers = λ b. true }

loops-first_seen_example :
    (query_loop (str "b") response (nobody ∷ [] ++ lossy ∷ healthy ∷ [])
      ≡ some (
          if lossy.delivers (str "b")
          then record { target = str "b"; message = response } ∷ []
          else []))
    × (challenge_loop (str "b") response false (nobody ∷ [] ++ lossy ∷ healthy ∷ []) ≡ (
        if lossy.delivers (str "b")
        then some (record { target = str "b"; message = response } ∷ [])
        else none))
unfolding contains same
loops-first_seen_example =
    loops-first_seen (str "b") response (nobody ∷ []) lossy (healthy ∷ []) (refl, tt) refl
