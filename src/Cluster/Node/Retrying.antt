-- ===== src/Cluster/Node/Retrying.antt =====
-- The loops that answer a challenge (validate.go) and a query for the key (query.go), each on the rounds
-- that it comes to.
use betterkey.Prelude.{
  ◌≡◌, refl, inl, inr, Bool, true, false, List, [], ◌∷◌, ◌++◌, Option, none, some, arith, Bytes,
  All, Bool-cases, same_iff, contains, if◌then◌else◌,
}
use betterkey.Cluster.Message.{PeerMessage, Peer, Envelope}
use betterkey.Cluster.Node.Handlers.{Round, returned, again, challenge_round, query_round}

-- What a round finds: the members of the memberlist, and which sends succeed.
pub record Sight : Type 0 where
  pub members : List Peer
  pub delivers : Bytes → Bool

-- A round that returns ends its loop; else the loop sleeps and goes on with the flag.
abbrev resume : Round → (Bool → Option (List Envelope)) → Option (List Envelope)
resume (returned out) next = some out
resume (again failed) next = next failed

-- The goroutine of `handleQueryKey`: what it has sent when it returns, if it does.
unfoldable pub query_loop : Bytes → PeerMessage → List Sight → Option (List Envelope)
query_loop target pm [] = none
query_loop target pm (s ∷ ss) =
    resume (query_round s.delivers target pm s.members) (λ failed. query_loop target pm ss)

-- The goroutine of `handleKeyChallengeRequest`; the flag is `err != nil`.
unfoldable pub challenge_loop : Bytes → PeerMessage → Bool → List Sight → Option (List Envelope)
challenge_loop target pm failed [] = none
challenge_loop target pm failed (s ∷ ss) =
    resume (challenge_round s.delivers target pm failed s.members)
      (λ failed'. challenge_loop target pm failed' ss)

-- Once a send of `handleKeyChallengeRequest` has failed, `err` stays set, and no later round sends
-- anything or returns.
failed_challenge_never_resent :
    (delivers : Bytes → Bool) (target : Bytes) (pm : PeerMessage) (members : List Peer)
    → challenge_round delivers target pm true members ≡ again true
unfolding challenge_round
failed_challenge_never_resent delivers target pm [] = refl
failed_challenge_never_resent delivers target pm (m ∷ ms) =
    ground (arith, failed_challenge_never_resent delivers target pm ms)

abbrev pub names_of_peers : List Peer → List Bytes
names_of_peers [] = []
names_of_peers (m ∷ ms) = m.name ∷ names_of_peers ms

-- A first round of either loop waits while the target is no member. Once it is one, both make one
-- attempt, after which the query loop returns.
first_round :
    (delivers : Bytes → Bool) (target : Bytes) (pm : PeerMessage) (members : List Peer)
    → (challenge_round delivers target pm false members ≡ (
        if contains (names_of_peers members) target
        then (if delivers target
            then returned (record { target = target; message = pm } ∷ [])
            else again true)
        else again false))
      × (query_round delivers target pm members ≡ (
          if contains (names_of_peers members) target
          then returned
              (if delivers target then record { target = target; message = pm } ∷ [] else [])
          else again false))
unfolding challenge_round query_round contains
first_round delivers target pm [] = (refl, refl)
first_round delivers target pm (m ∷ ms) =
    ground (arith, first_round delivers target pm ms, same_iff m.name target)

abbrev pub Unseen : Bytes → Sight → Type 0
Unseen target s = contains (names_of_peers s.members) target ≡ false

failed_for_ever :
    (target : Bytes) (pm : PeerMessage) (ss : List Sight) → challenge_loop target pm true ss ≡ none
unfolding challenge_loop
failed_for_ever target pm [] = refl
failed_for_ever target pm (s ∷ ss) =
    rw (failed_challenge_never_resent s.delivers target pm s.members) (failed_for_ever target pm ss)

-- Both loops wait for the round in which their target is first a member, and make their one attempt in
-- it. The query loop then returns, whether the send succeeds or not. The challenge loop returns only if
-- it succeeds: else no round behind it, whatever the members are and however well sends would go, sends
-- anything or ends the loop.
pub loops-first_seen :
    (target : Bytes) (pm : PeerMessage) (before : List Sight) (s : Sight) (after : List Sight)
    → All (Unseen target) before
    → contains (names_of_peers s.members) target ≡ true
    → (query_loop target pm (before ++ s ∷ after)
        ≡ some (if s.delivers target then record { target = target; message = pm } ∷ [] else []))
      × (challenge_loop target pm false (before ++ s ∷ after) ≡ (
          if s.delivers target then some (record { target = target; message = pm } ∷ []) else none))
unfolding query_loop challenge_loop
loops-first_seen target pm [] s after unseen seen =
    let (c, q) = first_round s.delivers target pm s.members in
    rw (q, c, seen)
      (elim (Bool-cases (s.delivers target)) [
        | inl good ↦ rw good (refl, refl)
        | inr bad ↦ rw bad (refl, failed_for_ever target pm after)
      ])
loops-first_seen target pm (r ∷ before) s after (u, unseen) seen =
    let (c, q) = first_round r.delivers target pm r.members in
    rw (q, c, u) (loops-first_seen target pm before s after unseen seen)
