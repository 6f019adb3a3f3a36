-- ===== src/Cluster/System/Agreement/Seeding.antt =====
-- The exchange of seed.go and the goroutines that send, on a seed that knows the one key.
use betterkey.Prelude.{
  ◌≡◌, refl, ◌⊎◌, inl, inr, Bool, List, [], ◌∷◌, Option, none, some, arith, Bytes, All-append,
  Bool-cases, same, contains, length, ◌==◌,
}
use betterkey.Common.Result.{require, Post, Post-then}
use betterkey.Cluster.Message.{PeerMessage, Peer}
use betterkey.Cluster.Seed.{
  Seed, Received, key_size, key_received, send_to_named, forward_to, forward_loop,
  forward_key_to_other_seed_peers, send_seed_key, check_cleanup, adopt_key, accept_key,
  record_received,
}
use betterkey.Cluster.Seed.Exchange.{KeyExchange, Exchanges}
use betterkey.Cluster.Node.Handlers.{
  send_query, send_one_challenge, Round, returned, again, challenge_round, query_round,
}
use betterkey.Cluster.System.Agreement.Keys.{IsOldKey, IsGood, AreGoodEnvelopes}

module _ (k : Bytes) where
  abbrev pub IsGoodForward : Option PeerMessage → Type 0
  IsGoodForward none = Unit {0}
  IsGoodForward (some pm) = IsGood k pm

  pub record IsGoodReceipt (r : Received) : Type 0 where
    pub key : IsOldKey k r.seed.generated_key
    pub forwarded : IsGoodForward r.forwards
    pub returned : (r.returned ≡ []) ⊎ (r.returned ≡ k)

  pub IsGood-any : (pm : PeerMessage) → pm.content ≡ k → IsGood k pm
  IsGood-any pm e = record { key_init = λ _. e; key_response = λ _. e }

  record_received-IsGoodReceipt :
      (sender : Bytes) (s : Seed)
      → IsOldKey k s.generated_key
      → IsGoodReceipt (record_received k sender s)
  unfolding record_received
  record_received-IsGoodReceipt sender s h = record {
    key = h;
    forwarded = IsGood-any _ refl;
    returned = ground arith;
  }

  adopt_key-IsOldKey :
      (s : Seed) → IsOldKey k s.generated_key → IsOldKey k (adopt_key k s).generated_key
  unfolding adopt_key
  adopt_key-IsOldKey s h = ground arith

  accept_key-IsGoodReceipt :
      (sender : Bytes) (s : Seed)
      → IsOldKey k s.generated_key
      → Post IsGoodReceipt (accept_key k sender s)
  unfolding accept_key
  accept_key-IsGoodReceipt sender s h = elim (Bool-cases (length s.generated_key == 0)) [
    | inl e ↦ rw e (record { key = h; forwarded = tt; returned = inl refl })
    | inr e ↦ rw e (
        Post-then IsGoodReceipt (require (same k (adopt_key k s).generated_key)) _
          (λ _. record_received-IsGoodReceipt sender (adopt_key k s) (adopt_key-IsOldKey s h)))
  ]

  -- Receiving `k` keeps the key in memory, forwards `k`, and returns nothing or `k`.
  pub key_received-IsGoodReceipt :
      (sender : Bytes) (s : Seed)
      → IsOldKey k s.generated_key
      → Post IsGoodReceipt (key_received k sender s)
  unfolding key_received
  key_received-IsGoodReceipt sender s h =
      Post-then IsGoodReceipt (require (contains s.other_seed_nodes sender)) _ (λ _.
        Post-then IsGoodReceipt (require (length k == key_size)) _
          (λ _. accept_key-IsGoodReceipt sender s h))

  abbrev pub IsGoodRound : Round → Type 0
  IsGoodRound (returned out) = AreGoodEnvelopes k out
  IsGoodRound (again failed) = Unit {0}

  module _ (delivers : Bytes → Bool) (pm : PeerMessage) (good : IsGood k pm) where
    send_to_named-AreGood :
        (name : Bytes) (ns : List Peer) → AreGoodEnvelopes k (send_to_named delivers pm name ns).1
    unfolding send_to_named
    send_to_named-AreGood name [] = tt
    send_to_named-AreGood name (n ∷ ns) = ground (arith, send_to_named-AreGood name ns)

    forward_to-AreGood :
        (members : List Peer) (ex : KeyExchange) (name : Bytes)
        → AreGoodEnvelopes k (forward_to delivers pm members ex name).1
    unfolding forward_to
    forward_to-AreGood members ex name = ground (arith, send_to_named-AreGood name members)

    forward_loop-AreGood :
        (members : List Peer) (names : List Bytes) (stat : Exchanges)
        → AreGoodEnvelopes k (forward_loop delivers pm members names stat).1
    unfolding forward_loop
    forward_loop-AreGood members [] stat = tt
    forward_loop-AreGood members (name ∷ names) stat =
        All-append (λ e. IsGood k e.message) _ _ (forward_to-AreGood members _ name)
          (forward_loop-AreGood members names _)

    pub send_seed_key-AreGood : (ps : List Peer) → AreGoodEnvelopes k (send_seed_key delivers pm ps)
    unfolding send_seed_key
    send_seed_key-AreGood [] = tt
    send_seed_key-AreGood (p ∷ ps) = ground (arith, send_seed_key-AreGood ps)

    pub send_query-AreGood :
        (id : Bytes) (ps : List Peer) → AreGoodEnvelopes k (send_query delivers id pm ps)
    unfolding send_query
    send_query-AreGood id [] = tt
    send_query-AreGood id (p ∷ ps) = ground (arith, send_query-AreGood id ps)

    pub send_one_challenge-AreGood :
        (id : Bytes) (ps : List Peer) → AreGoodEnvelopes k (send_one_challenge delivers id pm ps)
    unfolding send_one_challenge
    send_one_challenge-AreGood id [] = tt
    send_one_challenge-AreGood id (p ∷ ps) = ground (arith, send_one_challenge-AreGood id ps)

    pub challenge_round-IsGoodRound :
        (target : Bytes) (failed : Bool) (ps : List Peer)
        → IsGoodRound (challenge_round delivers target pm failed ps)
    unfolding challenge_round
    challenge_round-IsGoodRound target failed [] = tt
    challenge_round-IsGoodRound target failed (p ∷ ps) =
        ground (arith, challenge_round-IsGoodRound target failed ps)

    pub query_round-IsGoodRound :
        (target : Bytes) (ps : List Peer) → IsGoodRound (query_round delivers target pm ps)
    unfolding query_round
    query_round-IsGoodRound target [] = tt
    query_round-IsGoodRound target (p ∷ ps) = ground (arith, query_round-IsGoodRound target ps)

  pub forward-AreGood :
      (delivers : Bytes → Bool) (pm : PeerMessage) (s : Seed)
      → IsGood k pm
      → AreGoodEnvelopes k (forward_key_to_other_seed_peers delivers pm s).1
  unfolding forward_key_to_other_seed_peers
  forward-AreGood delivers pm s good =
      forward_loop-AreGood delivers pm good s.other_members s.other_seed_nodes s.key_exchange_stat

  pub key-forward :
      (delivers : Bytes → Bool) (pm : PeerMessage) (s : Seed)
      → (forward_key_to_other_seed_peers delivers pm s).0.generated_key ≡ s.generated_key
  unfolding forward_key_to_other_seed_peers
  key-forward delivers pm s = refl

  pub check_cleanup-IsOldKey :
      (s : Seed) → IsOldKey k s.generated_key → IsOldKey k (check_cleanup s).generated_key
  unfolding check_cleanup
  check_cleanup-IsOldKey s h = ground arith
