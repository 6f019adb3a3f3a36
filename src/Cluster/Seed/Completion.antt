-- ===== src/Cluster/Seed/Completion.antt =====
-- When the exchange of seed.go is complete: what `keyReceived` returns, and what `checkCleanup` clears.
use betterkey.Prelude.{
  ◌≡◌, ◌≢◌, refl, sym, ◌⊎◌, inl, inr, Bool, true, false, ◌||◌, List, [], ◌∷◌, some, arith, Bytes,
  Bool-cases, same, same_iff, same_refl, eq_of_same, contains, length, ◌==◌, lookup, put, keys,
  contains-keys-put, if◌then◌else◌,
}
use betterkey.Common.Result.{ok, panic, require, Post, Post-bind, Post-map, Post-ok, require-Post}
use betterkey.Common.Set.Sorting.{IsDistinct}
use betterkey.Cluster.Message.{PeerMessage, Peer}
use betterkey.Cluster.Seed.{
  Seed, Received, key_size, dummy_key, key_received, accept_key, record_received, adopt_key,
  mark_received, has_received_keys_from_all_seed_peers, check_cleanup, cleaned_up, forward_loop,
  forward_to, found_or_new, forward_key_to_other_seed_peers,
}
use betterkey.Cluster.Seed.Exchange.{KeyExchange, Exchanges, all_complete}
use betterkey.Cluster.Seed.Marks.{
  IsExchange, length-keys, put-IsExchange, has_received-all, distinct_le,
}

module _ (delivers : Bytes → Bool) (pm : PeerMessage) (members : List Peer) where
  forward_loop-keys :
      (names : List Bytes) (stat : Exchanges) (b : Bytes)
      → contains (keys (forward_loop delivers pm members names stat).0) b
        ≡ (contains names b || contains (keys stat) b)
  unfolding forward_loop contains
  forward_loop-keys [] stat b = refl
  forward_loop-keys (name ∷ names) stat b =
      let ex : KeyExchange =
        (forward_to delivers pm members (found_or_new (lookup name stat)) name).0 in
      ground (arith, forward_loop-keys names (put name ex stat) b, contains-keys-put name b ex stat)

  forward_loop-IsExchange :
      (others names : List Bytes) (stat : Exchanges)
      → ((b : Bytes) → contains names b ≡ true → contains others b ≡ true)
      → IsExchange others stat
      → IsExchange others (forward_loop delivers pm members names stat).0
  unfolding forward_loop contains
  forward_loop-IsExchange others [] stat sub v = v
  forward_loop-IsExchange others (name ∷ names) stat sub v =
      forward_loop-IsExchange others names (put name _ stat) (λ b h. sub b (ground (arith, h)))
        (put-IsExchange others name _ stat (sub name (ground (arith, same_refl name))) v)

-- After a round of forwarding, `checkCleanup` clears the seed exactly when the key was sent to every
-- other seed node and received from it; its test of the sizes, on which it would clear the seed at
-- once, does not fail then. The map of marks must be in order before, and is in order after.
pub cleanup_after_forward :
    (delivers : Bytes → Bool) (pm : PeerMessage) (s : Seed)
    → IsDistinct s.other_seed_nodes
    → IsExchange s.other_seed_nodes s.key_exchange_stat
    → let s' = (forward_key_to_other_seed_peers delivers pm s).0 in
      (check_cleanup s' ≡ (if all_complete s'.key_exchange_stat then cleaned_up s' else s'))
      × IsExchange s.other_seed_nodes s'.key_exchange_stat
      × ((b : Bytes)
          → contains s.other_seed_nodes b ≡ true
          → contains (keys s'.key_exchange_stat) b ≡ true)
unfolding forward_key_to_other_seed_peers check_cleanup
cleanup_after_forward delivers pm s d v =
    let stat : Exchanges =
      (forward_loop delivers pm s.other_members s.other_seed_nodes s.key_exchange_stat).0 in
    let v' : IsExchange s.other_seed_nodes stat =
      forward_loop-IsExchange delivers pm s.other_members s.other_seed_nodes s.other_seed_nodes
        s.key_exchange_stat (λ b h. h) v in
    let full : (b : Bytes) → contains s.other_seed_nodes b ≡ true → contains (keys stat) b ≡ true =
      λ b h. ground (
        arith,
        h,
        forward_loop-keys delivers pm s.other_members s.other_seed_nodes s.key_exchange_stat b,
      ) in
    let sizes : length s.other_seed_nodes ≡ length stat = omega (
      arith,
      length-keys stat,
      distinct_le (keys stat) s.other_seed_nodes v'.once v'.known,
      distinct_le s.other_seed_nodes (keys stat) d full,
    ) in
    (ground (arith, sizes), v', full)

-- `keyReceived` ends the process on a key from a node that is no other seed node, on a key that has
-- not 32 bytes, and on a key other than the one that it holds, once that is neither empty nor the
-- dummy.
pub key_received_refuses :
    (k sender : Bytes) (s : Seed)
    → (contains s.other_seed_nodes sender ≡ false)
      ⊎ (length k ≢ key_size)
      ⊎ ((s.generated_key ≢ []) × (s.generated_key ≢ dummy_key) × (s.generated_key ≢ k))
    → key_received k sender s ≡ panic
unfolding key_received accept_key adopt_key
key_received_refuses k sender s (inl h) = rw h
key_received_refuses k sender s (inr (inl h)) = ground (arith, h)
key_received_refuses k sender s (inr (inr h)) =
    ground (arith, h.0, h.1, h.2, same_iff dummy_key s.generated_key, same_iff k s.generated_key)

adopt_key-keeps :
    (k : Bytes) (s : Seed)
    → ((adopt_key k s).other_seed_nodes ≡ s.other_seed_nodes)
      × ((adopt_key k s).key_exchange_stat ≡ s.key_exchange_stat)
unfolding adopt_key
adopt_key-keeps k s = ground arith

-- What `keyReceived` promises of its result.
abbrev pub Completes : Bytes → Seed → Received → Type 0
Completes k s r =
    IsExchange r.seed.other_seed_nodes r.seed.key_exchange_stat
    × (r.returned ≢ []
        → (r.returned ≡ k)
          × (r.seed.generated_key ≡ k)
          × ((b : Bytes)
              → contains s.other_seed_nodes b ≡ true
              → (ex : KeyExchange) × (lookup b r.seed.key_exchange_stat ≡ some ex)
                × (ex.received_from ≡ true)))

record_received-Completes :
    (k sender : Bytes) (s : Seed)
    → IsExchange s.other_seed_nodes s.key_exchange_stat
    → contains s.other_seed_nodes sender ≡ true
    → s.generated_key ≡ k
    → Completes k s (record_received k sender s)
unfolding record_received
record_received-Completes k sender s v h g =
    let ex : KeyExchange = mark_received (lookup sender s.key_exchange_stat) in
    let marked : Seed = record s { key_exchange_stat = put sender ex s.key_exchange_stat } in
    let v' : IsExchange s.other_seed_nodes (put sender ex s.key_exchange_stat) =
      put-IsExchange s.other_seed_nodes sender ex s.key_exchange_stat h v in
    (
      v',
      λ done. elim (Bool-cases (has_received_keys_from_all_seed_peers marked)) [
        | inl e ↦ (rw e, g, has_received-all marked v' e)
        | inr e ↦ absurd (done (rw e))
      ],
    )

accept_key-Completes :
    (k sender : Bytes) (s : Seed)
    → IsExchange s.other_seed_nodes s.key_exchange_stat
    → contains s.other_seed_nodes sender ≡ true
    → Post (Completes k s) (accept_key k sender s)
unfolding accept_key
accept_key-Completes k sender s v h = elim (Bool-cases (length s.generated_key == 0)) [
  | inl e ↦ rw e (v, λ done. absurd (done refl))
  | inr e ↦
      let (others, stat) = adopt_key-keeps k s in
      rw e (
        Post-bind (λ _. same k (adopt_key k s).generated_key ≡ true) (Completes k s)
          (require (same k (adopt_key k s).generated_key)) _
          (require-Post (same k (adopt_key k s).generated_key))
          (λ _ match.
            let r =
              record_received-Completes k sender (adopt_key k s) (rw (others, stat) v) (rw others h)
                (sym (eq_of_same k _ match)) in
            (r.0, λ done. let (a, b, c) = r.1 done in (a, b, λ n inside. c n (rw others inside)))))
]

-- Where `keyReceived` returns, the sender is another seed node, the key has 32 bytes, and the marks
-- stay in order; and if it returns a key and not the empty one, that is the key received, the seed
-- holds it, and it has come from every other seed node.
pub key_received-Completes :
    (k sender : Bytes) (s : Seed) (r : Received)
    → IsExchange s.other_seed_nodes s.key_exchange_stat
    → key_received k sender s ≡ ok r
    → (contains s.other_seed_nodes sender ≡ true) × (length k ≡ key_size) × Completes k s r
unfolding key_received
key_received-Completes k sender s r v e =
    let P = λ (r : Received).
      (contains s.other_seed_nodes sender ≡ true) × (length k ≡ key_size) × Completes k s r in
    Post-ok P (key_received k sender s)
      (Post-bind (λ _. contains s.other_seed_nodes sender ≡ true) P
        (require (contains s.other_seed_nodes sender)) _
        (require-Post (contains s.other_seed_nodes sender))
        (λ _ inside.
          Post-bind (λ _. (length k == key_size) ≡ true) P (require (length k == key_size)) _
            (require-Post (length k == key_size))
            (λ _ size.
              Post-map (Completes k s) P (accept_key k sender s)
                (λ r c. (inside, ground (arith, size), c))
                (accept_key-Completes k sender s v inside))))
      e
