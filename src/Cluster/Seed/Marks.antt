-- ===== src/Cluster/Seed/Marks.antt =====
-- The marks of the exchange of seed.go: the map in order, and what the test that the key has come from
-- every other seed node says of it.
use betterkey.Prelude.{
  suc, ◌≤◌, ◌≡◌, refl, ap, ◌∙◌, inl, inr, true, false, List, [], ◌∷◌, some, arith, Bytes,
  Bool-cases, same, same_iff, same_refl, eq_of_same, contains, length, lookup, put, keys,
  contains-keys-put, if◌then◌else◌, subst,
}
use betterkey.Common.Set.Sorting.{IsDistinct}
use betterkey.Cluster.Seed.{Seed, has_received_keys_from_all_seed_peers}
use betterkey.Cluster.Seed.Exchange.{KeyExchange, Exchanges, all_received}

-- The map holds each name once, and names of other seed nodes only.
pub record IsExchange (others : List Bytes) (stat : Exchanges) : Type 0 where
  pub once : IsDistinct (keys stat)
  pub known : (b : Bytes) → contains (keys stat) b ≡ true → contains others b ≡ true

pub length-keys : (stat : Exchanges) → length (keys stat) ≡ length stat
length-keys [] = refl
length-keys ((j, ex) ∷ m) = ap suc (length-keys m)

pub put-IsDistinct :
    (k : Bytes) (ex : KeyExchange) (m : Exchanges)
    → IsDistinct (keys m)
    → IsDistinct (keys (put k ex m))
unfolding put contains
put-IsDistinct k ex [] d = (refl, tt)
put-IsDistinct k ex ((j, old) ∷ m) d =
    ground
      (arith, put-IsDistinct k ex m d.1, contains-keys-put k j ex m, same_iff j k, same_iff k j)

-- A mark for another seed node keeps the map in order.
pub put-IsExchange :
    (others : List Bytes) (k : Bytes) (ex : KeyExchange) (m : Exchanges)
    → contains others k ≡ true
    → IsExchange others m
    → IsExchange others (put k ex m)
put-IsExchange others k ex m h v = record {
  once = put-IsDistinct k ex m v.once;
  known = λ b c. elim (Bool-cases (same k b)) [
    | inl e ↦ subst (λ t. contains others t ≡ true) (eq_of_same k b e) h
    | inr e ↦ v.known b (ground (arith, e, c, contains-keys-put k b ex m))
  ];
}

-- A list without the first occurrence of a name.
erase : Bytes → List Bytes → List Bytes
erase b [] = []
erase b (x ∷ xs) = let rest = erase b xs in if same x b then xs else x ∷ rest

length-erase :
    (b : Bytes) (xs : List Bytes) → contains xs b ≡ true → suc (length (erase b xs)) ≡ length xs
unfolding erase contains
length-erase b [] h = cc
length-erase b (x ∷ xs) h = ground (arith, length-erase b xs)

contains-erase :
    (b c : Bytes) (xs : List Bytes) → same b c ≡ false → contains (erase b xs) c ≡ contains xs c
unfolding erase contains
contains-erase b c [] h = refl
contains-erase b c (x ∷ xs) h =
    ground (arith, contains-erase b c xs h, same_iff x b, same_iff x c, same_iff b c)

-- Distinct names among the others, as many as the others, are all of the others.
all_others :
    (xs ys : List Bytes)
    → IsDistinct xs
    → ((b : Bytes) → contains xs b ≡ true → contains ys b ≡ true)
    → length ys ≤ length xs
    → (c : Bytes) → contains ys c ≡ true
    → contains xs c ≡ true
unfolding contains
all_others [] [] d sub le c h = h
all_others [] (y ∷ ys) d sub le c h = absurd (omega arith)
all_others (x ∷ xs) ys d sub le c h = elim (Bool-cases (same x c)) [
  | inl e ↦ rw e
  | inr e ↦
      let here : contains ys x ≡ true = sub x (ground (arith, same_refl x)) in
      let inner : (b : Bytes) → contains xs b ≡ true → contains (erase x ys) b ≡ true = λ b k.
        elim (Bool-cases (same x b)) [
          | inl p ↦ cc (d.0, k, eq_of_same x b p)
          | inr p ↦ contains-erase x b ys p ∙ sub b (ground (arith, k, p))
        ] in
      rw e (
        all_others xs (erase x ys) d.1 inner (omega (arith, length-erase x ys here)) c
          (contains-erase x c ys e ∙ h))
]

lookup-received :
    (stat : Exchanges) (b : Bytes)
    → all_received stat ≡ true
    → contains (keys stat) b ≡ true
    → (ex : KeyExchange) × (lookup b stat ≡ some ex) × (ex.received_from ≡ true)
unfolding all_received lookup contains
lookup-received [] b h c = cc
lookup-received ((j, ex) ∷ m) b h c = elim (Bool-cases (same j b)) [
  | inl e ↦ (ex, ground (arith, e), ground (arith, h))
  | inr e ↦
      let (found, at, marked) = lookup-received m b (ground (arith, h)) (ground (arith, e, c)) in
      (found, ground (arith, e, at), marked)
]

-- Where the map is in order, the test of `hasReceivedKeysFromAllSeedPeers` is exact in one direction:
-- once it passes, the key has come from every other seed node.
pub has_received-all :
    (s : Seed)
    → IsExchange s.other_seed_nodes s.key_exchange_stat
    → has_received_keys_from_all_seed_peers s ≡ true
    → (b : Bytes) → contains s.other_seed_nodes b ≡ true
    → (ex : KeyExchange) × (lookup b s.key_exchange_stat ≡ some ex) × (ex.received_from ≡ true)
unfolding has_received_keys_from_all_seed_peers
has_received-all s v h b c = lookup-received s.key_exchange_stat b (ground (arith, h)) (
    all_others (keys s.key_exchange_stat) s.other_seed_nodes v.once v.known
      (ground (arith, h, length-keys s.key_exchange_stat)) b c)

pub distinct_le :
    (xs ys : List Bytes)
    → IsDistinct xs
    → ((b : Bytes) → contains xs b ≡ true → contains ys b ≡ true)
    → length xs ≤ length ys
unfolding contains
distinct_le [] ys d sub = omega arith
distinct_le (x ∷ xs) ys d sub =
    let here : contains ys x ≡ true = sub x (ground (arith, same_refl x)) in
    let inner : (b : Bytes) → contains xs b ≡ true → contains (erase x ys) b ≡ true = λ b k.
      elim (Bool-cases (same x b)) [
        | inl p ↦ cc (d.0, k, eq_of_same x b p)
        | inr p ↦ contains-erase x b ys p ∙ sub b (ground (arith, k, p))
      ] in
    omega (arith, length-erase x ys here, distinct_le xs (erase x ys) d.1 inner)
