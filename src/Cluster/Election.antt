-- ===== src/Cluster/Election.antt =====
-- Who draws the master key: `seed` of seed.go takes the first of the sorted seed nodes, and the
-- nodes are configured one by one.
use betterkey.Prelude.{
  ◌≡◌, refl, sym, ap, inl, inr, ◌⊎◌, ◌≢◌, true, ◌&&◌, not, List, [], ◌∷◌, arith, Bool-cases, Bytes,
  ℕ, same, less, contains, same_iff, subst,
}
use betterkey.Common.Result.{ok}
use betterkey.Common.Set.{Set, new_set, add, add_all, remove, sorted}
use betterkey.Common.Set.Order.{SameElements, IsRising, contains-Above}
use betterkey.Common.Set.Sorting.{contains-sorted, sorted-IsRising, sorted-eq_of_SameElements}
use betterkey.Common.Set.Methods.{
  IsNameSet, new_set-IsNameSet, add-IsNameSet, add_all-IsNameSet, remove-IsNameSet, contains-add,
  contains-add_all, contains-remove, contains-new_set,
}
use betterkey.Cluster.Node.{Config, new_node, configured_seed_nodes, all_seed_nodes, is_master}

abbrev pub names_of : List Bytes → Set
names_of seeds = add_all new_set seeds

names_of-IsNameSet : (seeds : List Bytes) → IsNameSet (names_of seeds)
names_of-IsNameSet seeds = add_all-IsNameSet new_set seeds new_set-IsNameSet

contains-names_of :
    (seeds : List Bytes) (b : Bytes)
    → contains (names_of seeds).m b ≡ (contains seeds b && not (same b []))
contains-names_of seeds b = ground (arith, contains-add_all new_set seeds b, contains-new_set b)

-- The sorted names depend on the names alone.
pub sorted-names_of :
    (xs ys : List Bytes) → SameElements xs ys → sorted (names_of xs) ≡ sorted (names_of ys)
sorted-names_of xs ys h =
    sorted-eq_of_SameElements (names_of xs) (names_of ys) (names_of-IsNameSet xs).distinct
      (names_of-IsNameSet ys).distinct
      (λ b. ground (arith, contains-names_of xs b, contains-names_of ys b, h b))

pub sorted-others :
    (xs ys : List Bytes) (id : Bytes)
    → SameElements xs ys
    → sorted (remove (names_of xs) id) ≡ sorted (remove (names_of ys) id)
sorted-others xs ys id h =
    sorted-eq_of_SameElements (remove (names_of xs) id) (remove (names_of ys) id)
      (remove-IsNameSet (names_of xs) id (names_of-IsNameSet xs)).distinct
      (remove-IsNameSet (names_of ys) id (names_of-IsNameSet ys)).distinct
      (λ b. ground (
        arith,
        contains-remove (names_of xs) id b (names_of-IsNameSet xs),
        contains-remove (names_of ys) id b (names_of-IsNameSet ys),
        contains-names_of xs b,
        contains-names_of ys b,
        h b,
      ))

-- A seed node that puts itself back among the others has the whole list again.
pub sorted-with_self :
    (seeds : List Bytes) (id : Bytes)
    → contains (sorted (names_of seeds)) id ≡ true
    → sorted (add_all (add new_set id) (sorted (remove (names_of seeds) id)))
      ≡ sorted (names_of seeds)
sorted-with_self seeds id h =
    let others : List Bytes = sorted (remove (names_of seeds) id) in
    let v : IsNameSet (names_of seeds) = names_of-IsNameSet seeds in
    let u : IsNameSet (add_all (add new_set id) others) =
      add_all-IsNameSet (add new_set id) others (add-IsNameSet new_set id new_set-IsNameSet) in
    sorted-eq_of_SameElements (add_all (add new_set id) others) (names_of seeds) u.distinct
      v.distinct
      (λ b. ground (
        arith,
        contains-add_all (add new_set id) others b,
        contains-add new_set id b,
        contains-new_set b,
        contains-sorted (remove (names_of seeds) id) b,
        contains-remove (names_of seeds) id b v,
        contains-names_of seeds b,
        contains-names_of seeds id,
        contains-sorted (names_of seeds) id,
        same_iff id b,
      ))

abbrev pub IsSeedNode : Config → Type 0
IsSeedNode c = contains (configured_seed_nodes c) c.node_host ≡ true

-- The names that a new seed node sorts in `seed` are the configured ones.
pub all_seed_nodes-new_node :
    (c : Config) (now : ℕ)
    → IsSeedNode c
    → all_seed_nodes (new_node c now) ≡ sorted (names_of c.seed_nodes)
unfolding all_seed_nodes new_node
all_seed_nodes-new_node c now h = sorted-with_self c.seed_nodes c.node_host h

-- The first of the sorted names: a seed node, at or below each of them.
pub record IsLeader (seeds : List Bytes) (first : Bytes) : Type 0 where
  pub elected : contains seeds first ≡ true
  pub least : (b : Bytes) → contains seeds b ≡ true → b ≢ [] → (b ≡ first) ⊎ (less first b ≡ true)

head_leads :
    (id first : Bytes) (rest : List Bytes) (b : Bytes)
    → IsRising (first ∷ rest)
    → contains (first ∷ rest) b ≡ true
    → (b ≡ first) ⊎ (less first b ≡ true)
unfolding contains
head_leads id first rest b up h = elim (Bool-cases (same first b)) [
  | inl e ↦ inl (sym ((same_iff first b).0 e))
  | inr e ↦ inr (contains-Above first b rest up (ground (arith, e)))
]

-- The decision of one node, by the sorted list of names.
decides :
    (seeds names : List Bytes) (id : Bytes)
    → sorted (names_of seeds) ≡ names
    → contains names id ≡ true
    → (first : Bytes) × IsLeader seeds first × ((j : Bytes) → is_master j names ≡ ok (same first j))
unfolding contains is_master
decides seeds [] id e h = cc
decides seeds (first ∷ rest) id e h = (
  first,
  record {
    elected = ground (
      arith,
      contains-names_of seeds first,
      contains-sorted (names_of seeds) first,
      ap (λ t. contains t first) e,
      same_iff first first,
    );
    least = λ b inside filled.
        head_leads id first rest b
          (subst IsRising e (sorted-IsRising (names_of seeds) (names_of-IsNameSet seeds).distinct))
          (ground (
            arith,
            contains-names_of seeds b,
            contains-sorted (names_of seeds) b,
            ap (λ t. contains t b) e,
            same_iff b [],
          ));
  },
  λ j. refl,
)

-- Any two seed nodes whose configurations list the same seed nodes, in whatever order and however
-- often, come to the same decision in `seed`: there is one name, among the seed nodes and the least
-- of those that are not empty, such that each of the two takes itself for the master exactly when it
-- bears that name; neither panics.
pub election :
    (c d : Config) (now later : ℕ)
    → IsSeedNode c
    → IsSeedNode d
    → SameElements c.seed_nodes d.seed_nodes
    → (first : Bytes) × IsLeader c.seed_nodes first
      × (is_master c.node_host (all_seed_nodes (new_node c now)) ≡ ok (same first c.node_host))
      × (is_master d.node_host (all_seed_nodes (new_node d later)) ≡ ok (same first d.node_host))
unfolding configured_seed_nodes
election c d now later hc hd h =
    let (first, leads, decide) =
      decides c.seed_nodes (sorted (names_of c.seed_nodes)) c.node_host refl hc in
    (
      first,
      leads,
      rw (all_seed_nodes-new_node c now hc) (decide c.node_host),
      rw (all_seed_nodes-new_node d later hd, ← sorted-names_of c.seed_nodes d.seed_nodes h)
          (decide d.node_host),
    )
