-- ===== src/Common/Set/Methods.antt =====
-- What `Add`, `AddAll`, `Remove` and `Contains` do to the elements of a set and to the keys of its
-- map.
use betterkey.Prelude.{
  ◌≡◌, refl, inl, inr, false, ◌&&◌, ◌||◌, not, List, [], ◌∷◌, arith, Bool-cases, Bytes, same,
  contains, eq_of_same, same_iff, if◌then◌else◌,
}
use betterkey.Common.Set.{Set, new_set, put_key, delete_key, add, add_all, remove, has}
use betterkey.Common.Set.Sorting.{IsDistinct}

-- The empty string is never an element.
pub record IsNameSet (s : Set) : Type 0 where
  pub distinct : IsDistinct s.m
  pub no_empty : contains s.m [] ≡ false

pub new_set-IsNameSet : IsNameSet new_set
unfolding new_set contains
new_set-IsNameSet = record { distinct = tt; no_empty = refl }

contains-put_key :
    (m : List Bytes) (e b : Bytes) → contains (put_key m e) b ≡ (same e b || contains m b)
unfolding put_key contains
contains-put_key m e b = elim (Bool-cases (contains m e)) [
  | inl h ↦ rw h (elim (Bool-cases (same e b)) [
    | inl k ↦ cc (k, h, eq_of_same e b k)
    | inr k ↦ ground (arith, k)
  ])
  | inr h ↦ rw h
]

contains-delete_key :
    (m : List Bytes) (e b : Bytes) → contains (delete_key m e) b ≡ (not (same e b) && contains m b)
unfolding delete_key contains
contains-delete_key [] e b = ground arith
contains-delete_key (k ∷ m) e b =
    ground (arith, contains-delete_key m e b, same_iff k e, same_iff k b, same_iff e b)

delete_key-IsDistinct : (m : List Bytes) (e : Bytes) → IsDistinct m → IsDistinct (delete_key m e)
unfolding delete_key
delete_key-IsDistinct [] e d = tt
delete_key-IsDistinct (k ∷ m) e d =
    ground (arith, delete_key-IsDistinct m e d.1, contains-delete_key m e k)

pub has-add :
    (s : Set) (e b : Bytes)
    → IsNameSet s
    → has (add s e) b ≡ (if same e [] then has s b else (same e b || has s b))
unfolding has add
has-add s e b v =
    ground (arith, contains-put_key s.m e b, same_iff e b, same_iff e [], same_iff b [])

pub add-IsNameSet : (s : Set) (e : Bytes) → IsNameSet s → IsNameSet (add s e)
unfolding add put_key contains
add-IsNameSet s e v = ground arith

pub add_all-IsNameSet : (s : Set) (es : List Bytes) → IsNameSet s → IsNameSet (add_all s es)
unfolding add_all
add_all-IsNameSet s [] v = v
add_all-IsNameSet s (e ∷ es) v = add_all-IsNameSet (add s e) es (add-IsNameSet s e v)

pub remove-IsNameSet : (s : Set) (e : Bytes) → IsNameSet s → IsNameSet (remove s e)
unfolding remove
remove-IsNameSet s e v =
    ground (arith, delete_key-IsDistinct s.m e v.distinct, contains-delete_key s.m e [])

pub contains-add :
    (s : Set) (e b : Bytes)
    → contains (add s e).m b ≡ (contains s.m b || (same e b && not (same b [])))
unfolding add
contains-add s e b =
    ground (arith, contains-put_key s.m e b, same_iff e b, same_iff e [], same_iff b [])

-- After `AddAll` the elements are the old ones and the names of the list that are not empty.
pub contains-add_all :
    (s : Set) (es : List Bytes) (b : Bytes)
    → contains (add_all s es).m b ≡ (contains s.m b || (contains es b && not (same b [])))
unfolding add_all contains
contains-add_all s [] b = ground arith
contains-add_all s (e ∷ es) b = ground (arith, contains-add_all (add s e) es b, contains-add s e b)

-- After `Remove` the elements are the old ones but `e`.
pub contains-remove :
    (s : Set) (e b : Bytes)
    → IsNameSet s
    → contains (remove s e).m b ≡ (not (same e b) && contains s.m b)
unfolding remove
contains-remove s e b v =
    ground (arith, contains-delete_key s.m e b, same_iff e b, same_iff e [], same_iff b [])

pub contains-new_set : (b : Bytes) → contains new_set.m b ≡ false
unfolding new_set contains
contains-new_set b = refl
