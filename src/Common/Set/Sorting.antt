-- ===== src/Common/Set/Sorting.antt =====
-- The list that `Set.Sorted` makes of the elements of a set.
use betterkey.Prelude.{
  ◌≡◌, refl, ap, inl, inr, true, false, ◌||◌, List, [], ◌∷◌, ◌∙◌, arith, Bool-cases, Bytes, same,
  less, contains, less_total, same_refl, sym,
}
use betterkey.Common.Set.{Set, insert, sort_strings, sorted}
use betterkey.Common.Set.Order.{Above, IsRising, SameElements, eq_of_SameElements}

-- A map has each key once.
abbrev pub IsDistinct : List Bytes → Type 0
IsDistinct [] = Unit {0}
IsDistinct (x ∷ xs) = (contains xs x ≡ false) × IsDistinct xs

contains-insert :
    (x b : Bytes) (xs : List Bytes) → contains (insert x xs) b ≡ (same x b || contains xs b)
unfolding contains insert
contains-insert x b [] = refl
contains-insert x b (y ∷ ys) = ground (arith, contains-insert x b ys)

contains-sort_strings : (xs : List Bytes) (b : Bytes) → contains (sort_strings xs) b ≡ contains xs b
unfolding contains sort_strings
contains-sort_strings [] b = refl
contains-sort_strings (x ∷ xs) b =
    contains-insert x b (sort_strings xs) ∙ ap (λ t. same x b || t) (contains-sort_strings xs b)

insert-Above :
    (a x : Bytes) (xs : List Bytes)
    → less a x ≡ true
    → Above a xs
    → contains xs x ≡ false
    → Above a (insert x xs)
unfolding insert contains
insert-Above a x [] h k d = (h, tt)
insert-Above a x (y ∷ ys) h k d = elim (Bool-cases (less y x)) [
  | inl e ↦ rw e (k.0, insert-Above y x ys e k.1 (ground arith))
  | inr e ↦
      let up : less x y ≡ true = elim (Bool-cases (less x y)) [
        | inl f ↦ f
        | inr f ↦
            let p = less_total y x e f in
            absurd (ground (arith, d, same_refl x, ap (λ t. same t x) p))
      ] in
      rw e (h, (up, k.1))
]

insert-IsRising :
    (x : Bytes) (xs : List Bytes) → IsRising xs → contains xs x ≡ false → IsRising (insert x xs)
unfolding insert contains
insert-IsRising x [] k d = tt
insert-IsRising x (y ∷ ys) k d = elim (Bool-cases (less y x)) [
  | inl e ↦ rw e (insert-Above y x ys e k (ground arith))
  | inr e ↦
      let up : less x y ≡ true = elim (Bool-cases (less x y)) [
        | inl f ↦ f
        | inr f ↦
            let p = less_total y x e f in
            absurd (ground (arith, d, same_refl x, ap (λ t. same t x) p))
      ] in
      rw e (up, k)
]

sort_strings-IsRising : (xs : List Bytes) → IsDistinct xs → IsRising (sort_strings xs)
unfolding sort_strings
sort_strings-IsRising [] d = tt
sort_strings-IsRising (x ∷ xs) d =
    insert-IsRising x (sort_strings xs) (sort_strings-IsRising xs d.1)
      (contains-sort_strings xs x ∙ d.0)

-- `Sorted` neither loses nor adds an element.
pub contains-sorted : (s : Set) (b : Bytes) → contains (sorted s) b ≡ contains s.m b
unfolding sorted
contains-sorted s b = contains-sort_strings s.m b

-- Its list rises strictly.
pub sorted-IsRising : (s : Set) → IsDistinct s.m → IsRising (sorted s)
unfolding sorted
sorted-IsRising s d = sort_strings-IsRising s.m d

-- Maps with the same keys have the same `Sorted` list, in whatever order they were filled.
pub sorted-eq_of_SameElements :
    (s t : Set) → IsDistinct s.m → IsDistinct t.m → SameElements s.m t.m → sorted s ≡ sorted t
unfolding sorted
sorted-eq_of_SameElements s t ds dt h =
    eq_of_SameElements (sort_strings s.m) (sort_strings t.m) (sort_strings-IsRising s.m ds)
      (sort_strings-IsRising t.m dt)
      (λ b. contains-sort_strings s.m b ∙ h b ∙ sym (contains-sort_strings t.m b))
