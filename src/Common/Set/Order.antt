-- ===== src/Common/Set/Order.antt =====
-- Strictly rising lists of strings, and their elements.
use betterkey.Prelude.{
  ◌≡◌, refl, sym, subst, inl, inr, true, false, List, [], ◌∷◌, arith, Bool-cases, Bytes, same, less,
  contains, same_refl, eq_of_same, less_trans, less_irrefl, less_total,
}

-- Every element is above `a`, and the list rises.
abbrev pub Above : Bytes → List Bytes → Type 0
Above a [] = Unit {0}
Above a (x ∷ xs) = (less a x ≡ true) × Above x xs

abbrev pub IsRising : List Bytes → Type 0
IsRising [] = Unit {0}
IsRising (x ∷ xs) = Above x xs

pub IsRising-tail : (a : Bytes) (xs : List Bytes) → Above a xs → IsRising xs
IsRising-tail a [] h = tt
IsRising-tail a (x ∷ xs) h = h.1

pub Above-lower : (a b : Bytes) (xs : List Bytes) → less a b ≡ true → Above b xs → Above a xs
Above-lower a b [] h k = tt
Above-lower a b (x ∷ xs) h k = (less_trans a b x h k.0, k.1)

-- What is above `a` is not in the list under it.
pub contains-Above :
    (a b : Bytes) (xs : List Bytes) → Above a xs → contains xs b ≡ true → less a b ≡ true
unfolding contains
contains-Above a b [] h k = cc
contains-Above a b (x ∷ xs) h k = elim (Bool-cases (same x b)) [
  | inl e ↦ cc (h.0, eq_of_same x b e)
  | inr e ↦ less_trans a x b h.0 (contains-Above x b xs h.1 (ground (arith, e)))
]

pub not_contains-Above : (a : Bytes) (xs : List Bytes) → Above a xs → contains xs a ≡ false
not_contains-Above a xs h = elim (Bool-cases (contains xs a)) [
  | inl e ↦ cc (contains-Above a a xs h e, less_irrefl a)
  | inr e ↦ e
]

abbrev pub SameElements : List Bytes → List Bytes → Type 0
SameElements xs ys = (b : Bytes) → contains xs b ≡ contains ys b

contains-cons_self : (a : Bytes) (xs : List Bytes) → contains (a ∷ xs) a ≡ true
unfolding contains
contains-cons_self a xs = ground (arith, same_refl a)

not_above_head :
    (x y : Bytes) (xs ys : List Bytes)
    → IsRising (x ∷ xs)
    → IsRising (y ∷ ys)
    → SameElements (x ∷ xs) (y ∷ ys)
    → less x y ≡ false
unfolding contains
not_above_head x y xs ys hx hy s = elim (Bool-cases (less x y)) [
  | inl e ↦ cc (e, s x, contains-cons_self x xs, not_contains-Above x (y ∷ ys) (e, hy))
  | inr e ↦ e
]

same_tail :
    (x b : Bytes) (xs ys : List Bytes)
    → Above x xs
    → Above x ys
    → contains (x ∷ xs) b ≡ contains (x ∷ ys) b
    → contains xs b ≡ contains ys b
unfolding contains
same_tail x b xs ys hx hy s = elim (Bool-cases (same x b)) [
  | inl e ↦
      let p = eq_of_same x b e in cc (p, not_contains-Above x xs hx, not_contains-Above x ys hy)
  | inr e ↦ ground (arith, e)
]

-- Two strictly rising lists with the same elements are equal.
pub eq_of_SameElements :
    (xs ys : List Bytes) → IsRising xs → IsRising ys → SameElements xs ys → xs ≡ ys
unfolding contains
eq_of_SameElements [] [] hx hy s = refl
eq_of_SameElements [] (y ∷ ys) hx hy s = cc (s y, contains-cons_self y ys)
eq_of_SameElements (x ∷ xs) [] hx hy s = cc (s x, contains-cons_self x xs)
eq_of_SameElements (x ∷ xs) (y ∷ ys) hx hy s =
    let head : x ≡ y =
      less_total x y (not_above_head x y xs ys hx hy s)
        (not_above_head y x ys xs hy hx (λ b. sym (s b))) in
    let hy' : Above x ys = subst (λ z. Above z ys) (sym head) hy in
    let tails : xs ≡ ys =
      eq_of_SameElements xs ys (IsRising-tail x xs hx) (IsRising-tail x ys hy')
        (λ b. same_tail x b xs ys hx hy' (cc (s b, head))) in
    cc (head, tails)
