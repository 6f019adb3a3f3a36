-- ===== src/Common/Set.antt =====
-- internal/common/set.go: a mutex-protected set of strings over a Go map. The list holds the keys
-- of the map, which has no order in Go. The lock makes each method one step.
pub mod Order
pub mod Sorting
pub mod Methods
use betterkey.Prelude.{
  ℕ, Bool, true, false, List, [], ◌∷◌, Bytes, str, same, less, contains, length, if◌then◌else◌,
}

pub record Set : Type 0 where
  pub m : List Bytes

unfoldable pub new_set : Set
new_set = record { m = [] }

unfoldable pub size : Set → ℕ
size s = length s.m

-- `s.m[e] = existMark`
unfoldable pub put_key : List Bytes → Bytes → List Bytes
put_key m e = if contains m e then m else e ∷ m

unfoldable pub delete_key : List Bytes → Bytes → List Bytes
delete_key [] e = []
delete_key (k ∷ m) e = let rest = delete_key m e in if same k e then rest else k ∷ rest

unfoldable pub add : Set → Bytes → Set
unfolding put_key
add s e = if same e [] then s else record { m = put_key s.m e }

unfoldable pub add_all : Set → List Bytes → Set
unfolding add
add_all s [] = s
add_all s (e ∷ es) = add_all (add s e) es

unfoldable pub remove : Set → Bytes → Set
unfolding delete_key
remove s e = if same e [] then s else record { m = delete_key s.m e }

unfoldable pub clear : Set → Set
clear s = record { m = [] }

unfoldable pub has : Set → Bytes → Bool
has s e = if same e [] then false else contains s.m e

insert : Bytes → List Bytes → List Bytes
insert x [] = x ∷ []
insert x (y ∷ ys) = let rest = insert x ys in if less y x then y ∷ rest else x ∷ y ∷ ys

-- `sort.Strings`
sort_strings : List Bytes → List Bytes
unfolding insert
sort_strings [] = []
sort_strings (x ∷ xs) = insert x (sort_strings xs)

unfoldable pub sorted : Set → List Bytes
unfolding sort_strings
sorted s = sort_strings s.m

slices_equal : List Bytes → List Bytes → Bool
slices_equal [] [] = true
slices_equal [] (y ∷ ys) = false
slices_equal (x ∷ xs) [] = false
slices_equal (x ∷ xs) (y ∷ ys) = if same x y then slices_equal xs ys else false

unfoldable pub equals : Set → List Bytes → Bool
unfolding slices_equal
equals s other = slices_equal (sorted s) other
