-- ===== src/Cluster/Bootstrap.antt =====
-- internal/cluster/bootstrap.go: the listener that lets `Start` go on to the web server once the node is
-- READY. Its wait group counts down from 1, and a `Done` at zero is a panic.
use betterkey.Prelude.{
  ℕ, zero, suc, ◌≡◌, refl, inl, inr, Bool, true, false, ◌&&◌, not, List, [], ◌∷◌, Bool-cases, ◌==◌,
  if◌then◌else◌,
}
use betterkey.Common.Result.{Result, ok, panic, ◌>>=◌}
use betterkey.Cluster.Message.{node_state_ready}

pub record NodeStateListener : Type 0 where
  pub is_done : Bool
  pub countdown : ℕ

-- The listener that `Start` makes.
abbrev pub new_listener : NodeStateListener
new_listener = record { is_done = false; countdown = 1 }

abbrev count_down : ℕ → Result ℕ
count_down zero = panic
count_down (suc n) = ok n

unfoldable pub on_state_changed : ℕ → NodeStateListener → Result NodeStateListener
on_state_changed state n =
    if not n.is_done && (state == node_state_ready)
    then (do left ← count_down n.countdown; ok (record { is_done = true; countdown = left }))
    else ok n

-- The states of which a node tells, one after the other.
abbrev pub on_states : List ℕ → NodeStateListener → Result NodeStateListener
on_states [] n = ok n
on_states (s ∷ ss) n = on_state_changed s n >>= λ m. on_states ss m

-- Where READY was told, `Start` was let go on.
abbrev pub released : Bool → NodeStateListener
released true = record { is_done = true; countdown = 0 }
released false = new_listener

abbrev pub gets_ready : List ℕ → Bool
gets_ready [] = false
gets_ready (s ∷ ss) = if s == node_state_ready then true else gets_ready ss

stays_done : (ss : List ℕ) → on_states ss (released true) ≡ ok (released true)
unfolding on_state_changed
stays_done [] = refl
stays_done (s ∷ ss) = stays_done ss

-- Whatever states the node goes through, the listener never panics, and `Start` is let go on, once,
-- exactly where one of them is READY.
pub on_states-released : (ss : List ℕ) → on_states ss new_listener ≡ ok (released (gets_ready ss))
unfolding on_state_changed
on_states-released [] = refl
on_states-released (s ∷ ss) = elim (Bool-cases (s == node_state_ready)) [
  | inl e ↦ rw e (stays_done ss)
  | inr e ↦ rw e (on_states-released ss)
]
