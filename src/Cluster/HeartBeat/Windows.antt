-- ===== src/Cluster/HeartBeat/Windows.antt =====
-- What a tick and a window make of the samples.
use betterkey.Prelude.{
  ℕ, ◌+◌, ◌≤◌, ◌<◌, ◌≡◌, refl, ap, ◌⊎◌, inl, inr, Bool, List, [], ◌∷◌, ◌∙◌, ◌≢◌, ◌&&◌, Option, none,
  some, arith, Bytes, All, Bool-cases, same, same_iff, length, ltb, ◌==◌, Dict, lookup, lookup-put,
  if◌then◌else◌, subst,
}
use betterkey.Common.Result.{Result, ok, err, panic, Result-cases, >>=-eq-ok}
use betterkey.Common.Model.{HeartBeatStat, Platform}
use betterkey.Common.Services.{Vault}
use betterkey.Cluster.Message.{node_state_ready}
use betterkey.Cluster.HeartBeat.{
  PeerHeartBeat, HeartBeatManager, HeartBeatWindow, split_samples, on_tick, count_sample,
  add_sample, validate_nonce, count_samples, process_window,
}

-- What a window says of one peer; a peer without an entry counts as zero.
abbrev pub total_at : Bytes → Dict HeartBeatStat → ℕ
total_at id m = elim (lookup id m) [ none ↦ 0 | some st ↦ st.total ]

abbrev pub errors_at : Bytes → Dict HeartBeatStat → ℕ
errors_at id m = elim (lookup id m) [ none ↦ 0 | some st ↦ st.errors ]

-- The samples of one peer.
abbrev pub samples_of : Bytes → List PeerHeartBeat → ℕ
samples_of id [] = 0
samples_of id (hb ∷ hbs) = (if same hb.id id then 1 else 0) + samples_of id hbs

lookup-add_sample :
    (m : Dict HeartBeatStat) (j id : Bytes) (failed : ℕ)
    → (total_at id (add_sample m j failed) ≡ total_at id m + (if same j id then 1 else 0))
      × (errors_at id (add_sample m j failed) ≡ errors_at id m + (if same j id then failed else 0))
unfolding add_sample
lookup-add_sample m j id failed =
    ground (arith, same_iff j id, lookup-put j id (count_sample (lookup j m) failed) m)

abbrev counted : Result (Unit {0}) → ℕ
counted (ok u) = 0
counted (err e) = 1
counted panic = 0

module _ (x : Platform) (vault : Vault) where
  -- 1 for a sample that does not validate.
  abbrev pub fails : PeerHeartBeat → ℕ
  fails hb = counted (validate_nonce x vault hb)

  -- The samples of one peer that do not validate.
  abbrev pub failures_of : Bytes → List PeerHeartBeat → ℕ
  failures_of id [] = 0
  failures_of id (hb ∷ hbs) = (if same hb.id id then fails hb else 0) + failures_of id hbs

  count_samples-counts :
      (hbs : List PeerHeartBeat) (m m' : Dict HeartBeatStat) (id : Bytes)
      → count_samples x vault hbs m ≡ ok m'
      → (total_at id m' ≡ total_at id m + samples_of id hbs)
        × (errors_at id m' ≡ errors_at id m + failures_of id hbs)
  unfolding count_samples
  count_samples-counts [] m m' id e =
      let p : m ≡ m' = cc e in
      subst (λ t. (total_at id t ≡ total_at id m + 0) × (errors_at id t ≡ errors_at id m + 0)) p
        (omega arith, omega arith)
  count_samples-counts (hb ∷ hbs) m m' id e = elim (Result-cases (validate_nonce x vault hb)) [
    | inl (u, v) ↦
        let rest = count_samples-counts hbs (add_sample m hb.id 0) m' id (rw v at e) in
        let one = lookup-add_sample m hb.id id 0 in ground (arith, v, rest, one)
    | inr (inl (f, v)) ↦
        let rest = count_samples-counts hbs (add_sample m hb.id 1) m' id (rw v at e) in
        let one = lookup-add_sample m hb.id id 1 in ground (arith, v, rest, one)
    | inr (inr v) ↦ cc (rw v at e)
  ]

fails-le :
    (x : Platform) (vault : Vault) (id : Bytes) (hbs : List PeerHeartBeat)
    → failures_of x vault id hbs ≤ samples_of id hbs
fails-le x vault id [] = omega arith
fails-le x vault id (hb ∷ hbs) = ground (arith, fails-le x vault id hbs)

-- A window is made only of a READY node. It says of every peer how many of the samples are the
-- peer's, and how many of those do not validate, which are no more; it bears the time of the last
-- tick and the length of the window. In any other state no window is made.
pub window_counts :
    (x : Platform) (vault : Vault) (hbm : HeartBeatManager) (state : ℕ) (ready : List PeerHeartBeat)
    (o : Option HeartBeatWindow)
    → process_window x vault hbm state ready ≡ ok o
    → ((w : HeartBeatWindow) × (o ≡ some w)
        × (state ≡ node_state_ready)
        × (w.from ≡ hbm.last_run_ts)
        × (w.window ≡ hbm.window)
        × ((id : Bytes)
            → (total_at id w.stats ≡ samples_of id ready)
              × (errors_at id w.stats ≡ failures_of x vault id ready)
              × (errors_at id w.stats ≤ total_at id w.stats)))
      ⊎ ((o ≡ none) × (state ≢ node_state_ready))
unfolding process_window
window_counts x vault hbm state ready o e = elim (Bool-cases (state == node_state_ready)) [
  | inr s ↦ inr (ground (arith, s), ground (arith, s))
  | inl s ↦
      let (stats, counted, made) = >>=-eq-ok (count_samples x vault ready []) _ (rw s at e) in
      let counts = λ (id : Bytes). count_samples-counts x vault ready [] stats id counted in
      inl (
        record { from = hbm.last_run_ts; window = hbm.window; stats = stats },
        cc made,
        ground (arith, s),
        refl,
        refl,
        λ id.
            unfold lookup in
            (
              omega (arith, (counts id).0),
              omega (arith, (counts id).1),
              omega (arith, counts id, fails-le x vault id ready),
            ),
      )
]

-- The samples that pass a test.
abbrev pub passing : (PeerHeartBeat → Bool) → List PeerHeartBeat → ℕ
passing f [] = 0
passing f (s ∷ ss) = (if f s then 1 else 0) + passing f ss

split_samples-passing :
    (f : PeerHeartBeat → Bool) (last max : ℕ) (ss : List PeerHeartBeat)
    → passing f (split_samples last max ss).0
        + passing f (split_samples last max ss).1
        + passing (λ s. f s && ltb s.ts last) ss
      ≡ passing f ss
unfolding split_samples
split_samples-passing f last max [] = omega arith
split_samples-passing f last max (s ∷ ss) = ground (arith, split_samples-passing f last max ss)

split_samples-ready :
    (last max : ℕ) (ss : List PeerHeartBeat)
    → All (λ s. (last ≤ s.ts) × (s.ts ≤ last + max)) (split_samples last max ss).0
unfolding split_samples
split_samples-ready last max [] = tt
split_samples-ready last max (s ∷ ss) = ground (arith, split_samples-ready last max ss)

split_samples-later :
    (last max : ℕ) (ss : List PeerHeartBeat)
    → All (λ s. last + max < s.ts) (split_samples last max ss).1
unfolding split_samples
split_samples-later last max [] = tt
split_samples-later last max (s ∷ ss) = ground (arith, split_samples-later last max ss)

-- A tick sorts the samples by their time since the last tick: those within the window are processed,
-- those beyond it stay in the buffer, and of the others, which are older than the last tick, none is
-- kept. Whatever the test, as many samples pass it as before, less the old ones. The time of the tick
-- is the time of the last run from then on.
pub tick_splits :
    (f : PeerHeartBeat → Bool) (now : ℕ) (hbm : HeartBeatManager)
    → let (hbm', ready) = on_tick now hbm in
      All (λ s. (hbm.last_run_ts ≤ s.ts) × (s.ts ≤ hbm.last_run_ts + hbm.window)) ready
      × All (λ s. hbm.last_run_ts + hbm.window < s.ts) hbm'.samples
      × (passing f ready
            + passing f hbm'.samples
            + passing (λ s. f s && ltb s.ts hbm.last_run_ts) hbm.samples
          ≡ passing f hbm.samples)
      × (hbm'.last_run_ts ≡ now)
unfolding on_tick
tick_splits f now hbm = (
  split_samples-ready hbm.last_run_ts hbm.window hbm.samples,
  split_samples-later hbm.last_run_ts hbm.window hbm.samples,
  split_samples-passing f hbm.last_run_ts hbm.window hbm.samples,
  refl,
)

split_samples-All :
    (P : PeerHeartBeat → Type 0) (last max : ℕ) (ss : List PeerHeartBeat)
    → All P ss
    → All P (split_samples last max ss).0 × All P (split_samples last max ss).1
unfolding split_samples
split_samples-All P last max [] h = (tt, tt)
split_samples-All P last max (s ∷ ss) h = ground (arith, split_samples-All P last max ss h.1)

-- The `From` of a window is not the lowest time of its samples: where the samples arrived before the
-- tick, every sample that the tick hands on is older than the `From` of the window made of them.
pub window_from_is_above :
    (x : Platform) (vault : Vault) (now state : ℕ) (hbm : HeartBeatManager) (w : HeartBeatWindow)
    → All (λ s. s.ts < now) hbm.samples
    → process_window x vault (on_tick now hbm).0 state (on_tick now hbm).1 ≡ ok (some w)
    → All (λ s. s.ts < w.from) (on_tick now hbm).1
unfolding on_tick
window_from_is_above x vault now state hbm w h e = elim (window_counts x vault _ state _ _ e) [
  | inr (bad, s) ↦ cc bad
  | inl (v, same_w, s, from, length, rest) ↦
      let p : w.from ≡ now = ap (λ (t : HeartBeatWindow). t.from) (some_inj same_w) ∙ from in
      rw p ((split_samples-All (λ s. s.ts < now) hbm.last_run_ts hbm.window hbm.samples h).0)
]
  where
    some_inj : {u v : HeartBeatWindow} → some u ≡ some v → u ≡ v
    some_inj h = cc h
