-- ===== src/Cluster/System/Agreement/Keys.antt =====
-- What it means for each part of the cluster to know no other master key than `k`, and how reading
-- and writing the stored key go with it.
use betterkey.Prelude.{ℕ, ◌≡◌, refl, ◌⊎◌, inl, inr, List, [], Option, none, some, Bytes, All, Bool}
use betterkey.Common.Hex.{encode_to_string, IsByte, encode_to_string-All}
use betterkey.Common.Result.{Result, ok, err, panic, Post, Post-bind}
use betterkey.Common.Model.{Member, MasterSecret, Platform, secret_of}
use betterkey.Common.Laws.{IsLawful, IsAsciiInfo}
use betterkey.Sgx.KeyStore.{absent, MasterKeyStore, load, read, write, read_through, remember}
use betterkey.Sgx.KeyStore.Durable.{load-write}
use betterkey.Cluster.Message.{PeerMessage, Envelope, msg_type_keyinit, msg_type_keyquery_resp}
use betterkey.Cluster.Seed.{dummy_key}
use betterkey.Cluster.Node.{
  Task, send_init, forward_key, cleanup, ask_key, send_challenge, answer_challenge, answer_query,
}

module _ (k : Bytes) where
  -- The key in memory: none yet, the dummy, or `k`.
  abbrev pub IsOldKey : Bytes → Type 0
  IsOldKey g = (g ≡ []) ⊎ (g ≡ dummy_key) ⊎ (g ≡ k)

  -- A message that hands out a key hands out `k`.
  pub record IsGood (m : PeerMessage) : Type 0 where
    pub key_init : m.type ≡ msg_type_keyinit → m.content ≡ k
    pub key_response : m.type ≡ msg_type_keyquery_resp → m.content ≡ k

  abbrev pub IsGoodTask : Task → Type 0
  IsGoodTask (send_init pm) = IsGood pm
  IsGoodTask (forward_key pm) = IsGood pm
  IsGoodTask cleanup = Unit {0}
  IsGoodTask (ask_key peers) = Unit {0}
  IsGoodTask (send_challenge peers) = Unit {0}
  IsGoodTask (answer_challenge target pm failed) = IsGood pm
  IsGoodTask (answer_query target pm) = IsGood pm

  abbrev pub AreGoodTasks : List Task → Type 0
  AreGoodTasks ts = All (λ t. IsGoodTask t) ts

  abbrev pub AreGoodMessages : List PeerMessage → Type 0
  AreGoodMessages ms = All (λ m. IsGood m) ms

  abbrev pub AreGoodEnvelopes : List Envelope → Type 0
  AreGoodEnvelopes es = All (λ e. IsGood e.message) es

  abbrev pub IsGoodMember : Option Member → Type 0
  IsGoodMember none = Unit {0}
  IsGoodMember (some m) = secret_of m ≡ some (encode_to_string k)

module _ (x : Platform) (k : Bytes) where
  -- The disk gives a member that holds `k`.
  abbrev pub HasKey : MasterKeyStore → Type 0
  HasKey ks =
      (m : Member) × (load x ks.has_sgx ks.file ≡ ok (some m))
      × (secret_of m ≡ some (encode_to_string k))

  -- The disk is empty or holds `k`, and so for the cache.
  pub record IsGoodStore (ks : MasterKeyStore) : Type 0 where
    pub disk : (ks.file ≡ absent) ⊎ HasKey ks
    pub cache : IsGoodMember k ks.cached_masterkey
    pub ascii : IsAsciiInfo ks.configured_node_id

  -- What a read leaves, beside its result.
  abbrev pub AfterRead : MasterKeyStore → MasterKeyStore × Option Member → Type 0
  AfterRead ks r = IsGoodStore r.0 × IsGoodMember k r.1 × (HasKey ks → HasKey r.0)

  load-none : (ks : MasterKeyStore) → ks.file ≡ absent → load x ks.has_sgx ks.file ≡ ok none
  unfolding load
  load-none ks e = rw e

  remember-AfterRead :
      (ks : MasterKeyStore) (o : Option Member)
      → IsGoodStore ks
      → IsGoodMember k o
      → AfterRead ks (remember ks o)
  unfolding remember
  remember-AfterRead ks none v g = (v, tt, λ h. h)
  remember-AfterRead ks (some m) v g =
      (record { disk = v.disk; cache = g; ascii = v.ascii }, g, λ h. h)

  load-IsGoodMember :
      (ks : MasterKeyStore) → IsGoodStore ks → Post (IsGoodMember k) (load x ks.has_sgx ks.file)
  load-IsGoodMember ks v = elim v.disk [ inl e ↦ rw (load-none ks e) tt | inr (m, e, s) ↦ rw e s ]

  read_through-AfterRead :
      (o : Option Member) (ks : MasterKeyStore)
      → IsGoodStore ks
      → IsGoodMember k o
      → Post (AfterRead ks) (read_through x o ks)
  unfolding read_through
  read_through-AfterRead (some m) ks v g = (v, g, λ h. h)
  read_through-AfterRead none ks v g =
      Post-bind (IsGoodMember k) (AfterRead ks) (load x ks.has_sgx ks.file)
        (λ o. ok (remember ks o)) (load-IsGoodMember ks v) (λ o g. remember-AfterRead ks o v g)

  -- A read gives no other key than `k`, and changes nothing on the disk.
  pub read-AfterRead : (ks : MasterKeyStore) → IsGoodStore ks → Post (AfterRead ks) (read x ks)
  unfolding read
  read-AfterRead ks v = read_through-AfterRead ks.cached_masterkey ks v v.cache

module _ (x : Platform) (lawful : IsLawful x) (k : Bytes) (bytes : All IsByte k) where
  abbrev secret_now : ℕ → MasterSecret
  secret_now now = record { secret = encode_to_string k; creator_id = []; created = now }

  -- A write of `k`, if it returns, leaves `k` on the disk.
  pub write-HasKey :
      (ks : MasterKeyStore) (now : ℕ) (draw : Bytes) (written : Bool)
      → IsGoodStore x k ks
      → Post
          (λ ks'. IsGoodStore x k ks' × HasKey x k ks')
          (write x ks (secret_now now) draw written)
  write-HasKey ks now draw written v = go (write x ks (secret_now now) draw written) refl
    where
      go :
          (r : Result MasterKeyStore)
          → write x ks (secret_now now) draw written ≡ r
          → Post (λ ks'. IsGoodStore x k ks' × HasKey x k ks') r
      go (ok ks') e =
          let (stored, cached, info, sgx) =
            load-write x lawful ks ks' (secret_now now) draw written v.ascii
              (encode_to_string-All k bytes, tt) e in
          (
            record {
              disk = inr (_, stored, refl);
              cache = rw cached v.cache;
              ascii = rw info v.ascii;
            },
            (_, stored, refl),
          )
      go (err f) e = tt
      go panic e = tt
