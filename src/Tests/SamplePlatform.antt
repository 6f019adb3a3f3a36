-- ===== src/Tests/SamplePlatform.antt =====
-- A platform that meets the laws: a cipher text is the key with the plain text behind it, a sealed
-- file is its content, and a member is written field by field, each behind its length.
use betterkey.Prelude.{
  zero, suc, ◌≡◌, refl, subst, [], ◌∷◌, ◌++◌, Option, none, some, Bytes, same, same_refl, length,
  take, drop, All, All-append, take-length-append, drop-length-append, if◌then◌else◌,
}
use betterkey.Common.Hex.{IsByte}
use betterkey.Common.Model.{NodeInfo, MasterSecret, Member, Platform}
use betterkey.Common.Laws.{IsLawful}

unfoldable pub decrypt : Bytes → Bytes → Option Bytes
decrypt sealed k = if same (take (length k) sealed) k then some (drop (length k) sealed) else none

decrypt-append : (k content : Bytes) → decrypt (k ++ content) k ≡ some content
unfolding decrypt
decrypt-append k content =
    rw (take-length-append k content, drop-length-append k content, same_refl k)

abbrev put_field : Bytes → Bytes → Bytes
put_field f r = length f ∷ (f ++ r)

abbrev get_field : Bytes → Option (Bytes × Bytes)
get_field [] = none
get_field (n ∷ r) = some (take n r, drop n r)

get_field-put_field : (f r : Bytes) → get_field (put_field f r) ≡ some (f, r)
get_field-put_field f r = rw (take-length-append f r, drop-length-append f r)

abbrev put_info : Option NodeInfo → Bytes → Bytes
put_info none r = 0 ∷ r
put_info (some i) r = 1 ∷ put_field i.id (put_field i.cluster_id r)

abbrev put_secret : Option MasterSecret → Bytes
put_secret none = []
put_secret (some s) = s.created ∷ put_field s.secret (put_field s.creator_id [])

abbrev get_secret : Bytes → Option MasterSecret
get_secret [] = none
get_secret (created ∷ r) =
    some
      (record { secret = take_field r; creator_id = take_field (drop_field r); created = created })
  where
    take_field : Bytes → Bytes
    take_field [] = []
    take_field (n ∷ r) = take n r

    drop_field : Bytes → Bytes
    drop_field [] = []
    drop_field (n ∷ r) = drop n r

abbrev get_member : Bytes → Option Member
get_member [] = none
get_member (zero ∷ r) = some (record { node_info = none; master_secret = get_secret r })
get_member (suc tag ∷ []) = none
get_member (suc tag ∷ n ∷ r) = rest (drop n r)
  where
    rest : Bytes → Option Member
    rest [] = none
    rest (m ∷ s) = some (record {
      node_info = some (record { id = take n r; cluster_id = take m s });
      master_secret = get_secret (drop m s);
    })

get_secret-put_secret : (s : Option MasterSecret) → get_secret (put_secret s) ≡ s
get_secret-put_secret none = refl
get_secret-put_secret (some s) =
    rw
      (
        take-length-append s.secret (put_field s.creator_id []),
        drop-length-append s.secret (put_field s.creator_id []),
      )
      (rw (take-length-append s.creator_id []))

get_member-put :
    (i : Option NodeInfo) (s : Option MasterSecret)
    → get_member (put_info i (put_secret s)) ≡ some (record { node_info = i; master_secret = s })
get_member-put none s = rw (get_secret-put_secret s)
get_member-put (some i) s =
    rw
      (
        drop-length-append i.id (put_field i.cluster_id (put_secret s)),
        take-length-append i.id (put_field i.cluster_id (put_secret s)),
      )
      (rw (
        take-length-append i.cluster_id (put_secret s),
        drop-length-append i.cluster_id (put_secret s),
        get_secret-put_secret s,
      ))

abbrev pub sample : Platform
sample = record {
  encrypt = λ draw content k. some (k ++ content);
  decrypt = decrypt;
  hkdf = λ k content info n. some (k ++ content ++ info);
  seal_with_product_key = λ draw content. some content;
  unseal = λ content. some content;
  marshal_member = λ m. some (put_info m.node_info (put_secret m.master_secret));
  unmarshal_member = get_member;
}

pub sample-IsLawful : IsLawful sample
sample-IsLawful = record {
  decrypt-encrypt = λ draw content k sealed e.
      let p : k ++ content ≡ sealed = cc e in
      subst (λ t. decrypt t k ≡ some content) p (decrypt-append k content);
  encrypt-IsByte = λ draw content k sealed hc hk e.
      let p : k ++ content ≡ sealed = cc e in
      subst (All IsByte) p (All-append IsByte k content hk hc);
  unseal-seal = λ draw content sealed e. cc e;
  unmarshal-marshal = λ m json ascii e.
      let p : put_info m.node_info (put_secret m.master_secret) ≡ json = cc e in
      subst (λ t. get_member t ≡ some m) p (get_member-put m.node_info m.master_secret);
}
