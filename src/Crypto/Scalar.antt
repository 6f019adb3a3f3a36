-- ===== src/Crypto/Scalar.antt =====
-- The scalar of an ECDSA key, and the number of its bytes.
use betterkey.Prelude.{
  ℕ, zero, suc, ◌+◌, ◌-◌, ◌*◌, ◌/◌, ◌%◌, ◌≤◌, ◌<◌, ◌≡◌, ◌≢◌, refl, subst, [], ◌∷◌, some, arith, All,
  Bytes, str, length, length-append, ltb, ◌==◌, ◌++◌, ◌∙◌, inl, inr, Bool-cases,
}
use native.Mathlib.Nat.{mod-lt, mod-le}
use betterkey.Common.Hex.{IsByte}
use betterkey.Common.Result.{ok, failed, check, >>=-eq-ok, Post, Post-then, Post-ok}
use betterkey.Common.Services.{or_error, or_error-eq-ok}
use betterkey.Crypto.{
  Curve, p256, p384, p521, other_curve, PrivateKey, Toolkit, set_bytes_from, set_bytes, digits,
  big_bytes, scalar, ecdsa_on, private_key, ecdsa,
}

abbrev pub power_of_256 : ℕ → ℕ
power_of_256 zero = 1
power_of_256 (suc k) = 256 * power_of_256 k

-- `NewPrivateKey` of crypto/ecdh reads a NIST scalar of a fixed length.
abbrev pub scalar_size : Curve → ℕ
scalar_size p256 = 32
scalar_size p384 = 48
scalar_size p521 = 66
scalar_size other_curve = 0

pub record IsFixedSize (k : Toolkit) : Type 0 where
  pub sized :
      (curve : Curve) (bytes public : Bytes)
      → k.new_private_key curve bytes ≡ some public
      → length bytes ≡ scalar_size curve
  -- The order of a curve is a large prime.
  pub large : (curve : Curve) → 1 < k.order curve

length-digits : (k fuel n : ℕ) → n < power_of_256 k → length (digits fuel n) ≤ k
unfolding digits
length-digits k zero n h = omega arith
length-digits zero (suc fuel) n h = ground arith
length-digits (suc k) (suc fuel) n h =
    ground
      (arith, length-digits k fuel (n / 256), length-append (digits fuel (n / 256)) (n % 256 ∷ []))

set_bytes_from_snoc :
    (acc d : ℕ) (bs : Bytes) → set_bytes_from acc (bs ++ d ∷ []) ≡ set_bytes_from acc bs * 256 + d
set_bytes_from_snoc acc d [] = refl
set_bytes_from_snoc acc d (b ∷ bs) = set_bytes_from_snoc (acc * 256 + b) d bs

-- The fuel of `digits` is enough: a number is read back from its bytes.
pub set_bytes-digits : (fuel n : ℕ) → n ≤ fuel → set_bytes (digits fuel n) ≡ n
unfolding digits
set_bytes-digits zero n h = omega arith
set_bytes-digits (suc fuel) n h = elim (Bool-cases (n == 0)) [
  | inl e ↦ rw e (ground (arith, e))
  | inr e ↦
      let rest = set_bytes-digits fuel (n / 256) (ground (arith, e)) in
      rw e (set_bytes_from_snoc 0 (n % 256) (digits fuel (n / 256)) ∙ omega (arith, rest))
]

set_bytes_from-lt :
    (acc k : ℕ) (bs : Bytes)
    → All IsByte bs
    → acc < power_of_256 k
    → set_bytes_from acc bs < power_of_256 (length bs + k)
set_bytes_from-lt acc k [] h a =
    let moved : k ≡ 0 + k = omega arith in subst (λ e. acc < power_of_256 e) moved a
set_bytes_from-lt acc k (b ∷ bs) h a =
    let next = set_bytes_from-lt (acc * 256 + b) (suc k) bs h.1 (omega (arith, a, h.0)) in
    let moved : length bs + suc k ≡ suc (length bs) + k = omega arith in
    subst (λ e. set_bytes_from (acc * 256 + b) bs < power_of_256 e) moved next

-- The scalar lies in the range that the comment of `ECDSA` gives it: from 1 to the order less 1.
scalar_in_range :
    (key_bytes : Bytes) (n : ℕ) → 1 < n → (1 ≤ scalar key_bytes n) × (scalar key_bytes n < n)
unfolding scalar
scalar_in_range key_bytes n h =
    (omega arith, omega (arith, mod-lt (set_bytes key_bytes) {m = n - 1} (omega arith)))

-- Key bytes that are shorter than a scalar of the curve, by more than a byte, make a scalar that is
-- shorter too, since `Bytes` of a number has no leading zeros.
scalar_short :
    (key_bytes : Bytes) (n : ℕ)
    → All IsByte key_bytes
    → length (big_bytes (scalar key_bytes n)) ≤ suc (length key_bytes)
unfolding scalar
scalar_short key_bytes n h =
    length-digits (suc (length key_bytes)) (scalar key_bytes n) (scalar key_bytes n)
      (omega (arith, small, value_bound))
  where
    value_bound : set_bytes key_bytes < power_of_256 (length key_bytes)
    value_bound =
        let moved : length key_bytes + 0 ≡ length key_bytes = omega arith in
        subst (λ e. set_bytes key_bytes < power_of_256 e) moved
          (set_bytes_from-lt 0 0 key_bytes h (omega arith))

    small : set_bytes key_bytes % (n - 1) ≤ set_bytes key_bytes
    small = mod-le (set_bytes key_bytes) (n - 1)

private_key-d :
    (d : ℕ) (curve : Curve) (bytes : Bytes)
    → Post (λ (key : PrivateKey). key.d ≡ d) (private_key d curve bytes)
unfolding private_key
private_key-d d curve [] = tt
private_key-d d curve (format ∷ coords) =
    let P = λ (key : PrivateKey). key.d ≡ d in
    let bad = failed (str "invalid public key format") in
    Post-then P (check (ltb 1 (length coords)) bad) _ (λ u.
      Post-then P (check (format == 4) bad) _
        (λ v. Post-then P (check (length coords % 2 == 0) _) _ (λ w. refl)))

module _ (k : Toolkit) (fixed : IsFixedSize k) where
  ecdsa_on-scalar :
      (key_bytes : Bytes) (curve : Curve) {key : PrivateKey}
      → ecdsa_on k key_bytes curve ≡ ok key
      → (key.d ≡ scalar key_bytes (k.order curve))
        × (length (big_bytes (scalar key_bytes (k.order curve))) ≡ scalar_size curve)
  unfolding ecdsa_on
  ecdsa_on-scalar key_bytes curve e =
      let d : ℕ = scalar key_bytes (k.order curve) in
      let (public, made, rest) =
        >>=-eq-ok (or_error (k.new_private_key curve (big_bytes d)) _) _ e in
      (
        Post-ok (λ key. key.d ≡ d) (private_key d curve public) (private_key-d d curve public) rest,
        fixed.sized curve (big_bytes d) public (or_error-eq-ok _ _ made),
      )

  made_on :
      (key_bytes : Bytes) (curve : Curve) (key : PrivateKey)
      → ecdsa k key_bytes curve ≡ ok key
      → ecdsa_on k key_bytes curve ≡ ok key
  unfolding ecdsa
  made_on key_bytes p256 key e = e
  made_on key_bytes p384 key e = e
  made_on key_bytes p521 key e = e
  made_on key_bytes other_curve key e = cc e

  -- A key that is made has a scalar in the range from 1 to the order less 1, and of full length: one
  -- that starts with a zero byte is written by `Bytes` without it, and is refused, though it lies in
  -- range.
  pub ecdsa_full_scalar :
      (key_bytes : Bytes) (curve : Curve) (key : PrivateKey)
      → ecdsa k key_bytes curve ≡ ok key
      → (key.d ≡ scalar key_bytes (k.order curve))
        × (1 ≤ key.d)
        × (key.d < k.order curve)
        × (length (big_bytes (scalar key_bytes (k.order curve))) ≡ scalar_size curve)
  ecdsa_full_scalar key_bytes curve key e =
      let (d, full) = ecdsa_on-scalar key_bytes curve (made_on key_bytes curve key e) in
      let (low, high) = scalar_in_range key_bytes (k.order curve) (fixed.large curve) in
      (d, rw d low, rw d high, full)

  -- No key on P-384 is ever made of the 32 bytes that the key service derives.
  pub ecdsa_p384_never :
      (key_bytes : Bytes) (key : PrivateKey)
      → All IsByte key_bytes
      → length key_bytes ≡ 32
      → ecdsa k key_bytes p384 ≢ ok key
  ecdsa_p384_never key_bytes key h size e =
      let (d, low, high, full) = ecdsa_full_scalar key_bytes p384 key e in
      absurd (omega (arith, full, size, scalar_short key_bytes (k.order p384) h))
