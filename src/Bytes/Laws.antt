-- ===== src/Bytes/Laws.antt =====
-- Reads within bounds return; reads behind a prefix do not see it.
use jrok_rs.Base.{
  ℕ, zero, suc, ◌+◌, ◌-◌, ◌*◌, ◌≤◌, ◌<◌, ◌≡◌, ap, List, [], ◌∷◌, ◌++◌, some, arith, length,
  get_elem?, take, drop, get_elem?-lt_length,
}
use jrok_rs.Exec.{returns}
use jrok_rs.Bytes.{index, slice, be16, align4}

pub index_lem :
    (bytes : List ℕ) (i : ℕ) {b : ℕ} → get_elem? bytes i ≡ some b → index bytes i ≡ returns b
unfolding index
index_lem bytes i e = rw (e, index)

pub be16_lem :
    (bytes : List ℕ) (i : ℕ) {hi lo : ℕ}
    → get_elem? bytes i ≡ some hi
    → get_elem? bytes (i + 1) ≡ some lo
    → be16 bytes i ≡ returns (hi * 256 + lo)
unfolding be16
be16_lem bytes i p q = rw (p, index, q, index)

pub index_in_bounds :
    (bytes : List ℕ) (i : ℕ) → i < length bytes → (b : ℕ) × (index bytes i ≡ returns b)
index_in_bounds bytes i h = let t = get_elem?-lt_length bytes i h in (t.0, index_lem bytes i t.1)

pub be16_in_bounds :
    (bytes : List ℕ) (i : ℕ) → i + 2 ≤ length bytes → (n : ℕ) × (be16 bytes i ≡ returns n)
be16_in_bounds bytes i h =
    let hi = get_elem?-lt_length bytes i (omega arith) in
    let lo = get_elem?-lt_length bytes (i + 1) (omega arith) in
    (hi.0 * 256 + lo.0, be16_lem bytes i hi.1 lo.1)

pub slice_in_bounds :
    (bytes : List ℕ) (from to : ℕ)
    → from ≤ to
    → to ≤ length bytes
    → slice bytes from to ≡ returns (take (to - from) (drop from bytes))
unfolding slice
slice_in_bounds bytes from to h k = ground arith

pub le-align4 : (n : ℕ) → n ≤ align4 n
unfolding align4
le-align4 n = omega arith

module _ {ℓ} {A : Type ℓ} where
  pub get_elem?-append :
      (pre xs : List A) (i k : ℕ) → i ≡ length pre + k → get_elem? (pre ++ xs) i ≡ get_elem? xs k
  get_elem?-append [] xs i k e = let e' : i ≡ k = omega arith in rw e'
  get_elem?-append (p ∷ pre) xs zero k e = absurd (omega arith)
  get_elem?-append (p ∷ pre) xs (suc i) k e = get_elem?-append pre xs i k (omega arith)

  pub drop-append :
      (pre xs : List A) (i k : ℕ) → i ≡ length pre + k → drop i (pre ++ xs) ≡ drop k xs
  drop-append [] xs i k e = let e' : i ≡ k = omega arith in rw e'
  drop-append (p ∷ pre) xs zero k e = absurd (omega arith)
  drop-append (p ∷ pre) xs (suc i) k e = drop-append pre xs i k (omega arith)

  pub take-append : (xs ys : List A) (n : ℕ) → n ≡ length xs → take n (xs ++ ys) ≡ xs
  take-append [] ys n e = rw e
  take-append (x ∷ xs) ys zero e = absurd (omega arith)
  take-append (x ∷ xs) ys (suc n) e = ap (λ t. x ∷ t) (take-append xs ys n (omega arith))
