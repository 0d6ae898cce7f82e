-- ===== src/Crypto.antt =====
-- What the code takes from CryptoPP and from the operating system's random numbers.
pub mod Siv
use securefs.Prelude.{
  ℕ, zero, suc, ◌<◌, ◌≡◌, refl, inl, inr, Bool, true, false, List, length, is_all_zeros, Bool-cases,
  arith,
}
use securefs.Error.{Result, ok, stuck}

-- AES-GCM under one key: from an IV, the associated data and a text, the transformed text and the
-- MAC; and back, with whether the MAC is right. The MAC has 16 bytes.
pub record Gcm : Type 0 where
  pub encrypt_and_authenticate : List ℕ → List ℕ → List ℕ → List ℕ × List ℕ
  pub decrypt_and_verify : List ℕ → List ℕ → List ℕ → List ℕ → List ℕ × Bool

-- The documented behaviour: what was encrypted is decrypted to itself, and verifies.
pub record GcmLaws (g : Gcm) : Type 0 where
  pub length_ciphertext :
      (iv aad text : List ℕ) → length (g.encrypt_and_authenticate iv aad text).0 ≡ length text
  pub length_mac : (iv aad text : List ℕ) → length (g.encrypt_and_authenticate iv aad text).1 ≡ 16
  pub decrypts :
      (iv aad text : List ℕ)
      → g.decrypt_and_verify iv aad
          (g.encrypt_and_authenticate iv aad text).1
          (g.encrypt_and_authenticate iv aad text).0
        ≡ (text, true)

-- generate_random, over the state `R` of the generator.
pub record Rng (R : Type 0) : Type 0 where
  pub generate_random : R → ℕ → List ℕ × R

-- `do { generate_random(iv, size); } while (is_all_zeros(iv, size));`, which has no bound in the source;
-- here it is cut off, as stuck, after `tries` rounds.
unfoldable pub generate_nonzero : {R : Type 0} → ℕ → Rng R → R → ℕ → Result (List ℕ × R)
generate_nonzero zero g r size = stuck
generate_nonzero (suc tries) g r size =
    let drawn = g.generate_random r size in
    elim (is_all_zeros drawn.0) [ true ↦ generate_nonzero tries g drawn.1 size | false ↦ ok drawn ]

-- The state after `k` draws.
abbrev pub after_draws : {R : Type 0} → Rng R → ℕ → ℕ → R → R
after_draws g size zero r = r
after_draws g size (suc k) r = after_draws g size k (g.generate_random r size).1

-- The loop returns the first draw that is not null, and the generator as it is after that draw, in
-- any number of rounds that is enough to reach it.
pub generate_nonzero-after_draws :
    {R : Type 0} (g : Rng R) (size tries k : ℕ) (r : R)
    → k < tries
    → ((j : ℕ) → j < k → is_all_zeros (g.generate_random (after_draws g size j r) size).0 ≡ true)
    → is_all_zeros (g.generate_random (after_draws g size k r) size).0 ≡ false
    → generate_nonzero tries g r size ≡ ok (g.generate_random (after_draws g size k r) size)
unfolding generate_nonzero
generate_nonzero-after_draws g size zero k r h null fine = absurd (omega arith)
generate_nonzero-after_draws g size (suc tries) zero r h null fine =
    rw (fine, generate_nonzero) refl
generate_nonzero-after_draws g size (suc tries) (suc k) r h null fine =
    rw (null 0 (omega arith), generate_nonzero)
      (generate_nonzero-after_draws g size tries k (g.generate_random r size).1 (omega arith)
        (λ j less. null (suc j) (omega arith)) fine)

-- What is assumed of the generator. That of `tries` draws in a row not all are null is no documented
-- guarantee: the loop of the source is unbounded, and ends with a probability of 1 only. It fills the
-- buffer.
pub record RngLaws {R : Type 0} (g : Rng R) (size tries : ℕ) : Type 0 where
  pub length_random : (r : R) (n : ℕ) → length (g.generate_random r n).0 ≡ n
  pub not_always_null :
      (r : R)
      → (k : ℕ) × (k < tries)
        × (is_all_zeros (g.generate_random (after_draws g size k r) size).0 ≡ false)

module _ {R : Type 0} (g : Rng R) (size : ℕ)
    (full : (r : R) (n : ℕ) → length (g.generate_random r n).0 ≡ n) where
  drawn_by :
      (tries k : ℕ) (r : R)
      → k < tries
      → is_all_zeros (g.generate_random (after_draws g size k r) size).0 ≡ false
      → (iv : List ℕ) × (r' : R) × (generate_nonzero tries g r size ≡ ok (iv, r'))
        × (length iv ≡ size)
        × (is_all_zeros iv ≡ false)
  unfolding generate_nonzero
  drawn_by zero k r h e = absurd (omega arith)
  drawn_by (suc tries) k r h e = elim (Bool-cases (is_all_zeros (g.generate_random r size).0)) [
    | inr fine ↦ (
      (g.generate_random r size).0,
      (g.generate_random r size).1,
      rw (fine, generate_nonzero),
      full r size,
      fine,
    )
    | inl null ↦ again k h e null (λ k'. drawn_by tries k' (g.generate_random r size).1)
  ]
    where
      again :
          (k : ℕ)
          → k < suc tries
          → is_all_zeros (g.generate_random (after_draws g size k r) size).0 ≡ false
          → is_all_zeros (g.generate_random r size).0 ≡ true
          → ((k' : ℕ)
              → k' < tries
              → is_all_zeros
                  (g.generate_random (after_draws g size k' (g.generate_random r size).1) size).0
                ≡ false
              → (iv : List ℕ) × (r' : R) × (generate_nonzero tries g
                    (g.generate_random r size).1
                    size
                  ≡ ok (iv, r'))
                × (length iv ≡ size)
                × (is_all_zeros iv ≡ false))
          → (iv : List ℕ) × (r' : R) × (generate_nonzero (suc tries) g r size ≡ ok (iv, r'))
            × (length iv ≡ size)
            × (is_all_zeros iv ≡ false)
      again zero h e null ih = cc
      again (suc k) h e null ih = rw (null, generate_nonzero) (ih k (omega arith) e)

-- With the laws of the generator the loop ends, with an IV that is not null.
pub generate_nonzero_lem :
    {R : Type 0} (g : Rng R) (size tries : ℕ) (r : R)
    → RngLaws g size tries
    → (iv : List ℕ) × (r' : R) × (generate_nonzero tries g r size ≡ ok (iv, r'))
      × (length iv ≡ size)
      × (is_all_zeros iv ≡ false)
generate_nonzero_lem g size tries r laws =
    let (k, h, e) = laws.not_always_null r in drawn_by g size laws.length_random tries k r h e
