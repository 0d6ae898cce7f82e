-- ===== src/Text/CStrings.antt =====
-- Strings that end at the code 0.
use securefs.Prelude.{
  ℕ, zero, suc, ◌≤◌, ◌<◌, ◌≡◌, refl, ap, List, [], ◌∷◌, ◌++◌, length, take, replicate, All, pos→==,
  arith,
}
use securefs.Text.{c_string}

pub c_string-take :
    (n k : ℕ) (name : List ℕ)
    → All (λ c. 0 < c) name
    → length name ≤ n
    → c_string (take n (name ++ replicate k 0)) ≡ name
unfolding c_string
c_string-take zero k [] a h = refl
c_string-take (suc n) zero [] a h = refl
c_string-take (suc n) (suc k) [] a h = refl
c_string-take zero k (c ∷ name) a h = absurd (omega arith)
c_string-take (suc n) k (c ∷ name) (p, a) h =
    rw (pos→== c p) (ap (λ l. c ∷ l) (c_string-take n k name a (omega arith)))

pub c_string-whole : (str : List ℕ) → All (λ c. 0 < c) str → c_string str ≡ str
unfolding c_string
c_string-whole [] a = refl
c_string-whole (c ∷ str) (p, a) = rw (pos→== c p) (ap (λ l. c ∷ l) (c_string-whole str a))

pub c_string-append :
    (name : List ℕ) (k : ℕ) → All (λ c. 0 < c) name → c_string (name ++ replicate k 0) ≡ name
unfolding c_string
c_string-append [] zero a = refl
c_string-append [] (suc k) a = refl
c_string-append (c ∷ name) k (p, a) = rw (pos→== c p) (ap (λ l. c ∷ l) (c_string-append name k a))
