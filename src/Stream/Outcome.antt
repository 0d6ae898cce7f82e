-- ===== src/Stream/Outcome.antt =====
-- Rules for `Becomes`, and for the bytes of a file that is written or cut.
use securefs.Prelude.{
  ℕ, ◌+◌, ◌-◌, ◌≤◌, ◌<◌, ◌≡◌, refl, ap, ◌∙◌, List, length, get_or, take, drop, arith, length-take,
  length-drop, get_or-take, get_or-drop,
}
use securefs.Error.{Result, ok, ◌>>=◌}
use securefs.Stream.{Becomes, written, cut}

pub Becomes-subst :
    {S : Type 0} {Valid : S → Type 0} {size : S → ℕ} {byte : S → ℕ → ℕ} {r r' : Result S} {n n' : ℕ}
    {f f' : ℕ → ℕ}
    → Becomes Valid size byte r n f
    → r' ≡ r
    → n ≡ n'
    → ((i : ℕ) → f i ≡ f' i)
    → Becomes Valid size byte r' n' f'
Becomes-subst b e p h = record {
  after = b.after;
  returns = e ∙ b.returns;
  valid = b.valid;
  resized = b.resized ∙ p;
  holds = λ i. b.holds i ∙ h i;
}

module _ {S : Type 0} {Valid : S → Type 0} {size : S → ℕ} {byte : S → ℕ → ℕ} where
  -- A state as it is.
  pub Becomes-ok : (s : S) → Valid s → Becomes Valid size byte (ok s) (size s) (byte s)
  Becomes-ok s v = record {
    after = s;
    returns = refl;
    valid = v;
    resized = refl;
    holds = λ i. refl;
  }

  pub Becomes-bind :
      {r : Result S} {n : ℕ} {f : ℕ → ℕ} (b : Becomes Valid size byte r n f) (k : S → Result S)
      (n' : ℕ) (f' : ℕ → ℕ)
      → Becomes Valid size byte (k b.after) n' f'
      → Becomes Valid size byte (r >>= k) n' f'
  Becomes-bind b k n' f' c = Becomes-subst c (ap (λ r. r >>= k) b.returns) refl (λ i. refl)

-- Writes of the two parts of a list, one after the other.
pub written-split :
    (f g : ℕ → ℕ) (start k : ℕ) (input : List ℕ) (i : ℕ)
    → k ≤ length input
    → g i ≡ written f start (take k input) i
    → written g (start + k) (drop k input) i ≡ written f start input i
written-split f g start k input i h e =
    let index : get_or input (k + (i - (start + k))) 0 ≡ get_or input (k + (i - (start + k))) 0 =
      refl in
    ground (
      arith,
      e,
      length-take k input,
      length-drop k input,
      get_or-take k (i - start) input 0,
      get_or-drop k (i - (start + k)) input 0,
    )

pub written-congr :
    (f g : ℕ → ℕ) (start : ℕ) (input : List ℕ) (i : ℕ)
    → f i ≡ g i
    → written f start input i ≡ written g start input i
written-congr f g start input i h = ground (arith, h)

pub cut-congr : (f g : ℕ → ℕ) (n i : ℕ) → f i ≡ g i → cut f n i ≡ cut g n i
cut-congr f g n i h = ground (arith, h)

pub cut_before : (f : ℕ → ℕ) (n i : ℕ) → i < n → cut f n i ≡ f i
cut_before f n i h = ground arith

pub cut_behind : (f : ℕ → ℕ) (n i : ℕ) → n ≤ i → cut f n i ≡ 0
cut_behind f n i h = ground arith

pub written_before :
    (f : ℕ → ℕ) (start : ℕ) (input : List ℕ) (i : ℕ) → i < start → written f start input i ≡ f i
written_before f start input i h = ground arith

pub written_behind :
    (f : ℕ → ℕ) (start : ℕ) (input : List ℕ) (i : ℕ)
    → start + length input ≤ i
    → written f start input i ≡ f i
written_behind f start input i h = ground arith
