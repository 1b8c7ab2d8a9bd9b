-- ===== src/Kernel/Exec.antt =====
-- Code that calls the ports: it changes the world outside, and may return an error. What a port did
-- before an error stays done, so the world comes back beside the error too.
use boatstack.Base.{◌≡◌, refl, ◌∙◌, Bool, true, false, if◌then◌else◌}
use boatstack.Kernel.Error.{Error, Result, ok, err}

abbrev pub Exec {ℓ} : Type ℓ → Type ℓ → Type ℓ
Exec W A = W → Result A × W

-- `if err != nil { return RecoveryRequiredError{…} }`, and other wrappings
abbrev pub wrap_error {ℓ} : {A : Type ℓ} → (Error → Error) → Result A → Result A
wrap_error f (ok a) = ok a
wrap_error f (err e) = err (f e)

pub wrap_error-eq-ok {ℓ} :
    {A : Type ℓ} (f : Error → Error) (r : Result A) {a : A} → wrap_error f r ≡ ok a → r ≡ ok a
wrap_error-eq-ok f (ok a) h = cc
wrap_error-eq-ok f (err e) h = cc

pub wrap_error-eq-err {ℓ} :
    {A : Type ℓ} (f : Error → Error) (r : Result A) {e : Error}
    → wrap_error f r ≡ err e
    → (e' : Error) × (r ≡ err e') × (e ≡ f e')
wrap_error-eq-err f (ok a) h = cc
wrap_error-eq-err f (err e') h = (e', refl, cc)

module _ {ℓ} {W A : Type ℓ} where
  unfoldable pub lift : Result A → Exec W A
  lift r w = (r, w)

  unfoldable pub pure : A → Exec W A
  pure a w = (ok a, w)

  unfoldable pub wrapping : (Error → Error) → Exec W A → Exec W A
  wrapping f m w = let (r, w') = m w in (wrap_error f r, w')

  -- `defer`
  unfoldable pub finally : (W → W) → Exec W A → Exec W A
  finally release m w = let (r, w') = m w in (r, release w')

module _ {ℓ} {W A B : Type ℓ} where
  abbrev pub continue : Result A → (A → Exec W B) → Exec W B
  continue (ok a) f w = f a w
  continue (err e) f w = (err e, w)

  infixl 5 ◌>>=◌ ◌>>◌
  unfoldable pub ◌>>=◌ : Exec W A → (A → Exec W B) → Exec W B
  unfolding lift pure wrapping finally
  ◌>>=◌ m f w = let (r, w') = m w in continue r f w'

  abbrev pub ◌>>◌ : Exec W A → Exec W B → Exec W B
  m >> k = m >>= λ _. k

  continue-eq-ok :
      (r : Result A) (w : W) (f : A → Exec W B) (b : B)
      → (continue r f w).0 ≡ ok b
      → (a : A) × (r ≡ ok a) × ((f a w).0 ≡ ok b)
  continue-eq-ok (ok a) w f b h = (a, refl, h)
  continue-eq-ok (err e) w f b h = cc

  -- Inversion of a step that succeeded.
  pub bind-eq-ok :
      (m : Exec W A) (f : A → Exec W B) (w : W) (b : B)
      → ((m >>= f) w).0 ≡ ok b
      → (a : A) × ((m w).0 ≡ ok a) × ((f a (m w).1).0 ≡ ok b)
  unfolding ◌>>=◌
  bind-eq-ok m f w b h = continue-eq-ok (m w).0 (m w).1 f b h

-- Code that leaves some part of the world as it is.
pub record Keeps {ℓ} {W A P : Type ℓ} (part : W → P) (m : Exec W A) : Type ℓ where
  pub at : (w : W) → part (m w).1 ≡ part w

module _ {ℓ} {W A P : Type ℓ} {part : W → P} where
  pub Keeps-lift : (r : Result A) → Keeps part (lift {W = W} r)
  unfolding lift
  Keeps-lift r = record { at = λ w. refl }

  pub Keeps-pure : (a : A) → Keeps part (pure {W = W} a)
  unfolding pure
  Keeps-pure a = record { at = λ w. refl }

  pub Keeps-wrapping : (f : Error → Error) (m : Exec W A) → Keeps part m → Keeps part (wrapping f m)
  unfolding wrapping
  Keeps-wrapping f m k = record { at = λ w. k.at w }

  pub Keeps-if :
      (b : Bool) (m n : Exec W A) → Keeps part m → Keeps part n → Keeps part (if b then m else n)
  Keeps-if true m n k l = k
  Keeps-if false m n k l = l

module _ {ℓ} {W A B P : Type ℓ} {part : W → P} where
  Keeps-continue :
      (r : Result A) (f : A → Exec W B) → ((a : A) → Keeps part (f a)) → Keeps part (continue r f)
  Keeps-continue (ok a) f k = k a
  Keeps-continue (err e) f k = record { at = λ w. refl }

  pub Keeps-bind :
      (m : Exec W A) (f : A → Exec W B)
      → Keeps part m
      → ((a : A) → Keeps part (f a))
      → Keeps part (m >>= f)
  unfolding ◌>>=◌
  Keeps-bind m f k l = record { at = λ w. (Keeps-continue (m w).0 f l).at (m w).1 ∙ k.at w }

pub ruleset keeps_rules = (Keeps-lift, Keeps-pure, Keeps-wrapping, Keeps-if, Keeps-bind)
