-- ===== src/Base/Exec.antt =====
-- Code that changes a state and may fail: what was written before an error stays written.
use mathlib.Core.Path.{◌≡◌, refl, ap}
use simple_ci.Base.Errors.{Error, Result, ok, err, panic}

abbrev pub Exec {ℓ κ} : Type ℓ → Type κ → Type (ℓ ⊔ κ)
Exec S A = S → Result A × S

module _ {ℓ κ} {S : Type ℓ} {A : Type κ} where
  abbrev pub pure : A → Exec S A
  pure a s = (ok a, s)

  abbrev pub raise : Error → Exec S A
  raise e s = (err e, s)

  abbrev pub gets : (S → A) → Exec S A
  gets f s = (ok (f s), s)

  abbrev pub lift : Result A → Exec S A
  lift r s = (r, s)

abbrev pub modify {ℓ} : {S : Type ℓ} → (S → S) → Exec S (Unit {0})
modify f s = (ok tt, f s)

module _ {ℓ κ μ} {S : Type ℓ} {A : Type κ} {B : Type μ} where
  abbrev pub continue : Result A → (A → Exec S B) → Exec S B
  continue (ok a) f s = f a s
  continue (err e) f s = (err e, s)
  continue panic f s = (panic, s)

  infixl 5 ◌>>=◌ ◌>>◌
  abbrev pub ◌>>=◌ : Exec S A → (A → Exec S B) → Exec S B
  ◌>>=◌ m f s = let (r, s') = m s in continue r f s'

  abbrev pub ◌>>◌ : Exec S A → Exec S B → Exec S B
  m >> n = m >>= λ _. n

  -- A chain that returns has returned from both of its parts.
  pub >>=-eq-ok :
      (m : Exec S A) (f : A → Exec S B) (s : S) {b : B} {t : S}
      → (m >>= f) s ≡ (ok b, t)
      → (a : A) × (u : S) × (m s ≡ (ok a, u)) × (f a u ≡ (ok b, t))
  >>=-eq-ok m f s {b} {t} = go (m s).0 (m s).1
    where
      go :
          (r : Result A) (u : S)
          → continue r f u ≡ (ok b, t)
          → (a : A) × (u' : S) × (◌≡◌ {A = Result A × S} (r, u) (ok a, u')) × (f a u' ≡ (ok b, t))
      go (ok a) u h = (a, u, refl, h)
      go (err e) u h = absurd (cc (ap (λ p. p.0) h))
      go panic u h = absurd (cc (ap (λ p. p.0) h))

-- A relation between the state before and after that every part of a chain respects.
module _ {ℓ κ} {S : Type ℓ} (R : S → S → Type κ) where
  abbrev pub Respects {μ} : {A : Type μ} → Exec S A → Type (ℓ ⊔ κ)
  Respects m = (s : S) → R s (m s).1

  module _ (keep : (s : S) → R s s) (trans : (s t u : S) → R s t → R t u → R s u) where
    -- The second part may use what is known of a result of the first.
    pub Respects-bind_ok {μ ν ξ} :
        {A : Type μ} {B : Type ν} (Q : A → Type ξ) (m : Exec S A) (f : A → Exec S B)
        → Respects m
        → ((s : S) (a : A) → (m s).0 ≡ ok a → Q a)
        → ((a : A) → Q a → Respects (f a))
        → Respects (m >>= f)
    Respects-bind_ok {A} {B} Q m f hm hq hf s = go (m s).0 (m s).1 (hm s) (hq s)
      where
        go : (r : Result A) (t : S) → R s t → ((a : A) → r ≡ ok a → Q a) → R s (continue r f t).1
        go (ok a) t h q = trans s t _ h (hf a (q a refl) t)
        go (err e) t h q = h
        go panic t h q = h

    pub Respects-bind {μ ν} :
        {A : Type μ} {B : Type ν} (m : Exec S A) (f : A → Exec S B)
        → Respects m
        → ((a : A) → Respects (f a))
        → Respects (m >>= f)
    Respects-bind m f hm hf = Respects-bind_ok (λ a. Unit {0}) m f hm (λ s a e. tt) (λ a q. hf a)

-- Where the result of a lifted part is known.
pub lift_ok :
    {A B S : Type 0} (r : Result A) (f : A → Exec S B) (s t : S) {b : B}
    → (lift r >>= f) s ≡ (ok b, t)
    → (a : A) × (r ≡ ok a) × (f a s ≡ (ok b, t))
lift_ok (ok a) f s t h = (a, refl, h)
lift_ok (err e) f s t h = absurd (cc (ap (λ p. p.0) h))
lift_ok panic f s t h = absurd (cc (ap (λ p. p.0) h))
