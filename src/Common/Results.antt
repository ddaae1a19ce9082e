-- ===== src/Common/Results.antt =====
-- A Python function that may raise returns a `Result`, whose errors are of the component's type.
use mathlib.Core.Path.{◌≡◌, refl, subst}
use mathlib.Core.Bool.{Bool, true, false}

pub data Result {ℓ} (E A : Type ℓ) : Type ℓ where
  ok : A → Result E A
  err : E → Result E A

infixl 5 ◌>>=◌ ◌>>◌
unfoldable pub ◌>>=◌ {ℓ} : {E A B : Type ℓ} → Result E A → (A → Result E B) → Result E B
ok a >>= f = f a
err e >>= f = err e

abbrev pub ◌>>◌ : {E B : Type 0} → Result E (Unit {0}) → Result E B → Result E B
m >> k = m >>= λ _. k

-- `if test: raise error`
abbrev pub refuse {ℓ} : {E : Type ℓ} → Bool → E → Result E (Unit {ℓ})
refuse true e = err e
refuse false e = ok tt

pub >>=-eq-ok {ℓ} :
    {E A B : Type ℓ} (m : Result E A) (f : A → Result E B) {b : B}
    → (m >>= f) ≡ ok b
    → (a : A) × (m ≡ ok a) × (f a ≡ ok b)
unfolding ◌>>=◌
>>=-eq-ok (ok a) f h = (a, refl, h)
>>=-eq-ok (err e) f h = cc

-- What holds of the value, if there is one.
pub record OnOk {ℓ κ} {E A : Type ℓ} (P : A → Type κ) (m : Result E A) : Type (ℓ ⊔ κ) where
  pub at : (a : A) → m ≡ ok a → P a

pub ok-injective {ℓ} : {E A : Type ℓ} {a b : A} → ◌≡◌ {A = Result E A} (ok a) (ok b) → a ≡ b
ok-injective h = cc

module _ {ℓ μ} {E B : Type ℓ} (Q : B → Type μ) where
  pub OnOk-ok : (b : B) → Q b → OnOk {E = E} Q (ok b)
  OnOk-ok b h = record { at = λ a e. subst Q (ok-injective e) h }

  pub OnOk-err : (e : E) → OnOk Q (err e)
  OnOk-err e = record { at = λ a h. elim (distinct h) [ ] }
    where
      distinct : {a : B} → ◌≡◌ {A = Result E B} (err e) (ok a) → ⊥
      distinct h = cc

module _ {ℓ μ} {E A B : Type ℓ} (Q : B → Type μ) where
  pub OnOk-then :
      (m : Result E A) (f : A → Result E B) → ((a : A) → m ≡ ok a → OnOk Q (f a)) → OnOk Q (m >>= f)
  unfolding ◌>>=◌
  OnOk-then (ok a) f next = next a refl
  OnOk-then (err e) f next = OnOk-err Q e
