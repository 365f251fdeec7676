-- ===== src/Base/Exec.antt =====
-- Methods that change state and may raise. What was written before a raise stays written, so the
-- state comes back beside the exception too.
use mathlib.Core.Path.{◌≡◌}
use mathlib.Core.Bool.{Bool, true, false}
use lsp_client.Base.Tests.{if◌then◌else◌}

-- The outcome of a call: its value, or the exception that it raised.
pub data Result {ℓ κ} (E : Type κ) (A : Type ℓ) : Type (ℓ ⊔ κ) where
  ok : A → Result E A
  err : E → Result E A

abbrev pub Exec {ℓ} : Type ℓ → Type ℓ → Type ℓ → Type ℓ
Exec S E A = S → Result E A × S

module _ {ℓ} {S E A : Type ℓ} where
  unfoldable pub pure : A → Exec S E A
  pure a s = (ok a, s)

  unfoldable pub raise : E → Exec S E A
  raise e s = (err e, s)

  unfoldable pub lift : Result E A → Exec S E A
  lift r s = (r, s)

  unfoldable pub gets : (S → A) → Exec S E A
  gets f s = (ok (f s), s)

module _ {ℓ} {S E A B : Type ℓ} where
  abbrev pub continue : Result E A → (A → Exec S E B) → Exec S E B
  continue (ok a) f s = f a s
  continue (err e) f s = (err e, s)

  infixl 10 ◌>>=◌ ◌>>◌
  -- opening this opens `pure`, `raise`, `lift` and `gets` too
  unfoldable pub ◌>>=◌ : Exec S E A → (A → Exec S E B) → Exec S E B
  unfolding pure raise lift gets
  (m >>= f) s = let r = m s in continue r.0 f r.1

  abbrev pub ◌>>◌ : Exec S E A → Exec S E B → Exec S E B
  m >> k = m >>= λ _. k

  -- A bind whose first part is known.
  pub bind-ok :
      (m : Exec S E A) (f : A → Exec S E B) (s : S) {a : A} {t : S}
      → m s ≡ (ok a, t)
      → (m >>= f) s ≡ f a t
  unfolding ◌>>=◌
  bind-ok m f s h = rw h

  pub bind-err :
      (m : Exec S E A) (f : A → Exec S E B) (s : S) {e : E} {t : S}
      → m s ≡ (err e, t)
      → (m >>= f) s ≡ (err e, t)
  unfolding ◌>>=◌
  bind-err m f s h = rw h

pub ok_injective {ℓ κ} :
    {E : Type κ} {A : Type ℓ} {a b : A} → ◌≡◌ {A = Result E A} (ok a) (ok b) → a ≡ b
ok_injective h = cc

-- `m` keeps `P`, whether it returns or raises.
pub record Keeps {ℓ} {S E A : Type ℓ} (P : S → Type ℓ) (m : Exec S E A) : Type ℓ where
  pub at : (s : S) → P s → P (m s).1

module _ {ℓ} {S E A B : Type ℓ} {P : S → Type ℓ} where
  pub Keeps-bind :
      (m : Exec S E A) (f : A → Exec S E B)
      → Keeps P m
      → ((a : A) → Keeps P (f a))
      → Keeps P (m >>= f)
  unfolding ◌>>=◌
  Keeps-bind m f km kf = record { at = λ s p. go (m s).0 (m s).1 (km.at s p) }
    where
      go : (r : Result E A) (t : S) → P t → P (continue r f t).1
      go (ok a) t p = (kf a).at t p
      go (err e) t p = p

module _ {ℓ} {S E A : Type ℓ} {P : S → Type ℓ} where
  -- A branch on the state.
  pub Keeps-if :
      (b : S → Bool) (m n : Exec S E A)
      → Keeps P m
      → Keeps P n
      → Keeps P (λ s. if b s then m s else n s)
  Keeps-if b m n km kn = record { at = λ s p. go (b s) s p }
    where
      go : (t : Bool) (s : S) → P s → P (if t then m s else n s).1
      go true s p = km.at s p
      go false s p = kn.at s p
