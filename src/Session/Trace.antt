-- ===== src/Session/Trace.antt =====
-- The order of messages that the protocol asks for, and how the parts of a session keep it.
use lsp_client.Base.{◌≡◌, ◌≢◌, refl, ◌||◌, List, [], ◌∷◌, ◌++◌, if◌then◌else◌, str_eq}
use lsp_client.Base.Exec.{Result, ok, err, continue, ◌>>=◌}
use lsp_client.Session.{
  Failure, Message, request, notification, State, Session, settle, try_finally,
}

-- A client that has sent nothing; asked to initialize; is initialized; asked to shut down; has
-- exited; or broke the order.
pub data Life : Type 0 where
  start asked running stopping exited broken : Life

abbrev pub next : Life → Message → Life
next start (request m) = if str_eq m "initialize" then asked else broken
next asked (notification m) = if str_eq m "initialized" then running else broken
next running (request m) =
    if str_eq m "shutdown" then stopping else if str_eq m "initialize" then broken else running
next running (notification m) =
    if str_eq m "exit" || str_eq m "initialized" then broken else running
next stopping (notification m) = if str_eq m "exit" then exited else broken
next _ m = broken

unfoldable pub life : List Message → Life → Life
life [] l = l
life (m ∷ ms) l = life ms (next l m)

pub life-append :
    (ms : List Message) (m : Message) (l : Life) → life (ms ++ m ∷ []) l ≡ next (life ms l) m
unfolding life
life-append [] m l = refl
life-append (n ∷ ms) m l = life-append ms m (next l n)

-- The messages that were sent bring a client here; they keep the order.
abbrev pub At : {W : Type 0} → Life → State W → Type 0
At l s = life s.sent start ≡ l

abbrev pub IsOrdered : {W : Type 0} → State W → Type 0
IsOrdered s = life s.sent start ≢ broken

-- What holds of the state after a call that returns, and after one that raises.
abbrev pub Post {ℓ} : {S E A : Type 0} → (S → Type ℓ) → (S → Type ℓ) → Result E A × S → Type ℓ
Post Q R (ok a, s) = Q s
Post Q R (err e, s) = R s

pub record Hoare {ℓ} {S E A : Type 0} (P : S → Type ℓ) (m : S → Result E A × S) (Q R : S → Type ℓ)
    : Type ℓ where
  pub at : (s : S) → P s → Post Q R (m s)

pub bind-Hoare {ℓ} :
    {S E A B : Type 0} {P Q Q' R : S → Type ℓ} (m : S → Result E A × S) (f : A → S → Result E B × S)
    → Hoare P m Q R
    → ((a : A) → Hoare Q (f a) Q' R)
    → Hoare P (m >>= f) Q' R
unfolding ◌>>=◌
bind-Hoare {S} {E} {A} {B} {P} {Q} {Q'} {R} m f h k = record { at = λ s p. go (m s) (h.at s p) }
  where
    go : (r : Result E A × S) → Post Q R r → Post Q' R (continue r.0 f r.1)
    go (ok a, t) q = (k a).at t q
    go (err e, t) q = q

module _ {W E A : Type 0} where
  pub finally-Hoare {ℓ} :
      {P Q Q' R : State W → Type ℓ} (body : Session W E A) (last : Session W E (Unit {0}))
      → Hoare P body Q Q
      → Hoare Q last Q' R
      → ((s : State W) → Q' s → R s)
      → Hoare P (try_finally body last) Q' R
  unfolding try_finally
  finally-Hoare {P} {Q} {Q'} {R} body last h k w = record { at = λ s p. go (body s) (h.at s p) }
    where
      after :
          (r : Result (Failure E) A) (l : Result (Failure E) (Unit {0}) × State W)
          → Post Q' R l
          → Post Q' R (settle r l.0, l.1)
      after (ok a) (ok u, t) q = q
      after (err e) (ok u, t) q = w t q
      after r (err e, t) q = q

      go :
          (r : Result (Failure E) A × State W)
          → Post Q Q r
          → Post Q' R (settle r.0 (last r.1).0, (last r.1).1)
      go (ok a, t) q = after (ok a) (last t) (k.at t q)
      go (err e, t) q = after (err e) (last t) (k.at t q)
