-- ===== src/Database/Ends.antt =====
-- Rules for how an action ends: what holds of its result and of the session after it.
use sync_nesto_backend.Base.{◌≡◌, refl, Bool, true, false, Option, none, some, if◌then◌else◌}
use sync_nesto_backend.Errors.{ApiError, Result, ok, err}
use sync_nesto_backend.Database.{Session, Action, inspect, or_raise, raise_if, ◌>>=◌, ◌>>◌}

module _ {T A : Type 0} where
  after_result :
      (r : Result Unit) (s' : Session T) (k : Action T A) (s : Session T)
      → r ≡ ok tt
      → ((λ (_ : Session T). (r, s')) >> k) s ≡ k s'
  after_result (ok a) s' k s e = refl
  after_result (err x) s' k s e = cc

  -- After an action that returns, the rest goes on.
  pub after :
      (m : Action T Unit) (k : Action T A) (s : Session T)
      → (m s).0 ≡ ok tt
      → (m >> k) s ≡ k (m s).1
  after m k s e = let (r, s') = m s in after_result r s' k s e

module _ {T A B : Type 0} (R : Result B × Session T → Type 0) where
  pub or_raise-ends :
      (o : Option A) (e : ApiError) (f : A → Action T B) (s : Session T)
      → R (err e, s)
      → ((a : A) → o ≡ some a → R (f a s))
      → R ((or_raise o e >>= f) s)
  or_raise-ends none e f s r k = r
  or_raise-ends (some a) e f s r k = k a refl

  inspect_result :
      (o : Result A) (f : A → Action T B) (s : Session T)
      → ((e : ApiError) → R (err e, s))
      → ((a : A) → o ≡ ok a → R (f a s))
      → R (((λ (_ : Session T). (o, s)) >>= f) s)
  inspect_result (ok a) f s r k = k a refl
  inspect_result (err e) f s r k = r e

  pub inspect-ends :
      (g : T → Result A) (f : A → Action T B) (s : Session T)
      → ((e : ApiError) → R (err e, s))
      → ((a : A) → g s.pending ≡ ok a → R (f a s))
      → R ((inspect g >>= f) s)
  inspect-ends g f s = inspect_result (g s.pending) f s

module _ {T A : Type 0} (R : Result A × Session T → Type 0) where
  pub raise_if-ends :
      (c : Bool) (e : ApiError) (m : Action T A) (s : Session T)
      → R (err e, s)
      → (c ≡ false → R (m s))
      → R ((raise_if c e >> m) s)
  raise_if-ends true e m s r k = r
  raise_if-ends false e m s r k = k refl

  pub if-ends :
      (c : Bool) (m n : Action T A) (s : Session T)
      → (c ≡ true → R (m s))
      → (c ≡ false → R (n s))
      → R ((if c then m else n) s)
  if-ends true m n s k l = k refl
  if-ends false m n s k l = l refl
