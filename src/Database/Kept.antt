-- ===== src/Database/Kept.antt =====
-- Rules for what an action keeps from a given session, when its guards have been passed.
use sync_nesto_backend.Base.{◌≡◌, refl, sym, Bool, true, false, Option, none, some, if◌then◌else◌}
use mathlib.Core.Path.{subst}
use sync_nesto_backend.Errors.{ApiError, Result, ok, err}
use sync_nesto_backend.Database.{Session, Action, inspect, or_raise, raise_if, request, ◌>>=◌, ◌>>◌}
use sync_nesto_backend.Database.Rules.{KeepsBoth, KeepsBoth->>=}

module _ {T : Type 0} (P : T → Type 0) where
  -- What holds of the durable tables and of those that the transaction sees, from this session on.
  abbrev pub Kept : {A : Type 0} → Action T A → Session T → Type 0
  Kept m s = P s.committed × P s.pending → P (m s).1.committed × P (m s).1.pending

module _ {T A B : Type 0} (P : T → Type 0) where
  pub or_raise-Kept :
      (o : Option A) (e : ApiError) (f : A → Action T B) (s : Session T)
      → ((a : A) → o ≡ some a → Kept P (f a) s)
      → Kept P (or_raise o e >>= f) s
  or_raise-Kept none e f s k p = p
  or_raise-Kept (some a) e f s k p = k a refl p

  inspect_result :
      (r : Result A) (f : A → Action T B) (s : Session T)
      → ((a : A) → r ≡ ok a → Kept P (f a) s)
      → Kept P ((λ s'. (r, s')) >>= f) s
  inspect_result (ok a) f s k p = k a refl p
  inspect_result (err e) f s k p = p

  pub inspect-Kept :
      (g : T → Result A) (f : A → Action T B) (s : Session T)
      → ((a : A) → g s.pending ≡ ok a → Kept P (f a) s)
      → Kept P (inspect g >>= f) s
  inspect-Kept g f s k = inspect_result (g s.pending) f s k

  -- What is kept by the first part from this session, and by the second from all.
  pub bind-Kept :
      (m : Action T A) (f : A → Action T B) (s : Session T)
      → Kept P m s
      → ((a : A) → KeepsBoth P (f a))
      → Kept P (m >>= f) s
  bind-Kept m f s km kf p =
      let (r, s') = m s in KeepsBoth->>= P (λ _. (r, s')) f (λ _ q. km p) kf s p

module _ {T A : Type 0} (P : T → Type 0) where
  pub raise_if-Kept :
      (c : Bool) (e : ApiError) (m : Action T A) (s : Session T)
      → (c ≡ false → Kept P m s)
      → Kept P (raise_if c e >> m) s
  raise_if-Kept true e m s k p = p
  raise_if-Kept false e m s k p = k refl p

  pub if-Kept :
      (c : Bool) (m n : Action T A) (s : Session T)
      → (c ≡ true → Kept P m s)
      → (c ≡ false → Kept P n s)
      → Kept P (if c then m else n) s
  if-Kept true m n s k l p = k refl p
  if-Kept false m n s k l p = l refl p

module _ {T A B : Type 0} (P : T → Type 0) where
  -- What a request leaves when its first check has passed.
  pub request-inspect :
      (g : T → Result A) (f : A → Action T B) (t : T) (a : A)
      → g t ≡ ok a
      → P (request (f a) t).1
      → P (request (inspect g >>= f) t).1
  request-inspect g f t a h p =
      subst (λ (r : Result A). P (request ((λ s. (r, s)) >>= f) t).1) (sym h) p
