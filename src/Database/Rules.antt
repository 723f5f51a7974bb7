-- ===== src/Database/Rules.antt =====
-- Rules for what an action keeps of the tables that its transaction sees.
use sync_nesto_backend.Base.{◌≢◌}
use sync_nesto_backend.Errors.{ApiError, Result, ok, err}
use sync_nesto_backend.Database.{
  Session, Action, opened, raise, ◌>>=◌, ◌>>◌, conclude, begin, request,
}

module _ {T : Type 0} (P : T → Type 0) where
  -- Whether it returns or raises.
  abbrev pub Keeps : {A : Type 0} → Action T A → Type 0
  Keeps m = (s : Session T) → P s.pending → P (m s).1.pending

module _ {T A B : Type 0} (P : T → Type 0) where
  bind_result :
      (f : A → Action T B) (r : Result A) (s : Session T)
      → P s.pending
      → ((a : A) → Keeps P (f a))
      → P (((λ (s' : Session T). (r, s)) >>= f) s).1.pending
  bind_result f (ok a) s p k = k a s p
  bind_result f (err e) s p k = p

  pub Keeps->>= :
      (m : Action T A) (f : A → Action T B)
      → Keeps P m
      → ((a : A) → Keeps P (f a))
      → Keeps P (m >>= f)
  Keeps->>= m f km kf s p = let (r, s') = m s in bind_result f r s' (km s p) kf

module _ {T A : Type 0} (P : T → Type 0) where
  conclude_keeps : (t : T) (r : Result A) (s : Session T) → P t → P s.pending → P (conclude t r s).1
  conclude_keeps t (ok a) s p q = q
  conclude_keeps t (err e) s p q = p

  pub begin-keeps : (m : Action T A) (t : T) → Keeps P m → P t → P (begin m t).1
  begin-keeps m t k p = let (r, s) = m (opened t) in conclude_keeps t r s p (k (opened t) p)

module _ {T : Type 0} (P : T → Type 0) where
  -- What holds of the durable tables and of those that the transaction sees.
  abbrev pub KeepsBoth : {A : Type 0} → Action T A → Type 0
  KeepsBoth m =
      (s : Session T) → P s.committed × P s.pending → P (m s).1.committed × P (m s).1.pending

module _ {T A B : Type 0} (P : T → Type 0) where
  both_result :
      (f : A → Action T B) (r : Result A) (s : Session T)
      → P s.committed × P s.pending
      → ((a : A) → KeepsBoth P (f a))
      → P (((λ (s' : Session T). (r, s)) >>= f) s).1.committed
        × P (((λ (s' : Session T). (r, s)) >>= f) s).1.pending
  both_result f (ok a) s p k = k a s p
  both_result f (err e) s p k = p

  pub KeepsBoth->>= :
      (m : Action T A) (f : A → Action T B)
      → KeepsBoth P m
      → ((a : A) → KeepsBoth P (f a))
      → KeepsBoth P (m >>= f)
  KeepsBoth->>= m f km kf s p = let (r, s') = m s in both_result f r s' (km s p) kf

module _ {T A : Type 0} (P : T → Type 0) where
  pub request-KeepsBoth : (m : Action T A) (t : T) → KeepsBoth P m → P t → P (request m t).1
  request-KeepsBoth m t k p = (k (opened t) (p, p)).0

module _ {T A B : Type 0} where
  raise_result :
      (e : ApiError) (r : Result A) (s : Session T) (b : B)
      → (((λ (s' : Session T). (r, s)) >> raise e) s).0 ≢ ok b
  raise_result e (ok a) s b h = cc
  raise_result e (err e') s b h = cc

  -- What ends with a raise does not return.
  pub raises : (m : Action T A) (e : ApiError) (s : Session T) (b : B) → ((m >> raise e) s).0 ≢ ok b
  raises m e s b = let (r, s') = m s in raise_result e r s' b
