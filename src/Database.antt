-- ===== src/Database.antt =====
-- The SQLAlchemy session as the services use it: what the current transaction sees (`pending`) and
-- what is durable (`committed`). A handler is a state-and-exception action over the two; when an
-- exception leaves the request the session is closed, and only `committed` remains.
pub mod Rules
pub mod Kept
pub mod Ends
use sync_nesto_backend.Base.{
  ℕ, suc, String, ◌≡◌, refl, Bool, true, false, Option, none, some, List, [], ◌∷◌, if◌then◌else◌,
}
use sync_nesto_backend.Base.Int.{ℤ}
use sync_nesto_backend.Base.Text.{Text}
use sync_nesto_backend.Errors.{ApiError, Result, ok, err}

pub record Session {ℓ} (T : Type ℓ) : Type ℓ where
  pub committed : T
  pub pending : T

abbrev pub Action : Type 0 → Type 0 → Type 0
Action T A = Session T → Result A × Session T

-- A session with no open transaction.
abbrev pub opened : {T : Type 0} → T → Session T
opened t = record { committed = t; pending = t }

module _ {T A : Type 0} where
  abbrev pub pure : A → Action T A
  pure a s = (ok a, s)

  abbrev pub raise : ApiError → Action T A
  raise e s = (err e, s)

  -- A query of the current transaction.
  abbrev pub gets : (T → A) → Action T A
  gets f s = (ok (f s.pending), s)

  -- `if value is None: raise e`
  abbrev pub or_raise : Option A → ApiError → Action T A
  or_raise none e = raise e
  or_raise (some a) e = pure a

  -- A check that only reads what the transaction sees.
  abbrev pub inspect : (T → Result A) → Action T A
  inspect f s = (f s.pending, s)

module _ {T : Type 0} where
  abbrev pub raise_if : Bool → ApiError → Action T Unit
  raise_if c e s = (if c then err e else ok tt, s)

  -- A flushed write.
  abbrev pub modify : (T → T) → Action T Unit
  modify f s = (ok tt, record { committed = s.committed; pending = f s.pending })

  -- `db.commit()`
  abbrev pub commit : Action T Unit
  commit s = (ok tt, record { committed = s.pending; pending = s.pending })

  -- `db.rollback()`
  abbrev pub rollback : Action T Unit
  rollback s = (ok tt, record { committed = s.committed; pending = s.committed })

module _ {T A B : Type 0} where
  infixl 5 ◌>>=◌ ◌>>◌
  abbrev pub ◌>>=◌ : Action T A → (A → Action T B) → Action T B
  ◌>>=◌ m f s = let (r, s') = m s in elim r [ ok a ↦ f a s' | err e ↦ raise e s' ]

  abbrev pub ◌>>◌ : Action T A → Action T B → Action T B
  m >> k = m >>= λ _. k

-- The value of a field of a snapshot: `day` is the ISO text of a date, and `phase_value` the kind, the
-- id and the name of the phase of a task.
pub data Value : Type 0 where
  absent : Value
  whole : ℕ → Value
  word : String → Value
  day : ℕ → Value
  integer : ℤ → Value
  chars : Text → Value
  texts : List String → Value
  phase_value : String → Option ℕ → Option Text → Value

-- A value of a JSON column; `time` is the ISO text of a time, and `fields` an object.
pub data Cell : Type 0 where
  null : Cell
  number : ℕ → Cell
  text : String → Cell
  time : ℕ → Cell
  field : Value → Cell
  fields : List (String × Value) → Cell

abbrev pub Snapshot : Type 0
Snapshot = List (String × Cell)

-- How a request ends: what its handler returned, over what is durable once the session is closed.
abbrev pub request : {T A : Type 0} → Action T A → T → Result A × T
request m t = let (r, s) = m (opened t) in (r, s.committed)

-- The end of a transaction block that began at `t`.
abbrev pub conclude : {T A : Type 0} → T → Result A → Session T → Result A × T
conclude t (ok a) s = (ok a, s.pending)
conclude t (err e) s = (err e, t)

-- `with sessions.begin() as db`: the transaction commits if the block returns, and is rolled back
-- if it raises.
abbrev pub begin : {T A : Type 0} → Action T A → T → Result A × T
begin m t = let (r, s) = m (opened t) in conclude t r s
