-- ===== src/Mail/Keyed.antt =====
-- Deliveries with different ids, and the states that the worker is done with.
use sync_nesto_backend.Base.{
  ℕ, ◌≡◌, refl, ◌≢◌, inl, inr, Bool, true, false, none, some, List, [], ◌∷◌, arith, ◌==◌, All,
  Bool-cases,
}
use sync_nesto_backend.Mail.Tables.{
  DeliveryState, accepted, unknown, failed, suppressed, Delivery, put, get,
}

-- The worker has nothing more to do for a delivery in this state.
abbrev pub is_settled : DeliveryState → Bool
is_settled accepted = true
is_settled unknown = true
is_settled failed = true
is_settled suppressed = true
is_settled _ = false

pub get-put :
    (k : ℕ) (row : Delivery) (rows : List Delivery) → row.id ≢ k → get k (put row rows) ≡ get k rows
get-put k row [] ne = refl
get-put k row (r ∷ rows) ne = ground (arith, get-put k row rows ne)

-- The rows have different ids: `id` is the primary key.
abbrev pub IsKeyed : List Delivery → Type 0
IsKeyed [] = Unit
IsKeyed (r ∷ rows) = (get r.id rows ≡ none) × IsKeyed rows

get-put-none :
    (k : ℕ) (row : Delivery) (rows : List Delivery)
    → get k rows ≡ none
    → get k (put row rows) ≡ none
get-put-none k row [] h = refl
get-put-none k row (r ∷ rows) h = ground (arith, get-put-none k row rows)

pub IsKeyed-put : (row : Delivery) (rows : List Delivery) → IsKeyed rows → IsKeyed (put row rows)
IsKeyed-put row [] h = tt
IsKeyed-put row (r ∷ rows) h =
    ground (arith, IsKeyed-put row rows h.1, get-put-none r.id row rows h.0)

pub get-none-All : (k : ℕ) (rows : List Delivery) → get k rows ≡ none → All (λ r. r.id ≢ k) rows
get-none-All k [] h = tt
get-none-All k (r ∷ rows) h = ground (arith, get-none-All k rows)

-- With different ids, every row with the id of a settled row is that row.
pub IsKeyed-All :
    (k : ℕ) (d : Delivery) (rows : List Delivery)
    → IsKeyed rows
    → get k rows ≡ some d
    → is_settled d.state ≡ true
    → All (λ r. is_settled r.state ≡ false → r.id ≢ k) rows
IsKeyed-All k d [] h e settled = tt
IsKeyed-All k d (r ∷ rows) h e settled = elim (Bool-cases (r.id == k)) [
  | inl same ↦
      (λ unsettled e'. ground arith, unsettled_rows rows (get-none-All k rows (ground arith)))
  | inr other ↦ (λ unsettled. ground arith, IsKeyed-All k d rows h.1 (ground arith) settled)
]
  where
    unsettled_rows :
        (rs : List Delivery)
        → All (λ r. r.id ≢ k) rs
        → All (λ r. is_settled r.state ≡ false → r.id ≢ k) rs
    unsettled_rows [] g = tt
    unsettled_rows (r' ∷ rs) g = (λ _. g.0, unsettled_rows rs g.1)
