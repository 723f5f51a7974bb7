-- ===== src/Tests/Budgets.antt =====
-- The budgets of app/services/request_limit.py. The digest of the tests joins secret and text.
use sync_nesto_backend.Base.{
  ℕ, ◌+◌, ◌≤◌, ◌≡◌, refl, ◌≢◌, List, [], ◌∷◌, ◌++◌, arith, map, if◌then◌else◌, leb, All, ◌&&◌,
}
use sync_nesto_backend.Base.Text.{Text, codes}
use sync_nesto_backend.Errors.{ok}
use sync_nesto_backend.Database.{request}
use sync_nesto_backend.Limit.{Rows, purge, window_of, global, consume, consume_mfa_budget}
use sync_nesto_backend.Limit.Window.{used}
use sync_nesto_backend.Limit.Budget.{
  Call, IsCall, passes, passes_all, retry_seconds, passes_le, passes_all_le,
}
use sync_nesto_backend.Limit.Mfa.{Attempt, let_through, InWindow, mfa_budget}

abbrev lower : Text → Text
lower text = map (λ c. if leb 65 c && leb c 90 then c + 32 else c) text

abbrev digest : Text → Text → Text
digest secret text = secret ++ text

abbrev secret : Text
secret = codes "secret"

abbrev demo_secret : Text
demo_secret = codes "demo"

abbrev user : Text
user = codes "17"

abbrev try : ℕ → Attempt
try now = record { identifier = user; client_ip = codes "10.0.0.1"; now = now; now' = now }

abbrev twelve : List Attempt
twelve =
    try 120
    ∷ try 121
    ∷ try 122
    ∷ try 123
    ∷ try 124
    ∷ try 125
    ∷ try 126
    ∷ try 127
    ∷ try 128
    ∷ try 129
    ∷ try 130
    ∷ try 131
    ∷ []

ten_of_twelve : let_through digest lower secret demo_secret user twelve [] ≡ 10
unfolding consume_mfa_budget consume
ten_of_twelve = refl

twelve-InWindow : All (InWindow digest lower secret demo_secret 120) twelve
twelve-InWindow = ground arith

mfa_budget_example : let_through digest lower secret demo_secret user twelve [] ≤ 10
mfa_budget_example =
    mfa_budget digest lower secret demo_secret user 120 twelve [] twelve-InWindow refl

abbrev key : Text
key = codes "api:k"

abbrev call : ℕ → Call
call now = record { key = key; limit = 2; now = now }

abbrev calls : List Call
calls = call 120 ∷ call 125 ∷ call 179 ∷ []

two_of_three : passes key calls [] ≡ 2
unfolding consume
two_of_three = refl

calls-IsCall : All (IsCall key 2 120) calls
calls-IsCall = ground arith

passes_le_example : passes key calls [] + used key (purge 120 []) ≤ 2
passes_le_example =
    passes_le key 2 120 calls [] (omega arith) (ground arith) calls-IsCall (omega arith)

in_window : All (λ call. (window_of call.now ≡ 120) × (call.key ≢ global)) calls
in_window = ground arith

passes_all_le_example : passes_all calls [] + used global (purge 120 []) ≤ 6000
passes_all_le_example = passes_all_le 120 calls [] in_window (omega arith)

abbrev spent : Rows
spent = record { key = key; window_start = 120; count = 2 } ∷ []

spent-refused : (request (consume key 2 6000 125) spent).0 ≡ ok 55
unfolding consume
spent-refused = refl

retry_seconds_example : (55 ≤ 60) × (125 + 55 ≡ window_of 125 + 60)
retry_seconds_example = retry_seconds key 2 125 spent spent-refused (ground arith)
