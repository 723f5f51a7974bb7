-- ===== src/Auth/Mfa/Login/Step.antt =====
-- The step of a one-time password that `verify_code` of app/services/mfa.py matches.
use sync_nesto_backend.Base.{
  ℕ, ◌≤◌, ◌<◌, ◌≡◌, refl, ◌⊎◌, inl, inr, Bool, true, false, not, ◌&&◌, ◌||◌, Option, none, some,
  List, [], ◌∷◌, String, str_eq, arith, ◌==◌, filter, All, some-injective, if◌then◌else◌,
}
use mathlib.Core.Path.{subst}
use sync_nesto_backend.Base.Text.{Text, text_eq}
use sync_nesto_backend.Errors.{Result, ok}
use sync_nesto_backend.Auth.Mfa.{
  MfaFactor, MfaTables, put_factor, is_later, is_code, steps_at, first_step, totp_step, matched,
  match_secret, match_factor, match_code,
}

-- A factor has used this step, or a later one.
abbrev pub IsAtLeast : ℕ → Option ℕ → Type 0
IsAtLeast k none = ⊥
IsAtLeast k (some last) = k ≤ last

-- The factor with this id has.
abbrev pub Spent : ℕ → ℕ → MfaTables → Type 0
Spent id k t = All (λ f. f.id ≡ id → IsAtLeast k f.last_step) t.factors

pub IsAtLeast-later :
    (k step : ℕ) (o : Option ℕ) → IsAtLeast k o → is_later step o ≡ true → k < step
IsAtLeast-later k step none h e = absurd h
IsAtLeast-later k step (some last) h e = ground arith

pub weaken : {a b : ℕ} → a < b → a ≤ b
weaken h = omega arith

module _ (decrypt : String → Option String) (totp_at : String → ℕ → Text) where
  first_step-later :
      (secret : String) (code : Text) (last : Option ℕ) (steps : List ℕ) (step : ℕ)
      → first_step decrypt totp_at secret code last steps ≡ some step
      → is_later step last ≡ true
  first_step-later secret code last [] step h = cc
  first_step-later secret code last (s ∷ steps) step h =
      by_test (is_later s last) (text_eq (totp_at secret s) code) refl h
        (first_step-later secret code last steps step)
    where
      by_test :
          (a b : Bool)
          → is_later s last ≡ a
          → (if a && b then some s else first_step decrypt totp_at secret code last steps)
            ≡ some step
          → (first_step decrypt totp_at secret code last steps ≡ some step
              → is_later step last ≡ true)
          → is_later step last ≡ true
      by_test true true e h rest = subst (λ x. is_later x last ≡ true) (some-injective h) e
      by_test true false e h rest = rest h
      by_test false b e h rest = rest h

  totp_step-later :
      (secret : String) (code : Text) (last : Option ℕ) (now step : ℕ)
      → totp_step decrypt totp_at secret code last now ≡ some step
      → is_later step last ≡ true
  totp_step-later secret code last now step h = by_form (is_code code) h
    where
      by_form :
          (c : Bool)
          → (if c then first_step decrypt totp_at secret code last (steps_at now) else none)
            ≡ some step
          → is_later step last ≡ true
      by_form true h = first_step-later secret code last (steps_at now) step h
      by_form false h = cc

  -- A match comes from this factor, at a step later than its last one, or from the others.
  abbrev IsFrom : MfaFactor → MfaFactor → ℕ → Result (Option (MfaFactor × ℕ)) → Type 0
  IsFrom f g s rest = (rest ≡ ok (some (g, s))) ⊎ (f ≡ g) × (is_later s f.last_step ≡ true)

  matched-IsFrom :
      (f g : MfaFactor) (s : ℕ) (o : Option ℕ) (rest : Result (Option (MfaFactor × ℕ)))
      → ((step : ℕ) → o ≡ some step → is_later step f.last_step ≡ true)
      → matched decrypt totp_at f o rest ≡ ok (some (g, s))
      → IsFrom f g s rest
  matched-IsFrom f g s none rest later h = inl h
  matched-IsFrom f g s (some step) rest later h =
      let same : f ≡ g = cc in
      let at : step ≡ s = cc in
      inr (same, subst (λ x. is_later x f.last_step ≡ true) at (later step refl))

  match_secret-IsFrom :
      (f g : MfaFactor) (s : ℕ) (o : Option String) (code : Text) (now : ℕ)
      (rest : Result (Option (MfaFactor × ℕ)))
      → match_secret decrypt totp_at f o code now rest ≡ ok (some (g, s))
      → IsFrom f g s rest
  match_secret-IsFrom f g s none code now rest h = cc
  match_secret-IsFrom f g s (some secret) code now rest h =
      matched-IsFrom f g s (totp_step decrypt totp_at secret code f.last_step now) rest
        (λ step e. totp_step-later secret code f.last_step now step e) h

  match_factor-IsFrom :
      (f g : MfaFactor) (s : ℕ) (o : Option String) (code : Text) (now : ℕ)
      (rest : Result (Option (MfaFactor × ℕ)))
      → match_factor decrypt totp_at f o code now rest ≡ ok (some (g, s))
      → IsFrom f g s rest
  match_factor-IsFrom f g s none code now rest h = inl h
  match_factor-IsFrom f g s (some encrypted) code now rest h =
      by_kind (not (str_eq f.kind "totp") || str_eq encrypted "") h
    where
      by_kind :
          (c : Bool)
          → (if c then rest else match_secret decrypt totp_at f (decrypt encrypted) code now rest)
            ≡ ok (some (g, s))
          → IsFrom f g s rest
      by_kind true h = inl h
      by_kind false h = match_secret-IsFrom f g s (decrypt encrypted) code now rest h

  -- A match is one of the factors, at a step that is later than its last one.
  pub match_code-later :
      (Q : MfaFactor → Type 0) (fs : List MfaFactor) (code : Text) (now : ℕ) (g : MfaFactor) (s : ℕ)
      → match_code decrypt totp_at fs code now ≡ ok (some (g, s))
      → All Q fs
      → Q g × (is_later s g.last_step ≡ true)
  unfolding match_code
  match_code-later Q [] code now g s h all = cc
  match_code-later Q (f ∷ fs) code now g s h (q, all) =
      elim (match_factor-IsFrom f g s f.secret code now (match_code decrypt totp_at fs code now)
        h) [
          | inl others ↦ match_code-later Q fs code now g s others all
          | inr (same, later) ↦
              (subst Q same q, subst (λ x. is_later s x.last_step ≡ true) same later)
        ]

pub All-filter :
    (Q : MfaFactor → Type 0) (keep : MfaFactor → Bool) (fs : List MfaFactor)
    → All Q fs
    → All Q (filter keep fs)
All-filter Q keep [] all = tt
All-filter Q keep (f ∷ fs) (q, all) = by_test (keep f) (All-filter Q keep fs all)
  where
    by_test :
        (c : Bool)
        → All Q (filter keep fs)
        → All Q (if c then f ∷ filter keep fs else filter keep fs)
    by_test true rest = (q, rest)
    by_test false rest = rest

pub All-put_factor :
    (Q : MfaFactor → Type 0) (row : MfaFactor) (fs : List MfaFactor)
    → Q row
    → All Q fs
    → All Q (put_factor row fs)
All-put_factor Q row [] q all = tt
All-put_factor Q row (f ∷ fs) q (r, all) = (by_id (f.id == row.id), All-put_factor Q row fs q all)
  where
    by_id : (c : Bool) → Q (if c then row else f)
    by_id true = q
    by_id false = r
