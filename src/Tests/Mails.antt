-- ===== src/Tests/Mails.antt =====
-- The mail worker of app/services/notification_email_delivery.py on a queued notification whose
-- transport fails for a time.
use sync_nesto_backend.Base.{ℕ, ◌≤◌, ◌≡◌, refl, ◌≢◌, arith, true, false, none, some, List, [], ◌∷◌}
use sync_nesto_backend.Errors.{ok}
use sync_nesto_backend.Database.{begin}
use sync_nesto_backend.Mail.Tables.{
  accepted, failed, sending, Delivery, Outcome, MailTables, get, seconds, hours,
}
use sync_nesto_backend.Mail.Delivery.{
  Eligible, new_delivery, enqueue_notification_email, recover_and_claim, finish, counted, finished,
}
use sync_nesto_backend.Mail.Worker.{
  returned, Surroundings, outcome_of, start, finish_with, interrupted, deliver, run_once,
}
use sync_nesto_backend.Mail.Invariant.{AllValid, finished_total}
use sync_nesto_backend.Mail.Attempts.{
  MailEvent, enqueue, run, happen_all, AllValid-happen_all, no_mail,
}
use sync_nesto_backend.Mail.Keyed.{IsKeyed}
use sync_nesto_backend.Mail.Live.{recover_and_claim-live}
use sync_nesto_backend.Mail.Sends.{count}
use sync_nesto_backend.Mail.Sends.Bound.{attempts_of, sends_le}
use sync_nesto_backend.Mail.Settled.{run_once-settled}

abbrev notice : Eligible
notice = record { preference_version = 1; email_digest = "d"; content_digest = "c"; created_at = 0 }

-- The transport answers that the mail may be tried again.
abbrev world : ℕ → Surroundings
world now = record {
  fails = false;
  has_source = true;
  eligible = some notice;
  guard_now = now;
  control_now = now;
  sent = returned (outcome_of Outcome.temporary "smtp_temporary");
  finish_now = now;
}

abbrev run_at : ℕ → ℕ → MailEvent
run_at now token = run true true (world now) now token

-- A queued mail, then five runs, each at a time at which it is due.
abbrev history : List MailEvent
history =
    enqueue true (some notice) 1 40 0
    ∷ run_at (seconds 1) 101
    ∷ run_at (seconds 100) 102
    ∷ run_at (seconds 1000) 103
    ∷ run_at (seconds 4000) 104
    ∷ run_at (seconds 9000) 105
    ∷ []

abbrev exhausted : Delivery
exhausted = record {
  id = 1;
  notification_id = 40;
  preference_version = 1;
  email_digest = "d";
  template_version = 1;
  content_digest = "c";
  state = failed;
  version = 13;
  attempt_count = 4;
  claim_token = some 104;
  lease_until = some (seconds 4030);
  next_attempt_at = seconds 2800;
  expires_at = hours 24;
}

gives_up : get 1 (happen_all history no_mail).deliveries ≡ some exhausted
unfolding enqueue_notification_email run_once recover_and_claim deliver start finish_with finish
    interrupted
gives_up = refl

-- The transport has been called four times, and not in the fifth run.
four_sends : (happen_all history no_mail).sent ≡ 1 ∷ 1 ∷ 1 ∷ 1 ∷ []
unfolding enqueue_notification_email run_once recover_and_claim deliver start finish_with finish
    interrupted
four_sends = refl

sends_le_example :
    let t = happen_all history no_mail in
    (count 1 t.sent ≤ attempts_of (get 1 t.deliveries)) × (attempts_of (get 1 t.deliveries) ≤ 4)
sends_le_example = sends_le history 1

AllValid-happen_all_example : AllValid (happen_all history no_mail)
AllValid-happen_all_example = AllValid-happen_all history no_mail tt

finished_total_example : finished Outcome.temporary (seconds 2) (counted exhausted) ≢ none
finished_total_example = finished_total Outcome.temporary (seconds 2) (counted exhausted)

abbrev sent_row : Delivery
sent_row = record exhausted { id = 2; notification_id = 41; state = accepted }

abbrev waiting_row : Delivery
waiting_row = new_delivery 3 42 0 notice

-- One delivery is accepted, one is due.
abbrev two_mails : MailTables
two_mails = record { deliveries = sent_row ∷ waiting_row ∷ []; attempts = []; sent = [] }

two_mails-IsKeyed : IsKeyed two_mails.deliveries
two_mails-IsKeyed = (refl, (refl, tt))

run_once-settled_example :
    get 2 (run_once true true (world (seconds 5)) (seconds 5) 106 two_mails).1.deliveries
    ≡ some sent_row
run_once-settled_example =
    run_once-settled true true (world (seconds 5)) (seconds 5) 106 two_mails 2 sent_row
      two_mails-IsKeyed refl refl

-- A mail that waits beside one whose sending has been interrupted.
abbrev interrupted_and_due : MailTables
interrupted_and_due = record {
  deliveries =
      record (new_delivery 1 40 0 notice) {
        state = sending;
        attempt_count = 1;
        claim_token = some 101;
        lease_until = some (seconds 31);
      }
      ∷ new_delivery 2 41 0 notice
      ∷ [];
  attempts = [];
  sent = [];
}

recover_and_claim-live_example :
    (claimed : Delivery) × ((begin (recover_and_claim (seconds 60) 102) interrupted_and_due).0
      ≡ ok (some claimed))
recover_and_claim-live_example =
    recover_and_claim-live (seconds 60) 102 2 (new_delivery 2 41 0 notice) interrupted_and_due
      ((omega arith, omega arith, (λ e. cc), (λ e. cc)), (omega arith, tt)) (refl, (refl, tt)) refl
      refl (omega arith)
