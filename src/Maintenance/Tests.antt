-- ===== src/Maintenance/Tests.antt =====
-- The theorems on the sweep at small data.
use safeer_api.Common as Common
use safeer_api.Common.{
  ℕ, ◌+◌, ◌*◌, ◌≡◌, refl, none, some, [], ◌∷◌, Bool, true, false, not, ◌||◌, any, All, Option, find,
}
use safeer_api.Mail.{sent}
use safeer_api.Maintenance.{
  RetentionDb, DatedReply, Step, old_mail, expired_sessions, spent_tokens, old_messages,
  inactive_rows, run_nightly_job,
}
use safeer_api.Maintenance.Delivery.{IsShown, run_nightly_job-IsShown}
use safeer_api.Maintenance.Retention.{
  Swept, is_live_session, is_open_token, is_recent_mail, is_recent_message, is_kept_row,
  run_nightly_job-due,
}

abbrev day : ℕ
day = 86400000

abbrev answer : ℕ → ℕ → DatedReply
answer i mail = record { id = i; message_id = 1; mail_log_id = some mail; delivery_status = none }

-- on the day 1000: a mail of the day 1 and one of the day 999, with their replies
abbrev night : RetentionDb
night = record {
  sessions = [];
  tokens = [];
  mail_log =
      record { id = 1; status = sent; created_at = day }
      ∷ record { id = 2; status = sent; created_at = 999 * day }
      ∷ [];
  replies = answer 1 1 ∷ answer 2 2 ∷ [];
  messages = record { id = 1; created_at = 998 * day } ∷ [];
  subscribers =
      record { id = 1; confirmed_at = none; unsubscribed_at = none; created_at = 900 * day } ∷ [];
}

-- each step reads the clock once; the tokens cannot be purged
abbrev clock : Step → ℕ
clock s = 1000 * day

abbrev fails : Step → Bool
fails spent_tokens = true
fails _ = false

run_nightly_job-IsShown_example :
    All
      (IsShown (λ _. some sent) (run_nightly_job fails clock night).mail_log)
      (run_nightly_job fails clock night).replies
unfolding find
run_nightly_job-IsShown_example =
    run_nightly_job-IsShown (λ _. some sent) fails clock night refl (refl, (refl, tt))
      (refl, (refl, tt)) (refl, (refl, tt))

-- The old mail is gone, and its reply has the outcome.
copied_outcome :
    Common.map (λ (r : DatedReply). r.delivery_status) (run_nightly_job fails clock night).replies
    ≡ some sent ∷ none ∷ []
unfolding run_nightly_job Common.find any Common.delete_where Common.select
copied_outcome = refl

run_nightly_job-due_example :
    Swept false
      (is_live_session (clock expired_sessions))
      night.sessions
      (run_nightly_job fails clock night).sessions
    × Swept true
        (is_open_token (clock spent_tokens))
        night.tokens
        (run_nightly_job fails clock night).tokens
    × Swept false
        (is_recent_mail (clock old_mail))
        night.mail_log
        (run_nightly_job fails clock night).mail_log
    × Swept false
        (is_recent_message (clock old_messages))
        night.messages
        (run_nightly_job fails clock night).messages
    × Swept false
        (is_kept_row (clock inactive_rows))
        night.subscribers
        (run_nightly_job fails clock night).subscribers
run_nightly_job-due_example = run_nightly_job-due fails clock night
