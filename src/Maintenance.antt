-- ===== src/Maintenance.antt =====
-- The nightly retention sweep: src/maintenance/maintenance.service.ts.
pub mod Retention
pub mod Delivery
mod Tests
use safeer_api.Common.{
  ℕ, ◌-◌, ◌*◌, Option, none, some, List, [], ◌∷◌, map, Bool, true, false, not, ◌&&◌, ◌||◌, ◌==◌,
  ltb, if◌then◌else◌, find, any, delete_where,
}
use safeer_api.Accounts.{Session, AuthToken, is_null, days}
use safeer_api.Mail.{MailStatus}

-- the columns of the tables that the sweep reads and writes
pub record DatedMail : Type 0 where
  pub id : ℕ
  pub status : MailStatus
  pub created_at : ℕ

pub record DatedReply : Type 0 where
  pub id : ℕ
  pub message_id : ℕ
  pub mail_log_id : Option ℕ
  pub delivery_status : Option MailStatus

pub record DatedMessage : Type 0 where
  pub id : ℕ
  pub created_at : ℕ

pub record DatedSubscriber : Type 0 where
  pub id : ℕ
  pub confirmed_at : Option ℕ
  pub unsubscribed_at : Option ℕ
  pub created_at : ℕ

pub record RetentionDb : Type 0 where
  pub sessions : List Session
  pub tokens : List AuthToken
  pub mail_log : List DatedMail
  pub replies : List DatedReply
  pub messages : List DatedMessage
  pub subscribers : List DatedSubscriber

abbrev pub mail_log_retention_days : ℕ
mail_log_retention_days = 90

abbrev pub contact_message_retention_days : ℕ
contact_message_retention_days = 730

abbrev pub newsletter_inactive_retention_days : ℕ
newsletter_inactive_retention_days = 30

-- A time before the epoch is taken for the epoch: no row is older.
abbrev pub days_ago : ℕ → ℕ → ℕ
days_ago now n = now - days n

-- `column < cutoff`, which is not true of NULL
abbrev pub is_before : ℕ → Option ℕ → Bool
is_before cutoff none = false
is_before cutoff (some t) = ltb t cutoff

abbrev pub is_dead_session : ℕ → Session → Bool
is_dead_session now s = ltb s.expires_at now || not (is_null s.revoked_at)

unfoldable pub purge_expired_sessions : ℕ → RetentionDb → RetentionDb
purge_expired_sessions now db = record db {
  sessions = delete_where (is_dead_session now) db.sessions;
}

abbrev pub is_spent_token : ℕ → AuthToken → Bool
is_spent_token now t = not (is_null t.used_at) || ltb t.expires_at now

unfoldable pub purge_spent_auth_tokens : ℕ → RetentionDb → RetentionDb
purge_spent_auth_tokens now db = record db { tokens = delete_where (is_spent_token now) db.tokens }

abbrev pub is_old_mail : ℕ → DatedMail → Bool
is_old_mail now m = ltb m.created_at (days_ago now mail_log_retention_days)

abbrev pub is_mail_of : Option ℕ → DatedMail → Bool
is_mail_of none m = false
is_mail_of (some i) m = m.id == i

abbrev pub status_or : Option MailStatus → Option DatedMail → Option MailStatus
status_or old none = old
status_or old (some m) = some m.status

-- the join of a reply with its mail, if that is old
abbrev pub with_status : ℕ → List DatedMail → DatedReply → DatedReply
with_status now log r = record r {
  delivery_status =
      status_or r.delivery_status (find (λ m. is_mail_of r.mail_log_id m && is_old_mail now m) log);
}

unfoldable pub keep_reply_delivery_status : ℕ → RetentionDb → RetentionDb
keep_reply_delivery_status now db = record db {
  replies = map (with_status now db.mail_log) db.replies;
}

-- ON DELETE SET NULL
abbrev pub unlinked : List DatedMail → DatedReply → DatedReply
unlinked log r = record r {
  mail_log_id = if any (is_mail_of r.mail_log_id) log then r.mail_log_id else none;
}

unfoldable pub purge_old_mail_log : ℕ → RetentionDb → RetentionDb
purge_old_mail_log now db =
    let left = delete_where (is_old_mail now) db.mail_log in
    record db { mail_log = left; replies = map (unlinked left) db.replies }

abbrev pub is_old_message : ℕ → DatedMessage → Bool
is_old_message now m = ltb m.created_at (days_ago now contact_message_retention_days)

-- The replies go with their message; the link of a testimonial to it is left out.
unfoldable pub purge_old_contact_messages : ℕ → RetentionDb → RetentionDb
purge_old_contact_messages now db = record db {
  messages = delete_where (is_old_message now) db.messages;
  replies =
      delete_where (λ r. any (λ m. m.id == r.message_id && is_old_message now m) db.messages)
        db.replies;
}

abbrev pub is_inactive_row : ℕ → DatedSubscriber → Bool
is_inactive_row now s =
    let cutoff = days_ago now newsletter_inactive_retention_days in
    is_before cutoff s.unsubscribed_at || (is_null s.confirmed_at && ltb s.created_at cutoff)

unfoldable pub purge_inactive_newsletter_rows : ℕ → RetentionDb → RetentionDb
purge_inactive_newsletter_rows now db = record db {
  subscribers = delete_where (is_inactive_row now) db.subscribers;
}

pub data Step : Type 0 where
  expired_sessions spent_tokens reply_status old_mail old_messages inactive_rows : Step

unfoldable pub run_step : Step → ℕ → RetentionDb → RetentionDb
unfolding purge_expired_sessions purge_spent_auth_tokens keep_reply_delivery_status
    purge_old_mail_log purge_old_contact_messages purge_inactive_newsletter_rows
run_step expired_sessions now db = purge_expired_sessions now db
run_step spent_tokens now db = purge_spent_auth_tokens now db
run_step reply_status now db = keep_reply_delivery_status now db
run_step old_mail now db = purge_old_mail_log now db
run_step old_messages now db = purge_old_contact_messages now db
run_step inactive_rows now db = purge_inactive_newsletter_rows now db

-- A step that fails is logged, and writes nothing.
unfoldable pub step : (Step → Bool) → (Step → ℕ) → Step → RetentionDb → RetentionDb
unfolding run_step
step fails clock s db = if fails s then db else run_step s (clock s) db

-- `clock` gives the time at which each step reads it
unfoldable pub run_nightly_job : (Step → Bool) → (Step → ℕ) → RetentionDb → RetentionDb
unfolding step
run_nightly_job fails clock db = step fails clock inactive_rows (
    step fails clock old_messages (
      step fails clock old_mail (
        step fails clock reply_status
          (step fails clock spent_tokens (step fails clock expired_sessions db)))))

-- the guard against overlap: what the state of the job allows
pub record Job : Type 0 where
  pub running : Bool
  pub db : RetentionDb

unfoldable pub trigger : (Step → Bool) → (Step → ℕ) → Job → Job
unfolding run_nightly_job
trigger fails clock j =
    if j.running then j else record { running = false; db = run_nightly_job fails clock j.db }
