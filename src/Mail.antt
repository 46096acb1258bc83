-- ===== src/Mail.antt =====
-- The mail queue: src/mail/mail.service.ts over the table mail_log
-- (src/database/entities/mail-log.entity.ts). Templates and SMTP are parameters of each call.
mod Tests
pub mod Payload
pub mod Final
pub mod Stranded
use safeer_api.Common.{
  ℕ, ◌+◌, ◌-◌, String, Option, none, some, List, [], ◌∷◌, ◌++◌, Bool, true, false, ◌&&◌, ◌||◌, not,
  ltb, leb, ◌==◌, str_eq, if◌then◌else◌, find, any, length, select, delete_where, update_where,
  Exec, pure, gets, modify, require, refuse_if, ◌>>=◌, ◌>>◌, not_found, validation_failed,
}
use safeer_api.Accounts.{minutes, is_null}

pub data MailStatus : Type 0 where
  queued sent failed skipped : MailStatus

pub record Rendered : Type 0 where
  pub subject : String
  pub html : String
  pub text : String

-- locale, entity and `created_at` are left out
pub record MailRow : Type 0 where
  pub id : ℕ
  pub template_key : String
  pub to_email : String
  pub subject : String
  pub status : MailStatus
  pub attempts : ℕ
  pub error : Option String
  pub next_retry_at : Option ℕ
  pub sent_at : Option ℕ
  pub payload : Option Rendered

-- an entry of the map `pending`, with its key
pub record PendingDelivery : Type 0 where
  pub id : ℕ
  pub rendered : Rendered
  pub next_retry_at : Option ℕ
  pub terminal : Bool

-- `pending` in the order of insertion, and the ids that SMTP accepted
pub record MailState : Type 0 where
  pub log : List MailRow
  pub pending : List PendingDelivery
  pub delivered : List ℕ
  pub next_id : ℕ

-- what becomes of one attempt: the transport cannot be built, is not configured, accepts or rejects the
-- mail; or it accepts, and the row cannot be updated then
pub data Smtp : Type 0 where
  broken not_configured accepted : Smtp
  rejected unrecorded : String → Smtp

pub record SendMail : Type 0 where
  pub key : String
  pub to : String
  pub enabled : Bool
  pub rendered : Option Rendered
  pub loggable : Option Rendered
  pub sensitive : Bool

abbrev pub max_attempts : ℕ
max_attempts = 4

abbrev pub max_pending : ℕ
max_pending = 500

-- `RETRY_DELAYS_MINUTES[n]`
abbrev pub retry_delay_minutes : ℕ → ℕ
retry_delay_minutes n = if n == 0 then 1 else if n == 1 then 5 else 15

abbrev pub has_mail_id : ℕ → MailRow → Bool
has_mail_id i r = r.id == i

abbrev pub is_pending : ℕ → PendingDelivery → Bool
is_pending i e = e.id == i

abbrev pub is_sent : MailStatus → Bool
is_sent sent = true
is_sent _ = false

-- a row that the retry sweep, or the first attempt, may still pick up
abbrev pub is_open : MailRow → Bool
is_open r = elim r.status [ queued ↦ true | failed ↦ not (is_null r.next_retry_at) | _ ↦ false ]

-- `UPDATE … WHERE id = i`, for a primary key: one row at most
unfoldable pub update_by_id : ℕ → (MailRow → MailRow) → List MailRow → List MailRow
update_by_id i f [] = []
update_by_id i f (r ∷ rs) =
    let rest = update_by_id i f rs in if has_mail_id i r then f r ∷ rs else r ∷ rest

abbrev pub update_row : ℕ → (MailRow → MailRow) → MailState → MailState
update_row i f s = record s { log = update_by_id i f s.log }

abbrev pub forget : ℕ → MailState → MailState
forget i s = record s { pending = delete_where (is_pending i) s.pending }

abbrev drop_first : List PendingDelivery → List PendingDelivery
drop_first [] = []
drop_first (e ∷ es) = let rest = drop_first es in if e.terminal then es else e ∷ rest

-- the oldest terminal entry makes room
unfoldable pub evict_if_at_capacity : MailState → MailState
evict_if_at_capacity s =
    if ltb (length s.pending) max_pending then s else record s { pending = drop_first s.pending }

abbrev pub remember : ℕ → Rendered → MailState → MailState
remember i rendered s = record s {
  pending =
      s.pending
      ++ record { id = i; rendered = rendered; next_retry_at = none; terminal = false } ∷ [];
}

-- the content of an attempt: the process's copy, or the stored one
abbrev pub content : Option PendingDelivery → Option Rendered → Option Rendered
content none payload = payload
content (some e) payload = some e.rendered

module _ (slice : ℕ → String → String) where
  abbrev pub failed_row : ℕ → String → Bool → Option ℕ → MailRow → MailRow
  failed_row attempts error terminal next r = record r {
    status = failed;
    attempts = attempts;
    error = some (slice 1000 error);
    next_retry_at = next;
    payload = if terminal then none else r.payload;
  }

  unfoldable pub record_failure : ℕ → ℕ → ℕ → String → Bool → MailState → MailState
  record_failure now i attempts error force s =
      let terminal = force || leb max_attempts attempts in
      let next =
        if terminal then none else some (now + minutes (retry_delay_minutes (attempts - 1))) in
      record (update_row i (failed_row attempts error terminal next) s) {
        pending =
            update_where (is_pending i)
              (λ e. record e { next_retry_at = next; terminal = terminal }) s.pending;
      }

  abbrev pub sent_row : ℕ → ℕ → MailRow → MailRow
  sent_row now attempts r = record r {
    status = sent;
    attempts = attempts;
    sent_at = some now;
    error = none;
    next_retry_at = none;
    payload = none;
  }

  -- what SMTP answers, recorded
  unfoldable pub settle : ℕ → Smtp → MailRow → MailState → MailState
  unfolding record_failure
  settle now broken r s = s
  settle now not_configured r s =
      record_failure now r.id (r.attempts + 1) "SMTP is not configured" true s
  settle now (rejected error) r s = record_failure now r.id (r.attempts + 1) error false s
  settle now (unrecorded error) r s =
      record_failure now r.id (r.attempts + 1) error false
        (record s { delivered = s.delivered ++ r.id ∷ [] })
  settle now accepted r s =
      forget r.id (record (update_row r.id (sent_row now (r.attempts + 1)) s) {
        delivered = s.delivered ++ r.id ∷ [];
      })

  abbrev lost_row : MailRow → MailRow
  lost_row r = record r {
    status = failed;
    next_retry_at = none;
    error =
        some
          "Content no longer available to retry (not stored for sensitive mail); re-trigger the original action";
  }

  -- an entry recovered from the table after a restart is put back into the map
  abbrev pub recover : ℕ → Rendered → MailState → MailState
  recover i rendered s =
      if any (is_pending i) s.pending then s else remember i rendered (evict_if_at_capacity s)

  abbrev with_content : ℕ → Smtp → MailRow → Option Rendered → MailState → MailState
  with_content now smtp r none s = if is_open r then update_row r.id lost_row s else s
  with_content now smtp r (some rendered) s = settle now smtp r (recover r.id rendered s)

  abbrev on_row : ℕ → Smtp → ℕ → Option MailRow → MailState → MailState
  on_row now smtp i none s = forget i s
  on_row now smtp i (some r) s =
      if is_sent r.status
      then forget i s
      else with_content now smtp r (content (find (is_pending i) s.pending) r.payload) s

  unfoldable pub attempt_delivery : ℕ → Smtp → ℕ → MailState → MailState
  unfolding settle evict_if_at_capacity
  attempt_delivery now smtp i s = on_row now smtp i (find (has_mail_id i) s.log) s

  abbrev pub is_queueable : SendMail → Bool
  is_queueable m =
      not (str_eq m.to "") && m.enabled && not (elim m.rendered [ none ↦ true | some _ ↦ false ])

  abbrev subject_of : SendMail → String
  subject_of m = elim m.loggable [ none ↦ m.key | some l ↦ l.subject ]

  abbrev pub new_row : ℕ → SendMail → MailRow
  new_row i m = record {
    id = i;
    template_key = m.key;
    to_email = m.to;
    subject = subject_of m;
    status = if is_queueable m then queued else skipped;
    attempts = 0;
    error =
        if str_eq m.to ""
        then some
            "No recipient email address was configured (e.g. mail_settings.notify_email is unset for contact_notify)"
        else none;
    next_retry_at = none;
    sent_at = none;
    payload = if is_queueable m && not m.sensitive then m.rendered else none;
  }

  abbrev start : ℕ → Smtp → ℕ → Option Rendered → MailState → MailState
  start now smtp i none s = s
  start now smtp i (some rendered) s =
      attempt_delivery now smtp i (remember i rendered (evict_if_at_capacity s))

  -- the row, and the first attempt if it is queued
  unfoldable pub send : ℕ → Smtp → SendMail → MailState → MailState
  unfolding attempt_delivery
  send now smtp m s =
      let saved : MailState = record s {
        log = s.log ++ new_row s.next_id m ∷ [];
        next_id = s.next_id + 1;
      } in
      if is_queueable m then start now smtp s.next_id m.rendered saved else saved

  -- `next_retry_at <= now`; a NULL column does not pass
  abbrev pub is_due : ℕ → MailRow → Bool
  is_due now r = elim r.status [
    | failed ↦ elim r.next_retry_at [ none ↦ false | some t ↦ leb t now ]
    | _ ↦ false
  ]

  abbrev attempt_all : ℕ → (ℕ → Smtp) → List MailRow → MailState → MailState
  attempt_all now smtp [] s = s
  attempt_all now smtp (r ∷ rs) s =
      attempt_all now smtp rs (attempt_delivery now (smtp r.id) r.id s)

  -- one pass over what was due at its start; two passes do not overlap
  unfoldable pub sweep_retries : ℕ → (ℕ → Smtp) → MailState → MailState
  unfolding attempt_delivery
  sweep_retries now smtp s = attempt_all now smtp (select (is_due now) s.log) s

  unfoldable pub retry_now : ℕ → Smtp → ℕ → Exec MailState MailRow
  unfolding attempt_delivery
  retry_now now smtp i = do
    found ← gets (λ s. find (has_mail_id i) s.log)
    row ← require 404 not_found found
    (if is_sent row.status then pure row else do
      held ← gets (λ s. any (is_pending i) s.pending)
      refuse_if (not held && elim row.payload [ none ↦ true | some _ ↦ false ]) 400
          validation_failed
      modify (attempt_delivery now smtp i)
      again ← gets (λ s. find (has_mail_id i) s.log)
      require 404 not_found again)
