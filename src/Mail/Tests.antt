-- ===== src/Mail/Tests.antt =====
-- The theorems on the mail queue at small data.
use safeer_api.Common as Common
use safeer_api.Mail as Mail
use safeer_api.Common.{
  ℕ, String, ◌≡◌, refl, none, some, List, [], ◌∷◌, true, false, find, count_where, ◌==◌,
}
use safeer_api.Mail.{
  queued, sent, Rendered, MailRow, MailState, SendMail, accepted, rejected, unrecorded, has_mail_id,
  is_sent, attempt_delivery,
}
use safeer_api.Mail.Payload.{
  Consistent, MailEvent, send_event, sweep_event, retry_event, restart, mail_events,
  mail_events-Consistent,
}
use safeer_api.Mail.Final.{mail_events_sent}
use safeer_api.Mail.Stranded.{upkeep, upkeep_queued, restart_at, sweep_at}

abbrev letter : Rendered
letter = record { subject = "Hello"; html = "<p>Hello</p>"; text = "Hello" }

abbrev mail : SendMail
mail = record {
  key = "user_invite";
  to = "ada";
  enabled = true;
  rendered = some letter;
  loggable = some letter;
  sensitive = false;
}

abbrev sent_mail : MailRow
sent_mail = record {
  id = 1;
  template_key = "user_invite";
  to_email = "bob";
  subject = "Hello";
  status = sent;
  attempts = 1;
  error = none;
  next_retry_at = none;
  sent_at = some 5;
  payload = none;
}

abbrev queue : MailState
queue = record { log = sent_mail ∷ []; pending = []; delivered = 1 ∷ []; next_id = 2 }

abbrev keep : ℕ → String → String
keep n s = s

-- a mail that is refused, survives a restart, and arrives at the second attempt
abbrev events : List MailEvent
events =
    send_event 10 (rejected "busy") mail
    ∷ restart
    ∷ sweep_event 70000 (λ i. accepted)
    ∷ retry_event 80000 accepted 1
    ∷ []

mail_events_example : Consistent (mail_events keep events queue)
mail_events_example = mail_events-Consistent keep events queue (refl, tt)

abbrev waiting_mail : MailRow
waiting_mail = record {
  id = 2;
  template_key = "user_invite";
  to_email = "ada";
  subject = "Hello";
  status = queued;
  attempts = 0;
  error = none;
  next_retry_at = none;
  sent_at = none;
  payload = some letter;
}

abbrev waiting_queue : MailState
waiting_queue = record {
  log = sent_mail ∷ waiting_mail ∷ [];
  pending = [];
  delivered = 1 ∷ [];
  next_id = 3;
}

upkeep_queued_example :
    find
      (has_mail_id 2)
      (upkeep keep
        (restart_at ∷ sweep_at 70000 (λ i. accepted) ∷ sweep_at 100000 (λ i. accepted) ∷ [])
        waiting_queue).log
    ≡ find (has_mail_id 2) waiting_queue.log
upkeep_queued_example =
    upkeep_queued keep 2
      (restart_at ∷ sweep_at 70000 (λ i. accepted) ∷ sweep_at 100000 (λ i. accepted) ∷ [])
      waiting_queue (refl, (refl, tt))

-- the mail is taken at its first attempt, before a sweep, a retry and a restart
mail_events_sent_example :
    (row : MailRow) × (find
        (has_mail_id 2)
        (mail_events keep events (attempt_delivery keep 9 accepted 2 waiting_queue)).log
      ≡ some row)
    × (is_sent row.status ≡ true)
    × (count_where
          (λ k. k == 2)
          (mail_events keep events (attempt_delivery keep 9 accepted 2 waiting_queue)).delivered
        ≡ 1)
unfolding find count_where
mail_events_sent_example =
    mail_events_sent keep 9 2 events waiting_queue waiting_mail letter refl refl refl

-- SMTP takes the mail, the row cannot be updated, and the retry sends it again.
sent_twice :
    (attempt_delivery keep 70000 accepted 2
      (attempt_delivery keep 9 (unrecorded "gone") 2 waiting_queue)).delivered
    ≡ 1 ∷ 2 ∷ 2 ∷ []
unfolding attempt_delivery find Mail.update_by_id Common.any Common.update_where
sent_twice = refl
