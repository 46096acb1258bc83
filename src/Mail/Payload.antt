-- ===== src/Mail/Payload.antt =====
-- How long the content of a mail stays in the table, and what a retry needs.
use safeer_api.Common.{
  ℕ, ◌+◌, String, ◌≡◌, sym, find_sound, ap, ◌∙◌, inl, inr, Option, none, some, List, [], ◌∷◌, ◌++◌,
  Bool, true, false, ◌&&◌, ◌||◌, arith, ltb, leb, if◌then◌else◌, find, select, Bool-cases,
  Option-cases, All, All-append,
}
use safeer_api.Accounts.{is_null}
use safeer_api.Mail.{
  MailStatus, failed, Rendered, MailRow, PendingDelivery, MailState, Smtp, broken, not_configured,
  accepted, rejected, unrecorded, SendMail, max_attempts, has_mail_id, is_open, is_sent, is_pending,
  record_failure, settle, sent_row, lost_row, recover, content, evict_if_at_capacity,
  attempt_delivery, send, new_row, is_queueable, start, remember, sweep_retries, attempt_all,
  is_due, retry_now, update_row, update_by_id,
}

abbrev pub is_failed : MailStatus → Bool
is_failed failed = true
is_failed _ = false

abbrev pub is_absent : Option Rendered → Bool
is_absent none = true
is_absent (some r) = false

-- A retry is scheduled only after one to three failed attempts, and content is stored only while the
-- row waits for its first attempt or for a retry.
abbrev pub is_consistent : MailRow → Bool
is_consistent r =
    (is_null r.next_retry_at
      || (is_failed r.status && leb 1 r.attempts && ltb r.attempts max_attempts))
    && (is_absent r.payload || is_open r)

abbrev pub Consistent : MailState → Type 0
Consistent s = All (λ r. is_consistent r ≡ true) s.log

-- an event of the queue: a call of `send`, a retry sweep, an admin's retry, or a restart of the process
pub data MailEvent : Type 0 where
  send_event : ℕ → Smtp → SendMail → MailEvent
  sweep_event : ℕ → (ℕ → Smtp) → MailEvent
  retry_event : ℕ → Smtp → ℕ → MailEvent
  restart : MailEvent

module _ (slice : ℕ → String → String) where
  unfoldable pub mail_event : MailEvent → MailState → MailState
  mail_event (send_event now smtp m) s = send slice now smtp m s
  mail_event (sweep_event now smtp) s = sweep_retries slice now smtp s
  mail_event (retry_event now smtp i) s = (retry_now slice now smtp i s).1
  mail_event restart s = record s { pending = [] }

  unfoldable pub mail_events : List MailEvent → MailState → MailState
  mail_events [] s = s
  mail_events (e ∷ es) s = mail_events es (mail_event e s)

  -- the row of an update, if it is consistent after it
  Consistent-update_by_id :
      (i : ℕ) (f : MailRow → MailRow) (rs : List MailRow)
      → ((r : MailRow)
          → find (has_mail_id i) rs ≡ some r
          → is_consistent r ≡ true
          → is_consistent (f r) ≡ true)
      → All (λ r. is_consistent r ≡ true) rs
      → All (λ r. is_consistent r ≡ true) (update_by_id i f rs)
  unfolding update_by_id find
  Consistent-update_by_id i f [] h c = tt
  Consistent-update_by_id i f (r ∷ rs) h c = elim (Bool-cases (has_mail_id i r)) [
    | inl mine ↦ rw mine (h r (rw mine) c.0, c.1)
    | inr other ↦ rw other (c.0, Consistent-update_by_id i f rs (λ x k. h x (rw other k)) c.1)
  ]

  Consistent-update_row :
      (i : ℕ) (f : MailRow → MailRow) (s : MailState)
      → ((r : MailRow)
          → find (has_mail_id i) s.log ≡ some r
          → is_consistent r ≡ true
          → is_consistent (f r) ≡ true)
      → Consistent s
      → Consistent (update_row i f s)
  Consistent-update_row i f s h c = Consistent-update_by_id i f s.log h c

  Consistent-record_failure :
      (now i attempts : ℕ) (error : String) (force : Bool) (s : MailState)
      → Consistent s
      → Consistent (record_failure slice now i (attempts + 1) error force s)
  unfolding record_failure
  Consistent-record_failure now i attempts error force s c =
      Consistent-update_row i _ s (λ r e k. ground arith) c

  Consistent-settle :
      (now : ℕ) (smtp : Smtp) (r : MailRow) (s : MailState)
      → Consistent s
      → Consistent (settle slice now smtp r s)
  unfolding settle
  Consistent-settle now broken r s c = c
  Consistent-settle now not_configured r s c =
      Consistent-record_failure now r.id r.attempts "SMTP is not configured" true s c
  Consistent-settle now (rejected error) r s c =
      Consistent-record_failure now r.id r.attempts error false s c
  Consistent-settle now (unrecorded error) r s c =
      Consistent-record_failure now r.id r.attempts error false
        (record s { delivered = s.delivered ++ r.id ∷ [] }) c
  Consistent-settle now accepted r s c =
      Consistent-update_row r.id (sent_row slice now (r.attempts + 1)) s (λ x e k. ground arith) c

  pub log-recover :
      (i : ℕ) (rendered : Rendered) (s : MailState) → (recover slice i rendered s).log ≡ s.log
  unfolding evict_if_at_capacity
  log-recover i rendered s = ground arith

  no_payload :
      (p : Option PendingDelivery) (payload : Option Rendered)
      → content p payload ≡ none
      → payload ≡ none
  no_payload none payload h = h
  no_payload (some e) payload h = absurd (ground (arith, h))

  Consistent-attempt :
      (now : ℕ) (smtp : Smtp) (i : ℕ) (s : MailState)
      → Consistent s
      → Consistent (attempt_delivery slice now smtp i s)
  unfolding attempt_delivery
  Consistent-attempt now smtp i s c = elim (Option-cases (find (has_mail_id i) s.log)) [
    | inl missing ↦ rw missing c
    | inr (r, found) ↦ elim (Bool-cases (is_sent r.status)) [
      | inl done ↦ rw (found, done) c
      | inr more ↦ elim (Option-cases (content (find (is_pending i) s.pending) r.payload)) [
        | inr (rendered, held) ↦
            rw (found, more, held)
              (Consistent-settle now smtp r (recover slice r.id rendered s)
                (rw (log-recover r.id rendered s) c))
        | inl lost ↦ elim (Bool-cases (is_open r)) [
          | inr closed ↦ rw (found, more, lost, closed) c
          | inl waits ↦
              rw (found, more, lost, waits)
                (Consistent-update_row r.id (lost_row slice) s
                  (λ x e k.
                    let same : r.id ≡ i =
                      ground (arith, find_sound (has_mail_id i) s.log r found) in
                    let is_row : some x ≡ some r =
                      sym e ∙ ap (λ j. find (has_mail_id j) s.log) same ∙ found in
                    ground
                      (arith, is_row, no_payload (find (is_pending i) s.pending) r.payload lost))
                  c)
        ]
      ]
    ]
  ]

  Consistent-attempt_all :
      (now : ℕ) (smtp : ℕ → Smtp) (rs : List MailRow) (s : MailState)
      → Consistent s
      → Consistent (attempt_all slice now smtp rs s)
  Consistent-attempt_all now smtp [] s c = c
  Consistent-attempt_all now smtp (r ∷ rs) s c =
      Consistent-attempt_all now smtp rs (attempt_delivery slice now (smtp r.id) r.id s)
        (Consistent-attempt now (smtp r.id) r.id s c)

  log-evict : (s : MailState) → (evict_if_at_capacity s).log ≡ s.log
  unfolding evict_if_at_capacity
  log-evict s = ground arith

  Consistent-start :
      (now : ℕ) (smtp : Smtp) (i : ℕ) (rendered : Option Rendered) (s : MailState)
      → Consistent s
      → Consistent (start slice now smtp i rendered s)
  Consistent-start now smtp i none s c = c
  Consistent-start now smtp i (some rendered) s c =
      Consistent-attempt now smtp i (remember i rendered (evict_if_at_capacity s))
        (rw (log-evict s) c)

  either :
      (b : Bool) (s t : MailState) → Consistent s → Consistent t → Consistent (if b then s else t)
  either true s t c d = c
  either false s t c d = d

  Consistent-send :
      (now : ℕ) (smtp : Smtp) (m : SendMail) (s : MailState)
      → Consistent s
      → Consistent (send slice now smtp m s)
  unfolding send
  Consistent-send now smtp m s c =
      let row = new_row slice s.next_id m in
      let saved : MailState = record s { log = s.log ++ row ∷ []; next_id = s.next_id + 1 } in
      let stored : Consistent saved =
        All-append (λ r. is_consistent r ≡ true) s.log (row ∷ []) c (ground arith, tt) in
      either (is_queueable slice m) (start slice now smtp s.next_id m.rendered saved) saved
        (Consistent-start now smtp s.next_id m.rendered saved stored) stored

  Consistent-mail_event :
      (e : MailEvent) (s : MailState) → Consistent s → Consistent (mail_event e s)
  unfolding mail_event sweep_retries retry_now
  Consistent-mail_event (send_event now smtp m) s c = Consistent-send now smtp m s c
  Consistent-mail_event (sweep_event now smtp) s c =
      Consistent-attempt_all now smtp (select (is_due slice now) s.log) s c
  Consistent-mail_event (retry_event now smtp i) s c =
      ground (arith, c, Consistent-attempt now smtp i s c)
  Consistent-mail_event restart s c = c

  -- Whatever mails are sent, swept, retried by an admin, or lost by restarts of the process, and whatever
  -- SMTP answers, content is stored only for rows that wait for their first attempt or for a retry, and
  -- a retry is scheduled only for a row that failed, after one to three attempts.
  pub mail_events-Consistent :
      (es : List MailEvent) (s : MailState) → Consistent s → Consistent (mail_events es s)
  unfolding mail_events
  mail_events-Consistent [] s c = c
  mail_events-Consistent (e ∷ es) s c =
      mail_events-Consistent es (mail_event e s) (Consistent-mail_event e s c)
