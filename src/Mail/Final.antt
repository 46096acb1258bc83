-- ===== src/Mail/Final.antt =====
-- What becomes of a mail that SMTP accepted.
use safeer_api.Common.{
  ℕ, ◌+◌, String, ◌≡◌, refl, sym, subst, ap, ◌∙◌, ◌≢◌, inl, inr, Option, none, some, List, [], ◌∷◌,
  ◌++◌, Bool, true, false, arith, if◌then◌else◌, ◌==◌, find, select, Bool-cases, Option-cases,
  find_sound, count_where, count_where-append,
}
use safeer_api.Mail.{
  Rendered, MailRow, MailState, Smtp, broken, not_configured, accepted, rejected, unrecorded,
  has_mail_id, is_open, is_sent, is_pending, record_failure, settle, sent_row, lost_row, recover,
  content, evict_if_at_capacity, attempt_delivery, send, new_row, is_queueable, start, remember,
  sweep_retries, attempt_all, is_due, retry_now, update_row, update_by_id,
}
use safeer_api.Mail.Payload.{
  MailEvent, send_event, sweep_event, retry_event, restart, mail_event, mail_events, log-recover,
}

pub find-update_other :
    (i j : ℕ) (f : MailRow → MailRow) (rs : List MailRow)
    → i ≢ j
    → ((r : MailRow) → (f r).id ≡ r.id)
    → find (has_mail_id i) (update_by_id j f rs) ≡ find (has_mail_id i) rs
unfolding find update_by_id
find-update_other i j f [] h k = refl
find-update_other i j f (r ∷ rs) h k = ground (arith, h, k r, find-update_other i j f rs h k)

find-append_found :
    (q : MailRow → Bool) (rs ss : List MailRow) (r : MailRow)
    → find q rs ≡ some r
    → find q (rs ++ ss) ≡ some r
unfolding find
find-append_found q [] ss r h = absurd (ground (arith, h))
find-append_found q (s ∷ rs) ss r h = ground (arith, h, find-append_found q rs ss r)

delivered-recover :
    (slice : ℕ → String → String) (i : ℕ) (rendered : Rendered) (s : MailState)
    → (recover slice i rendered s).delivered ≡ s.delivered
unfolding evict_if_at_capacity
delivered-recover slice i rendered s = ground arith

module _ (slice : ℕ → String → String) (i : ℕ) (row : MailRow) (n : ℕ) where
  -- the row `i` is this one, and SMTP has accepted it `n` times
  abbrev pub Holds : MailState → Type 0
  Holds s = (find (has_mail_id i) s.log ≡ some row) × (count_where (λ k. k == i) s.delivered ≡ n)

  Holds-update_row :
      (j : ℕ) (f : MailRow → MailRow) (s : MailState)
      → i ≢ j
      → ((r : MailRow) → (f r).id ≡ r.id)
      → Holds s
      → Holds (update_row j f s)
  Holds-update_row j f s h k e = (find-update_other i j f s.log h k ∙ e.0, e.1)

  Holds-settle :
      (now : ℕ) (smtp : Smtp) (r : MailRow) (s : MailState)
      → i ≢ r.id
      → Holds s
      → Holds (settle slice now smtp r s)
  unfolding settle record_failure count_where
  Holds-settle now broken r s h e = e
  Holds-settle now not_configured r s h e = Holds-update_row r.id _ s h (λ x. refl) e
  Holds-settle now (rejected error) r s h e = Holds-update_row r.id _ s h (λ x. refl) e
  Holds-settle now (unrecorded error) r s h e =
      Holds-update_row r.id _ (record s { delivered = s.delivered ++ r.id ∷ [] }) h (λ x. refl)
        (e.0, count_where-append (λ k. k == i) s.delivered (r.id ∷ []) ∙ ground (arith, h, e.1))
  Holds-settle now accepted r s h e = (
    find-update_other i r.id (sent_row slice now (r.attempts + 1)) s.log h (λ x. refl) ∙ e.0,
    count_where-append (λ k. k == i) s.delivered (r.id ∷ []) ∙ ground (arith, h, e.1),
  )

  Holds-recover :
      (j : ℕ) (rendered : Rendered) (s : MailState) → Holds s → Holds (recover slice j rendered s)
  unfolding evict_if_at_capacity
  Holds-recover j rendered s e = ground (arith, e)

  Holds-attempt :
      (now : ℕ) (smtp : Smtp) (j : ℕ) (s : MailState)
      → is_sent row.status ≡ true
      → Holds s
      → Holds (attempt_delivery slice now smtp j s)
  unfolding attempt_delivery
  Holds-attempt now smtp j s done e = elim (Option-cases (find (has_mail_id j) s.log)) [
    | inl missing ↦ rw missing e
    | inr (r, found) ↦ elim (Bool-cases (is_sent r.status)) [
      | inl over ↦ rw (found, over) e
      | inr more ↦
          let id : r.id ≡ j = ground (arith, find_sound (has_mail_id j) s.log r found) in
          let other : i ≢ r.id = λ same. absurd (
            ground (
              arith,
              done,
              more,
              sym e.0 ∙ ap (λ k. find (has_mail_id k) s.log) (same ∙ id) ∙ found,
            )) in
          elim (Option-cases (content (find (is_pending j) s.pending) r.payload)) [
            | inr (rendered, held) ↦
                rw (found, more, held)
                  (Holds-settle now smtp r (recover slice r.id rendered s) other
                    (Holds-recover r.id rendered s e))
            | inl lost ↦ elim (Bool-cases (is_open r)) [
              | inr closed ↦ rw (found, more, lost, closed) e
              | inl waits ↦
                  rw (found, more, lost, waits)
                    (Holds-update_row r.id (lost_row slice) s other (λ x. refl) e)
            ]
          ]
    ]
  ]

  Holds-attempt_all :
      (now : ℕ) (smtp : ℕ → Smtp) (rs : List MailRow) (s : MailState)
      → is_sent row.status ≡ true
      → Holds s
      → Holds (attempt_all slice now smtp rs s)
  Holds-attempt_all now smtp [] s done e = e
  Holds-attempt_all now smtp (r ∷ rs) s done e =
      Holds-attempt_all now smtp rs (attempt_delivery slice now (smtp r.id) r.id s) done
        (Holds-attempt now (smtp r.id) r.id s done e)

  Holds-remember :
      (j : ℕ) (rendered : Rendered) (s : MailState)
      → Holds s
      → Holds (remember j rendered (evict_if_at_capacity s))
  unfolding evict_if_at_capacity
  Holds-remember j rendered s h = ground (arith, h)

  Holds-start :
      (now : ℕ) (smtp : Smtp) (j : ℕ) (rendered : Option Rendered) (s : MailState)
      → is_sent row.status ≡ true
      → Holds s
      → Holds (start slice now smtp j rendered s)
  Holds-start now smtp j none s done e = e
  Holds-start now smtp j (some rendered) s done e =
      Holds-attempt now smtp j (remember j rendered (evict_if_at_capacity s)) done
        (Holds-remember j rendered s e)

  either : (b : Bool) (s t : MailState) → Holds s → Holds t → Holds (if b then s else t)
  either true s t c d = c
  either false s t c d = d

  Holds-mail_event :
      (e : MailEvent) (s : MailState)
      → is_sent row.status ≡ true
      → Holds s
      → Holds (mail_event slice e s)
  unfolding mail_event send sweep_retries retry_now
  Holds-mail_event (send_event now smtp m) s done h =
      let new = new_row slice s.next_id m in
      let saved : MailState = record s { log = s.log ++ new ∷ []; next_id = s.next_id + 1 } in
      let stored : Holds saved =
        (find-append_found (has_mail_id i) s.log (new ∷ []) row h.0, h.1) in
      either (is_queueable slice m) (start slice now smtp s.next_id m.rendered saved) saved
        (Holds-start now smtp s.next_id m.rendered saved done stored) stored
  Holds-mail_event (sweep_event now smtp) s done h =
      Holds-attempt_all now smtp (select (is_due slice now) s.log) s done h
  Holds-mail_event (retry_event now smtp j) s done h =
      ground (arith, h, Holds-attempt now smtp j s done h)
  Holds-mail_event restart s done h = h

  -- a row that is marked as sent stays, and so does the count
  mail_events_stay :
      (es : List MailEvent) (s : MailState)
      → is_sent row.status ≡ true
      → find (has_mail_id i) s.log ≡ some row
      → count_where (λ k. k == i) s.delivered ≡ n
      → (find (has_mail_id i) (mail_events slice es s).log ≡ some row)
        × (count_where (λ k. k == i) (mail_events slice es s).delivered ≡ n)
  unfolding mail_events
  mail_events_stay [] s done found count = (found, count)
  mail_events_stay (e ∷ es) s done found count =
      let after = Holds-mail_event e s done (found, count) in
      mail_events_stay es (mail_event slice e s) done after.0 after.1

find-update_mine :
    (i : ℕ) (f : MailRow → MailRow) (rs : List MailRow) (r : MailRow)
    → find (has_mail_id i) rs ≡ some r
    → (f r).id ≡ r.id
    → find (has_mail_id i) (update_by_id i f rs) ≡ some (f r)
unfolding find update_by_id
find-update_mine i f [] r h k = absurd (ground (arith, h))
find-update_mine i f (x ∷ rs) r h k = elim (Bool-cases (has_mail_id i x)) [
  | inl mine ↦
      let same : x ≡ r = ground (arith, mine, h) in
      let id : (f x).id ≡ x.id = subst (λ y. (f y).id ≡ y.id) (sym same) k in
      rw mine (ground (arith, mine, id, ap f same))
  | inr other ↦ ground (arith, other, h, find-update_mine i f rs r (ground (arith, other, h)) k)
]

module _ (slice : ℕ → String → String) where
  -- the attempt at which SMTP accepts the mail
  attempt_accepted :
      (now i : ℕ) (s : MailState) (r : MailRow) (rendered : Rendered)
      → find (has_mail_id i) s.log ≡ some r
      → is_sent r.status ≡ false
      → content (find (is_pending i) s.pending) r.payload ≡ some rendered
      → (find (has_mail_id i) (attempt_delivery slice now accepted i s).log
          ≡ some (sent_row slice now (r.attempts + 1) r))
        × (count_where (λ k. k == i) (attempt_delivery slice now accepted i s).delivered
            ≡ count_where (λ k. k == i) s.delivered + 1)
  unfolding attempt_delivery settle count_where
  attempt_accepted now i s r rendered found open_ held =
      let id : r.id ≡ i = ground (arith, find_sound (has_mail_id i) s.log r found) in
      let mine : find (has_mail_id i) (recover slice r.id rendered s).log ≡ some r =
        ap (λ l. find (has_mail_id i) l) (log-recover slice r.id rendered s) ∙ found in
      rw (found, open_, held)
        (
          subst
              (λ j.
                find (has_mail_id i) (
                  update_by_id j (sent_row slice now (r.attempts + 1))
                    (recover slice r.id rendered s).log)
                ≡ some (sent_row slice now (r.attempts + 1) r))
              (sym id)
              (find-update_mine i (sent_row slice now (r.attempts + 1))
                (recover slice r.id rendered s).log r mine refl),
          count_where-append (λ k. k == i) (recover slice r.id rendered s).delivered (r.id ∷ [])
              ∙ ground (arith, id, delivered-recover slice r.id rendered s),
        )

  -- A mail that SMTP accepts, which is then recorded, is marked as sent, its row stays, and it is never
  -- handed to SMTP again, whatever is sent, swept or retried afterwards and over restarts of the process.
  -- The mail was not marked as sent before, and its content is at hand.
  pub mail_events_sent :
      (now i : ℕ) (es : List MailEvent) (s : MailState) (r : MailRow) (rendered : Rendered)
      → find (has_mail_id i) s.log ≡ some r
      → is_sent r.status ≡ false
      → content (find (is_pending i) s.pending) r.payload ≡ some rendered
      → (row : MailRow) × (find
            (has_mail_id i)
            (mail_events slice es (attempt_delivery slice now accepted i s)).log
          ≡ some row)
        × (is_sent row.status ≡ true)
        × (count_where
              (λ k. k == i)
              (mail_events slice es (attempt_delivery slice now accepted i s)).delivered
            ≡ count_where (λ k. k == i) s.delivered + 1)
  mail_events_sent now i es s r rendered found open_ held =
      let (row, count) = attempt_accepted now i s r rendered found open_ held in
      let (stays, same) =
        mail_events_stay slice i (sent_row slice now (r.attempts + 1) r)
          (count_where (λ k. k == i) s.delivered + 1) es (attempt_delivery slice now accepted i s)
          refl row count in
      (sent_row slice now (r.attempts + 1) r, stays, refl, same)
