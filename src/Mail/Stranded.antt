-- ===== src/Mail/Stranded.antt =====
-- What becomes of a mail whose first attempt was not recorded.
use safeer_api.Common.{
  ℕ, String, ◌≡◌, refl, sym, ap, ◌∙◌, ◌≢◌, inl, inr, List, [], ◌∷◌, ◌++◌, Bool, true, false, ◌||◌,
  not, arith, find, select, Bool-cases, Option-cases, find_sound, All,
}
use safeer_api.Mail.{
  MailStatus, queued, MailRow, MailState, Smtp, broken, not_configured, accepted, rejected,
  unrecorded, has_mail_id, is_open, is_sent, is_pending, record_failure, settle, lost_row, recover,
  content, attempt_delivery, sweep_retries, attempt_all, is_due, update_row, update_by_id,
}
use safeer_api.Mail.Payload.{log-recover}
use safeer_api.Mail.Final.{find-update_other}

abbrev pub is_queued : MailStatus → Bool
is_queued queued = true
is_queued _ = false

-- every row with the id is queued (the id is the primary key: it is one row)
abbrev pub is_waiting : ℕ → MailRow → Bool
is_waiting i r = not (has_mail_id i r) || is_queued r.status

-- what happens without anybody asking: a pass over the retries, or a restart
pub data Upkeep : Type 0 where
  sweep_at : ℕ → (ℕ → Smtp) → Upkeep
  restart_at : Upkeep

module _ (slice : ℕ → String → String) where
  pub upkeep : List Upkeep → MailState → MailState
  upkeep [] s = s
  upkeep (sweep_at now smtp ∷ us) s = upkeep us (sweep_retries slice now smtp s)
  upkeep (restart_at ∷ us) s = upkeep us (record s { pending = [] })

  module _ (i : ℕ) where
    All-update_other :
        (j : ℕ) (f : MailRow → MailRow) (rs : List MailRow)
        → i ≢ j
        → ((r : MailRow) → (f r).id ≡ r.id)
        → All (λ r. is_waiting i r ≡ true) rs
        → All (λ r. is_waiting i r ≡ true) (update_by_id j f rs)
    unfolding update_by_id
    All-update_other j f [] h k a = tt
    All-update_other j f (r ∷ rs) h k a = elim (Bool-cases (has_mail_id j r)) [
      | inl mine ↦ rw mine (ground (arith, mine, h, k r), a.1)
      | inr other ↦ rw other (a.0, All-update_other j f rs h k a.1)
    ]

    -- the log keeps the row, and keeps every row with its id queued
    Keeps : MailState → MailState → Type 0
    Keeps s t =
        (find (has_mail_id i) t.log ≡ find (has_mail_id i) s.log)
        × All (λ r. is_waiting i r ≡ true) t.log

    Keeps-update_row :
        (j : ℕ) (f : MailRow → MailRow) (s : MailState)
        → i ≢ j
        → ((r : MailRow) → (f r).id ≡ r.id)
        → All (λ r. is_waiting i r ≡ true) s.log
        → Keeps s (update_row j f s)
    unfolding Keeps
    Keeps-update_row j f s h k a =
        (find-update_other i j f s.log h k, All-update_other j f s.log h k a)

    Keeps-settle :
        (now : ℕ) (smtp : Smtp) (r : MailRow) (s : MailState)
        → i ≢ r.id
        → All (λ x. is_waiting i x ≡ true) s.log
        → Keeps s (settle slice now smtp r s)
    unfolding settle record_failure Keeps
    Keeps-settle now broken r s h a = (refl, a)
    Keeps-settle now not_configured r s h a = Keeps-update_row r.id _ s h (λ x. refl) a
    Keeps-settle now (rejected error) r s h a = Keeps-update_row r.id _ s h (λ x. refl) a
    Keeps-settle now (unrecorded error) r s h a =
        Keeps-update_row r.id _ (record s { delivered = s.delivered ++ r.id ∷ [] }) h (λ x. refl) a
    Keeps-settle now accepted r s h a = Keeps-update_row r.id _ s h (λ x. refl) a

    Keeps-attempt :
        (now : ℕ) (smtp : Smtp) (j : ℕ) (s : MailState)
        → i ≢ j
        → All (λ x. is_waiting i x ≡ true) s.log
        → Keeps s (attempt_delivery slice now smtp j s)
    unfolding attempt_delivery Keeps
    Keeps-attempt now smtp j s h a = elim (Option-cases (find (has_mail_id j) s.log)) [
      | inl missing ↦ rw missing (refl, a)
      | inr (r, found) ↦ elim (Bool-cases (is_sent r.status)) [
        | inl over ↦ rw (found, over) (refl, a)
        | inr more ↦
            let id : r.id ≡ j = ground (arith, find_sound (has_mail_id j) s.log r found) in
            let other : i ≢ r.id = λ same. h (same ∙ id) in
            elim (Option-cases (content (find (is_pending j) s.pending) r.payload)) [
              | inr (rendered, held) ↦
                  let log = log-recover slice r.id rendered s in
                  let kept =
                    Keeps-settle now smtp r (recover slice r.id rendered s) other (rw log a) in
                  rw (found, more, held) (kept.0 ∙ ap (λ rs. find (has_mail_id i) rs) log, kept.1)
              | inl lost ↦ elim (Bool-cases (is_open r)) [
                | inr closed ↦ rw (found, more, lost, closed) (refl, a)
                | inl waits ↦
                    rw (found, more, lost, waits)
                      (Keeps-update_row r.id (lost_row slice) s other (λ x. refl) a)
              ]
            ]
      ]
    ]

    Keeps-attempt_all :
        (now : ℕ) (smtp : ℕ → Smtp) (rs : List MailRow) (s : MailState)
        → All (λ x. x.id ≢ i) rs
        → All (λ x. is_waiting i x ≡ true) s.log
        → Keeps s (attempt_all slice now smtp rs s)
    unfolding Keeps
    Keeps-attempt_all now smtp [] s h a = (refl, a)
    Keeps-attempt_all now smtp (r ∷ rs) s h a =
        let first = Keeps-attempt now (smtp r.id) r.id s (λ e. h.0 (sym e)) a in
        let rest =
          Keeps-attempt_all now smtp rs (attempt_delivery slice now (smtp r.id) r.id s) h.1
            first.1 in
        (rest.0 ∙ first.0, rest.1)

    -- a row that is due has failed
    due_is_other :
        (now : ℕ) (rs : List MailRow)
        → All (λ x. is_waiting i x ≡ true) rs
        → All (λ x. x.id ≢ i) (select (is_due slice now) rs)
    unfolding select
    due_is_other now [] a = tt
    due_is_other now (r ∷ rs) a = elim (Bool-cases (is_due slice now r)) [
      | inl due ↦ rw due (ground (arith, due, a.0), due_is_other now rs a.1)
      | inr later ↦ rw later (due_is_other now rs a.1)
    ]

    -- A mail that is still queued after its first attempt (the transport could not be built, or the process
    -- ended) keeps its row, its content included, over any number of retry sweeps and restarts, whatever
    -- SMTP would answer: no sweep sends it.
    pub upkeep_queued :
        (us : List Upkeep) (s : MailState)
        → All (λ r. is_waiting i r ≡ true) s.log
        → find (has_mail_id i) (upkeep us s).log ≡ find (has_mail_id i) s.log
    unfolding upkeep sweep_retries Keeps
    upkeep_queued [] s a = refl
    upkeep_queued (sweep_at now smtp ∷ us) s a =
        let kept =
          Keeps-attempt_all now smtp (select (is_due slice now) s.log) s (due_is_other now s.log a)
            a in
        upkeep_queued us (sweep_retries slice now smtp s) kept.1 ∙ kept.0
    upkeep_queued (restart_at ∷ us) s a = upkeep_queued us (record s { pending = [] }) a
