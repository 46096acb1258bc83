-- ===== src/Maintenance/Retention.antt =====
-- What the sweep leaves.
use safeer_api.Common.{
  select-delete_where, ◌+◌, ◌&&◌, leb, ltb, Option, none, some, select, ℕ, ◌≡◌, ◌∙◌, refl, sym,
  subst, inl, inr, List, Bool, true, not, ◌||◌, arith, Bool-cases, any, delete_where,
  any-delete_where_done,
}
use safeer_api.Accounts.{Session, AuthToken, is_null}
use safeer_api.Maintenance.{
  DatedMail, DatedMessage, DatedSubscriber, is_before, days_ago, RetentionDb, Step,
  expired_sessions, spent_tokens, reply_status, old_mail, old_messages, inactive_rows,
  is_dead_session, is_spent_token, is_old_mail, is_old_message, is_inactive_row, step, run_step,
  run_nightly_job,
}

module _ (fails : Step → Bool) (clock : Step → ℕ) where
  module _ {A : Type 0} (get : RetentionDb → A) where
    -- a table that a step does not write
    pub same :
        (s : Step)
        → ((db : RetentionDb) → get (run_step s (clock s) db) ≡ get db)
        → (db : RetentionDb) → get (step fails clock s db) ≡ get db
    unfolding step
    same s h db = elim (Bool-cases (fails s)) [
      | inl failed ↦ rw failed refl
      | inr done ↦ rw done (h db)
    ]

-- what stays: a session that is neither expired nor revoked
abbrev pub is_live_session : ℕ → Session → Bool
is_live_session now s = leb now s.expires_at && is_null s.revoked_at

-- a token that is neither used nor expired
abbrev pub is_open_token : ℕ → AuthToken → Bool
is_open_token now t = leb now t.expires_at && is_null t.used_at

-- 90 days and 730 days in milliseconds
abbrev pub is_recent_mail : ℕ → DatedMail → Bool
is_recent_mail now m = leb now (m.created_at + 7776000000)

abbrev pub is_recent_message : ℕ → DatedMessage → Bool
is_recent_message now m = leb now (m.created_at + 63072000000)

-- 30 days before `now` or later
abbrev is_recent : ℕ → ℕ → Bool
is_recent now t = leb now (t + 2592000000)

abbrev pub is_kept_row : ℕ → DatedSubscriber → Bool
is_kept_row now s =
    elim s.unsubscribed_at [ none ↦ true | some t ↦ is_recent now t ]
    && elim s.confirmed_at [ none ↦ is_recent now s.created_at | some t ↦ true ]

-- Unless the step failed, all that is left is to stay; and what is to stay is there as before.
abbrev pub Swept : {A : Type 0} → Bool → (A → Bool) → List A → List A → Type 0
Swept failed stays before after =
    (failed || not (any (λ x. not (stays x)) after) ≡ true)
    × (select stays after ≡ select stays before)

module _ (fails : Step → Bool) (clock : Step → ℕ) where
  -- the table that a step deletes from
  swept :
      {A : Type 0} (get : RetentionDb → List A) (test stays : A → Bool) (s : Step)
      → ((x : A) → test x ≡ not (stays x))
      → ((db : RetentionDb) → get (run_step s (clock s) db) ≡ delete_where test (get db))
      → (db : RetentionDb) → Swept (fails s) stays (get db) (get (step fails clock s db))
  unfolding step
  swept get test stays s split h db = elim (Bool-cases (fails s)) [
    | inl failed ↦ rw failed (refl, refl)
    | inr done ↦
        rw (done, h db)
          (
            ground (
              arith,
              any-delete_where_done (λ x. not (stays x)) test (λ x e. split x ∙ e) (get db),
            ),
            select-delete_where stays test (λ x e. split x ∙ ground (arith, e)) (get db),
          )
  ]

  -- the same, when other steps come before and after
  Swept-between :
      {A : Type 0} (failed : Bool) (stays : A → Bool) (xs before after ys : List A)
      → before ≡ xs
      → ys ≡ after
      → Swept failed stays before after
      → Swept failed stays xs ys
  Swept-between failed stays xs before after ys e e' h =
      subst (λ zs. Swept failed stays zs ys) e
        (subst (λ zs. Swept failed stays before zs) (sym e') h)

-- Whichever steps of the sweep fail, each of the others is done, at the time at which it reads the clock:
-- it leaves only sessions that have not expired and are not revoked, tokens that are not used and have
-- not expired, mails of the last 90 days, messages of the last 730 days, and newsletter rows that were
-- not unsubscribed more than 30 days before and are confirmed or at most 30 days old; and whatever
-- fails, all of these are there as before.
pub run_nightly_job-due :
    (fails : Step → Bool) (clock : Step → ℕ) (db : RetentionDb)
    → Swept
        (fails expired_sessions)
        (is_live_session (clock expired_sessions))
        db.sessions
        (run_nightly_job fails clock db).sessions
      × Swept
          (fails spent_tokens)
          (is_open_token (clock spent_tokens))
          db.tokens
          (run_nightly_job fails clock db).tokens
      × Swept
          (fails old_mail)
          (is_recent_mail (clock old_mail))
          db.mail_log
          (run_nightly_job fails clock db).mail_log
      × Swept
          (fails old_messages)
          (is_recent_message (clock old_messages))
          db.messages
          (run_nightly_job fails clock db).messages
      × Swept
          (fails inactive_rows)
          (is_kept_row (clock inactive_rows))
          db.subscribers
          (run_nightly_job fails clock db).subscribers
unfolding run_nightly_job run_step
run_nightly_job-due fails clock db = (
  Swept-between fails clock (fails expired_sessions) (is_live_session (clock expired_sessions))
      db.sessions db.sessions db1.sessions _ refl
      (same fails clock (λ d. d.sessions) inactive_rows (λ d. refl) db5
        ∙ same fails clock (λ d. d.sessions) old_messages (λ d. refl) db4
        ∙ same fails clock (λ d. d.sessions) old_mail (λ d. refl) db3
        ∙ same fails clock (λ d. d.sessions) reply_status (λ d. refl) db2
        ∙ same fails clock (λ d. d.sessions) spent_tokens (λ d. refl) db1)
      (swept fails clock (λ d. d.sessions) (is_dead_session (clock expired_sessions))
        (is_live_session (clock expired_sessions)) expired_sessions (λ x. ground arith) (λ d. refl)
        db),
  Swept-between fails clock (fails spent_tokens) (is_open_token (clock spent_tokens)) db.tokens
      db1.tokens db2.tokens _ (same fails clock (λ d. d.tokens) expired_sessions (λ d. refl) db)
      (same fails clock (λ d. d.tokens) inactive_rows (λ d. refl) db5
        ∙ same fails clock (λ d. d.tokens) old_messages (λ d. refl) db4
        ∙ same fails clock (λ d. d.tokens) old_mail (λ d. refl) db3
        ∙ same fails clock (λ d. d.tokens) reply_status (λ d. refl) db2)
      (swept fails clock (λ d. d.tokens) (is_spent_token (clock spent_tokens))
        (is_open_token (clock spent_tokens)) spent_tokens (λ x. ground arith) (λ d. refl) db1),
  Swept-between fails clock (fails old_mail) (is_recent_mail (clock old_mail)) db.mail_log
      db3.mail_log db4.mail_log _
      (same fails clock (λ d. d.mail_log) reply_status (λ d. refl) db2
        ∙ same fails clock (λ d. d.mail_log) spent_tokens (λ d. refl) db1
        ∙ same fails clock (λ d. d.mail_log) expired_sessions (λ d. refl) db)
      (same fails clock (λ d. d.mail_log) inactive_rows (λ d. refl) db5
        ∙ same fails clock (λ d. d.mail_log) old_messages (λ d. refl) db4)
      (swept fails clock (λ d. d.mail_log) (is_old_mail (clock old_mail))
        (is_recent_mail (clock old_mail)) old_mail (λ x. ground arith) (λ d. refl) db3),
  Swept-between fails clock (fails old_messages) (is_recent_message (clock old_messages))
      db.messages db4.messages db5.messages _
      (same fails clock (λ d. d.messages) old_mail (λ d. refl) db3
        ∙ same fails clock (λ d. d.messages) reply_status (λ d. refl) db2
        ∙ same fails clock (λ d. d.messages) spent_tokens (λ d. refl) db1
        ∙ same fails clock (λ d. d.messages) expired_sessions (λ d. refl) db)
      (same fails clock (λ d. d.messages) inactive_rows (λ d. refl) db5)
      (swept fails clock (λ d. d.messages) (is_old_message (clock old_messages))
        (is_recent_message (clock old_messages)) old_messages (λ x. ground arith) (λ d. refl) db4),
  Swept-between fails clock (fails inactive_rows) (is_kept_row (clock inactive_rows)) db.subscribers
      db5.subscribers _ _
      (same fails clock (λ d. d.subscribers) old_messages (λ d. refl) db4
        ∙ same fails clock (λ d. d.subscribers) old_mail (λ d. refl) db3
        ∙ same fails clock (λ d. d.subscribers) reply_status (λ d. refl) db2
        ∙ same fails clock (λ d. d.subscribers) spent_tokens (λ d. refl) db1
        ∙ same fails clock (λ d. d.subscribers) expired_sessions (λ d. refl) db)
      refl
      (swept fails clock (λ d. d.subscribers) (is_inactive_row (clock inactive_rows))
        (is_kept_row (clock inactive_rows)) inactive_rows (λ x. inactive (clock inactive_rows) x)
        (λ d. refl) db5),
)
  where
    db1 : RetentionDb
    db1 = step fails clock expired_sessions db

    db2 : RetentionDb
    db2 = step fails clock spent_tokens db1

    db3 : RetentionDb
    db3 = step fails clock reply_status db2

    db4 : RetentionDb
    db4 = step fails clock old_mail db3

    db5 : RetentionDb
    db5 = step fails clock old_messages db4

    inactive : (now : ℕ) (x : DatedSubscriber) → is_inactive_row now x ≡ not (is_kept_row now x)
    inactive now x = by_columns now x.created_at x.unsubscribed_at x.confirmed_at
      where
        by_columns :
            (now created : ℕ) (unsubscribed confirmed : Option ℕ)
            → is_before (days_ago now 30) unsubscribed
                || (is_null confirmed && ltb created (days_ago now 30))
              ≡ not (
                  elim unsubscribed [ none ↦ true | some t ↦ is_recent now t ]
                  && elim confirmed [ none ↦ is_recent now created | some t ↦ true ])
        by_columns now created none none = ground arith
        by_columns now created none (some c) = ground arith
        by_columns now created (some u) none = ground arith
        by_columns now created (some u) (some c) = ground arith
