-- ===== src/Maintenance/Delivery.antt =====
-- What a reply shows of its delivery, over the sweep.
use safeer_api.Common.{
  ℕ, ◌≡◌, ◌∙◌, refl, sym, subst, inl, inr, Option, none, some, List, [], ◌∷◌, map, Bool, true,
  false, not, ◌&&◌, arith, Bool-cases, find, any, select, ap, ◌==◌, All-find, Option-cases,
  find-none, none_of_any, delete_where, All, All-select,
}
use safeer_api.Mail.{MailStatus}
use safeer_api.Maintenance.{
  RetentionDb, DatedMail, DatedReply, Step, expired_sessions, spent_tokens, reply_status, old_mail,
  old_messages, inactive_rows, is_old_mail, is_mail_of, status_or, with_status, unlinked, step,
  run_step, run_nightly_job,
}
use safeer_api.Maintenance.Retention.{same}

-- the outcome of a reply: that of its mail while this is logged, and the copy of it afterwards
abbrev pub shown : List DatedMail → DatedReply → Option MailStatus
shown log r = status_or r.delivery_status (find (is_mail_of r.mail_log_id) log)

abbrev pub IsShown : (ℕ → Option MailStatus) → List DatedMail → DatedReply → Type 0
IsShown outcome log r = shown log r ≡ outcome r.id

-- ids are keys
abbrev pub Keyed : List DatedMail → Type 0
Keyed log = All (λ m. find (λ x. x.id == m.id) log ≡ some m) log

-- no mail gets old between the copy and the purge
abbrev pub NoneBetween : (Step → ℕ) → List DatedMail → Type 0
NoneBetween clock log =
    All (λ m. is_old_mail (clock old_mail) m && not (is_old_mail (clock reply_status) m) ≡ false)
      log

-- the mail of a reply is the only one with its id
only_one :
    (at : Option ℕ) (m : DatedMail) (log ms : List DatedMail)
    → find (is_mail_of at) log ≡ some m
    → All (λ x. find (λ y. y.id == x.id) log ≡ some x) ms
    → All (λ x. is_mail_of at x ≡ true → x ≡ m) ms
only_one none m log [] f k = tt
only_one none m log (x ∷ ms) f k = ((λ e. cc), only_one none m log ms f k.1)
only_one (some j) m log [] f k = tt
only_one (some j) m log (x ∷ ms) f k = (
  (λ e.
      let same : x.id ≡ j = ground (arith, e) in
      let here : find (λ y. y.id == j) log ≡ some x =
        subst (λ i. find (λ y. y.id == i) log ≡ some x) same k.0 in
      cc),
  only_one (some j) m log ms f k.1,
)

module _ (p q c : DatedMail → Bool) where
  find-and_none : (log : List DatedMail) → find p log ≡ none → find (λ m. p m && c m) log ≡ none
  unfolding find
  find-and_none [] h = refl
  find-and_none (m ∷ log) h = elim (Bool-cases (p m)) [
    | inl mine ↦ absurd (ground (arith, mine, h))
    | inr other ↦ ground (arith, other, h, find-and_none log)
  ]

  find-and_some :
      (m : DatedMail) (log : List DatedMail)
      → find p log ≡ some m
      → c m ≡ true
      → find (λ x. p x && c x) log ≡ some m
  unfolding find
  find-and_some m [] h e = absurd (ground (arith, h))
  find-and_some m (x ∷ log) h e = elim (Bool-cases (p x)) [
    | inl mine ↦
        let same : x ≡ m = ground (arith, mine, h) in
        let copied : c x ≡ true = ap c same ∙ e in ground (arith, mine, copied, ap some same)
    | inr other ↦ ground (arith, other, h, e, find-and_some m log)
  ]

  find-purged_none : (log : List DatedMail) → find p log ≡ none → find p (delete_where q log) ≡ none
  unfolding find delete_where select
  find-purged_none [] h = refl
  find-purged_none (m ∷ log) h = elim (Bool-cases (p m)) [
    | inl mine ↦ absurd (ground (arith, mine, h))
    | inr other ↦ ground (arith, other, h, find-purged_none log)
  ]

  find-purged_gone :
      (m : DatedMail) (log : List DatedMail)
      → All (λ x. p x ≡ true → x ≡ m) log
      → q m ≡ true
      → find p (delete_where q log) ≡ none
  unfolding find delete_where select
  find-purged_gone m [] a e = refl
  find-purged_gone m (x ∷ log) a e = elim (Bool-cases (p x)) [
    | inl mine ↦
        let old : q x ≡ true = ap q (a.0 mine) ∙ e in
        ground (arith, old, find-purged_gone m log a.1 e)
    | inr other ↦ ground (arith, other, find-purged_gone m log a.1 e)
  ]

  find-purged_left :
      (m : DatedMail) (log : List DatedMail)
      → find p log ≡ some m
      → q m ≡ false
      → find p (delete_where q log) ≡ some m
  unfolding find delete_where select
  find-purged_left m [] h e = absurd (ground (arith, h))
  find-purged_left m (x ∷ log) h e = elim (Bool-cases (p x)) [
    | inl mine ↦
        let same : x ≡ m = ground (arith, mine, h) in
        let young : q x ≡ false = ap q same ∙ e in ground (arith, mine, young, ap some same)
    | inr other ↦ ground (arith, other, h, e, find-purged_left m log)
  ]

  -- the copy and the purge after it show what the mail showed
  shown_purged :
      (old : Option MailStatus) (log : List DatedMail)
      → ((m : DatedMail) → find p log ≡ some m → All (λ x. p x ≡ true → x ≡ m) log)
      → All (λ m. q m && not (c m) ≡ false) log
      → status_or (status_or old (find (λ m. p m && c m) log)) (find p (delete_where q log))
        ≡ status_or old (find p log)
  shown_purged old log unique between = elim (Option-cases (find p log)) [
    | inl missing ↦ rw (missing, find-and_none log missing, find-purged_none log missing) refl
    | inr (m, found) ↦ elim (Bool-cases (q m)) [
      | inr young ↦ rw (found, find-purged_left m log found young) refl
      | inl old_now ↦
          let copied : c m ≡ true =
            ground
              (arith, old_now, All-find (λ x. q x && not (c x) ≡ false) p log m found between) in
          rw
            (
              found,
              find-purged_gone m log (unique m found) old_now,
              find-and_some m log found copied,
            )
            refl
    ]
  ]

  shown_copied :
      (old : Option MailStatus) (log : List DatedMail)
      → status_or (status_or old (find (λ m. p m && c m) log)) (find p log)
        ≡ status_or old (find p log)
  shown_copied old log = elim (Option-cases (find p log)) [
    | inl missing ↦ rw (missing, find-and_none log missing) refl
    | inr (m, found) ↦ rw found refl
  ]

find_unlinked : (left : List DatedMail) → find (is_mail_of none) left ≡ none
unfolding find
find_unlinked [] = refl
find_unlinked (m ∷ left) = find_unlinked left

shown-unlinked :
    (left : List DatedMail) (r : DatedReply) → shown left (unlinked left r) ≡ shown left r
shown-unlinked left r = elim (Bool-cases (any (is_mail_of r.mail_log_id) left)) [
  | inl there ↦ rw there refl
  | inr gone ↦
      rw
        (
          gone,
          find_unlinked left,
          find-none (is_mail_of r.mail_log_id) left
              (none_of_any (is_mail_of r.mail_log_id) left gone),
        )
        refl
]

module _ (outcome : ℕ → Option MailStatus) (fails : Step → Bool) (clock : Step → ℕ) where
  -- the copy, and the purge after it
  copied_and_purged :
      (log : List DatedMail) (rs : List DatedReply)
      → NoneBetween clock log
      → Keyed log
      → All (IsShown outcome log) rs
      → All (IsShown outcome (delete_where (is_old_mail (clock old_mail)) log)) (
          map
            (unlinked (delete_where (is_old_mail (clock old_mail)) log))
            (map (with_status (clock reply_status) log) rs))
  copied_and_purged log [] h u k = tt
  copied_and_purged log (r ∷ rs) h u k = (
    shown-unlinked (delete_where (is_old_mail (clock old_mail)) log)
          (with_status (clock reply_status) log r)
        ∙ shown_purged (is_mail_of r.mail_log_id) (is_old_mail (clock old_mail))
            (is_old_mail (clock reply_status)) r.delivery_status log
            (λ m f. only_one r.mail_log_id m log log f u) h
        ∙ k.0,
    copied_and_purged log rs h u k.1,
  )

  copied_only :
      (log : List DatedMail) (rs : List DatedReply)
      → All (IsShown outcome log) rs
      → All (IsShown outcome log) (map (with_status (clock reply_status) log) rs)
  copied_only log [] k = tt
  copied_only log (r ∷ rs) k = (
    shown_copied (is_mail_of r.mail_log_id) (is_old_mail (clock old_mail))
          (is_old_mail (clock reply_status)) r.delivery_status log
        ∙ k.0,
    copied_only log rs k.1,
  )

  abbrev AllShown : RetentionDb → Type 0
  AllShown db = All (IsShown outcome db.mail_log) db.replies

  mail_steps :
      (db : RetentionDb)
      → fails reply_status ≡ false
      → NoneBetween clock db.mail_log
      → Keyed db.mail_log
      → AllShown db
      → AllShown (step fails clock old_mail (step fails clock reply_status db))
  unfolding step run_step
  mail_steps db copies h u k = elim (Bool-cases (fails old_mail)) [
    | inl failed ↦ rw (copies, failed) (copied_only db.mail_log db.replies k)
    | inr done ↦ rw (copies, done) (copied_and_purged db.mail_log db.replies h u k)
  ]

  message_step : (db : RetentionDb) → AllShown db → AllShown (step fails clock old_messages db)
  unfolding step run_step delete_where
  message_step db k = elim (Bool-cases (fails old_messages)) [
    | inl failed ↦ rw failed k
    | inr done ↦ rw done (All-select (IsShown outcome db.mail_log) _ db.replies k)
  ]

  -- a step that writes neither table
  AllShown-same :
      (s : Step)
      → ((db : RetentionDb) → (run_step s (clock s) db).mail_log ≡ db.mail_log)
      → ((db : RetentionDb) → (run_step s (clock s) db).replies ≡ db.replies)
      → (db : RetentionDb) → AllShown db
      → AllShown (step fails clock s db)
  AllShown-same s mails replies db k =
      rw
        (
          same fails clock (λ d. d.mail_log) s mails db,
          same fails clock (λ d. d.replies) s replies db,
        )
        k

-- The sweep changes no delivery outcome: what each reply shows, its mail's outcome or the copy of it, it
-- shows afterwards, if it is left, whichever of the other steps fail. The copy of the outcomes does not
-- fail, no mail turns 90 days old between the copy and the purge, and the ids of the mails are unique.
pub run_nightly_job-IsShown :
    (outcome : ℕ → Option MailStatus) (fails : Step → Bool) (clock : Step → ℕ) (db : RetentionDb)
    → fails reply_status ≡ false
    → NoneBetween clock db.mail_log
    → Keyed db.mail_log
    → All (IsShown outcome db.mail_log) db.replies
    → All
        (IsShown outcome (run_nightly_job fails clock db).mail_log)
        (run_nightly_job fails clock db).replies
unfolding run_nightly_job run_step
run_nightly_job-IsShown outcome fails clock db copies h u k =
    AllShown-same outcome fails clock inactive_rows (λ d. refl) (λ d. refl) db5
      (message_step outcome fails clock db4 (
        mail_steps outcome fails clock db2 copies (subst (NoneBetween clock) (sym log) h)
          (subst Keyed (sym log) u)
          (AllShown-same outcome fails clock spent_tokens (λ d. refl) (λ d. refl) db1
            (AllShown-same outcome fails clock expired_sessions (λ d. refl) (λ d. refl) db k))))
  where
    db1 : RetentionDb
    db1 = step fails clock expired_sessions db

    db2 : RetentionDb
    db2 = step fails clock spent_tokens db1

    db4 : RetentionDb
    db4 = step fails clock old_mail (step fails clock reply_status db2)

    db5 : RetentionDb
    db5 = step fails clock old_messages db4

    log : db2.mail_log ≡ db.mail_log
    log =
        same fails clock (λ d. d.mail_log) spent_tokens (λ d. refl) db1
        ∙ same fails clock (λ d. d.mail_log) expired_sessions (λ d. refl) db
