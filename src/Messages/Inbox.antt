-- ===== src/Messages/Inbox.antt =====
-- Sequences of submissions and of the staff's requests on the inbox.
use safeer_api.Common.{
  ℕ, ◌<◌, ◌≡◌, refl, inl, inr, String, Option, some, List, [], ◌∷◌, Bool, true, false, not, ◌&&◌,
  ◌==◌, arith, Bool-cases, Option-cases, find, delete_where, All, All-append, All-update_where,
  All-find, find_sound, All-select,
}
use safeer_api.Contact.{Locale, is_honeypot_tripped}
use safeer_api.Messages.{
  ContactSubject, MessageStatus, unread, read, archived, ContactMessage, InboxDb, SendMail,
  has_message_id, is_unread, save_status, mark_read, find_with_replies, reply, set_status,
  ConvertToTestimonial, convert_to_testimonial, remove_message,
}
use safeer_api.Messages.Submit.{ContactForm, submit, submitted}

pub data InboxRequest : Type 0 where
  send_in : (now : ℕ) → Option String → ContactForm → Locale → InboxRequest
  view : ℕ → InboxRequest
  answer : ℕ → (body : String) → (author : ℕ) → InboxRequest
  mark : ℕ → MessageStatus → InboxRequest
  convert : ℕ → ConvertToTestimonial → InboxRequest
  erase : ℕ → InboxRequest

module _ (send : SendMail) (label : ContactSubject → String) (shown : ℕ → String)
    (base_url : String) where
  unfoldable pub serve_message : InboxRequest → InboxDb → InboxDb
  serve_message (send_in now notify_email dto locale) db =
      submit send label shown base_url now notify_email dto locale db
  serve_message (view i) db = (find_with_replies i db).1
  serve_message (answer i body author) db = (reply send i body author db).1
  serve_message (mark i status) db = (set_status i status db).1
  serve_message (convert i dto) db = (convert_to_testimonial i dto db).1
  serve_message (erase i) db = (remove_message i db).1

  unfoldable pub serve_messages : List InboxRequest → InboxDb → InboxDb
  serve_messages [] db = db
  serve_messages (r ∷ rs) db = serve_messages rs (serve_message r db)

abbrev pub is_archived : MessageStatus → Bool
is_archived archived = true
is_archived _ = false

abbrev pub IsFiled : ℕ → ContactMessage → Type 0
IsFiled i m = (m.id == i) && not (is_archived m.status) ≡ false

-- each row with the id `i` is archived, and the counter is past it
abbrev pub Filed : ℕ → InboxDb → Type 0
Filed i db = (i < db.next_message) × All (IsFiled i) db.messages

-- does not set the status of `i` to another than archived
abbrev pub LeavesFiled : ℕ → InboxRequest → Type 0
LeavesFiled i (mark j status) = (j == i) && not (is_archived status) ≡ false
LeavesFiled i r = Unit

not_unread : (s : MessageStatus) → is_archived s ≡ true → is_unread s ≡ false
not_unread unread h = cc
not_unread read h = cc
not_unread archived h = refl

module _ (i : ℕ) where
  save_status-Filed :
      (m : ContactMessage) (s : MessageStatus) (db : InboxDb)
      → ((m.id == i) && not (is_archived s) ≡ false)
      → Filed i db
      → Filed i (save_status m s db)
  save_status-Filed m s db h (low, a) = (
    low,
    All-update_where (IsFiled i) (has_message_id m.id) (λ _. record m { status = s })
        (λ r q. ground (arith, q, h)) db.messages a,
  )

  mark_read-Filed :
      (m : ContactMessage) (db : InboxDb) → IsFiled i m → Filed i db → Filed i (mark_read m db).1
  mark_read-Filed m db q f = elim (Bool-cases (is_unread m.status)) [
    | inr old ↦ rw old f
    | inl new ↦ rw new (
        save_status-Filed m read db
          (elim (Bool-cases (m.id == i)) [
            | inr other ↦ ground (arith, other)
            | inl mine ↦ absurd (ground (arith, new, q, mine, not_unread m.status))
          ])
          f)
  ]

  -- what a request does once it has found its message
  found-Filed :
      (j : ℕ) (db : InboxDb) (m : ContactMessage)
      → find (has_message_id j) db.messages ≡ some m
      → Filed i db
      → IsFiled i m
  found-Filed j db m found f = All-find (IsFiled i) (has_message_id j) db.messages m found f.1

  find_with_replies-Filed : (j : ℕ) (db : InboxDb) → Filed i db → Filed i (find_with_replies j db).1
  unfolding find_with_replies
  find_with_replies-Filed j db f = elim (Option-cases (find (has_message_id j) db.messages)) [
    | inl missing ↦ rw missing f
    | inr (m, found) ↦ rw found (mark_read-Filed m db (found-Filed j db m found f) f)
  ]

  set_status-Filed :
      (j : ℕ) (s : MessageStatus) (db : InboxDb)
      → ((j == i) && not (is_archived s) ≡ false)
      → Filed i db
      → Filed i (set_status j s db).1
  unfolding set_status
  set_status-Filed j s db h f = elim (Option-cases (find (has_message_id j) db.messages)) [
    | inl missing ↦ rw missing f
    | inr (m, found) ↦ rw found (
        save_status-Filed m s db
          (ground (arith, h, find_sound (has_message_id j) db.messages m found)) f)
  ]

  reply-Filed :
      (send : SendMail) (j : ℕ) (body : String) (author : ℕ) (db : InboxDb)
      → Filed i db
      → Filed i (reply send j body author db).1
  unfolding reply
  reply-Filed send j body author db f = elim (Option-cases (find (has_message_id j) db.messages)) [
    | inl missing ↦ rw missing f
    | inr (m, found) ↦ rw found (mark_read-Filed m _ (found-Filed j db m found f) f)
  ]

  convert_to_testimonial-Filed :
      (j : ℕ) (dto : ConvertToTestimonial) (db : InboxDb)
      → Filed i db
      → Filed i (convert_to_testimonial j dto db).1
  unfolding convert_to_testimonial
  convert_to_testimonial-Filed j dto db f =
      elim (Option-cases (find (has_message_id j) db.messages)) [
        | inl missing ↦ rw missing f
        | inr (m, found) ↦ rw found f
      ]

  remove_message-Filed : (j : ℕ) (db : InboxDb) → Filed i db → Filed i (remove_message j db).1
  unfolding remove_message delete_where
  remove_message-Filed j db f = elim (Option-cases (find (has_message_id j) db.messages)) [
    | inl missing ↦ rw missing f
    | inr (m, found) ↦
        rw found (f.0, All-select (IsFiled i) (λ r. not (has_message_id m.id r)) db.messages f.1)
  ]

  module _ (send : SendMail) (label : ContactSubject → String) (shown : ℕ → String)
      (base_url : String) where
    submit-Filed :
        (now : ℕ) (notify_email : Option String) (dto : ContactForm) (locale : Locale)
        (db : InboxDb)
        → Filed i db
        → Filed i (submit send label shown base_url now notify_email dto locale db)
    unfolding submit
    submit-Filed now notify_email dto locale db f =
        elim (Bool-cases (is_honeypot_tripped dto.website dto.form_rendered_at now)) [
          | inl bot ↦ rw bot f
          | inr person ↦ rw person (
            omega (arith, f.0),
            All-append (IsFiled i) db.messages (submitted db.next_message dto locale ∷ []) f.1
                (ground (arith, f.0), tt),
          )
        ]

    serve_message-Filed :
        (r : InboxRequest) (db : InboxDb)
        → LeavesFiled i r
        → Filed i db
        → Filed i (serve_message send label shown base_url r db)
    unfolding serve_message
    serve_message-Filed (send_in now notify_email dto locale) db h f =
        submit-Filed now notify_email dto locale db f
    serve_message-Filed (view j) db h f = find_with_replies-Filed j db f
    serve_message-Filed (answer j body author) db h f = reply-Filed send j body author db f
    serve_message-Filed (mark j s) db h f = set_status-Filed j s db h f
    serve_message-Filed (convert j dto) db h f = convert_to_testimonial-Filed j dto db f
    serve_message-Filed (erase j) db h f = remove_message-Filed j db f

    -- An archived message stays archived, or is erased, whatever messages come in and whatever is
    -- viewed, answered, converted and erased, unless somebody sets its status to another.
    pub serve_messages-Filed :
        (rs : List InboxRequest) (db : InboxDb)
        → All (LeavesFiled i) rs
        → Filed i db
        → Filed i (serve_messages send label shown base_url rs db)
    unfolding serve_messages
    serve_messages-Filed [] db h f = f
    serve_messages-Filed (r ∷ rs) db h f =
        serve_messages-Filed rs (serve_message send label shown base_url r db) h.1
          (serve_message-Filed r db h.0 f)
