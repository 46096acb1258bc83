-- ===== src/Messages.antt =====
-- The inbox: src/messages/messages.service.ts, and submit of src/contact/contact.service.ts, which
-- fills it. What the mail service writes to mail_log is a parameter.
pub mod Submit
pub mod Inbox
pub mod Erasure
mod Tests
use safeer_api.Common.{
  ℕ, ◌+◌, ◌≡◌, String, Option, none, some, List, [], ◌∷◌, ◌++◌, map, Bool, true, false, not, ◌&&◌,
  ◌==◌, ltb, str_eq, if◌then◌else◌, find, any, select, update_where, delete_where, Exec, pure, gets,
  modify, require, ◌>>=◌, ◌>>◌, transaction, not_found, Result-cases,
}
use safeer_api.Contact.{Locale, ar, is_honeypot_tripped, frontend_url}

pub data ContactSubject : Type 0 where
  inquiry partnership support feedback other : ContactSubject

pub data MessageStatus : Type 0 where
  unread read archived : MessageStatus

-- the hash of the address, the user agent and the time stamps are left out
pub record ContactMessage : Type 0 where
  pub id : ℕ
  pub name : String
  pub phone : Option String
  pub email : String
  pub subject : ContactSubject
  pub body : String
  pub status : MessageStatus
  pub locale : Locale

-- the copy of the delivery status and the time stamp are left out
pub record MessageReply : Type 0 where
  pub id : ℕ
  pub message_id : ℕ
  pub author_id : Option ℕ
  pub body : String
  pub mail_log_id : Option ℕ

pub data TestimonialStatus : Type 0 where
  pending published hidden : TestimonialStatus

pub data TestimonialSource : Type 0 where
  manual contact_form : TestimonialSource

-- the place among the testimonials and the time stamps are left out
pub record Testimonial : Type 0 where
  pub id : ℕ
  pub quote_ar : String
  pub quote_en : Option String
  pub author_name : String
  pub author_desc_ar : Option String
  pub author_desc_en : Option String
  pub status : TestimonialStatus
  pub source : TestimonialSource
  pub source_message_id : Option ℕ

-- what the inbox reads of a row of mail_log: whom it is about, and its template
pub record LoggedMail : Type 0 where
  pub id : ℕ
  pub entity_type : String
  pub entity_id : Option ℕ
  pub template_key : String

pub record InboxDb : Type 0 where
  pub messages : List ContactMessage
  pub next_message : ℕ
  pub replies : List MessageReply
  pub next_reply : ℕ
  pub testimonials : List Testimonial
  pub next_testimonial : ℕ
  pub mail_log : List LoggedMail
  pub purged : List String

-- a call of the mail service about a message
pub record MessageMail : Type 0 where
  pub key : String
  pub to : String
  pub vars : List (String × String)
  pub locale : Locale
  pub message : ℕ

-- what the mail service does to its table; no caller depends on the delivery
abbrev pub SendMail : Type 0
SendMail = MessageMail → List LoggedMail → List LoggedMail

abbrev pub has_message_id : ℕ → ContactMessage → Bool
has_message_id i m = m.id == i

abbrev pub is_same : ℕ → Option ℕ → Bool
is_same i none = false
is_same i (some j) = j == i

abbrev pub is_about : ℕ → LoggedMail → Bool
is_about i r = str_eq r.entity_type "contact_messages" && is_same i r.entity_id

abbrev pub is_reply_to : ℕ → MessageReply → Bool
is_reply_to i r = r.message_id == i

abbrev pub is_from : ℕ → Testimonial → Bool
is_from i t = is_same i t.source_message_id

abbrev pub is_unread : MessageStatus → Bool
is_unread unread = true
is_unread _ = false

abbrev pub or_empty : Option String → String
or_empty none = ""
or_empty (some s) = s

abbrev pub or_given {ℓ} : {A : Type ℓ} → A → Option A → A
or_given d none = d
or_given d (some a) = a

abbrev pub find_or_not_found : ℕ → Exec InboxDb ContactMessage
find_or_not_found i = do
  found ← gets (λ db. find (has_message_id i) db.messages)
  require 404 not_found found

-- `message.status = s; save(message)`
abbrev pub save_status : ContactMessage → MessageStatus → InboxDb → InboxDb
save_status m s db = record db {
  messages = update_where (has_message_id m.id) (λ _. record m { status = s }) db.messages;
}

abbrev pub seen : ContactMessage → ContactMessage
seen m = if is_unread m.status then record m { status = read } else m

-- an unread message becomes read; no other status changes
abbrev pub mark_read : ContactMessage → Exec InboxDb Unit
mark_read m = modify (λ db. if is_unread m.status then save_status m read db else db)

-- The replies come in the order of their time; their authors' names are left out.
unfoldable pub find_with_replies : ℕ → Exec InboxDb (ContactMessage × List MessageReply)
find_with_replies i = do
  message ← find_or_not_found i
  mark_read message
  replies ← gets (λ db. select (is_reply_to i) db.replies)
  pure (seen message, replies)

-- ORDER BY id DESC LIMIT 1
abbrev newer : Option ℕ → LoggedMail → Option ℕ
newer none r = some r.id
newer (some j) r = if ltb j r.id then some r.id else some j

unfoldable pub latest_reply_mail : ℕ → Option ℕ → List LoggedMail → Option ℕ
latest_reply_mail i best [] = best
latest_reply_mail i best (r ∷ rs) =
    latest_reply_mail i
      (if is_about i r && str_eq r.template_key "message_reply" then newer best r else best) rs

abbrev pub post : SendMail → MessageMail → InboxDb → InboxDb
post send mail db = record db { mail_log = send mail db.mail_log }

unfoldable pub reply : SendMail → ℕ → String → ℕ → Exec InboxDb (ContactMessage × MessageReply)
unfolding latest_reply_mail
reply send i body author = do
  message ← find_or_not_found i
  modify (
      post send (record {
        key = "message_reply";
        to = message.email;
        vars = ("name", message.name) ∷ ("message", body) ∷ [];
        locale = message.locale;
        message = message.id;
      }))
  mail ← gets (λ db. latest_reply_mail message.id none db.mail_log)
  next ← gets (λ db. db.next_reply)
  let saved : MessageReply = record {
    id = next;
    message_id = i;
    author_id = some author;
    body = body;
    mail_log_id = mail;
  }
  modify (λ db. record db { replies = db.replies ++ saved ∷ []; next_reply = db.next_reply + 1 })
  mark_read message
  pure (seen message, saved)

unfoldable pub set_status : ℕ → MessageStatus → Exec InboxDb MessageStatus
set_status i status = do
  message ← find_or_not_found i
  modify (save_status message status)
  pure message.status

pub record ConvertToTestimonial : Type 0 where
  pub quote_ar : String
  pub quote_en : Option String
  pub author_name : Option String
  pub author_desc : Option String

unfoldable pub convert_to_testimonial : ℕ → ConvertToTestimonial → Exec InboxDb Testimonial
convert_to_testimonial i dto = do
  message ← find_or_not_found i
  next ← gets (λ db. db.next_testimonial)
  let saved : Testimonial = record {
    id = next;
    quote_ar = dto.quote_ar;
    quote_en = dto.quote_en;
    author_name = or_given message.name dto.author_name;
    author_desc_ar = dto.author_desc;
    author_desc_en = none;
    status = pending;
    source = contact_form;
    source_message_id = some i;
  }
  modify (λ db. record db {
    testimonials = db.testimonials ++ saved ∷ [];
    next_testimonial = db.next_testimonial + 1;
  })
  modify (λ db. record db { purged = "home" ∷ "testimonials" ∷ db.purged })
  pure saved

-- ON DELETE SET NULL of `mail_log_id`
abbrev pub unlink_mail : List LoggedMail → MessageReply → MessageReply
unlink_mail log r = record r {
  mail_log_id = elim r.mail_log_id [
    | none ↦ none
    | some j ↦ if any (λ e. e.id == j) log then some j else none
  ];
}

abbrev pub delete_mail_log : ℕ → InboxDb → InboxDb
delete_mail_log i db =
    let left = delete_where (is_about i) db.mail_log in
    record db { mail_log = left; replies = map (unlink_mail left) db.replies }

-- ON DELETE CASCADE of the replies, ON DELETE SET NULL of the testimonials
abbrev pub delete_message : ℕ → InboxDb → InboxDb
delete_message i db = record db {
  messages = delete_where (has_message_id i) db.messages;
  replies = delete_where (is_reply_to i) db.replies;
  testimonials =
      update_where (is_from i) (λ t. record t { source_message_id = none }) db.testimonials;
}

unfoldable pub remove_message : ℕ → Exec InboxDb ContactMessage
remove_message i = do
  message ← find_or_not_found i
  transaction (do modify (delete_mail_log i); modify (delete_message message.id))
  pure message
