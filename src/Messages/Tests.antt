-- ===== src/Messages/Tests.antt =====
-- The theorems on the inbox at small data.
use safeer_api.Common as Common
use safeer_api.Messages as Messages
use safeer_api.Common.{ℕ, ◌≡◌, refl, none, some, List, [], ◌∷◌, arith, ok, false}
use safeer_api.Contact.{en}
use safeer_api.Messages.{
  ContactMessage, InboxDb, SendMail, inquiry, archived, read, unread, pending, contact_form,
  remove_message,
}
use safeer_api.Messages.Inbox.{
  view, answer, mark, erase, Filed, serve_messages, serve_messages-Filed,
}
use safeer_api.Messages.Erasure.{IsErased, IsKept, remove_message-IsErased}

abbrev letter : ℕ → Messages.MessageStatus → ContactMessage
letter i status = record {
  id = i;
  name = "Amal";
  phone = none;
  email = "a@b.c";
  subject = inquiry;
  body = "Hello";
  status = status;
  locale = en;
}

abbrev log_it : SendMail
log_it mail log =
    record {
      id = Common.length log;
      entity_type = "contact_messages";
      entity_id = some mail.message;
      template_key = mail.key;
    }
    ∷ log

abbrev inbox : InboxDb
inbox = record {
  messages = letter 1 archived ∷ letter 2 unread ∷ [];
  next_message = 3;
  replies =
      record { id = 1; message_id = 1; author_id = none; body = "Yes"; mail_log_id = some 0 } ∷ [];
  next_reply = 2;
  testimonials =
      record {
        id = 1;
        quote_ar = "";
        quote_en = none;
        author_name = "Amal";
        author_desc_ar = none;
        author_desc_en = none;
        status = pending;
        source = contact_form;
        source_message_id = some 1;
      }
      ∷ [];
  next_testimonial = 2;
  mail_log =
      record {
        id = 0;
        entity_type = "contact_messages";
        entity_id = some 1;
        template_key = "message_reply";
      }
      ∷ [];
  purged = [];
}

serve_messages-Filed_example : Filed 1 (
    serve_messages log_it
      (λ _. "")
      (λ _. "")
      ""
      (view 1 ∷ answer 1 "Thanks" 5 ∷ mark 2 read ∷ view 2 ∷ erase 2 ∷ [])
      inbox)
serve_messages-Filed_example =
    serve_messages-Filed 1 log_it (λ _. "") (λ _. "") ""
      (view 1 ∷ answer 1 "Thanks" 5 ∷ mark 2 read ∷ view 2 ∷ erase 2 ∷ []) inbox
      (tt, (tt, (refl, (tt, (tt, tt))))) (omega arith, (refl, (refl, tt)))

remove_message-IsErased_example :
    IsErased 1 (remove_message 1 inbox).1 × IsKept 1 inbox (remove_message 1 inbox).1
unfolding remove_message Common.find
remove_message-IsErased_example = remove_message-IsErased 1 inbox (letter 1 archived) refl
