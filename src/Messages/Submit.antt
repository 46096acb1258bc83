-- ===== src/Messages/Submit.antt =====
-- submit of src/contact/contact.service.ts: the public contact form.
use Prim.Native.String.{◌++◌}
use safeer_api.Common as Common
use safeer_api.Common.{ℕ, ◌+◌, String, Option, none, some, List, [], ◌∷◌, Bool, if◌then◌else◌}
use safeer_api.Contact.{Locale, ar, is_honeypot_tripped, frontend_url}
use safeer_api.Messages.{
  ContactSubject, unread, ContactMessage, InboxDb, SendMail, MessageMail, post, or_empty,
}

pub record ContactForm : Type 0 where
  pub name : String
  pub email : String
  pub phone : Option String
  pub subject : ContactSubject
  pub body : String
  pub website : Option String
  pub form_rendered_at : ℕ

abbrev pub submitted : ℕ → ContactForm → Locale → ContactMessage
submitted i dto locale = record {
  id = i;
  name = dto.name;
  phone = dto.phone;
  email = dto.email;
  subject = dto.subject;
  body = dto.body;
  status = unread;
  locale = locale;
}

abbrev pub ack_mail : ContactMessage → MessageMail
ack_mail m = record {
  key = "contact_ack";
  to = m.email;
  vars = [];
  locale = m.locale;
  message = m.id;
}

-- `shown` is the text of an id, `label` the Arabic label of a subject
abbrev pub notify_mail :
    (ContactSubject → String) → (ℕ → String) → String → Option String → ContactMessage → MessageMail
notify_mail label shown base_url notify_email m = record {
  key = "contact_notify";
  to = or_empty notify_email;
  vars =
      ("name", m.name)
      ∷ ("email", m.email)
      ∷ ("phone", or_empty m.phone)
      ∷ ("subject", label m.subject)
      ∷ ("message", m.body)
      ∷ ("link", frontend_url base_url ar ("admin/messages/" ++ shown m.id))
      ∷ [];
  locale = ar;
  message = m.id;
}

module _ (send : SendMail) (label : ContactSubject → String) (shown : ℕ → String)
    (base_url : String) where
  -- The message is stored before any mail is sent. A bot gets the same answer, and leaves nothing.
  unfoldable pub submit : ℕ → Option String → ContactForm → Locale → InboxDb → InboxDb
  unfolding is_honeypot_tripped
  submit now notify_email dto locale db =
      let saved = submitted db.next_message dto locale in
      let stored = record db {
        messages = Common.◌++◌ db.messages (saved ∷ []);
        next_message = db.next_message + 1;
      } in
      if is_honeypot_tripped dto.website dto.form_rendered_at now
      then db
      else post send (notify_mail label shown base_url notify_email saved)
          (post send (ack_mail saved) stored)
