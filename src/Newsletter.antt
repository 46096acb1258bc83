-- ===== src/Newsletter.antt =====
-- The newsletter: subscribe, confirmSubscription and unsubscribe of src/contact/contact.service.ts, and
-- the signed links of src/contact/newsletter-token.util.ts.
pub mod Token
pub mod OptIn
mod Tests
use Prim.Native.String.{◌++◌}
use safeer_api.Common as Common
use safeer_api.Common.{
  ℕ, ◌+◌, ◌*◌, String, Option, none, some, List, [], ◌∷◌, Bool, true, false, not, ◌&&◌, ◌==◌,
  str_eq, if◌then◌else◌, find, update_where, Exec, pure, gets, modify, refuse_if, ◌>>=◌, ◌>>◌,
  validation_failed,
}
use safeer_api.Accounts.{is_null}
use safeer_api.Contact.{Locale, is_honeypot_tripped, frontend_url}

pub data NewsletterAction : Type 0 where
  confirm unsubscribe : NewsletterAction

-- JavaScript's numbers and texts, and the HMAC with the derived key
pub record TokenPlatform : Type 1 where
  pub Num : Type 0
  -- the number of a time in milliseconds
  pub time : ℕ → Num
  -- `${n}`
  pub shown : Num → String
  -- Number(s), or `none` where that is not finite
  pub number : String → Option Num
  -- `now > n`
  pub is_past : ℕ → Num → Bool
  pub hmac : String → String
  -- trim().toLowerCase()
  pub normalize : String → String
  pub encode_uri : String → String
  pub base_url : String
  -- the collation of the column `email`
  pub same_text : String → String → Bool

abbrev pub days : ℕ → ℕ
days n = n * 24 * 60 * 60 * 1000

abbrev pub confirm_ttl : ℕ
confirm_ttl = days 7

abbrev pub action_code : NewsletterAction → String
action_code confirm = "confirm"
action_code unsubscribe = "unsubscribe"

-- the text before the first dot, and the text after it
unfoldable pub split_dot : String → Option (String × String)
split_dot String.[] = none
split_dot (String.◌∷◌ c s) =
    let rest : Option (String × String) = elim (split_dot s) [
      | none ↦ none
      | some (before, after) ↦ some (String.◌∷◌ c before, after)
    ] in
    if str_eq (String.◌∷◌ c "") "." then some ("", s) else rest

module _ (js : TokenPlatform) where
  abbrev shown_or_empty : Option js.Num → String
  shown_or_empty none = ""
  shown_or_empty (some n) = js.shown n

  unfoldable pub sign : NewsletterAction → String → Option js.Num → String
  sign action email expires =
      js.hmac (action_code action ++ "|" ++ js.normalize email ++ "|" ++ shown_or_empty expires)

  unfoldable pub issue_newsletter_token : NewsletterAction → String → ℕ → String
  unfolding sign
  issue_newsletter_token unsubscribe email now = sign unsubscribe email none
  issue_newsletter_token confirm email now =
      let expires = js.time (now + confirm_ttl) in
      js.shown expires ++ "." ++ sign confirm email (some expires)

  -- `<expiresAtMs>.<sig>`, with something before the dot
  abbrev pub verify_parts : ℕ → String → Option (String × String) → Bool
  verify_parts now email none = false
  verify_parts now email (some (before, sig)) = not (str_eq before "") && elim (js.number before) [
    | none ↦ false
    | some expires ↦ not (js.is_past now expires) && str_eq sig (sign confirm email (some expires))
  ]

  unfoldable pub verify_newsletter_token : NewsletterAction → String → String → ℕ → Bool
  unfolding sign split_dot
  verify_newsletter_token unsubscribe email token now = str_eq token (sign unsubscribe email none)
  verify_newsletter_token confirm email token now = verify_parts now email (split_dot token)

-- `created_at` is left out
pub record Subscriber : Type 0 where
  pub id : ℕ
  pub email : String
  pub locale : Locale
  pub confirmed_at : Option ℕ
  pub ip_hash : Option String
  pub unsubscribed_at : Option ℕ

-- a call of the mail service, whose outcome no caller depends on
pub record ConfirmMail : Type 0 where
  pub to : String
  pub link : String
  pub locale : Locale
  pub subscriber : ℕ

pub record NewsletterDb : Type 0 where
  pub subscribers : List Subscriber
  pub next_id : ℕ
  pub outbox : List ConfirmMail

pub record NewsletterForm : Type 0 where
  pub email : String
  pub website : Option String
  pub form_rendered_at : ℕ

abbrev pub has_email : TokenPlatform → String → Subscriber → Bool
has_email js email s = js.same_text s.email email

abbrev pub is_active : Subscriber → Bool
is_active s = not (is_null s.confirmed_at) && is_null s.unsubscribed_at

abbrev pub unconfirmed : Locale → Subscriber → Subscriber
unconfirmed locale s = record s { unsubscribed_at = none; confirmed_at = none; locale = locale }

-- the row that is saved, and the table with it
unfoldable pub save_subscriber :
    String → Locale → Option String → Option Subscriber → NewsletterDb → Subscriber × NewsletterDb
save_subscriber email locale ip_hash (some old) db =
    let row = unconfirmed locale old in
    (row, record db { subscribers = update_where (λ s. s.id == old.id) (λ _. row) db.subscribers })
save_subscriber email locale ip_hash none db =
    let row : Subscriber = record {
      id = db.next_id;
      email = email;
      locale = locale;
      confirmed_at = none;
      ip_hash = ip_hash;
      unsubscribed_at = none;
    } in
    (
      row,
      record db { subscribers = Common.◌++◌ db.subscribers (row ∷ []); next_id = db.next_id + 1 },
    )

abbrev pub is_already_active : Option Subscriber → Bool
is_already_active none = false
is_already_active (some s) = is_active s

module _ (js : TokenPlatform) where
  abbrev pub confirm_link : Locale → String → String → String
  confirm_link locale email token =
      frontend_url js.base_url locale
        ("newsletter/confirm?email=" ++ js.encode_uri email ++ "&token=" ++ js.encode_uri token)

  -- the mail with the signed link
  abbrev pub post_confirm : ℕ → String → Locale → Subscriber × NewsletterDb → NewsletterDb
  post_confirm now email locale (saved, db) = record db {
    outbox =
        record {
          to = email;
          link = confirm_link locale email (issue_newsletter_token js confirm email now);
          locale = locale;
          subscriber = saved.id;
        }
        ∷ db.outbox;
  }

  unfoldable pub subscribe :
      ℕ → NewsletterForm → Option String → Locale → NewsletterDb → NewsletterDb
  unfolding save_subscriber is_honeypot_tripped
  subscribe now dto ip_hash locale db =
      let email = js.normalize dto.email in
      let existing = find (has_email js email) db.subscribers in
      if is_honeypot_tripped dto.website dto.form_rendered_at now
      then db
      else if is_already_active existing
      then db
      else post_confirm now email locale (save_subscriber email locale ip_hash existing db)

  unfoldable pub confirm_subscription : ℕ → String → String → Exec NewsletterDb Unit
  unfolding verify_newsletter_token
  confirm_subscription now email token = do
    let address = js.normalize email
    refuse_if (not (verify_newsletter_token js confirm address token now)) 400 validation_failed
    modify (λ db. record db {
      subscribers =
          update_where
            (λ s. has_email js address s && (is_null s.confirmed_at && is_null s.unsubscribed_at))
            (λ s. record s { confirmed_at = some now }) db.subscribers;
    })

  unfoldable pub unsubscribe_address : ℕ → String → String → Exec NewsletterDb Unit
  unfolding verify_newsletter_token
  unsubscribe_address now email token = do
    let address = js.normalize email
    refuse_if (not (verify_newsletter_token js unsubscribe address token now)) 400 validation_failed
    modify (λ db. record db {
      subscribers =
          update_where (λ s. has_email js address s && is_null s.unsubscribed_at)
            (λ s. record s { unsubscribed_at = some now }) db.subscribers;
    })

  -- the link that every newsletter mail carries
  unfoldable pub unsubscribe_link : ℕ → String → Locale → String
  unfolding issue_newsletter_token
  unsubscribe_link now email locale =
      let normalized = js.normalize email in
      frontend_url js.base_url locale (
        "newsletter/unsubscribe?email="
        ++ js.encode_uri normalized
        ++ "&token="
        ++ js.encode_uri (issue_newsletter_token js unsubscribe normalized now))
