-- ===== src/Newsletter/OptIn.antt =====
-- Sequences of newsletter requests: what they make of an address without a subscription.
use safeer_api.Common.{
  ℕ, ◌≡◌, refl, ap, inl, inr, String, Option, none, some, List, [], ◌∷◌, Bool, true, false, ◌&&◌,
  ◌==◌, arith, str_eq, eq_iff, if◌then◌else◌, Bool-cases, find, All, All-append, All-update_where,
}
use safeer_api.Accounts.{is_null}
use safeer_api.Contact.{Locale, is_honeypot_tripped}
use safeer_api.Newsletter.{
  TokenPlatform, Subscriber, NewsletterDb, NewsletterForm, confirm, has_email, is_active,
  is_already_active, save_subscriber, unconfirmed, subscribe, confirm_subscription, unsubscribe,
  unsubscribe_address, verify_newsletter_token,
}

pub data NewsletterRequest : Type 0 where
  sign_up : (now : ℕ) → NewsletterForm → Option String → Locale → NewsletterRequest
  follow_confirm : (now : ℕ) (email token : String) → NewsletterRequest
  follow_unsubscribe : (now : ℕ) (email token : String) → NewsletterRequest

module _ (js : TokenPlatform) where
  unfoldable pub serve_newsletter : NewsletterRequest → NewsletterDb → NewsletterDb
  serve_newsletter (sign_up now dto ip_hash locale) db = subscribe js now dto ip_hash locale db
  serve_newsletter (follow_confirm now email token) db =
      (confirm_subscription js now email token db).1
  serve_newsletter (follow_unsubscribe now email token) db =
      (unsubscribe_address js now email token db).1

  unfoldable pub serve_all_newsletter : List NewsletterRequest → NewsletterDb → NewsletterDb
  serve_all_newsletter [] db = db
  serve_all_newsletter (r ∷ rs) db = serve_all_newsletter rs (serve_newsletter r db)

  -- no link for `address` with a signature that holds when it is followed
  abbrev pub HasNoLink : String → NewsletterRequest → Type 0
  HasNoLink address (follow_confirm now email token) =
      js.same_text address (js.normalize email)
        && verify_newsletter_token js confirm (js.normalize email) token now
      ≡ false
  HasNoLink address r = Unit

-- a row of the address counts as no subscription
abbrev pub IsInactive : String → Subscriber → Type 0
IsInactive address s = str_eq s.email address && is_active s ≡ false

abbrev pub Inactive : String → NewsletterDb → Type 0
Inactive address db = All (IsInactive address) db.subscribers

module _ (js : TokenPlatform) (address : String) where
  address_of :
      (s : Subscriber) (other : String)
      → str_eq s.email address ≡ true
      → js.same_text s.email other ≡ js.same_text address other
  address_of s other h = ap (λ e. js.same_text e other) ((eq_iff s.email address).0 h)

  -- a row that is written, its address being another or the link right
  kept :
      (b : Bool) (s new : Subscriber)
      → IsInactive address s
      → (b ≡ true → str_eq s.email address ≡ true → IsInactive address new)
      → (b ≡ true → new.email ≡ s.email)
      → IsInactive address (if b then new else s)
  kept false s new q h e = q
  kept true s new q h e = elim (Bool-cases (str_eq s.email address)) [
    | inr other ↦ ground (arith, other, e refl)
    | inl here ↦ h refl here
  ]

  confirm_subscription-Inactive :
      (now : ℕ) (email token : String) (db : NewsletterDb)
      → HasNoLink js address (follow_confirm now email token)
      → Inactive address db
      → Inactive address (confirm_subscription js now email token db).1
  unfolding confirm_subscription
  confirm_subscription-Inactive now email token db h a =
      elim (Bool-cases (verify_newsletter_token js confirm (js.normalize email) token now)) [
        | inr invalid ↦ rw invalid a
        | inl valid ↦ rw valid (
            All-update_where (IsInactive address)
              (λ s.
                has_email js (js.normalize email) s
                && (is_null s.confirmed_at && is_null s.unsubscribed_at))
              (λ s. record s { confirmed_at = some now })
              (λ s q.
                kept
                  (has_email js (js.normalize email) s
                    && (is_null s.confirmed_at && is_null s.unsubscribed_at))
                  s (record s { confirmed_at = some now }) q
                  (λ met here.
                    absurd (ground (arith, met, valid, h, address_of s (js.normalize email) here)))
                  (λ _. refl))
              db.subscribers a)
      ]

  unsubscribe_address-Inactive :
      (now : ℕ) (email token : String) (db : NewsletterDb)
      → Inactive address db
      → Inactive address (unsubscribe_address js now email token db).1
  unfolding unsubscribe_address
  unsubscribe_address-Inactive now email token db a =
      elim (Bool-cases (verify_newsletter_token js unsubscribe (js.normalize email) token now)) [
        | inr invalid ↦ rw invalid a
        | inl valid ↦ rw valid (
            All-update_where (IsInactive address)
              (λ s. has_email js (js.normalize email) s && is_null s.unsubscribed_at)
              (λ s. record s { unsubscribed_at = some now })
              (λ s q.
                kept (has_email js (js.normalize email) s && is_null s.unsubscribed_at) s
                  (record s { unsubscribed_at = some now }) q (λ met here. ground arith)
                  (λ _. refl))
              db.subscribers a)
      ]

  -- the row that is saved, and the table
  save_subscriber-Inactive :
      (email : String) (locale : Locale) (ip_hash : Option String) (existing : Option Subscriber)
      (db : NewsletterDb)
      → Inactive address db
      → Inactive address (save_subscriber email locale ip_hash existing db).1
  unfolding save_subscriber
  save_subscriber-Inactive email locale ip_hash none db a =
      All-append (IsInactive address) db.subscribers _ a (ground arith, tt)
  save_subscriber-Inactive email locale ip_hash (some old) db a =
      All-update_where (IsInactive address) (λ s. s.id == old.id) (λ _. unconfirmed locale old)
        (λ s q. ground (arith, q)) db.subscribers a

  subscribe-Inactive :
      (now : ℕ) (dto : NewsletterForm) (ip_hash : Option String) (locale : Locale)
      (db : NewsletterDb)
      → Inactive address db
      → Inactive address (subscribe js now dto ip_hash locale db)
  unfolding subscribe
  subscribe-Inactive now dto ip_hash locale db a =
      elim (Bool-cases (is_honeypot_tripped dto.website dto.form_rendered_at now)) [
        | inl bot ↦ rw bot a
        | inr person ↦ elim (Bool-cases (is_already_active existing)) [
          | inl active ↦ rw (person, active) a
          | inr inactive ↦
              rw (person, inactive)
                (save_subscriber-Inactive (js.normalize dto.email) locale ip_hash existing db a)
        ]
      ]
    where
      existing : Option Subscriber
      existing = find (has_email js (js.normalize dto.email)) db.subscribers

  serve_newsletter-Inactive :
      (r : NewsletterRequest) (db : NewsletterDb)
      → HasNoLink js address r
      → Inactive address db
      → Inactive address (serve_newsletter js r db)
  unfolding serve_newsletter
  serve_newsletter-Inactive (sign_up now dto ip_hash locale) db h a =
      subscribe-Inactive now dto ip_hash locale db a
  serve_newsletter-Inactive (follow_confirm now email token) db h a =
      confirm_subscription-Inactive now email token db h a
  serve_newsletter-Inactive (follow_unsubscribe now email token) db h a =
      unsubscribe_address-Inactive now email token db a

  -- An address with no subscription that counts (no row, or rows that are not confirmed or were
  -- unsubscribed) gets none, whatever forms and links arrive, as long as no confirmation is asked for
  -- the address with a token that verifies for it at that time.
  pub serve_all_newsletter-Inactive :
      (rs : List NewsletterRequest) (db : NewsletterDb)
      → All (HasNoLink js address) rs
      → Inactive address db
      → Inactive address (serve_all_newsletter js rs db)
  unfolding serve_all_newsletter
  serve_all_newsletter-Inactive [] db h a = a
  serve_all_newsletter-Inactive (r ∷ rs) db h a =
      serve_all_newsletter-Inactive rs (serve_newsletter js r db) h.1
        (serve_newsletter-Inactive r db h.0 a)
