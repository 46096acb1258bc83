-- ===== src/Messages/Erasure.antt =====
-- What a message that is erased leaves behind.
use safeer_api.Common.{
  select-delete_where, not, str_eq, if◌then◌else◌, Bool-cases, ap, ◌∙◌, ℕ, ◌≡◌, refl, sym, subst,
  inl, inr, Option, none, some, List, [], ◌∷◌, map, Bool, true, false, ◌==◌, arith, Option-cases,
  find, any, select, update_where, delete_where, any-delete_where_done, find_sound, ok,
}
use safeer_api.Messages.{
  LoggedMail, Testimonial, MessageReply, delete_message, delete_mail_log, ContactMessage, InboxDb,
  has_message_id, is_about, is_reply_to, is_from, is_same, remove_message, unlink_mail,
}

abbrev is_number : ℕ → Option ℕ → Bool
is_number i none = false
is_number i (some j) = j == i

-- the mail is one about the contact message `i`, and not about a row `i` of another kind
abbrev pub speaks_of : ℕ → LoggedMail → Bool
speaks_of i e = if is_number i e.entity_id then str_eq e.entity_type "contact_messages" else false

abbrev pub comes_from : ℕ → Testimonial → Bool
comes_from i t = is_number i t.source_message_id

-- no row speaks of the message
abbrev pub IsErased : ℕ → InboxDb → Type 0
IsErased i db =
    (any (λ m. m.id == i) db.messages ≡ false)
    × (any (λ r. r.message_id == i) db.replies ≡ false)
    × (any (comes_from i) db.testimonials ≡ false)
    × (any (speaks_of i) db.mail_log ≡ false)

-- a reply but for its link to a mail
abbrev pub without_mail : MessageReply → MessageReply
without_mail r = record r { mail_log_id = none }

abbrev pub without_source : ℕ → Testimonial → Testimonial
without_source i t = if comes_from i t then record t { source_message_id = none } else t

-- Every other message, reply and mail is there as before, the link of a reply to its mail aside, and so
-- is every testimonial, its link to the message aside.
abbrev pub IsKept : ℕ → InboxDb → InboxDb → Type 0
IsKept i db db' =
    (select (λ m. not (m.id == i)) db'.messages ≡ select (λ m. not (m.id == i)) db.messages)
    × (map without_mail (select (λ r. not (r.message_id == i)) db'.replies)
        ≡ map without_mail (select (λ r. not (r.message_id == i)) db.replies))
    × (db'.testimonials ≡ map (without_source i) db.testimonials)
    × (select (λ e. not (speaks_of i e)) db'.mail_log
        ≡ select (λ e. not (speaks_of i e)) db.mail_log)

module _ {ℓ} {A : Type ℓ} where
  any-update_where_lem :
      (q p : A → Bool) (f : A → A)
      → ((x : A) → q (f x) ≡ false)
      → ((x : A) → q x ≡ true → p x ≡ true)
      → (xs : List A) → any q (update_where p f xs) ≡ false
  unfolding any update_where
  any-update_where_lem q p f h k [] = refl
  any-update_where_lem q p f h k (x ∷ xs) = elim (Bool-cases (p x)) [
    | inl met ↦ rw met (ground (arith, h x, any-update_where_lem q p f h k xs))
    | inr other ↦ elim (Bool-cases (q x)) [
      | inl there ↦ let met = k x there in absurd (ground (arith, met, other))
      | inr away ↦ rw other (ground (arith, away, any-update_where_lem q p f h k xs))
    ]
  ]

is_number-is_same : (i : ℕ) (o : Option ℕ) → is_number i o ≡ is_same i o
is_number-is_same i none = refl
is_number-is_same i (some n) = refl

is_about-speaks_of : (i : ℕ) (e : LoggedMail) → is_about i e ≡ speaks_of i e
is_about-speaks_of i e = ground (arith, is_number-is_same i e.entity_id)

testimonials_lem :
    (i : ℕ) (ts : List Testimonial)
    → update_where (is_from i) (λ t. record t { source_message_id = none }) ts
      ≡ map (without_source i) ts
unfolding update_where
testimonials_lem i [] = refl
testimonials_lem i (t ∷ ts) =
    ground (arith, is_number-is_same i t.source_message_id, testimonials_lem i ts)

replies_lem :
    (i : ℕ) (left : List LoggedMail) (rs : List MessageReply)
    → map without_mail (
        select
          (λ r. not (r.message_id == i))
          (delete_where (is_reply_to i) (map (unlink_mail left) rs)))
      ≡ map without_mail (select (λ r. not (r.message_id == i)) rs)
unfolding select delete_where
replies_lem i left [] = refl
replies_lem i left (r ∷ rs) = elim (Bool-cases (r.message_id == i)) [
  | inl mine ↦ rw mine (replies_lem i left rs)
  | inr other ↦ rw (other, other) (ap (λ xs. without_mail r ∷ xs) (replies_lem i left rs))
]

erased :
    (i : ℕ) (db : InboxDb)
    → IsErased i (delete_message i (delete_mail_log i db))
      × IsKept i db (delete_message i (delete_mail_log i db))
erased i db = (
  (
    any-delete_where_done (λ m. m.id == i) (has_message_id i) (λ r e. e) db.messages,
    any-delete_where_done (λ r. r.message_id == i) (is_reply_to i) (λ r e. e)
        (map (unlink_mail (delete_where (is_about i) db.mail_log)) db.replies),
    any-update_where_lem (comes_from i) (is_from i) (λ t. record t { source_message_id = none })
        (λ t. refl) (λ t e. sym (is_number-is_same i t.source_message_id) ∙ e) db.testimonials,
    any-delete_where_done (speaks_of i) (is_about i) (λ e k. is_about-speaks_of i e ∙ k)
        db.mail_log,
  ),
  (
    select-delete_where (λ m. not (m.id == i)) (has_message_id i) (λ r e. ground (arith, e))
        db.messages,
    replies_lem i (delete_where (is_about i) db.mail_log) db.replies,
    testimonials_lem i db.testimonials,
    select-delete_where (λ e. not (speaks_of i e)) (is_about i)
        (λ e k. is_about-speaks_of i e ∙ ground (arith, k)) db.mail_log,
  ),
)

-- A message that is erased is gone with its replies and with the mails about it, and no testimonial
-- points at it any more. Every other message, reply, testimonial and mail is as before, except that a
-- reply may lose its link to a mail.
pub remove_message-IsErased :
    (i : ℕ) (db : InboxDb) (m : ContactMessage)
    → (remove_message i db).0 ≡ ok m
    → IsErased i (remove_message i db).1 × IsKept i db (remove_message i db).1
unfolding remove_message
remove_message-IsErased i db m h = elim (Option-cases (find (has_message_id i) db.messages)) [
  | inl missing ↦ absurd (ground (arith, missing, h))
  | inr (found_row, found) ↦
      let same : found_row.id ≡ i =
        ground (arith, find_sound (has_message_id i) db.messages found_row found) in
      rw found (
        subst
          (λ k.
            IsErased i (delete_message k (delete_mail_log i db))
            × IsKept i db (delete_message k (delete_mail_log i db)))
          (sym same) (erased i db))
]
