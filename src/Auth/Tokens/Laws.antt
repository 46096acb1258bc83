-- ===== src/Auth/Tokens/Laws.antt =====
-- The links of invitations and password resets: single use, and only for the right account.
use safeer_api.Common.{
  ℕ, String, ◌≡◌, refl, subst, ◌⊎◌, inl, inr, none, some, List, [], ◌∷◌, Bool, true, false, not,
  arith, ◌==◌, str_eq, eq_iff, ==_refl, find, All, update_where, delete_where, ok, err, problem,
  validation_failed, Option-cases, Bool-cases, find_sound, find-none, All-find, All-select,
}
use safeer_api.Accounts.{
  User, UserStatus, AccountDb, AuthToken, Purpose, invite as invitation, reset, has_id, PublicUser,
  delete_unused_tokens, is_unused_token_of, to_public_user,
}
use safeer_api.Auth.{Platform}
use safeer_api.Auth.Tokens.{
  is_redeemable, spend, consume_token, use_link, link_allows, link_apply, link_shows,
}

module _ (p : Platform) where
  -- what a completed link has found and written
  pub record Consumed (now : ℕ) (raw_token : String) (purpose : Purpose)
      (allowed : UserStatus → Bool) (apply : User → AccountDb → AccountDb) (db db' : AccountDb)
      : Type 0 where
    pub token : AuthToken
    pub user : User
    pub redeemed : find (is_redeemable p now raw_token purpose) db.tokens ≡ some token
    pub owner : find (has_id token.user_id) db.users ≡ some user
    pub status : allowed user.status ≡ true
    pub stored : db' ≡ apply user (delete_unused_tokens user.id (spend p now token db))

  module _ (now : ℕ) (raw_token : String) (purpose : Purpose) (allowed : UserStatus → Bool)
      (apply : User → AccountDb → AccountDb) (edit : User → User) (db : AccountDb) where
    pub consume_outcome :
        ((Consumed now raw_token purpose allowed apply db
            (consume_token p now raw_token purpose allowed apply edit db).1)
          × ((r : PublicUser) × ((consume_token p now raw_token purpose allowed apply edit db).0
                ≡ ok r)))
        ⊎ (((consume_token p now raw_token purpose allowed apply edit db).0
              ≡ err (problem 400 validation_failed))
            × ((consume_token p now raw_token purpose allowed apply edit db).1 ≡ db))
    unfolding consume_token
    consume_outcome = elim (Option-cases (find (is_redeemable p now raw_token purpose) db.tokens)) [
      | inl nothing ↦ inr (ground (arith, nothing), ground (arith, nothing))
      | inr (token, found) ↦ elim (Option-cases (find (has_id token.user_id) db.users)) [
        | inl nobody ↦ inr (ground (arith, found, nobody), ground (arith, found, nobody))
        | inr (user, owner) ↦ elim (Bool-cases (allowed user.status)) [
          | inr wrong ↦
              inr (ground (arith, found, owner, wrong), ground (arith, found, owner, wrong))
          | inl fits ↦ inl (
            record {
              token = token;
              user = user;
              redeemed = found;
              owner = owner;
              status = fits;
              stored = ground (arith, found, owner, fits);
            },
            (to_public_user now (edit user), ground (arith, found, owner, fits)),
          )
        ]
      ]
    ]

-- `uq_authtok_hash`: no two tokens share a hash.
abbrev pub UniqueHashes : List AuthToken → Type 0
UniqueHashes [] = Unit
UniqueHashes (t ∷ ts) = All (λ u. str_eq u.token_hash t.token_hash ≡ false) ts × UniqueHashes ts

-- the row is the one that is spent, or has another hash
abbrev IsSpentBy : AuthToken → AuthToken → Type 0
IsSpentBy t x = ((x.id == t.id) ≡ true) ⊎ (str_eq x.token_hash t.token_hash ≡ false)

others_of_found :
    (q : AuthToken → Bool) (ts : List AuthToken) (t : AuthToken)
    → UniqueHashes ts
    → find q ts ≡ some t
    → All (IsSpentBy t) ts
unfolding find
others_of_found q [] t un h = tt
others_of_found q (x ∷ xs) t un h = elim (Bool-cases (q x)) [
  | inl here ↦
      let same : x ≡ t = ground (arith, here, h) in
      subst (λ (y : AuthToken). All (IsSpentBy y) (x ∷ xs)) same (inl (==_refl x.id), rest xs un.0)
  | inr later ↦
      let h' : find q xs ≡ some t = ground (arith, later, h) in
      let apart : str_eq t.token_hash x.token_hash ≡ false =
        All-find (λ u. str_eq u.token_hash x.token_hash ≡ false) q xs t h' un.0 in
      (
        inr (
            ground
              (arith, apart, eq_iff t.token_hash x.token_hash, eq_iff x.token_hash t.token_hash)),
        others_of_found q xs t un.1 h',
      )
]
  where
    rest :
        (us : List AuthToken)
        → All (λ u. str_eq u.token_hash x.token_hash ≡ false) us
        → All (IsSpentBy x) us
    rest [] a = tt
    rest (u ∷ us) a = (inr a.0, rest us a.1)

module _ (p : Platform) where
  spent_rows :
      (now later : ℕ) (raw_token : String) (purpose : Purpose) (t : AuthToken) (ts : List AuthToken)
      → t.token_hash ≡ p.hash_token raw_token
      → All (IsSpentBy t) ts
      → All
          (λ x. is_redeemable p later raw_token purpose x ≡ false)
          (update_where (λ u. u.id == t.id) (λ _. record t { used_at = some now }) ts)
  unfolding update_where
  spent_rows now later raw_token purpose t [] e a = tt
  spent_rows now later raw_token purpose t (x ∷ xs) e a = (
    ground (
      arith,
      a.0,
      e,
      eq_iff x.token_hash t.token_hash,
      eq_iff x.token_hash (p.hash_token raw_token),
      eq_iff t.token_hash (p.hash_token raw_token),
    ),
    spent_rows now later raw_token purpose t xs e a.1,
  )

  -- after a link was used, its token fits no link any more
  none_redeemable :
      (now later : ℕ) (raw_token : String) (purpose again : Purpose) (user : ℕ) (t : AuthToken)
      (db : AccountDb)
      → UniqueHashes db.tokens
      → find (is_redeemable p now raw_token purpose) db.tokens ≡ some t
      → find
          (is_redeemable p later raw_token again)
          (delete_unused_tokens user (spend p now t db)).tokens
        ≡ none
  unfolding delete_unused_tokens delete_where
  none_redeemable now later raw_token purpose again user t db un found =
      let fits = find_sound (is_redeemable p now raw_token purpose) db.tokens t found in
      let hash : t.token_hash ≡ p.hash_token raw_token =
        ground (arith, fits, eq_iff t.token_hash (p.hash_token raw_token)) in
      find-none (is_redeemable p later raw_token again) _ (
        All-select (λ x. is_redeemable p later raw_token again x ≡ false)
          (λ x. not (is_unused_token_of user x)) _
          (spent_rows now later raw_token again t db.tokens hash
            (others_of_found (is_redeemable p now raw_token purpose) db.tokens t un found)))

  consume_nothing :
      (now : ℕ) (raw_token : String) (purpose : Purpose) (allowed : UserStatus → Bool)
      (apply : User → AccountDb → AccountDb) (edit : User → User) (db : AccountDb)
      → find (is_redeemable p now raw_token purpose) db.tokens ≡ none
      → consume_token p now raw_token purpose allowed apply edit db
        ≡ (err (problem 400 validation_failed), db)
  unfolding consume_token
  consume_nothing now raw_token purpose allowed apply edit db nothing = ground (arith, nothing)

  consumed_leaves_none :
      (now later : ℕ) (raw_token : String) (purpose again : Purpose) (allowed : UserStatus → Bool)
      (apply : User → AccountDb → AccountDb) (edit : User → User) (db : AccountDb) (r : PublicUser)
      → ((u : User) (d : AccountDb) → (apply u d).tokens ≡ d.tokens)
      → UniqueHashes db.tokens
      → (consume_token p now raw_token purpose allowed apply edit db).0 ≡ ok r
      → find
          (is_redeemable p later raw_token again)
          (consume_token p now raw_token purpose allowed apply edit db).1.tokens
        ≡ none
  consumed_leaves_none now later raw_token purpose again allowed apply edit db r keeps un h =
      elim (consume_outcome p now raw_token purpose allowed apply edit db) [
        | inr (refused, _s) ↦ absurd (ground (arith, refused, h))
        | inl (c, _r) ↦
            rw (c.stored, keeps)
              (none_redeemable now later raw_token purpose again c.user.id c.token db un c.redeemed)
      ]

  pub tokens-link_apply :
      (kind : Purpose) (now : ℕ) (new_hash : String) (u : User) (d : AccountDb)
      → (link_apply p kind now new_hash u d).tokens ≡ d.tokens
  unfolding link_apply
  tokens-link_apply invitation now new_hash u d = refl
  tokens-link_apply reset now new_hash u d = refl

  -- A link works once: after it accepted an invitation or reset a password, the next use of it, for
  -- either purpose and at any time, is refused with 400 and changes nothing. Token hashes are unique.
  pub use_link_once :
      (kind again : Purpose) (now later : ℕ) (raw_token first second : String) (db : AccountDb)
      (r : PublicUser)
      → UniqueHashes db.tokens
      → (use_link p kind now raw_token first db).0 ≡ ok r
      → use_link p again later raw_token second (use_link p kind now raw_token first db).1
        ≡ (err (problem 400 validation_failed), (use_link p kind now raw_token first db).1)
  unfolding use_link
  use_link_once kind again now later raw_token first second db r un h =
      consume_nothing later raw_token again (link_allows p again) (link_apply p again later second)
        (link_shows p again) (use_link p kind now raw_token first db).1
        (consumed_leaves_none now later raw_token kind again (link_allows p kind)
          (link_apply p kind now first) (link_shows p kind) db r (tokens-link_apply kind now first)
          un h)
