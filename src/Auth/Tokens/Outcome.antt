-- ===== src/Auth/Tokens/Outcome.antt =====
-- What a link that was used leaves behind.
use safeer_api.Common.{
  ℕ, String, ◌≡◌, refl, subst, ◌⊎◌, inl, inr, none, some, true, false, arith, find, All,
  update_where, ok, err, problem, validation_failed, find_sound, All-delete_where,
  All-update_where_done, find-update_where_self,
}
use safeer_api.Accounts.{
  User, AccountDb, AuthToken, Purpose, invite as invitation, reset, has_id, PublicUser, is_active,
  delete_unused_tokens, is_unused_token_of, is_open_session_of, revoke, revoke_sessions,
}
use safeer_api.Auth.{Platform}
use safeer_api.Auth.Tokens.{
  is_redeemable, reset_password, accepted, with_new_password, use_link, link_allows, link_apply,
  link_shows,
}
use safeer_api.Auth.Tokens.Laws.{Consumed, consume_outcome, tokens-link_apply}

module _ (p : Platform) where
  -- what a link that was used leaves behind
  pub record Completed (kind : Purpose) (now : ℕ) (raw_token new_hash : String) (db db' : AccountDb)
      : Type 0 where
    pub token : AuthToken
    pub redeemed : find (is_redeemable p now raw_token kind) db.tokens ≡ some token
    pub user : User
    pub same_user : token.user_id ≡ user.id
    pub owner : find (has_id user.id) db.users ≡ some user
    pub allowed : link_allows p kind user.status ≡ true
    pub row : User
    pub stored : find (has_id user.id) db'.users ≡ some row
    pub active : is_active row.status ≡ true
    pub password : row.password_hash ≡ new_hash
    pub unlocked : (row.locked_until ≡ none) × (row.failed_logins ≡ 0) × (row.lock_count ≡ 0)
    pub no_link : All (λ t. is_unused_token_of user.id t ≡ false) db'.tokens

  completed_user : Purpose → String → User → User
  completed_user invitation new_hash u = accepted p new_hash u
  completed_user reset new_hash u = with_new_password p new_hash u

  users-link_apply :
      (kind : Purpose) (now : ℕ) (new_hash : String) (u : User) (d : AccountDb)
      → (link_apply p kind now new_hash u d).users
        ≡ update_where (has_id u.id) (completed_user kind new_hash) d.users
  unfolding link_apply completed_user
  users-link_apply invitation now new_hash u d = refl
  users-link_apply reset now new_hash u d = refl

  completed :
      (kind : Purpose) (now : ℕ) (raw_token new_hash : String) (db db' : AccountDb)
      → Consumed p now raw_token kind (link_allows p kind) (link_apply p kind now new_hash) db db'
      → Completed kind now raw_token new_hash db db'
  unfolding delete_unused_tokens completed_user
  completed kind now raw_token new_hash db db' c =
      let is_owner = find_sound (has_id c.token.user_id) db.users c.user c.owner in
      let same : c.token.user_id ≡ c.user.id = ground (arith, is_owner) in
      let owner : find (has_id c.user.id) db.users ≡ some c.user =
        subst (λ k. find (has_id k) db.users ≡ some c.user) same c.owner in
      record {
        token = c.token;
        redeemed = c.redeemed;
        user = c.user;
        same_user = same;
        owner = owner;
        allowed = c.status;
        row = completed_user kind new_hash c.user;
        stored =
            rw (c.stored, users-link_apply)
              (find-update_where_self (has_id c.user.id) (completed_user kind new_hash)
                (keeps_id kind) db.users c.user owner);
        active = is_active_row kind c.status;
        password = password_row kind;
        unlocked = unlocked_row kind;
        no_link =
            rw (c.stored, tokens-link_apply) (All-delete_where (is_unused_token_of c.user.id) _);
      }
    where
      keeps_id :
          (k : Purpose) (x : User)
          → has_id c.user.id x ≡ true
          → has_id c.user.id (completed_user k new_hash x) ≡ true
      keeps_id invitation x h = h
      keeps_id reset x h = h

      is_active_row :
          (k : Purpose)
          → link_allows p k c.user.status ≡ true
          → is_active (completed_user k new_hash c.user).status ≡ true
      is_active_row invitation h = refl
      is_active_row reset h = h

      password_row : (k : Purpose) → (completed_user k new_hash c.user).password_hash ≡ new_hash
      password_row invitation = refl
      password_row reset = refl

      unlocked_row :
          (k : Purpose)
          → ((completed_user k new_hash c.user).locked_until ≡ none)
            × ((completed_user k new_hash c.user).failed_logins ≡ 0)
            × ((completed_user k new_hash c.user).lock_count ≡ 0)
      unlocked_row invitation = (refl, refl, refl)
      unlocked_row reset = (refl, refl, refl)

  -- Using a link either is refused with 400 and changes nothing, or its token was unused and in time,
  -- and for an account of the right standing (invited for an invitation, active for a reset): its row is then active, with the new
  -- password, no lock and clear counters, and none of its other links is usable.
  pub use_link_outcome :
      (kind : Purpose) (now : ℕ) (raw_token new_hash : String) (db : AccountDb)
      → (use_link p kind now raw_token new_hash db ≡ (err (problem 400 validation_failed), db))
        ⊎ Completed kind now raw_token new_hash db (use_link p kind now raw_token new_hash db).1
  unfolding use_link
  use_link_outcome kind now raw_token new_hash db =
      elim (consume_outcome p now raw_token kind (link_allows p kind)
        (link_apply p kind now new_hash) (link_shows p kind) db) [
          | inr (refused, same) ↦ inl (λ i. (refused i, same i))
          | inl (c, _r) ↦ inr (completed kind now raw_token new_hash db _ c)
        ]

  -- A password reset that succeeds leaves no session of the account that the token is for unrevoked.
  pub reset_password-sessions :
      (now : ℕ) (raw_token new_hash : String) (db : AccountDb) (r : PublicUser)
      → (reset_password p now raw_token new_hash db).0 ≡ ok r
      → (t : AuthToken) × (find (is_redeemable p now raw_token reset) db.tokens ≡ some t)
        × All
            (λ s. is_open_session_of t.user_id s ≡ false)
            (reset_password p now raw_token new_hash db).1.sessions
  unfolding use_link link_apply revoke_sessions completed
  reset_password-sessions now raw_token new_hash db r h =
      elim (consume_outcome p now raw_token reset (link_allows p reset)
        (link_apply p reset now new_hash) (link_shows p reset) db) [
          | inr (refused, same) ↦ absurd (ground (arith, refused, h))
          | inl (c, _r) ↦ (
            c.token,
            c.redeemed,
            rw (c.stored, (completed reset now raw_token new_hash db _ c).same_user)
                (All-update_where_done (is_open_session_of c.user.id) (revoke now)
                  (λ s e. ground arith) _),
          )
        ]
