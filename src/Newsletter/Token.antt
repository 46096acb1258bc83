-- ===== src/Newsletter/Token.antt =====
-- A signed link is accepted for as long as it lasts.
use Prim.Native.String.{◌++◌}
use text.Mathlib.TextLemmas.{cons-append, nil-append}
use safeer_api.Common.{
  ℕ, ◌+◌, ◌≡◌, refl, String, none, some, Bool, true, false, not, ◌&&◌, arith, str_eq, eq_refl, leb,
  ltb,
}
use safeer_api.Newsletter.{
  TokenPlatform, confirm, unsubscribe, confirm_ttl, split_dot, sign, issue_newsletter_token,
  verify_newsletter_token, verify_parts,
}

-- no character of the text is a dot
unfoldable pub has_no_dot : String → Bool
has_no_dot String.[] = true
has_no_dot (String.◌∷◌ c s) = not (str_eq (String.◌∷◌ c "") ".") && has_no_dot s

split_dot-append : (s t : String) → has_no_dot s ≡ true → split_dot (s ++ ("." ++ t)) ≡ some (s, t)
unfolding split_dot has_no_dot
split_dot-append String.[] t h = rw (nil-append ("." ++ t), cons-append "." "" t, nil-append t) refl
split_dot-append (String.◌∷◌ c s) t h =
    rw (cons-append c s ("." ++ t), split_dot-append s t (ground (arith, h))) (ground (arith, h))

-- what a platform does with the number of the time `t`: its text is that of a whole number, which is
-- read back, and times are compared as numbers
pub record IsExact (js : TokenPlatform) (t : ℕ) : Type 0 where
  pub digits : has_no_dot (js.shown (js.time t)) ≡ true
  pub not_empty : str_eq (js.shown (js.time t)) "" ≡ false
  pub read_back : js.number (js.shown (js.time t)) ≡ some (js.time t)
  pub compared : (now : ℕ) → js.is_past now (js.time t) ≡ ltb t now

-- A confirmation link that is issued for an address at `now` is accepted for that address until seven
-- days later, and not after; a link to unsubscribe is always accepted. The platform shows and reads
-- the time at which the link expires exactly.
pub verify-issue_newsletter_token :
    (js : TokenPlatform) (email : String) (now later : ℕ)
    → IsExact js (now + confirm_ttl)
    → (verify_newsletter_token js confirm email (issue_newsletter_token js confirm email now) later
        ≡ leb later (now + confirm_ttl))
      × (verify_newsletter_token js unsubscribe email
            (issue_newsletter_token js unsubscribe email now)
            later
          ≡ true)
unfolding verify_newsletter_token issue_newsletter_token
verify-issue_newsletter_token js email now later exact =
    (confirmed, eq_refl (sign js unsubscribe email none))
  where
    t : ℕ
    t = now + confirm_ttl

    sig : String
    sig = sign js confirm email (some (js.time t))

    leb_not : leb later t ≡ not (ltb t later)
    leb_not = ground arith

    confirmed :
        verify_parts js later email (split_dot (js.shown (js.time t) ++ ("." ++ sig))) ≡ leb later t
    confirmed =
        rw
          (
            split_dot-append (js.shown (js.time t)) sig exact.digits,
            exact.not_empty,
            exact.read_back,
            exact.compared later,
            eq_refl sig,
          )
          (ground arith)
