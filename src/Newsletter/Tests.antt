-- ===== src/Newsletter/Tests.antt =====
-- The theorems on the newsletter at small data.
use safeer_api.Common.{ℕ, ◌+◌, ◌≡◌, refl, none, some, [], ◌∷◌, true, ltb, leb, str_eq}
use safeer_api.Contact.{en}
use safeer_api.Newsletter.{
  TokenPlatform, NewsletterDb, confirm, unsubscribe, confirm_ttl, issue_newsletter_token,
  verify_newsletter_token,
}
use safeer_api.Newsletter.Token.{IsExact, has_no_dot, verify-issue_newsletter_token}
use safeer_api.Newsletter.OptIn.{
  sign_up, follow_confirm, follow_unsubscribe, Inactive, serve_all_newsletter,
  serve_all_newsletter-Inactive,
}

-- a platform whose texts are right for the links that are issued at the time 5
abbrev platform : TokenPlatform
platform = record {
  Num = ℕ;
  time = λ t. t;
  shown = λ _. "604800005";
  number = λ _. some (5 + confirm_ttl);
  is_past = λ now n. ltb n now;
  hmac = λ s. s;
  normalize = λ s. s;
  encode_uri = λ s. s;
  base_url = "https://safeer.example";
  same_text = str_eq;
}

platform-IsExact : IsExact platform (5 + confirm_ttl)
unfolding has_no_dot
platform-IsExact = record {
  digits = refl;
  not_empty = refl;
  read_back = refl;
  compared = λ now. refl;
}

verify-issue_newsletter_token_example :
    (verify_newsletter_token platform confirm "a@b.c"
        (issue_newsletter_token platform confirm "a@b.c" 5)
        9
      ≡ leb 9 (5 + confirm_ttl))
    × (verify_newsletter_token platform unsubscribe "a@b.c"
          (issue_newsletter_token platform unsubscribe "a@b.c" 5)
          9
        ≡ true)
verify-issue_newsletter_token_example =
    verify-issue_newsletter_token platform "a@b.c" 5 9 platform-IsExact

-- a subscriber who left
abbrev table : NewsletterDb
table = record {
  subscribers =
      record {
        id = 1;
        email = "a@b.c";
        locale = en;
        confirmed_at = some 2;
        ip_hash = none;
        unsubscribed_at = some 3;
      }
      ∷ [];
  next_id = 2;
  outbox = [];
}

-- The address signs up again, and somebody tries a token of their own and the link of another address.
serve_all_newsletter-Inactive_example : Inactive "a@b.c" (
    serve_all_newsletter platform
      (sign_up 9000 (record { email = "a@b.c"; website = none; form_rendered_at = 1 }) none en
        ∷ follow_confirm 9001 "a@b.c" "604800005.x"
        ∷ follow_confirm 9002 "d@e.f" "604800005.confirm|d@e.f|604800005"
        ∷ follow_unsubscribe 9003 "a@b.c" "x"
        ∷ [])
      table)
unfolding verify_newsletter_token
serve_all_newsletter-Inactive_example =
    serve_all_newsletter-Inactive platform "a@b.c"
      (sign_up 9000 (record { email = "a@b.c"; website = none; form_rendered_at = 1 }) none en
        ∷ follow_confirm 9001 "a@b.c" "604800005.x"
        ∷ follow_confirm 9002 "d@e.f" "604800005.confirm|d@e.f|604800005"
        ∷ follow_unsubscribe 9003 "a@b.c" "x"
        ∷ [])
      table (tt, (refl, (refl, (tt, tt)))) (refl, tt)
