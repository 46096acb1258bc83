-- ===== src/Contact.antt =====
-- What the public forms share: the test for bots of src/contact/contact.service.ts, and the links of
-- mails, src/common/links/frontend-url.ts.
use safeer_api.Common.{
  ℕ, ◌-◌, ◌*◌, String, Option, none, some, Bool, false, not, ◌&&◌, ◌||◌, ltb, leb, str_eq,
  if◌then◌else◌,
}
use Prim.Native.String.{◌++◌}

pub data Locale : Type 0 where
  ar en : Locale

abbrev pub min_form_seconds : ℕ
min_form_seconds = 3

-- a text that is there and not empty
abbrev pub is_given : Option String → Bool
is_given none = false
is_given (some s) = not (str_eq s "")

-- A hidden field that is filled, or a form sent within three seconds. A form from the future is not
-- sent too fast.
unfoldable pub is_honeypot_tripped : Option String → ℕ → ℕ → Bool
is_honeypot_tripped website form_rendered_at now =
    is_given website
    || (leb form_rendered_at now && ltb (now - form_rendered_at) (min_form_seconds * 1000))

abbrev pub locale_code : Locale → String
locale_code ar = "ar"
locale_code en = "en"

-- path.replace(/^\/+/, '')
unfoldable pub clean_path : String → String
clean_path String.[] = ""
clean_path (String.◌∷◌ c s) =
    let rest = clean_path s in if str_eq (String.◌∷◌ c "") "/" then rest else String.◌∷◌ c s

unfoldable pub frontend_url : String → Locale → String → String
unfolding clean_path
frontend_url base locale path = base ++ "/" ++ locale_code locale ++ "/" ++ clean_path path
