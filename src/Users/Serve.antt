-- ===== src/Users/Serve.antt =====
-- Sequences of staff requests: an active admin always remains.
use safeer_api.Common.{ℕ, String, refl, List, [], ◌∷◌, Bool, arith}
use safeer_api.Accounts.{UserRole, AccountDb}
use safeer_api.Users.{UpdateUserInput, create_invited_user, update, invited_user, remove}
use safeer_api.Users.Cover.{IsCovered, update-IsCovered, remove-IsCovered, append_invited-IsCovered}

-- a request of a signed-in admin (`actor`), or the invitation of a new account
pub data StaffRequest : Type 0 where
  edit : (now actor text i : ℕ) → UpdateUserInput → StaffRequest
  delete : (now actor text i : ℕ) → StaffRequest
  create : (email name : String) → UserRole → StaffRequest

module _ (same_email : String → String → Bool) where
  create_invited_user-IsCovered :
      (email name : String) (role : UserRole) (db : AccountDb)
      → IsCovered db
      → IsCovered (create_invited_user same_email email name role db).1
  unfolding create_invited_user
  create_invited_user-IsCovered email name role db c =
      ground
        (arith, c, append_invited-IsCovered (invited_user db.next_id email name role) db refl c)

  -- the state that a request leaves, whether it succeeds or is refused
  pub serve_one : StaffRequest → AccountDb → AccountDb
  serve_one (edit now actor text i input) db = (update now actor text i input db).1
  serve_one (delete now actor text i) db = (remove now actor text i db).1
  serve_one (create email name role) db = (create_invited_user same_email email name role db).1

  pub serve : List StaffRequest → AccountDb → AccountDb
  serve [] db = db
  serve (r ∷ rs) db = serve rs (serve_one r db)

  serve_one-IsCovered :
      (r : StaffRequest) (db : AccountDb) → IsCovered db → IsCovered (serve_one r db)
  unfolding serve_one
  serve_one-IsCovered (edit now actor text i input) db c =
      update-IsCovered now actor text i input db c
  serve_one-IsCovered (delete now actor text i) db c = remove-IsCovered now actor text i db c
  serve_one-IsCovered (create email name role) db c =
      create_invited_user-IsCovered email name role db c

  -- From a state in which some active admin exists, row ids are unique and below the next one,
  -- every sequence of edits, deletions and invitations, refused or not and by whomever, leads to
  -- such a state: an active admin always remains.
  pub serve-IsCovered :
      (rs : List StaffRequest) (db : AccountDb) → IsCovered db → IsCovered (serve rs db)
  unfolding serve
  serve-IsCovered [] db c = c
  serve-IsCovered (r ∷ rs) db c = serve-IsCovered rs (serve_one r db) (serve_one-IsCovered r db c)
