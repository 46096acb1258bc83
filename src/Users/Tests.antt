-- ===== src/Users/Tests.antt =====
-- The theorems on staff accounts at small data.
use safeer_api.Common as Common
use safeer_api.Common.{◌≡◌, refl, none, some, [], ◌∷◌, true, false, arith, find, any, All, str_eq}
use safeer_api.Accounts.{
  AccountDb, User, PublicUser, to_public_user, is_brute_force_locked, disabled, has_id, is_disabled,
  is_open_session_of, is_unused_token_of, support, editor,
}
use safeer_api.Users.{UpdateUserInput, to_disabled, update, find_by_id}
use safeer_api.Users.Cover.{IsCovered}
use safeer_api.Users.Serve.{edit, delete, create, serve, serve-IsCovered}
use safeer_api.Users.Effects.{update-disables, update_frame, update-role_self}
use safeer_api.Samples.{ada, bob, accounts}

abbrev disable : UpdateUserInput
disable = record {
  name = none;
  email = none;
  role = none;
  status = some to_disabled;
  unlock = false;
}

abbrev demote : UpdateUserInput
demote = record { name = none; email = none; role = some editor; status = none; unlock = false }

accounts-IsCovered : IsCovered accounts
unfolding any
accounts-IsCovered = record {
  unique = ((omega arith, (omega arith, tt)), ((omega arith, tt), (tt, tt)));
  fresh = (omega arith, (omega arith, (omega arith, tt)));
  cover = refl;
}

-- Ada deletes Bob, invites Zoe, and may not disable herself: she is the last admin.
serve_example : IsCovered (
    serve str_eq (delete 5 1 2 2 ∷ create "zoe" "Zoe" support ∷ edit 6 1 1 1 disable ∷ []) accounts)
serve_example =
    serve-IsCovered str_eq (delete 5 1 2 2 ∷ create "zoe" "Zoe" support ∷ edit 6 1 1 1 disable ∷ [])
      accounts accounts-IsCovered

abbrev shown : PublicUser × PublicUser
unfolding to_public_user is_brute_force_locked
shown = (to_public_user 6 bob, to_public_user 6 (record bob { status = disabled }))

-- Ada disables Bob, who is signed in and has a reset link.
update-disables_example :
    (after : User) × (find (has_id 2) (update 6 1 2 2 disable accounts).1.users ≡ some after)
    × (is_disabled after.status ≡ true)
    × All (λ s. is_open_session_of 2 s ≡ false) (update 6 1 2 2 disable accounts).1.sessions
    × All (λ t. is_unused_token_of 2 t ≡ false) (update 6 1 2 2 disable accounts).1.tokens
unfolding update find_by_id shown Common.count_where find
update-disables_example = update-disables 6 1 2 2 disable accounts shown bob refl refl refl refl

-- Ada's row is the same after Bob's was disabled.
update_frame_example :
    find (has_id 1) (update 6 1 2 2 disable accounts).1.users ≡ find (has_id 1) accounts.users
update_frame_example = update_frame 6 1 2 2 1 disable accounts (omega arith)

-- Ada cannot make herself an editor.
update-role_self_example :
    (after : User) × (find (has_id 1) (update 6 1 1 1 demote accounts).1.users ≡ some after)
    × (after.role ≡ ada.role)
unfolding find
update-role_self_example = update-role_self 6 1 demote accounts ada refl

abbrev two_admins : AccountDb
two_admins = record accounts { users = ada ∷ record ada { id = 2 } ∷ [] }

-- Under another spelling of her id (01, which stands as 9) Ada changes her own role.
own_role :
    find (has_id 1) (update 6 1 9 1 demote two_admins).1.users ≡ some (record ada { role = editor })
unfolding update find_by_id find Common.count_where Common.update_where
own_role = refl
