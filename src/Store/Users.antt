-- ===== src/Store/Users.antt =====
-- store.go over queries/users.sql: the table of users.
use sharm.Common.{
  ℕ, ◌+◌, Bool, Option, none, some, List, [], ◌∷◌, ◌++◌, Text, ◌==◌, text_eq, nat_eq, any,
  if◌then◌else◌, length, ltb,
}
use sharm.Domain.{User}
use sharm.Domain.Errors.{not_found, constraint, Result, ok, err}
use sharm.Store.{Db, select_one, update_where}

-- SELECT COUNT(*) FROM users, and the test that it is above 0.
unfoldable pub has_user : Db → Bool
has_user db = ltb 0 (length db.users)

abbrev or_not_found : Option User → Result User
or_not_found none = err not_found
or_not_found (some u) = ok u

unfoldable pub get_user : Text → Db → Result User
get_user name db = or_not_found (select_one (λ (u : User). u.username == name) db.users)

abbrev head : List User → Option User
head [] = none
head (u ∷ us) = some u

unfoldable pub get_first_user : Db → Result User
get_first_user db = or_not_found (head db.users)

unfoldable pub get_user_by_id : ℕ → Db → Result User
get_user_by_id id db = or_not_found (select_one (λ (u : User). u.id == id) db.users)

-- CreateUser: the column `username` is unique.
unfoldable pub create_user : Text → Text → ℕ → Db → Result (Unit {0}) × Db
create_user name hash now db =
    let u : User = record {
      id = db.next_user;
      username = name;
      password_hash = hash;
      created_at = now;
      updated_at = now;
    } in
    if any (λ (v : User). v.username == name) db.users
    then (err constraint, db)
    else (ok tt, record db { users = db.users ++ (u ∷ []); next_user = db.next_user + 1 })

unfoldable pub set_password : Text → ℕ → User → User
set_password hash now u = record u { password_hash = hash; updated_at = now }

unfoldable pub update_password : ℕ → Text → ℕ → Db → Db
unfolding set_password
update_password id hash now db = record db {
  users = update_where (λ u. u.id == id) (set_password hash now) db.users;
}
