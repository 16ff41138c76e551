-- ===== src/Api/Users/Created.antt =====
-- A user that `createUser` (daemon/api/users.go) answers with is the one that `getUser` finds.
use lightscale.Prelude.{
  ℕ, zero, suc, ◌+◌, ◌<◌, ◌≤◌, ◌^◌, ◌≡◌, refl, inl, inr, String, false, ◌||◌, Option, none, some,
  List, [], ◌∷◌, ◌++◌, All, any, find_first, ◌==◌, nat_eq, string_eq, arith, Bool-cases, ==_of_eq,
}
use lightscale.Prelude.Result.{Result, ok, err}
use lightscale.Strconv.{itoa}
use lightscale.Strconv.Decimal.{parse_int-itoa}
use lightscale.Store.{User, Db, Store, Error, ChangeKind, with_tx, settle}
use lightscale.Store.Checks.{
  principal, Table, check_name_available, name_check, namespace_tables, check_ip_available,
  ip_check,
}
use lightscale.Store.Users
use lightscale.Store.Users.{
  CreateUserInput, user_of, with_user, insert_user, create_user_tx, incomplete, user_by_id,
}
use lightscale.Store.Outcomes.{Post, Post-query}
use lightscale.Api.{Config, Env, Response, Body, parse_id, answer, write_json}
use lightscale.Api.Wire.{CreateUserReq}
use lightscale.Store.Invariants.Always.{IsValid}
use lightscale.Api.Routes.Outcomes.{Refuses, error_status-le}
use lightscale.Api.Routes.Prepared.{prepare_user-Refuses}
use lightscale.Api.Users.{create_user, get_user, user_body, prepare_user, prepared}

parse_id-itoa : (n : ℕ) → 0 < n → n < 2 ^ 63 → parse_id (itoa n) ≡ some n
unfolding parse_id
parse_id-itoa zero low high = absurd (omega arith)
parse_id-itoa (suc n) low high = rw (parse_int-itoa (suc n) high) refl

-- The first row with the id of a new row is that row.
find_first-new :
    (u : User) (us : List User) (seq : ℕ)
    → All (λ (v : User). v.id ≤ seq) us
    → u.id ≡ seq + 1
    → find_first (λ v. v.id == u.id) (us ++ u ∷ []) ≡ some u
unfolding find_first
find_first-new u [] seq h next = rw (==_of_eq u.id u.id refl) refl
find_first-new u (v ∷ us) seq h next =
    let e : (v.id == u.id) ≡ false = ground (arith, h.0) in rw e (find_first-new u us seq h.1 next)

-- what a successful `CreateUser` returns and leaves
abbrev Stored : Db → User → Db → Type 0
Stored db u db' = (u.id ≡ db.users_seq + 1) × (db'.users ≡ db.users ++ u ∷ [])

module _ (db : Db) where
  insert_user-Stored :
      (input : CreateUserInput) (now : String) → Post (Stored db) (insert_user input now db)
  unfolding insert_user
  insert_user-Stored input now =
      elim (Bool-cases (
        any (λ v. v.name == input.name) db.users
        || any (λ v. v.ip_address == input.ip_address) db.users)) [
          | inl e ↦ rw e tt
          | inr e ↦ rw e (refl, refl)
        ]

  create_user_tx-Stored :
      (input : CreateUserInput) (now : String) → Post (Stored db) (create_user_tx input now db)
  unfolding create_user_tx check_name_available check_ip_available
  create_user_tx-Stored input now =
      Post-query (Stored db) db (name_check db (namespace_tables principal) input.name none 0) _
        (λ u e.
          Post-query (Stored db) db
            (ip_check db (Table.users ∷ Table.services ∷ []) input.ip_address none 0) _
            (λ v f. insert_user-Stored input now))

-- The user of the answer is found again in the store that is left.
abbrev Findable : Db → Result Error User × Store → Type 0
Findable db (ok u, s) = Stored db u s.db
Findable db (err e, s) = Unit

settle-Findable :
    (s : Store) (x : Result Error User × Db)
    → Post (Stored s.db) x
    → Findable s.db (settle s ChangeKind.users x)
unfolding settle
settle-Findable s (ok u, db) h = h
settle-Findable s (err e, db) h = tt

create_user-Findable :
    (input : CreateUserInput) (now : String) (s : Store)
    → Findable s.db (Users.create_user input now s)
unfolding Users.create_user with_tx
create_user-Findable input now s = elim (Bool-cases (incomplete input)) [
  | inl e ↦ rw e tt
  | inr e ↦
      rw e
        (settle-Findable s (create_user_tx input now s.db) (create_user_tx-Stored s.db input now))
]

-- what `getUser` answers for the user of an answer
abbrev Gets : Body → Store → Type 0
Gets (Body.user dto) s = get_user (itoa dto.id) s ≡ (write_json 200 (Body.user dto), s)
Gets _ s = ⊥

-- A user is answered with status 201, and `getUser` finds it.
abbrev pub GetsBack : Response × Store → Type 0
GetsBack (resp, s) = resp.status ≡ 201 → Gets resp.body s

answer-GetsBack :
    (db : Db) (out : Result Error User × Store)
    → All (λ (v : User). v.id ≤ db.users_seq) db.users
    → db.users_seq + 1 < 2 ^ 63
    → Findable db out
    → GetsBack (answer 201 user_body out)
unfolding get_user Users.get_user user_by_id find_first
answer-GetsBack db (ok u, s) numbered room (next, rows) created =
    let id = parse_id-itoa u.id (omega (arith, next)) (omega (arith, next)) in
    let found : find_first (λ v. v.id == u.id) s.db.users ≡ some u =
      rw rows (find_first-new u db.users db.users_seq numbered next) in
    rw (id, found) refl
answer-GetsBack db (err e, s) numbered room h created =
    absurd (omega (arith, error_status-le e, created))

-- If ids are left, a user that `createUser` answers with is answered again by `getUser` at the id
-- that is in the answer, written in base 10: the same user, key and address included.
pub get_user-create_user :
    (cfg : Config) (env : Env) (body : Option CreateUserReq) (s : Store)
    → IsValid s.db
    → s.db.users_seq + 1 < 2 ^ 63
    → GetsBack (create_user cfg env body s)
unfolding create_user
get_user-create_user cfg env none s v room created = absurd (omega (arith, created))
get_user-create_user cfg env (some req) s v room created =
    either (prepare_user cfg env s req) (prepare_user-Refuses cfg env s req) created
  where
    either :
        (m : Result Response CreateUserInput)
        → Refuses m
        → GetsBack
            (prepared m (λ input s'. answer 201 user_body (Users.create_user input env.now s')) s)
    either (ok input) h created =
        answer-GetsBack s.db (Users.create_user input env.now s) v.ids.0.1 room
          (create_user-Findable input env.now s) created
    either (err r) h created = absurd (omega (arith, h, created))
