-- ===== src/Server/Api/Seeding.antt =====
-- `seed_admin` and `current_user`: the token of the settings is the key of the local admin.
use broker_ai.Base.{
  ℕ, ◌≡◌, ◌⊎◌, inl, inr, refl, sym, ap, ◌∙◌, arith, Bool, true, false, not, ◌==◌, ◌&&◌, ◌||◌,
  if◌then◌else◌, Option, none, some, List, [], ◌∷◌, ◌++◌, any_of, Bool-cases, text_beq, Text,
  ==_iff, text_beq_iff,
}
use broker_ai.Base.Result.{Result, Error, ok, err, then_do, ok_inj}
use broker_ai.Domain.Text.{strip, lower}
use broker_ai.Server.Database.{
  Database, User, Role, first_where, update_where, find_user, insert_user, set_token_hash,
  seed_admin, seeded, local_admin,
}
use broker_ai.Server.Api.Access.{user_of, bearer}

-- Another user than the local admin has a token of this hash.
abbrev pub shares_token : Text → User → Bool
shares_token hash u = not (text_beq u.username local_admin) && text_beq hash u.token_hash

text_beq_self : (t : Text) → text_beq t t ≡ true
text_beq_self t = (text_beq_iff t t).1 refl

no_others :
    (b c rest : Bool) → b ≡ false → (not b && c) || rest ≡ false → (c ≡ false) × (rest ≡ false)
no_others b c rest h k = ground arith

same_id : (u admin : User) → some u ≡ some admin → u.id ≡ admin.id
same_id u admin e = cc

first_is :
    (b : Bool) (u admin : User) (rest : Option User)
    → (if b then some u else rest) ≡ some admin
    → u.id == admin.id ≡ false
    → (b ≡ false) × (rest ≡ some admin)
first_is true u admin rest found other = ground (arith, same_id u admin found, ==_iff u.id admin.id)
first_is false u admin rest found other = (refl, found)

-- The user with the new hash is the one whose row was updated.
by_hash :
    (hash : Text) (users : List User) (admin : User)
    → first_where (λ (u : User). text_beq u.username local_admin) users ≡ some admin
    → any_of (shares_token hash) users ≡ false
    → let after =
        update_where
          (λ (u : User). u.id == admin.id)
          (λ (u : User). record u { token_hash = hash })
          users in
      first_where (λ (u : User). text_beq hash u.token_hash) after
      ≡ first_where (λ (u : User). u.id == admin.id) after
by_hash hash [] admin found alone = cc
by_hash hash (u ∷ users) admin found alone = elim (Bool-cases (u.id == admin.id)) [
  | inl same ↦ rw (same, same, text_beq_self hash) refl
  | inr other ↦
      let (foreign, later) =
        first_is (text_beq u.username local_admin) u admin
          (first_where (λ (u : User). text_beq u.username local_admin) users) found other in
      let (differs, others) =
        no_others (text_beq u.username local_admin) (text_beq hash u.token_hash)
          (any_of (shares_token hash) users) foreign alone in
      rw (other, other, differs) (by_hash hash users admin later others)
]

-- In a table without a local admin, a new row is found by its hash and by its ID.
by_hash_new :
    (row : User) (users : List User)
    → any_of (λ (u : User). u.id == row.id || text_beq u.username local_admin) users ≡ false
    → any_of (shares_token row.token_hash) users ≡ false
    → (first_where (λ (u : User). text_beq row.token_hash u.token_hash) (users ++ (row ∷ []))
        ≡ some row)
      × (first_where (λ (u : User). u.id == row.id) (users ++ (row ∷ [])) ≡ some row)
by_hash_new row [] free alone =
    (rw (text_beq_self row.token_hash) refl, rw ((==_iff row.id row.id).1 refl) refl)
by_hash_new row (u ∷ users) free alone = ground (arith, by_hash_new row users)

insert_user-cases :
    (row : User) (db : Database)
    → (insert_user row db ≡ (err Error.integrity_failed, db))
      ⊎ ((any_of (λ (u : User). u.id == row.id || text_beq u.username row.username) db.users
            ≡ false)
          × (insert_user row db ≡ (ok tt, record db { users = db.users ++ (row ∷ []) })))
unfolding insert_user
insert_user-cases row db =
    elim (Bool-cases
      (any_of (λ (u : User). u.id == row.id || text_beq u.username row.username) db.users)) [
        | inl taken ↦ inl (rw taken refl)
        | inr free ↦ inr (free, rw free refl)
      ]

-- A token that `strip` leaves alone, of no other user: when `seed_admin` has returned a row, the
-- token with the scheme `bearer`, in any case of its letters, is accepted as that user's.
pub seed_admin-accepted :
    (sha256 : Text → Text) (token scheme : Text) (id now : ℕ) (db after : Database) (user : User)
    → seed_admin sha256 token id now db ≡ (ok (some user), after)
    → any_of (shares_token (sha256 token)) db.users ≡ false
    → strip token ≡ token
    → lower scheme ≡ bearer
    → user_of sha256 after.users (some (record { scheme = scheme; token = token })) ≡ ok user
unfolding seed_admin set_token_hash
seed_admin-accepted sha256 token scheme id now db after user done alone stripped scheme_is =
    go (first_where (λ (u : User). text_beq u.username local_admin) db.users) refl done
  where
    row : User
    row = record {
      id = id;
      username = local_admin;
      token_hash = sha256 token;
      role = Role.admin;
      created_at = now;
    }

    by_token : Text → Option User
    by_token t = first_where (λ (u : User). text_beq (sha256 t) u.token_hash) after.users

    read :
        (s t : Text)
        → s ≡ bearer
        → by_token t ≡ some user
        → (if not (text_beq s bearer)
            then err Error.no_credentials
            else (elim (by_token t) [ none ↦ err Error.invalid_token | some u ↦ ok u ]))
          ≡ ok user
    read s t is found = rw (is, found) refl

    accepted :
        by_token token ≡ some user
        → user_of sha256 after.users (some (record { scheme = scheme; token = token })) ≡ ok user
    accepted found = read (lower scheme) (strip token) scheme_is (ap by_token stripped ∙ found)

    -- What `seed_admin` ends with, and the row under the hash in its tables.
    returned :
        (db' : Database) (r : Option User)
        → ◌≡◌ {A = Result (Option User) × Database} (ok r, db') (ok (some user), after)
        → first_where (λ (u : User). text_beq (sha256 token) u.token_hash) db'.users ≡ r
        → by_token token ≡ some user
    returned db' r result same =
        sym (
          ap
            (λ (x : Result (Option User) × Database).
              first_where (λ (u : User). text_beq (sha256 token) u.token_hash) x.1.users)
            result)
        ∙ same
        ∙ ok_inj (ap (λ (x : Result (Option User) × Database). x.0) result)

    raised :
        ◌≡◌ {A = Result (Option User) × Database}
          (err Error.integrity_failed, db)
          (ok (some user), after)
        → by_token token ≡ some user
    raised e = cc (ap (λ (x : Result (Option User) × Database). x.0) e)

    insertion : Result (Unit {0}) × Database → Result (Option User) × Database
    insertion x = then_do x λ _ db'. (ok (find_user id db'), db')

    go :
        (admin : Option User)
        → first_where (λ (u : User). text_beq u.username local_admin) db.users ≡ admin
        → seeded admin row db ≡ (ok (some user), after)
        → user_of sha256 after.users (some (record { scheme = scheme; token = token })) ≡ ok user
    go (some admin) found result = accepted (
        returned (set_token_hash admin.id (sha256 token) db) _ result
          (by_hash (sha256 token) db.users admin found alone))
    go none found result = elim (insert_user-cases row db) [
      | inl failed ↦ accepted (raised (sym (ap insertion failed) ∙ result))
      | inr (free, done) ↦
          let (hashed, identified) = by_hash_new row db.users free alone in
          accepted (
            returned (record db { users = db.users ++ (row ∷ []) }) _
              (sym (ap insertion done) ∙ result) (hashed ∙ sym identified))
    ]
