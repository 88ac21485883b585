-- ===== src/Server/Api/Routes.antt =====
-- What a request can do to the tables, and who can do it.
use broker_ai.Base.{suc, ◌≡◌, ◌⊎◌, inl, inr, refl, sym, ap, ◌∙◌, subst, Text}
use broker_ai.Base.Result.{Result, ok, err, Action, then_do}
use broker_ai.Server.RateLimiter.{RateLimiter, check}
use broker_ai.Server.Database.{Database, User, Role}
use broker_ai.Server.Api.Proposals.{create_bot, propose, decide, Draw}
use broker_ai.Server.Api.Access.{
  Api, Request, host_key, Endpoint, Body, user_of, current_user, require_admin, as_user, as_admin,
  on_database, route, observe, count_error,
}
use broker_ai.Server.Api.Lifecycle.{Moves, stay, create_bot-Moves, propose-Moves, decide-Moves}

-- The change of the tables that an endpoint makes for a user.
abbrev pub effect : Endpoint → User → Draw → Database → Database
effect (Endpoint.post_bot payload) user draw db = (create_bot payload user draw db).1
effect (Endpoint.post_proposal payload) user draw db = (propose payload user draw db).1
effect (Endpoint.post_decision id decision) user draw db = (decide id decision user draw db).1
effect _ user draw db = db

module _ (sha256 : Text → Text) where
  -- The tables are as they were, or an admin whose token was given has made the endpoint's change.
  abbrev pub Allowed : Request → Database → Database → Type 0
  Allowed request before after =
      (after ≡ before)
      ⊎ ((user : User) × (user_of sha256 before.users request.credentials ≡ ok user)
          × (user.role ≡ Role.admin)
          × (after ≡ effect request.endpoint user request.draw before))

  -- A call after `current_user`, which leaves the tables alone.
  as_user-keeps :
      (Q : Database → Type 0) (request : Request) (f : User → Action Api Body) (api : Api)
      → Q api.database
      → ((user : User) (s : Api)
          → s.database ≡ api.database
          → user_of sha256 api.database.users request.credentials ≡ ok user
          → Q (f user s).1.database)
      → Q (as_user sha256 request f api).1.database
  unfolding current_user
  as_user-keeps Q request f api same run =
      let (passed, limiter) = check (host_key request.client_host) request.at api.limiter in
      limited passed limiter
    where
      known :
          (limiter : RateLimiter) (r : Result User)
          → user_of sha256 api.database.users request.credentials ≡ r
          → Q (then_do (r, record api { limiter = limiter }) f).1.database
      known limiter (err e) found = same
      known limiter (ok user) found = run user (record api { limiter = limiter }) refl found

      limited :
          (passed : Result (Unit {0})) (limiter : RateLimiter)
          → Q
              (then_do
                (then_do
                  (passed, record api { limiter = limiter })
                  λ _ s. (user_of sha256 s.database.users request.credentials, s))
                f).1.database
      limited (err e) limiter = same
      limited (ok _) limiter =
          known limiter (user_of sha256 api.database.users request.credentials) refl

  on_database-state :
      {A : Type 0} (body : A → Body) (m : Action Database A) (s : Api)
      → (on_database sha256 body m s).1.database ≡ (m s.database).1
  on_database-state {A} body m s = go (m s.database)
    where
      go :
          (x : Result A × Database)
          → (then_do (x.0, record s { database = x.1 }) λ a t. (ok (body a), t)).1.database ≡ x.1
      go (ok a, db) = refl
      go (err e, db) = refl

  as_admin-Allowed :
      {A : Type 0} (request : Request) (body : A → Body) (m : User → Action Database A) (api : Api)
      → ((user : User)
          → (m user api.database).1 ≡ effect request.endpoint user request.draw api.database)
      → Allowed request api.database
          (as_admin sha256 request (λ user. on_database sha256 body (m user)) api).1.database
  as_admin-Allowed request body m api made =
      as_user-keeps (Allowed request api.database) request _ api (inl refl)
        (λ user s same found. by_role user s same found user.role refl)
    where
      by_role :
          (user : User) (s : Api)
          → s.database ≡ api.database
          → user_of sha256 api.database.users request.credentials ≡ ok user
          → (role : Role) → user.role ≡ role
          → Allowed request api.database
              (then_do
                (require_admin sha256 role, s)
                λ _. on_database sha256 body (m user)).1.database
      by_role user s same found Role.viewer is = inl same
      by_role user s same found Role.admin is = inr (
        user,
        found,
        is,
        on_database-state body (m user) s ∙ ap (λ (db : Database). (m user db).1) same ∙ made user,
      )

  reads-Allowed :
      (request : Request) (f : Api → Body) (api : Api)
      → Allowed request api.database (as_user sha256 request (λ _ s. (ok (f s), s)) api).1.database
  reads-Allowed request f api =
      as_user-keeps (Allowed request api.database) request _ api (inl refl)
        (λ user s same found. inl same)

  route-Allowed :
      (request : Request) (e : Endpoint) (api : Api)
      → request.endpoint ≡ e
      → Allowed request api.database (route sha256 e request api).1.database
  unfolding route
  route-Allowed request Endpoint.health api is = inl refl
  route-Allowed request Endpoint.metrics api is = reads-Allowed request _ api
  route-Allowed request Endpoint.api_status api is = reads-Allowed request _ api
  route-Allowed request Endpoint.list_bots api is = reads-Allowed request _ api
  route-Allowed request Endpoint.list_proposals api is = reads-Allowed request _ api
  route-Allowed request Endpoint.audit_logs api is = reads-Allowed request _ api
  route-Allowed request Endpoint.broker_orders api is = reads-Allowed request _ api
  route-Allowed request Endpoint.broker_positions api is = reads-Allowed request _ api
  route-Allowed request Endpoint.broker_sync_runs api is = reads-Allowed request _ api
  route-Allowed request (Endpoint.post_bot payload) api is =
      as_admin-Allowed request Body.bot (λ user. create_bot payload user request.draw) api
        (λ user. ap (λ e. effect e user request.draw api.database) (sym is))
  route-Allowed request (Endpoint.post_proposal payload) api is =
      as_admin-Allowed request Body.proposal (λ user. propose payload user request.draw) api
        (λ user. ap (λ e. effect e user request.draw api.database) (sym is))
  route-Allowed request (Endpoint.post_decision id decision) api is =
      as_admin-Allowed request Body.proposal (λ user. decide id decision user request.draw) api
        (λ user. ap (λ e. effect e user request.draw api.database) (sym is))

  count_error-database : (x : Result Body × Api) → (count_error sha256 x).1.database ≡ x.1.database
  count_error-database (ok body, s) = refl
  count_error-database (err e, s) = refl

  -- A request leaves the tables as they were, unless a token was given that belongs to an admin; then
  -- they are as they were, or changed as the endpoint changes them for that admin.
  pub observe-Allowed :
      (request : Request) (api : Api)
      → Allowed request api.database (observe sha256 request api).1.database
  unfolding observe
  observe-Allowed request api =
      let counted = record api { requests = suc api.requests } in
      subst (Allowed request api.database)
        (sym (count_error-database (route sha256 request.endpoint request counted)))
        (route-Allowed request request.endpoint counted refl)

  effect-Moves :
      (e : Endpoint) (user : User) (draw : Draw) (db : Database) → Moves db (effect e user draw db)
  effect-Moves (Endpoint.post_bot payload) user draw db = create_bot-Moves payload user draw db
  effect-Moves (Endpoint.post_proposal payload) user draw db = propose-Moves payload user draw db
  effect-Moves (Endpoint.post_decision id d) user draw db = decide-Moves id d user draw db
  effect-Moves _ user draw db = λ id. stay

  -- Every request, by whomever and however it ends, moves the status of each proposal along the
  -- diagram `Step`, or leaves it.
  pub observe-Moves :
      (request : Request) (api : Api) → Moves api.database (observe sha256 request api).1.database
  observe-Moves request api = elim (observe-Allowed request api) [
    | inl same ↦ subst (Moves api.database) (sym same) (λ id. stay)
    | inr (user, _, _, made) ↦
        subst (Moves api.database) (sym made)
          (effect-Moves request.endpoint user request.draw api.database)
  ]
