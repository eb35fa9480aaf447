-- ===== src/Commands/Api.antt =====
-- cmd/api/main.go: the server from its start to its end.
use Prim.Native.String.{◌++◌}
use go_notes_api.Base.{
  ◌≡◌, ◌+◌, refl, ◌⊎◌, inl, inr, suc, List, ◌∷◌, Option, none, some, ok, err, Result, String, Call,
  on_result, arith,
}
use go_notes_api.Config.{Config}
use go_notes_api.Http.{Request}
use go_notes_api.Redis.{Redis, Options, options}
use go_notes_api.World.{World}
use go_notes_api.Connection.{Driver, Action, Pool, closed, open_and_migrate}
use go_notes_api.Connection.Pools.{opens, closes, open_and_migrate-pools}
use go_notes_api.Jwt.Keys.{load, load_from_env}
use go_notes_api.Commands.Ended.{Ended, finished, fatal, panicked}
use go_notes_api.Router.{Site, Moment, serve_all}

-- What the process has to do with: the state that the handlers share, and the actions on the pool.
pub record Process (S : Type 0) : Type 0 where
  pub world : World S
  pub actions : List Action

abbrev pool_of : {S : Type 0} → Process S → Pool
pool_of p = record { actions = p.actions; tables = p.world.db.tables }

abbrev with_pool : {S : Type 0} → Process S → Pool → Process S
with_pool p pool = record {
  world = record p.world { db = record p.world.db { tables = pool.tables } };
  actions = pool.actions;
}

-- server.New and what router reads: `outside` holds the database and the codecs, `new_client` is that of
-- go-redis, and jwtauth has loaded its keys from the environment.
unfoldable pub new_server :
    {F S : Type 0} → (String → String) → (Options → Redis S) → Site F S → Config F → Site F S
unfolding options
new_server getenv new_client outside cfg = record outside {
  redis = new_client (options cfg);
  cfg = cfg;
  auth_cfg = record {
    jwt_ttl = cfg.jwt_ttl;
    jwt_issuer = cfg.jwt_issuer;
    jwt_audience = cfg.jwt_audience;
    refresh_ttl = cfg.refresh_ttl;
  };
  provider = load_from_env getenv;
  loaded = load outside.any_of getenv;
}

module _ {F S : Type 0} (driver : Driver) (getenv : String → String)
    (new_client : Options → Redis S) (outside : Site F S) where
  -- From ListenAndServe on: the requests that are served until it fails with an error, or until a
  -- signal comes, after which Shutdown waits for those in flight and the deferred Close runs.
  -- log.Fatalf runs nothing that is deferred.
  unfoldable pub listen :
      Site F S → List (Moment × Request) → Option String → Call (Process S) Ended
  listen site rs failure p =
      let served = record p { world = serve_all site rs p.world } in
      elim failure [
        | some e ↦ (fatal ("http: " ++ e), served)
        | none ↦ (finished "stopped\n", record served { actions = closed ∷ p.actions })
      ]

  -- main, where `loaded` is what config.Load gives
  unfoldable pub main :
      Result String (Config F) → List (Moment × Request) → Option String → Call (Process S) Ended
  main (err message) rs failure p = (panicked message, p)
  main (ok cfg) rs failure p =
      let (opened, pool) = open_and_migrate driver cfg.db_dsn (pool_of p) in
      on_result opened (λ e. (fatal ("db: " ++ e), with_pool p pool))
        (λ _. listen (new_server getenv new_client outside cfg) rs failure (with_pool p pool))

  -- As many pools are left open as at the start.
  abbrev pub IsBalanced : Process S → Process S → Type 0
  IsBalanced p q = opens q.actions + closes p.actions ≡ opens p.actions + closes q.actions

  -- However the server ends, as many pools of connections are left open as before it started; or
  -- ListenAndServe has failed, the program ends by a message with its error, and exactly one more
  -- pool is left open.
  pub main-pools :
      (loaded : Result String (Config F)) (rs : List (Moment × Request)) (failure : Option String)
      (p : Process S)
      → IsBalanced p (main loaded rs failure p).1
        ⊎ ((e : String) × ((main loaded rs failure p).0 ≡ fatal ("http: " ++ e))
            × (failure ≡ some e)
            × (opens (main loaded rs failure p).1.actions + closes p.actions
                ≡ suc (opens p.actions + closes (main loaded rs failure p).1.actions)))
  unfolding main listen opens closes
  main-pools (err message) rs failure p = inl refl
  main-pools (ok cfg) rs none p = elim (open_and_migrate-pools driver cfg.db_dsn (pool_of p)) [
    | inl (up, opened, one_more) ↦ inl (ground arith)
    | inr (e, refused, none_left) ↦ inl (ground arith)
  ]
  main-pools (ok cfg) rs (some e) p = elim (open_and_migrate-pools driver cfg.db_dsn (pool_of p)) [
    | inl (up, opened, one_more) ↦ inr (e, ground arith, refl, ground arith)
    | inr (e', refused, none_left) ↦ inl (ground arith)
  ]
