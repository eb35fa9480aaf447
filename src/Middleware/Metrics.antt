-- ===== src/Middleware/Metrics.antt =====
-- internal/metrics/metrics.go, MW: one observation for each request. `took` is the time that the
-- request has taken, in nanoseconds.
use go_notes_api.Base.{◌∷◌}
use go_notes_api.Base.Int.{ℤ}
use go_notes_api.Http.{Handler}
use go_notes_api.World.{World, observation}

-- Registry.MW; the status of a Response is the one that statusWrap keeps
unfoldable pub observe : {S : Type 0} → ℤ → Handler (World S) → Handler (World S)
observe took next_handler r w =
    let (res, after) = next_handler r w in
    (
      res,
      record after {
        observed =
            observation
              (record { route = r.path; method = r.method; status = res.status; took = took })
            ∷ after.observed;
      },
    )
