-- ===== src/Middleware/Logger.antt =====
-- internal/middleware/logger.go: a record of the log for each request. `dur` is the time that the
-- request has taken, in nanoseconds, before Duration.String prints it.
use go_notes_api.Base.{◌∷◌}
use go_notes_api.Base.Int.{ℤ}
use go_notes_api.Http.{Handler}
use go_notes_api.World.{World, http_line}

-- Logger(l); the status of a Response is the one that statusWriter keeps
unfoldable pub log_request : {S : Type 0} → ℤ → Handler (World S) → Handler (World S)
log_request dur next_handler r w =
    let (res, after) = next_handler r w in
    (
      res,
      record after {
        observed =
            http_line (record {
              rid = r.header "X-Request-ID";
              method = r.method;
              path = r.path;
              ip = r.remote_addr;
              status = res.status;
              dur = dur;
              bytes = r.content_length;
            })
            ∷ after.observed;
      },
    )
