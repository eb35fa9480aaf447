-- ===== src/Middleware/Allow.antt =====
-- internal/middleware/allowlist.go: a handler for the addresses of one network.
use go_notes_api.Base.{none, some, String, pure, if◌then◌else◌}
use go_notes_api.Http.{Handler, http_error}
use go_notes_api.Net.{Net}

module _ (net : Net) where
  open net use {split_host, parse_ip, parse_cidr}

  -- AllowCIDR; a text that does not parse switches the check off
  unfoldable pub allow_cidr : {S : Type 0} → String → Handler S → Handler S
  allow_cidr cidr next_handler r = elim (parse_cidr cidr) [
    | none ↦ next_handler r
    | some network ↦ elim (parse_ip (split_host r.remote_addr)) [
      | none ↦ pure (http_error "forbidden" 403)
      | some ip ↦ if network ip then next_handler r else pure (http_error "forbidden" 403)
    ]
  ]
