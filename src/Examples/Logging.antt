-- ===== src/Examples/Logging.antt =====
-- A response that leaves the server.
use soffortmcp.Prelude.{true, some, [], ◌∷◌, ok, refl, All, codes, codes_eq, arith, all}
use soffortmcp.Logging.{Scope, response_start, response_body, serve, Bytes}
use soffortmcp.Logging.Headers.{IsGuarded, IsIdentifier, serve-IsGuarded}

abbrev scope : Scope
scope = record {
  is_http = true;
  headers = (codes "X-Request-Id", codes "abc123") ∷ [];
  scheme = some "https";
  method = "POST";
  path = "/mcp";
}

abbrev new_id : Bytes
new_id = codes "0f"

new_id-IsIdentifier : IsIdentifier new_id
unfolding all
new_id-IsIdentifier = record { some_byte = refl; alphanumeric = refl; short = omega arith }

serve-IsGuarded_example :
    (id : Bytes) × IsIdentifier id
    × All
        (IsGuarded id)
        (serve scope new_id
          (response_start 200 ((codes "Cache-Control", codes "public") ∷ [])
            ∷ response_body []
            ∷ [])
          (ok tt)).0.0
serve-IsGuarded_example =
    serve-IsGuarded scope new_id
      (response_start 200 ((codes "Cache-Control", codes "public") ∷ []) ∷ response_body [] ∷ [])
      (ok tt) refl new_id-IsIdentifier
