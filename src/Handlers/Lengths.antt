-- ===== src/Handlers/Lengths.antt =====
-- Each handler's responses carry the length of their bodies.
use web_server_development.Prelude.{Bool, true, false, refl, if◌then◌else◌}
use web_server_development.Text.{equal}
use web_server_development.StdMap.Laws.{find-assign}
use web_server_development.Request.{Request}
use web_server_development.Response.{Response, empty_response, make_date_servername_headers}
use web_server_development.Response.Laws.{
  HasLength, make_400_error-HasLength, make_404_error-HasLength,
  make_date_servername_headers-HasLength,
}
use web_server_development.World.{World}
use web_server_development.Handlers.Echo.{handle_echo, is_invalid}
use web_server_development.Handlers.Health.{handle_health, handle_not_found}

branch-HasLength :
    (w : World) (b : Bool) (r r' : Response)
    → HasLength r
    → HasLength r'
    → HasLength (make_date_servername_headers w (if b then r else r'))
branch-HasLength w true r r' h h' = make_date_servername_headers-HasLength w r h
branch-HasLength w false r r' h h' = make_date_servername_headers-HasLength w r' h'

pub handle_echo-HasLength : (w : World) (q : Request) → HasLength (handle_echo w q)
unfolding handle_echo equal
handle_echo-HasLength w q =
    branch-HasLength w (is_invalid q.method) _ _ (make_400_error-HasLength empty_response)
      (rw find-assign refl)

pub handle_health-HasLength : (w : World) (q : Request) → HasLength (handle_health w q)
unfolding handle_health equal
handle_health-HasLength w q =
    branch-HasLength w (is_invalid q.method) _ _ (make_400_error-HasLength empty_response)
      (rw find-assign refl)

pub handle_not_found-HasLength : (w : World) (q : Request) → HasLength (handle_not_found w q)
unfolding handle_not_found
handle_not_found-HasLength w q = make_404_error-HasLength w empty_response
