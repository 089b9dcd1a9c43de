-- ===== src/Handlers/Health.antt =====
-- src/health_request_handler.cc, src/not_found_request_handler.cc
use web_server_development.Prelude.{if◌then◌else◌, length}
use web_server_development.Text.{codes}
use web_server_development.Text.Numbers.{to_string}
use web_server_development.Request.{Request}
use web_server_development.Response.{
  Response, empty_response, okay, set_code, add_header, add_body, make_400_error, make_404_error,
  make_date_servername_headers,
}
use web_server_development.World.{World}
use web_server_development.Handlers.Echo.{is_invalid}

unfoldable pub handle_health : World → Request → Response
unfolding make_400_error make_date_servername_headers
handle_health w q =
    let found =
      add_header (codes "Content-Length") (to_string (length (codes "OK")))
        (add_body (codes "OK") (set_code okay empty_response)) in
    make_date_servername_headers w
      (if is_invalid q.method then make_400_error empty_response else found)

unfoldable pub handle_not_found : World → Request → Response
unfolding make_404_error
handle_not_found w q = make_404_error w empty_response
