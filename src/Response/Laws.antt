-- ===== src/Response/Laws.antt =====
-- The Content-Length header tells the length of the body.
use web_server_development.Prelude.{◌≡◌, refl, some, length}
use web_server_development.Text.{codes, equal}
use web_server_development.Text.Numbers.{to_string}
use web_server_development.StdMap.{find}
use web_server_development.StdMap.Laws.{find-assign}
use web_server_development.World.{World}
use web_server_development.Response.{
  Response, make_400_error, make_404_error, make_date_servername_headers,
}

-- The Content-Length header is there, and is the length of the body in decimal.
abbrev pub HasLength : Response → Type 0
HasLength r = find (codes "Content-Length") r.headers ≡ some (to_string (length r.body))

pub make_400_error-HasLength : (r : Response) → HasLength (make_400_error r)
unfolding make_400_error to_string equal
make_400_error-HasLength r = rw find-assign refl

pub make_404_error-HasLength : (w : World) (r : Response) → HasLength (make_404_error w r)
unfolding make_404_error equal
make_404_error-HasLength w r = rw find-assign refl

pub make_date_servername_headers-HasLength :
    (w : World) (r : Response) → HasLength r → HasLength (make_date_servername_headers w r)
unfolding make_date_servername_headers equal
make_date_servername_headers-HasLength w r h = rw (find-assign, find-assign) h
