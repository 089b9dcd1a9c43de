-- ===== src/Handlers/Serving.antt =====
-- What the static handler answers, on every path.
use web_server_development.Prelude.{
  ℕ, [], ◌∷◌, ◌++◌, none, some, ◌≡◌, refl, ok, Option-cases, inl, inr, length, append-nil, ap, ◌∙◌,
  sym, subst, ok-injective,
}
use web_server_development.Text.{Bytes, codes, equal}
use web_server_development.Text.Numbers.{to_string}
use web_server_development.Text.Search.{
  rfind_text, SplitsAt, rfind_text-SplitsAt, substr_from-behind, substr_from-occurrence,
}
use web_server_development.StdMap.{find, assign}
use web_server_development.StdMap.Laws.{find-assign}
use web_server_development.Request.{Request}
use web_server_development.Response.{
  Response, empty_response, okay, set_code, add_header, add_body, make_404_error,
  make_date_servername_headers,
}
use web_server_development.Response.Laws.{
  HasLength, make_404_error-HasLength, make_date_servername_headers-HasLength,
}
use web_server_development.World.{World}
use web_server_development.Handlers.Static.{
  StaticHandler, get_file_name, extension, extension_to_type, file_to_body, handle_static,
}

abbrev pub not_found_response : World → Response
not_found_response w = make_404_error w empty_response

-- The response with the content of a file
pub record CarriesFile (w : World) (path content : Bytes) (r : Response) : Type 0 where
  pub ext : Bytes
  pub extension_is : extension path ≡ ok ext
  pub code_is : r.code ≡ okay
  pub body_is : r.body ≡ content
  pub type_is : find (codes "Content-Type") r.headers ≡ some (extension_to_type ext)
  pub length_is : HasLength r

-- What the handler does with a uri, by its part `name` behind the last occurrence of the prefix
pub data Served (w : World) (h : StaticHandler) (uri : Bytes) (r : Response) : Type 0 where
  foreign : rfind_text h.prefix uri ≡ none → r ≡ not_found_response w → Served w h uri r
  nameless :
      (front : Bytes)
      → uri ≡ front ++ h.prefix
      → rfind_text h.prefix uri ≡ some (length front)
      → r ≡ not_found_response w
      → Served w h uri r
  missing :
      (front name : Bytes)
      → uri ≡ front ++ (h.prefix ++ name)
      → rfind_text h.prefix uri ≡ some (length front)
      → w.file (h.root ++ name) ≡ none
      → r ≡ not_found_response w
      → Served w h uri r
  served :
      (front name content : Bytes)
      → uri ≡ front ++ (h.prefix ++ name)
      → rfind_text h.prefix uri ≡ some (length front)
      → w.file (h.root ++ name) ≡ some content
      → CarriesFile w (h.root ++ name) content r
      → Served w h uri r

extension_total : (path : Bytes) → (ext : Bytes) × (extension path ≡ ok ext)
unfolding extension
extension_total path = elim (Option-cases (rfind_text (codes ".") path)) [
  | inl none_found ↦ ([], rw (none_found, extension))
  | inr (i, found) ↦
      let at = rfind_text-SplitsAt (codes ".") path found in
      (codes "." ++ at.behind, rw (found, extension) (substr_from-occurrence (codes ".") path at))
]

file_to_body-none :
    (w : World) (path : Bytes) (r : Response) → w.file path ≡ none → file_to_body w path r ≡ ok none
unfolding file_to_body
file_to_body-none w path r e = rw (e, file_to_body)

-- The response that is sent for a file
abbrev file_response : World → Bytes → Bytes → Response
file_response w content ext = make_date_servername_headers w (
    add_header (codes "Content-Length") (to_string (length content)) (
      add_header (codes "Content-Type") (extension_to_type ext)
        (add_body content (set_code okay empty_response))))

file_response-CarriesFile :
    (w : World) (path content ext : Bytes)
    → extension path ≡ ok ext
    → CarriesFile w path content (file_response w content ext)
unfolding make_date_servername_headers equal assign
file_response-CarriesFile w path content ext e = record {
  ext = ext;
  extension_is = e;
  code_is = refl;
  body_is = refl;
  type_is = rw (find-assign, find-assign, find-assign, find-assign) refl;
  length_is =
      make_date_servername_headers-HasLength w
        (add_header (codes "Content-Length") (to_string (length content)) (record {
          code = okay;
          headers = (codes "Content-Type", extension_to_type ext) ∷ [];
          body = content;
        }))
        (rw find-assign refl);
}

module _ (w : World) (h : StaticHandler) (q : Request) where
  get_file_name_foreign : rfind_text h.prefix q.uri ≡ none → get_file_name h q.uri ≡ ok []
  unfolding get_file_name
  get_file_name_foreign e = rw (e, get_file_name)

  handle_nameless : get_file_name h q.uri ≡ ok [] → handle_static w h q ≡ ok (not_found_response w)
  unfolding handle_static
  handle_nameless e = rw (e, handle_static)

  handle_missing :
      (c : ℕ) (name : Bytes)
      → get_file_name h q.uri ≡ ok (c ∷ name)
      → w.file (h.root ++ c ∷ name) ≡ none
      → handle_static w h q ≡ ok (not_found_response w)
  unfolding handle_static
  handle_missing c name e f = rw (e, handle_static) (rw (f, file_to_body))

  handle_found :
      (c : ℕ) (name content ext : Bytes)
      → get_file_name h q.uri ≡ ok (c ∷ name)
      → w.file (h.root ++ c ∷ name) ≡ some content
      → extension (h.root ++ c ∷ name) ≡ ok ext
      → handle_static w h q ≡ ok (file_response w content ext)
  unfolding handle_static
  handle_found c name content ext e f x = rw (e, handle_static) (rw (f, file_to_body) (rw x))

  get_file_name-behind :
      {i : ℕ} (at : SplitsAt h.prefix q.uri i)
      → rfind_text h.prefix q.uri ≡ some i
      → get_file_name h q.uri ≡ ok at.behind
  unfolding get_file_name
  get_file_name-behind at e = rw (e, get_file_name) (substr_from-behind h.prefix q.uri at)

module _ (w : World) (h : StaticHandler) (q : Request) where
  -- The handler, once the uri's part behind the last occurrence of the prefix is known
  Served-behind :
      {i : ℕ} (front name : Bytes)
      → rfind_text h.prefix q.uri ≡ some i
      → i ≡ length front
      → q.uri ≡ front ++ (h.prefix ++ name)
      → get_file_name h q.uri ≡ ok name
      → (r : Response) × ((handle_static w h q ≡ ok r) × Served w h q.uri r)
  Served-behind front [] found at splits e = (
    not_found_response w,
    (handle_nameless w h q e, nameless front (splits ∙ rw append-nil) (found ∙ ap some at) refl),
  )
  Served-behind front (c ∷ name) found at splits e =
      elim (Option-cases (w.file (h.root ++ c ∷ name))) [
        | inl absent ↦ (
          not_found_response w,
          (
            handle_missing w h q c name e absent,
            missing front (c ∷ name) splits (found ∙ ap some at) absent refl,
          ),
        )
        | inr (content, present) ↦
            let (ext, x) = extension_total (h.root ++ c ∷ name) in
            (
              file_response w content ext,
              (
                handle_found w h q c name content ext e present x,
                served front (c ∷ name) content splits (found ∙ ap some at) present
                    (file_response-CarriesFile w _ content ext x),
              ),
            )
      ]

pub handle_static-Served :
    (w : World) (h : StaticHandler) (q : Request)
    → (r : Response) × ((handle_static w h q ≡ ok r) × Served w h q.uri r)
handle_static-Served w h q = elim (Option-cases (rfind_text h.prefix q.uri)) [
  | inl absent ↦ (
    not_found_response w,
    (handle_nameless w h q (get_file_name_foreign w h q absent), foreign absent refl),
  )
  | inr (i, found) ↦
      let at = rfind_text-SplitsAt h.prefix q.uri found in
      Served-behind w h q at.front at.behind found at.index_is at.splits
        (get_file_name-behind w h q at found)
]

Served-HasLength :
    (w : World) (h : StaticHandler) (uri : Bytes) {r : Response} → Served w h uri r → HasLength r
Served-HasLength w h uri (foreign n e) =
    subst HasLength (sym e) (make_404_error-HasLength w empty_response)
Served-HasLength w h uri (nameless front s l e) =
    subst HasLength (sym e) (make_404_error-HasLength w empty_response)
Served-HasLength w h uri (missing front name s l n e) =
    subst HasLength (sym e) (make_404_error-HasLength w empty_response)
Served-HasLength w h uri (served front name content s n f c) = c.length_is

pub handle_static-HasLength :
    (w : World) (h : StaticHandler) (q : Request) {r : Response}
    → handle_static w h q ≡ ok r
    → HasLength r
handle_static-HasLength w h q {r} e =
    let (r', (e', s)) = handle_static-Served w h q in
    subst HasLength (ok-injective r' r (sym e' ∙ e)) (Served-HasLength w h q.uri s)
