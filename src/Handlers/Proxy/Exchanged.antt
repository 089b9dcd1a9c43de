-- ===== src/Handlers/Proxy/Exchanged.antt =====
-- Every response that an exchange of the proxy comes to carries the length of its body.
use mathlib.Core.Option.{some-injective}
use web_server_development.Prelude.{
  ℕ, zero, suc, Bool, true, false, ◌||◌, ◌&&◌, List, [], ◌∷◌, ◌++◌, some, if◌then◌else◌, ◌≡◌, refl,
  subst, Result, ok, throws, ◌>>=◌, system_error, Bool-cases, Result-cases, Option-cases, inl, inr,
  ◌==◌, length,
}
use web_server_development.Text.{Bytes, codes, equal, pop_back}
use web_server_development.Text.Search.{find_text}
use web_server_development.Text.Stream.{Stream, is_good, block_from, block_rest}
use web_server_development.StdMap.Laws.{find-assign}
use web_server_development.Request.{Request}
use web_server_development.Response.{
  Response, empty_response, okay, set_code, add_header, add_body, make_404_error, make_400_error,
  make_date_servername_headers,
}
use web_server_development.Response.Laws.{
  HasLength, make_400_error-HasLength, make_404_error-HasLength,
  make_date_servername_headers-HasLength,
}
use web_server_development.Text.Numbers.{to_string}
use web_server_development.World.{World}
use web_server_development.Handlers.Proxy.Url.{Url, parse_url}
use web_server_development.Handlers.Proxy.Forward.{get_proxy_request, request_to_string}
use web_server_development.Handlers.Proxy.Redirects.{Step-cases}
use web_server_development.Handlers.Proxy.Exchange.{
  Network, Reply, Outcome, unresolved, unconnected, replied, Step, answers, redirects,
  throw_400_error, header_value, handle_redirect, with_protocol, find_location, add_lines,
  read_status, finish, read_response, read_reply, exchange_once, send_request,
}

-- A response that is answered, if any, has its length; a redirection has none yet.
abbrev pub IsMeasuredResult : Result Response → Type 0
IsMeasuredResult (ok r) = HasLength r
IsMeasuredResult (throws e) = Unit

abbrev IsMeasuredStep : Step → Type 0
IsMeasuredStep (answers r) = IsMeasuredResult r
IsMeasuredStep (redirects q host) = Unit

>>=-IsMeasured :
    {A : Type 0} (m : Result A) (f : A → Result Response)
    → ((a : A) → IsMeasuredResult (f a))
    → IsMeasuredResult (m >>= f)
>>=-IsMeasured (ok a) f h = h a
>>=-IsMeasured (throws e) f h = tt

if-IsMeasuredResult :
    (b : Bool) (r r' : Result Response)
    → IsMeasuredResult r
    → IsMeasuredResult r'
    → IsMeasuredResult (if b then r else r')
if-IsMeasuredResult true r r' h h' = h
if-IsMeasuredResult false r r' h h' = h'

pub throw_400_error-HasLength : (w : World) → HasLength (throw_400_error w)
unfolding throw_400_error
throw_400_error-HasLength w =
    make_date_servername_headers-HasLength w (make_400_error empty_response)
      (make_400_error-HasLength empty_response)

if-IsMeasuredStep :
    (b : Bool) (s s' : Step)
    → IsMeasuredStep s
    → IsMeasuredStep s'
    → IsMeasuredStep (if b then s else s')
if-IsMeasuredStep true s s' h h' = h
if-IsMeasuredStep false s s' h h' = h'

handle_redirect-IsMeasured :
    (w : World) (q : Request) (location : Bytes) (prev_loc : Url)
    → IsMeasuredStep (handle_redirect w q location prev_loc)
unfolding handle_redirect
handle_redirect-IsMeasured w q location prev_loc =
    let redir_loc = parse_url (with_protocol location) in
    if-IsMeasuredStep (equal redir_loc.host prev_loc.host && equal redir_loc.path prev_loc.path)
      (answers (ok (throw_400_error w))) (redirects (get_proxy_request q redir_loc) redir_loc.host)
      (throw_400_error-HasLength w) tt

find_location-IsMeasured :
    (w : World) (q : Request) (prev_loc : Url) (headers : List Bytes)
    → IsMeasuredStep (find_location w q prev_loc headers)
unfolding find_location
find_location-IsMeasured w q prev_loc [] = throw_400_error-HasLength w
find_location-IsMeasured w q prev_loc (header ∷ headers) =
    elim (Option-cases (find_text (codes "Location") header)) [
      | inl absent ↦ rw (absent, find_location) (find_location-IsMeasured w q prev_loc headers)
      | inr (i, present) ↦ elim (Result-cases (pop_back header >>= header_value)) [
        | inl (e, failed) ↦ rw (present, find_location) (rw failed tt)
        | inr (location, read) ↦
            rw (present, find_location) (rw read (handle_redirect-IsMeasured w q location prev_loc))
      ]
    ]

module _ (w : World) (net : Network) (prefix port : Bytes) where
  finish-HasLength :
      (content : Bytes) (r : Response) → HasLength (finish w net prefix port content r)
  unfolding finish equal
  finish-HasLength content r =
      let links = net.replace_all content (codes "href=\"/") (codes "href=\"" ++ prefix) in
      let body = net.replace_all links (codes "src=\"/") (codes "src=\"" ++ prefix) in
      make_date_servername_headers-HasLength w
        (add_body body (add_header (codes "Content-Length") (to_string (length body)) r))
        (rw find-assign refl)

  read_response-IsMeasured :
      (s : Stream) (reply : Reply) → IsMeasuredResult (read_response w net prefix port s reply)
  unfolding read_response
  read_response-IsMeasured s reply =
      let buffer = s.left ++ reply.second in
      let content = (if is_good s then block_rest [] buffer else buffer) ++ reply.others in
      >>=-IsMeasured
        (add_lines (if is_good s then block_from [] buffer else []) (set_code okay empty_response))
        (λ r. if reply.ends then ok (finish w net prefix port content r) else throws system_error)
        (λ r.
          if-IsMeasuredResult reply.ends (ok (finish w net prefix port content r))
            (throws system_error) (finish-HasLength content r) tt)

  read_reply-IsMeasured :
      (q : Request) (host : Bytes) (reply : Reply)
      → IsMeasuredStep (read_reply w net prefix port q host reply)
  unfolding read_reply
  read_reply-IsMeasured q host reply = elim (Option-cases (read_status reply.first)) [
    | inl none_read ↦ rw (none_read, read_reply) (throw_400_error-HasLength w)
    | inr ((status_code, s), status) ↦ rw (status, read_reply) (codes_IsMeasured status_code s)
  ]
    where
      not_found_code :
          IsMeasuredStep
            (answers (ok (make_date_servername_headers w (make_404_error w empty_response))))
      not_found_code =
          make_date_servername_headers-HasLength w (make_404_error w empty_response)
            (make_404_error-HasLength w empty_response)

      other :
          (status_code : ℕ)
          → IsMeasuredStep (
              if status_code == 404
              then answers (ok (make_date_servername_headers w (make_404_error w empty_response)))
              else answers (ok (throw_400_error w)))
      other status_code =
          if-IsMeasuredStep (status_code == 404)
            (answers (ok (make_date_servername_headers w (make_404_error w empty_response))))
            (answers (ok (throw_400_error w))) not_found_code (throw_400_error-HasLength w)

      codes_IsMeasured :
          (status_code : ℕ) (s : Stream)
          → IsMeasuredStep (
              if status_code == 302 || status_code == 301
              then find_location w q
                  (record { host = host; path = q.uri; query = [] })
                  (if is_good s then block_from [] s.left else [])
              else if status_code == 200
              then answers (read_response w net prefix port s reply)
              else if status_code == 404
              then answers (ok (make_date_servername_headers w (make_404_error w empty_response)))
              else answers (ok (throw_400_error w)))
      codes_IsMeasured status_code s =
          elim (Bool-cases (status_code == 302 || status_code == 301)) [
            | inl h ↦ rw h (
                find_location-IsMeasured w q (record { host = host; path = q.uri; query = [] })
                  (if is_good s then block_from [] s.left else []))
            | inr h ↦ rw h (elim (Bool-cases (status_code == 200)) [
              | inl h ↦ rw h (read_response-IsMeasured s reply)
              | inr h ↦ rw h (other status_code)
            ])
          ]

  exchange_once-IsMeasured :
      (q : Request) (host : Bytes) → IsMeasuredStep (exchange_once w net prefix port q host)
  unfolding exchange_once
  exchange_once-IsMeasured q host = elim (Result-cases (request_to_string q)) [
    | inl (e, failed) ↦ rw (failed, exchange_once) tt
    | inr (text, printed) ↦ rw (printed, exchange_once) (outcome (net.exchange host port text))
  ]
    where
      outcome :
          (o : Outcome)
          → IsMeasuredStep (elim o [
            | unresolved ↦ answers (ok (throw_400_error w))
            | unconnected ↦ answers (ok (throw_400_error w))
            | replied reply ↦ read_reply w net prefix port q host reply
          ])
      outcome unresolved = throw_400_error-HasLength w
      outcome unconnected = throw_400_error-HasLength w
      outcome (replied reply) = read_reply-IsMeasured q host reply

  pub send_request-HasLength :
      (fuel : ℕ) (q : Request) (host : Bytes) {r : Response}
      → send_request w net prefix port fuel q host ≡ some (ok r)
      → HasLength r
  unfolding send_request
  send_request-HasLength zero q host e = absurd (cc e)
  send_request-HasLength (suc fuel) q host {r} e =
      elim (Step-cases (exchange_once w net prefix port q host)) [
        | inl (r', answered) ↦
            subst IsMeasuredResult (some-injective r' (ok r) (rw (answered, send_request) at e))
              (subst IsMeasuredStep answered (exchange_once-IsMeasured q host))
        | inr (q', (host', moved)) ↦
            send_request-HasLength fuel q' host' (rw (moved, send_request) at e)
      ]
