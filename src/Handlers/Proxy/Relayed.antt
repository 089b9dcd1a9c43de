-- ===== src/Handlers/Proxy/Relayed.antt =====
-- What the proxy makes of a response that a server like this one has built.
use web_server_development.Prelude.{
  true, false, [], ◌∷◌, ◌++◌, map, some, ◌≡◌, refl, ◌∙◌, sym, ap, arith, ok, All, drop,
  append_assoc, append-nil, Bool-cases, inl, inr, all-append, ◌==◌, subst,
}
use web_server_development.Text.{Bytes, codes, equal, push_back}
use web_server_development.Text.Numbers.{digits_value}
use web_server_development.Text.Search.{lacks}
use web_server_development.Text.Stream.{
  is_return, block_from, block_rest, read_word, read_unsigned, get_line, skip_spaces, span,
  read_signed, read_digits, cut_line,
}
use web_server_development.StdMap.{StdMap}
use web_server_development.StdMap.Laws.{IsSorted}
use web_server_development.StdMap.Writes.{assign_last}
use web_server_development.Request.{Request}
use web_server_development.Response.{
  Response, StatusCode, okay, empty_response, set_code, header_lines, crlf, build,
}
use web_server_development.World.{World}
use web_server_development.Handlers.Proxy.Fields.{add_line-field}
use web_server_development.Handlers.Proxy.Exchange.{
  Network, Reply, answers, add_line, add_lines, finish, read_status, read_response, read_reply,
}

-- The line of a header, without its line feed
abbrev field : Bytes × Bytes → Bytes
field (k, v) = push_back (k ++ (b':' ∷ b' ' ∷ v)) b'\r'

-- The name has no colon and is not Transfer-Encoding, and no line feed is in the line.
abbrev pub IsRelayed : Bytes × Bytes → Type 0
IsRelayed (k, v) =
    (lacks b':' k ≡ true)
    × (equal k (codes "Transfer-Encoding") ≡ false)
    × (lacks b'\n' (k ++ (b':' ∷ b' ' ∷ v)) ≡ true)

header_lines-field :
    (k v : Bytes) (m : StdMap Bytes) (rest : Bytes)
    → header_lines ((k, v) ∷ m) ++ rest ≡ field (k, v) ++ b'\n' ∷ (header_lines m ++ rest)
unfolding header_lines
header_lines-field k v m rest = simp (append_assoc)

field-is_return : (k v : Bytes) → is_return (field (k, v)) ≡ false
field-is_return [] v = refl
field-is_return (c ∷ []) v = refl
field-is_return (c ∷ d ∷ k) v = refl

pub block_from-line :
    (line acc rest : Bytes)
    → lacks b'\n' line ≡ true
    → is_return (acc ++ line) ≡ false
    → (block_from acc (line ++ b'\n' ∷ rest) ≡ (acc ++ line) ∷ block_from [] rest)
      × (block_rest acc (line ++ b'\n' ∷ rest) ≡ block_rest [] rest)
unfolding block_from block_rest
block_from-line [] acc rest h other =
    let other' : is_return acc ≡ false = ap is_return (sym (append-nil acc)) ∙ other in
    (rw (append-nil acc) (rw (other', block_from) refl), rw (other', block_rest) refl)
block_from-line (c ∷ line) acc rest h other = elim (Bool-cases (c == b'\n')) [
  | inl feed ↦ absurd (cc (rw feed at h))
  | inr byte ↦
      let (lines, left) =
        block_from-line line (push_back acc c) rest (rw byte at h)
          (ap is_return (append_assoc acc (c ∷ []) line) ∙ other) in
      (
        rw (byte, block_from)
            (lines ∙ ap (λ (s : Bytes). s ∷ block_from [] rest) (append_assoc acc (c ∷ []) line)),
        rw (byte, block_rest) left,
      )
]

-- The lines of the headers, and what is behind them
block_from-header_lines :
    (m : StdMap Bytes) (rest : Bytes)
    → All IsRelayed m
    → (block_from [] (header_lines m ++ (crlf ++ rest)) ≡ map field m)
      × (block_rest [] (header_lines m ++ (crlf ++ rest)) ≡ rest)
unfolding header_lines block_from block_rest
block_from-header_lines [] rest h = (refl, refl)
block_from-header_lines ((k, v) ∷ m) rest ((c, t, l), hs) =
    let (lines, left) = block_from-header_lines m rest hs in
    let clean : lacks b'\n' (field (k, v)) ≡ true =
      all-append _ (k ++ (b':' ∷ b' ' ∷ v)) (b'\r' ∷ []) ∙ ground arith in
    let (here, there) =
      block_from-line (field (k, v)) [] (header_lines m ++ (crlf ++ rest)) clean
        (field-is_return k v) in
    let apart = header_lines-field k v m (crlf ++ rest) in
    (
      ap (block_from []) apart ∙ here ∙ ap (◌∷◌ (field (k, v))) lines,
      ap (block_rest []) apart ∙ there ∙ left,
    )

add_lines-fields :
    (m : StdMap Bytes) (r : Response)
    → All IsRelayed m
    → IsSorted (r.headers ++ m)
    → add_lines (map field m) r ≡ ok (record r { headers = r.headers ++ m })
unfolding add_lines
add_lines-fields [] r h s =
    ap (λ (m : StdMap Bytes). ok (record r { headers = m })) (sym (append-nil r.headers))
add_lines-fields ((k, v) ∷ m) r ((c, t, l), hs) s =
    let added = record r { headers = r.headers ++ (k, v) ∷ [] } in
    let whole : added.headers ++ m ≡ r.headers ++ (k, v) ∷ m =
      append_assoc r.headers ((k, v) ∷ []) m in
    let here : add_line (field (k, v)) r ≡ ok added =
      add_line-field k (b' ' ∷ v) r c t
      ∙ ap (λ (n : StdMap Bytes). ok (record r { headers = n })) (assign_last r.headers k v m s) in
    rw (here, add_lines)
      (add_lines-fields m added hs (subst IsSorted (sym whole) s)
        ∙ ap (λ (n : StdMap Bytes). ok (record r { headers = n })) whole)

read_status_okay :
    (rest : Bytes)
    → read_status (codes "HTTP/1.1 200 OK\r\n" ++ rest)
      ≡ some (200, record { left = rest; eof = false; failed = false })
unfolding read_status read_word read_unsigned get_line skip_spaces span read_signed read_digits
    cut_line digits_value equal
read_status_okay rest = refl

-- What `build` makes of the response arrives whole: the status line and `front` behind it with the
-- first read, the rest of the head and `early` with the second, and the rest of the body.
pub record Delivers (r : Response) (reply : Reply) : Type 0 where
  pub front : Bytes
  pub early : Bytes
  pub code_is : r.code ≡ okay
  pub first_is : reply.first ≡ codes "HTTP/1.1 200 OK\r\n" ++ front
  pub head_is : (build r).0 ++ early ≡ reply.first ++ reply.second
  pub body_is : (build r).1 ≡ early ++ reply.others
  pub ends_is : reply.ends ≡ true

-- Behind the status line
Delivers-head :
    (r : Response) (reply : Reply) (d : Delivers r reply)
    → d.front ++ reply.second ≡ header_lines r.headers ++ (crlf ++ d.early)
unfolding build
Delivers-head r reply d =
    let status_first : (build (record r { code = okay })).0 ++ d.early
        ≡ (codes "HTTP/1.1 200 OK\r\n" ++ d.front) ++ reply.second =
      ap (λ (c : StatusCode). (build (record r { code = c })).0 ++ d.early) (sym d.code_is)
      ∙ d.head_is
      ∙ ap (λ (s : Bytes). s ++ reply.second) d.first_is in
    sym (ap (drop 17) status_first) ∙ append_assoc (header_lines r.headers) crlf d.early

read_response-headers :
    (w : World) (net : Network) (prefix port : Bytes) (r : Response) (reply : Reply)
    (d : Delivers r reply)
    → IsSorted r.headers
    → All IsRelayed r.headers
    → read_response w net prefix port (record { left = d.front; eof = false; failed = false }) reply
      ≡ ok
          (finish w net prefix port r.body (record { code = okay; headers = r.headers; body = [] }))
unfolding read_response build
read_response-headers w net prefix port r reply d s h =
    let (lines, left) = block_from-header_lines r.headers d.early h in
    let head = Delivers-head r reply d in
    rw (head, read_response)
      (rw lines (
        rw left (
          rw (add_lines-fields r.headers (set_code okay empty_response) h s)
            (rw d.ends_is (rw (sym d.body_is) refl)))))

-- A response with code 200 that a server such as this one has built, in whatever parts its text
-- arrives once the status line and the headers have, is passed on by the proxy with its code, its
-- headers and its body, in which links are replaced, and with the length, date and name of the
-- proxy's own. No name of a header has a colon or is Transfer-Encoding, no header has a line feed,
-- and they are in the order of their names.
pub read_reply-build :
    (w : World) (net : Network) (prefix port : Bytes) (q : Request) (host : Bytes) (r : Response)
    (reply : Reply)
    → Delivers r reply
    → IsSorted r.headers
    → All IsRelayed r.headers
    → read_reply w net prefix port q host reply
      ≡ answers (
          ok (
            finish w net prefix port r.body
              (record { code = okay; headers = r.headers; body = [] })))
unfolding read_reply
read_reply-build w net prefix port q host r reply d s h =
    let status = ap read_status d.first_is ∙ read_status_okay d.front in
    rw (status, read_reply) (ap answers (read_response-headers w net prefix port r reply d s h))
