-- ===== src/RequestParser.antt =====
-- include/request_parser.h, src/request_parser.cc: the machine that reads a request byte by byte.
-- A `char` is its unsigned value: the tests of the source take those above 127 alike whether
-- `char` is signed or not.
pub mod Chunks
pub mod Steps
pub mod Runs
pub mod Endings
pub mod Reparse
mod Tests
pub mod WellFormed
pub mod Fields
pub mod Sound
pub mod Bounds
pub mod Unsigned
pub mod Cuts
pub mod Methods
use web_server_development.Prelude.{
  ℕ, zero, suc, ◌+◌, ◌-◌, ◌^◌, Bool, true, false, not, ◌&&◌, ◌||◌, List, [], ◌∷◌, Result, ok,
  throws, undefined, ◌>>=◌, leb, ltb, ◌==◌, if◌then◌else◌, length,
}
use web_server_development.Prelude.Int.{ℤ, pos, negsuc, is_zero}
use web_server_development.Text.{Bytes, codes, equal, is_empty, push_back}
use web_server_development.Text.Numbers.{stoi}
use web_server_development.StdMap.{insert, is_empty_map}
use web_server_development.Request.{Request, Method, get, post, put, head, invalid}

pub data ResultType : Type 0 where
  good bad indeterminate : ResultType

pub data State : Type 0 where
  method_start method uri http_version_h http_version_t_1 http_version_t_2 : State
  http_version_p http_version_slash http_version_major_start http_version_major : State
  http_version_minor_start http_version_minor expecting_newline_1 header_line_start : State
  header_lws header_name space_before_header_value header_value : State
  expecting_newline_2 expecting_newline_3 body : State

pub record Parser : Type 0 where
  pub state : State
  pub header_key : Bytes
  pub header_val : Bytes
  pub method_str : Bytes
  pub body_length : ℤ

-- The constructor, and what `reset` leaves.
abbrev pub initial : Parser
initial = record {
  state = method_start;
  header_key = [];
  header_val = [];
  method_str = [];
  body_length = pos 0;
}

unfoldable pub reset : Parser → Parser
reset p = record p {
  state = method_start;
  header_key = [];
  header_val = [];
  method_str = [];
  body_length = pos 0;
}

abbrev pub is_char : ℕ → Bool
is_char c = leb c 127

abbrev pub is_ctl : ℕ → Bool
is_ctl c = leb c 31 || c == 127

unfoldable pub is_tspecial : ℕ → Bool
is_tspecial c =
    c == b'('
    || c == b')'
    || c == b'<'
    || c == b'>'
    || c == b'@'
    || c == b','
    || c == b';'
    || c == b':'
    || c == b'\\'
    || c == b'"'
    || c == b'/'
    || c == b'['
    || c == b']'
    || c == b'?'
    || c == b'='
    || c == b'{'
    || c == b'}'
    || c == b' '
    || c == b'\t'

abbrev pub is_digit : ℕ → Bool
is_digit c = leb b'0' c && leb c b'9'

-- The condition that `consume` tests in four states before it refuses a byte.
unfoldable pub refused : ℕ → Bool
refused c = not (is_char c) || is_ctl c || is_tspecial c

-- What `consume` returns, with the request and the parser that it leaves.
abbrev pub Consumed : Type 0
Consumed = ResultType × Request × Parser

abbrev pub content_length : Bytes
content_length = codes "Content-Length"

-- `if (header_key != "") { req.headers_.insert(…); if (…) body_length = std::stoi(header_val); }`
unfoldable pub commit_header : Request → Parser → Result (Request × Parser)
commit_header q p =
    let q' = record q { headers = insert p.header_key p.header_val q.headers } in
    if is_empty p.header_key
    then ok (q, p)
    else if equal p.header_key content_length
    then (do n ← stoi p.header_val; ok (q', record p { body_length = n }))
    else ok (q', p)

-- `body_length--` on an `int`
unfoldable pub decrement : ℤ → Result ℤ
decrement (pos zero) = ok (negsuc 0)
decrement (pos (suc n)) = ok (pos n)
decrement (negsuc n) = if ltb n (2 ^ 31 - 1) then ok (negsuc (suc n)) else throws undefined

-- `state_ = s; return indeterminate;`
abbrev pub go : State → Request → Parser → Result Consumed
go s q p = ok (indeterminate, q, record p { state = s })

abbrev pub fail : Request → Parser → Result Consumed
fail q p = ok (bad, q, p)

-- A byte of the version: `req.version_.push_back(input); state_ = s;`
abbrev pub version_byte : State → Request → Parser → ℕ → Result Consumed
version_byte s q p c = go s (record q { version = push_back q.version c }) p

expect_version : ℕ → State → Request → Parser → ℕ → Result Consumed
expect_version want s q p c = if c == want then version_byte s q p c else fail q p

-- `case header_line_start`, behind the tests
start_header : Request → Parser → ℕ → Result Consumed
start_header q p c = do
  (q', p') ← commit_header q p
  go header_name q' (record p' { header_key = c ∷ []; header_val = [] })

-- `case expecting_newline_3`, behind the header's insertion
pub end_headers : Request → Parser → ℕ → Result Consumed
end_headers q p c =
    if c == b'\n' then if is_zero p.body_length then ok (good, q, p) else go body q p else fail q p

-- `case header_lws`
abbrev in_header_lws : Request → Parser → ℕ → Result Consumed
in_header_lws q p c =
    if c == b'\r'
    then go expecting_newline_2 q p
    else if c == b' ' || c == b'\t'
    then go header_lws q p
    else if is_ctl c
    then fail q p
    else go header_value q (record p { header_val = push_back p.header_val c })

-- `case header_name`
in_header_name : Request → Parser → ℕ → Result Consumed
in_header_name q p c =
    if c == b':'
    then go space_before_header_value q p
    else if refused c
    then fail q p
    else go header_name q (record p { header_key = push_back p.header_key c })

-- `case header_value`
abbrev in_header_value : Request → Parser → ℕ → Result Consumed
in_header_value q p c =
    if c == b'\r'
    then go expecting_newline_2 q p
    else if is_ctl c
    then fail q p
    else go header_value q (record p { header_val = push_back p.header_val c })

-- `case expecting_newline_3`
in_expecting_newline_3 : Request → Parser → ℕ → Result Consumed
unfolding end_headers
in_expecting_newline_3 q p c = do
  (q', p') ← commit_header q p
  let p'' = record p' { header_key = []; header_val = [] }
  end_headers q' (if is_empty p.header_key then p' else p'') c

-- `case body`
in_body : Request → Parser → ℕ → Result Consumed
in_body q p c = do
  n ← decrement p.body_length
  let q' = record q { body = push_back q.body c }
  let p' = record p { body_length = n }
  if is_zero n then ok (good, q', p') else ok (indeterminate, q', p')

-- `switch (state_)`
unfoldable pub consume_in : State → Request → Parser → ℕ → Result Consumed
unfolding expect_version start_header in_header_name in_expecting_newline_3 in_body
consume_in method_start q p c =
    if refused c then fail q p else go method q (record p { method_str = push_back p.method_str c })
consume_in method q p c =
    if c == b' '
    then go uri q p
    else if refused c
    then fail q p
    else go method q (record p { method_str = push_back p.method_str c })
consume_in uri q p c =
    if c == b' '
    then go http_version_h q p
    else if is_ctl c
    then fail q p
    else go uri (record q { uri = push_back q.uri c }) p
consume_in http_version_h q p c = expect_version b'H' http_version_t_1 q p c
consume_in http_version_t_1 q p c = expect_version b'T' http_version_t_2 q p c
consume_in http_version_t_2 q p c = expect_version b'T' http_version_p q p c
consume_in http_version_p q p c = expect_version b'P' http_version_slash q p c
consume_in http_version_slash q p c = expect_version b'/' http_version_major_start q p c
consume_in http_version_major_start q p c =
    if is_digit c then version_byte http_version_major q p c else fail q p
consume_in http_version_major q p c =
    if c == b'.'
    then version_byte http_version_minor_start q p c
    else if is_digit c
    then version_byte http_version_major q p c
    else fail q p
consume_in http_version_minor_start q p c =
    if is_digit c then version_byte http_version_minor q p c else fail q p
consume_in http_version_minor q p c =
    if c == b'\r'
    then go expecting_newline_1 q p
    else if is_digit c
    then version_byte http_version_minor q p c
    else fail q p
consume_in expecting_newline_1 q p c = if c == b'\n' then go header_line_start q p else fail q p
consume_in header_line_start q p c =
    if c == b'\r'
    then go expecting_newline_3 q p
    else if not (is_empty_map q.headers) && (c == b' ' || c == b'\t')
    then go header_lws q p
    else if refused c
    then fail q p
    else start_header q p c
consume_in header_lws q p c = in_header_lws q p c
consume_in header_name q p c = in_header_name q p c
consume_in space_before_header_value q p c = if c == b' ' then go header_value q p else fail q p
consume_in header_value q p c = in_header_value q p c
consume_in expecting_newline_2 q p c = if c == b'\n' then go header_line_start q p else fail q p
consume_in expecting_newline_3 q p c = in_expecting_newline_3 q p c
consume_in body q p c = in_body q p c

abbrev pub consume : Request → Parser → ℕ → Result Consumed
consume q p c = consume_in p.state q p c

-- The chain of comparisons of `method_str` in `parse`
unfoldable pub method_of : Bytes → Method
unfolding equal
method_of s =
    if equal s (codes "GET")
    then get
    else if equal s (codes "POST")
    then post
    else if equal s (codes "PUT")
    then put
    else if equal s (codes "HEAD")
    then head
    else invalid

-- What `parse` returns, with the request and the parser that it leaves. `rest` is the input
-- from the returned pointer `begin` up to `end`.
pub record Parsed : Type 0 where
  pub result : ResultType
  pub rest : Bytes
  pub body_len : ℤ
  pub req : Request
  pub parser : Parser

-- `begin + n <= end`
abbrev pub fits : ℤ → Bytes → Bool
fits (pos n) rest = leb n (length rest)
fits (negsuc n) rest = true

-- The body of `if (result == good || result == bad)`
unfoldable pub conclude : ResultType → Request → Parser → Bytes → Parsed
unfolding method_of
conclude r q p rest = record {
  result = if fits p.body_length rest then r else indeterminate;
  rest = rest;
  body_len = p.body_length;
  req = record q { method = method_of p.method_str };
  parser = p;
}

unfoldable pub parse : Request → Parser → Bytes → Result Parsed
unfolding consume_in conclude
parse q p [] =
    ok (record { result = indeterminate; rest = []; body_len = p.body_length; req = q; parser = p })
parse q p (c ∷ cs) = do
  (r, q', p') ← consume q p c
  elim r [
    | indeterminate ↦ parse q' p' cs
    | good ↦ ok (conclude good q' p' cs)
    | bad ↦ ok (conclude bad q' p' cs)
  ]
