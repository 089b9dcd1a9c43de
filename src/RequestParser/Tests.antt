-- ===== src/RequestParser/Tests.antt =====
-- Runs of the request parser on concrete input.
use web_server_development.Prelude.{
  [], ◌∷◌, Option, none, some, ◌≡◌, refl, Result, ok, throws, invalid_argument,
}
use web_server_development.Prelude.Int.{pos}
use web_server_development.Text.{Bytes, codes, equal, less}
use web_server_development.Text.Numbers.{stoi}
use web_server_development.StdMap.{find, insert}
use web_server_development.Request.{Request, empty_request, get, post}
use web_server_development.RequestParser.{
  State, Parsed, ResultType, initial, good, bad, parse, commit_header, decrement, is_tspecial,
  refused, body,
}
use web_server_development.Handlers.Echo.{echo_text}
use web_server_development.RequestParser.WellFormed.{IsWellFormed}
use web_server_development.RequestParser.Chunks.{Resumes, parse-append}
use web_server_development.RequestParser.Bounds.{InBounds, parse-InBounds}
use web_server_development.RequestParser.Sound.{parse-IsWellFormed}
use web_server_development.RequestParser.Endings.{Accepts}
use web_server_development.RequestParser.Reparse.{parse-echo_text}

runs : Unit {0}
unfolding parse commit_header insert decrement is_tspecial refused stoi equal less
runs = tt

abbrev get_abc : Bytes
get_abc = codes "GET /echo/ HTTP/1.1\r\nHost: a\r\n\r\n"

-- What the parser leaves of the request above
abbrev abc_parsed : Parsed
abc_parsed = record {
  result = good;
  rest = [];
  body_len = pos 0;
  req = record {
    method = get;
    uri = codes "/echo/";
    version = codes "HTTP/1.1";
    headers = (codes "Host", codes "a") ∷ [];
    body = [];
  };
  parser = record initial { state = State.expecting_newline_3; method_str = codes "GET" };
}

get_abc_test : parse empty_request initial get_abc ≡ ok abc_parsed
unfolding runs
get_abc_test = refl

-- A body with the length that was announced
abbrev post_text : Bytes
post_text = codes "POST / HTTP/1.1\r\nContent-Length: 2\r\n\r\nhi"

abbrev post_hi : Request
post_hi = record {
  method = post;
  uri = codes "/";
  version = codes "HTTP/1.1";
  headers = (codes "Content-Length", codes "2") ∷ [];
  body = codes "hi";
}

abbrev post_parsed : Parsed
post_parsed = record {
  result = good;
  rest = [];
  body_len = pos 0;
  req = post_hi;
  parser = record initial { state = body; method_str = codes "POST" };
}

post_test : parse empty_request initial post_text ≡ ok post_parsed
unfolding runs
post_test = refl

-- A length that is no number ends the thread.
length_test :
    parse empty_request initial (codes "GET / HTTP/1.1\r\nContent-Length: x\r\n\r\n")
    ≡ throws invalid_argument
unfolding runs
length_test = refl

abbrev result_of : Result Parsed → Option ResultType
result_of (ok r) = some r.result
result_of (throws e) = none

-- The first header may not be continued on a line that begins with white space; a later one may.
first_continuation_test :
    result_of (parse empty_request initial (codes "GET / HTTP/1.1\r\nA: b\r\n c\r\n\r\n"))
    ≡ some bad
unfolding runs
first_continuation_test = refl

later_continuation_test :
    result_of (parse empty_request initial (codes "GET / HTTP/1.1\r\nA: b\r\nB: b\r\n c\r\n\r\n"))
    ≡ some good
unfolding runs
later_continuation_test = refl

post_hi-IsWellFormed : IsWellFormed post_hi
unfolding is_tspecial refused
post_hi-IsWellFormed = record {
  uri_clean = refl;
  version_IsVersion = record {
    major = codes "1";
    minor = codes "1";
    version_is = refl;
    major_IsDigits = ((λ e. cc), refl);
    minor_IsDigits = ((λ e. cc), refl);
  };
  headers_IsHeader = ((((λ e. cc), refl), refl), tt);
  headers_IsSorted = (tt, tt);
}

parse-echo_text_example : Accepts (parse empty_request initial (echo_text post_hi)) post_hi
unfolding find stoi equal
parse-echo_text_example = parse-echo_text post_hi post_hi-IsWellFormed (λ e. cc) refl

parse-append_example :
    Resumes empty_request initial
      (codes "POST / HTTP/1.1\r\nContent-Length: 2\r\n\r\n")
      (codes "hi")
      (ok post_parsed)
parse-append_example =
    parse-append (codes "POST / HTTP/1.1\r\nContent-Length: 2\r\n\r\n") b'h' (codes "i")
      empty_request initial post_test refl

parse-IsWellFormed_example : IsWellFormed abc_parsed.req
parse-IsWellFormed_example = parse-IsWellFormed get_abc get_abc_test refl

parse-InBounds_example : InBounds post_text post_parsed
parse-InBounds_example = parse-InBounds post_text empty_request initial post_test
