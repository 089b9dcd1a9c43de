-- ===== src/Handlers/Proxy/Url.antt =====
-- src/reverse_proxy_request_handler.cc: `parse_url`.
use web_server_development.Prelude.{◌+◌, [], none, some, drop}
use web_server_development.Text.{Bytes, codes}
use web_server_development.Text.Search.{find_text}
use web_server_development.Text.Cut.{until, onward, behind_first, lower}

pub record Url : Type 0 where
  pub host : Bytes
  pub path : Bytes
  pub query : Bytes

abbrev pub empty_url : Url
empty_url = record { host = []; path = []; query = [] }

-- The parts of a url behind its `://`
unfoldable pub parse_rest : Bytes → Url
unfolding until onward lower
parse_rest s = record {
  host = lower (until b'/' s);
  path = until b'?' (onward b'/' s);
  query = behind_first (onward b'?' (onward b'/' s));
}

-- The protocol in front is made lower case and never used.
unfoldable pub parse_url : Bytes → Url
unfolding find_text parse_rest
parse_url s = elim (find_text (codes "://") s) [
  | none ↦ empty_url
  | some i ↦ parse_rest (drop (i + 3) s)
]
