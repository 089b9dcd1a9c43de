-- ===== src/Request.antt =====
-- include/request.h: the request that the parser fills and the handlers read.
use web_server_development.Prelude.{[]}
use web_server_development.Text.{Bytes}
use web_server_development.StdMap.{StdMap}

pub data Method : Type 0 where
  get post put head invalid : Method

pub record Request : Type 0 where
  pub method : Method
  pub uri : Bytes
  pub version : Bytes
  pub headers : StdMap Bytes
  pub body : Bytes

-- `request{}`
abbrev pub empty_request : Request
empty_request = record { method = get; uri = []; version = []; headers = []; body = [] }
