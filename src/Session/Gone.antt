-- ===== src/Session/Gone.antt =====
-- src/session.cc, src/log_helper.cc: a request whose peer has left, or whose socket is closed.
use web_server_development.Request.{Request}
use web_server_development.Session.Receive.{Session}
