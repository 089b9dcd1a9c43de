-- ===== src/World.antt =====
-- What the server reads of the machine that it runs on: a parameter of the model.
use web_server_development.Prelude.{ℕ, List, Option}
use web_server_development.Text.{Bytes}

pub record World : Type 0 where
  -- The bytes of the file at a path; `none` where `std::ifstream` does not open it.
  pub file : Bytes → Option Bytes
  -- What `strftime` makes of the present time.
  pub date : Bytes
  -- The regular files of the directory of the logs, each with its bytes, or `none` where
  -- `std::ifstream` does not open it; `none` where the directory cannot be listed.
  pub logs : Option (List (Option Bytes))
  -- What `boost::asio::ip::host_name` returns; `none` where it throws.
  pub host_name : Option Bytes
  -- When this is: what other hosts answer depends on it.
  pub moment : ℕ
