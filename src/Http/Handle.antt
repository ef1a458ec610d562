-- ===== src/Http/Handle.antt =====
-- HTTP.cc: the handles of libcurl, by the options set on them, and the functions at the top of the file.
use int_platform_dpdk.Base.{
  ℕ, ◌*◌, List, [], ◌∷◌, ◌++◌, Bool, false, Option, none, some, take, length,
}

-- The functions that are set as CURLOPT_WRITEFUNCTION.
pub data WriteFunction : Type 0 where
  noop_write_call_back : WriteFunction
  write_callback : WriteFunction

-- A handle, by the options set on it. CURLOPT_HTTPAUTH is set to CURLAUTH_BASIC only.
pub record Handle : Type 0 where
  pub connecttimeout : Option ℕ
  pub timeout : Option ℕ
  pub tcp_keepidle : Option ℕ
  pub tcp_keepintvl : Option ℕ
  pub writefunction : Option WriteFunction
  pub postfields : Option (List ℕ)
  pub postfieldsize : Option ℕ
  pub url : Option (List ℕ)
  pub post : Option ℕ
  pub auth_basic : Bool
  pub userpwd : Option (List ℕ)

abbrev pub no_options : Handle
no_options = record {
  connecttimeout = none;
  timeout = none;
  tcp_keepidle = none;
  tcp_keepintvl = none;
  writefunction = none;
  postfields = none;
  postfieldsize = none;
  url = none;
  post = none;
  auth_basic = false;
  userpwd = none;
}

unfoldable pub set_connection_options : Handle → Handle
set_connection_options handle = record handle {
  connecttimeout = some 10;
  timeout = some 10;
  tcp_keepidle = some 120;
  tcp_keepintvl = some 60;
  writefunction = some noop_write_call_back;
  postfields = some (b'\n' ∷ []);
}

unfoldable pub create_read_handle : Handle
unfolding set_connection_options
create_read_handle = record (set_connection_options no_options) {
  writefunction = some write_callback;
}

unfoldable pub create_write_handle : List ℕ → Handle
unfolding set_connection_options
create_write_handle text = record (set_connection_options no_options) {
  url = some text;
  post = some 1;
}

-- WriteCallback, which appends to the buffer: what it returns, and the buffer.
unfoldable pub write_to : List ℕ → ℕ → ℕ → List ℕ → ℕ × List ℕ
write_to contents size nmemb buffer = (size * nmemb, buffer ++ take (size * nmemb) contents)

-- libcurl calls it with a size of 1, piece by piece.
unfoldable pub write_all : List (List ℕ) → List ℕ → List ℕ
unfolding write_to
write_all [] buffer = buffer
write_all (piece ∷ pieces) buffer = write_all pieces ((write_to piece 1 (length piece) buffer).1)
