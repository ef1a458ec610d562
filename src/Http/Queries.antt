-- ===== src/Http/Queries.antt =====
-- What the socket asks for a query and for a new database.
use mathlib.Core.List.{flatten}
use int_platform_dpdk.Base.{
  ℕ, ◌+◌, ◌*◌, ◌≡◌, refl, sym, ap, ◌∙◌, List, [], ◌∷◌, ◌++◌, append_assoc, append-nil, length, take,
  arith, true, false, none, some, Option, Option-cases, inl, inr,
}
use int_platform_dpdk.Text.{codes}
use int_platform_dpdk.Types.{Options}
use int_platform_dpdk.Http.{Try, value, undefined}
use int_platform_dpdk.Http.Urls.{take-append}
use int_platform_dpdk.Http.Database.{server_url}
use int_platform_dpdk.Http.Handle.{
  noop_write_call_back, write_callback, Handle, set_connection_options, create_write_handle,
  create_read_handle, write_to, write_all,
}
use int_platform_dpdk.Http.Client.{Reply, Http, uninitialized, query, create_database, open_socket}
use int_platform_dpdk.Http.Requests.{
  Plain, greeting, outcome, treated, answer, lost, request-answer, request-freed,
}
use int_platform_dpdk.Http.Posts.{armed, open_socket-armed}

-- The request of a query: an empty line, posted to the URL with the query.
abbrev pub queried : Options → List ℕ → Handle
queried opt escaped = record {
  connecttimeout = some 10;
  timeout = some 10;
  tcp_keepidle = some 120;
  tcp_keepintvl = some 60;
  writefunction = some write_callback;
  postfields = some (codes "\n");
  postfieldsize = none;
  url = some (server_url opt ++ codes "/query?db=int_telemetry_db&q=" ++ escaped);
  post = none;
  auth_basic = true;
  userpwd = some (opt.username ++ codes ":" ++ opt.password);
}

-- The request for a new database, without a user.
abbrev pub created : Options → Handle
created opt = record {
  connecttimeout = some 10;
  timeout = some 10;
  tcp_keepidle = some 120;
  tcp_keepintvl = some 60;
  writefunction = some noop_write_call_back;
  postfields = some (codes "q=CREATE DATABASE int_telemetry_db");
  postfieldsize = some 34;
  url = some (server_url opt ++ codes "/query");
  post = some 1;
  auth_basic = false;
  userpwd = none;
}

take_all : (piece : List ℕ) → take (1 * length piece) piece ≡ piece
take_all piece =
    let whole : 1 * length piece ≡ length piece = omega arith in
    rw (whole) (ap (take (length piece)) (sym (append-nil piece)) ∙ take-append piece [])

write_all-flatten :
    (pieces : List (List ℕ)) (buffer : List ℕ) → write_all pieces buffer ≡ buffer ++ flatten pieces
unfolding write_all write_to flatten
write_all-flatten [] buffer = sym (append-nil buffer)
write_all-flatten (piece ∷ pieces) buffer =
    rw (take_all piece)
      (write_all-flatten pieces (buffer ++ piece) ∙ append_assoc buffer piece (flatten pieces))

module _ (strerror : ℕ → List ℕ) (escape : List ℕ → Option (List ℕ)) (perform : ℕ → Handle → Reply)
    (opt : Options) (plain : Plain opt) where
  -- What a query comes to, the text being escaped.
  abbrev pub query_result : Http → Option (List ℕ) → Try (List ℕ) × Http
  query_result s none = (undefined, s)
  query_result s (some escaped) = (
    answer (treated strerror escape perform 1 (queried opt escaped))
        (flatten (perform 1 (queried opt escaped)).body),
    record s {
      read_handle = queried opt escaped;
      requests = s.requests ++ (queried opt escaped ∷ []);
    },
  )

  -- Over libcurl, if it starts, with a protocol and a host without a question mark or an equals sign,
  -- and a server that takes the first request: a query on http_sender's socket is posted to "/query" of
  -- the host and port, with the name of the database and the text as libcurl escapes it in the URL and
  -- under the user's name and password, and returns the whole body, or throws what treatCurlResponse
  -- does, and is undefined, without a request, if libcurl
  -- returns no escaped text; and createDatabase posts "q=CREATE DATABASE int_telemetry_db" to "/query", without a user, on a handle of its
  -- own, which it frees if the server takes the request and loses otherwise.
  pub query-open_socket :
      (text : List ℕ)
      → treated strerror escape perform 0 (greeting opt) ≡ none
      → (s : Http) × (open_socket 0 strerror escape perform opt uninitialized ≡ (value tt, s))
        × (query 0 strerror escape perform text s ≡ query_result s (escape text))
        × (create_database 0 strerror escape perform s ≡ (
          outcome (treated strerror escape perform 1 (created opt)),
          record s {
            requests = s.requests ++ (created opt ∷ []);
            handles = s.handles + lost (treated strerror escape perform 1 (created opt));
          },
        ))
  unfolding query create_database create_read_handle create_write_handle set_connection_options
  query-open_socket text taken =
      let s = armed strerror escape perform opt plain in
      (
        s,
        open_socket-armed strerror escape perform opt plain taken,
        elim (Option-cases (escape text)) [
          | inl null ↦ rw (null, query) refl
          | inr (escaped, e) ↦
              rw (e, query)
                (request-answer strerror escape perform (queried opt escaped)
                    (record s { read_handle = queried opt escaped }) (λ body. write_all body []) _
                    refl
                  ∙ rw (write_all-flatten (perform 1 (queried opt escaped)).body []) refl)
        ],
        request-freed strerror escape perform (created opt) s _ refl,
      )
