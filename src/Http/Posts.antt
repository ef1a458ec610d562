-- ===== src/Http/Posts.antt =====
-- What http_sender's socket asks of the server.
use int_platform_dpdk.Base.{
  ℕ, ◌+◌, ◌≡◌, ◌⊎◌, refl, sym, ap, ◌∙◌, List, [], ◌∷◌, ◌++◌, append_assoc, append-nil, length,
  length-snoc, map, arith, true, none, some, Option-cases, inl, inr, Option,
}
use int_platform_dpdk.Text.{codes}
use int_platform_dpdk.Types.{Options}
use int_platform_dpdk.Http.{
  Try, value, runtime_error, write_url, read_url, service_url, database_name, database_url,
  treat_curl_response,
}
use int_platform_dpdk.Http.Database.{server_url, database_url_lem}
use int_platform_dpdk.Http.Names.{read_url-database_url, database_name-database_url}
use int_platform_dpdk.Http.Handle.{
  Handle, set_connection_options, create_write_handle, create_read_handle,
}
use int_platform_dpdk.Http.Client.{
  Reply, Http, uninitialized, continue, ◌>>=◌, lift, modify, global_init, init_curl, init_curl_read,
  obtain_influx_service_url, obtain_database_name, new_http, enable_basic_auth, send, open_socket,
  sends,
}
use int_platform_dpdk.Http.Requests.{
  greeting, posted, Plain, Ready, then-value, then-error, outcome, treated, request-answer,
}

module _ (strerror : ℕ → List ℕ) (escape : List ℕ → Option (List ℕ)) (perform : ℕ → Handle → Reply)
    (opt : Options) (plain : Plain opt) where
  -- The transport that a text sees.
  abbrev pub answers : ℕ → List ℕ → ℕ × ℕ
  answers n text =
      ((perform n (posted opt text)).response, (perform n (posted opt text)).response_code)

  -- HTTP::send as a transport of texts, text by text.
  abbrev pub outcomes : ℕ → List (List ℕ) → List (Try Unit)
  outcomes n [] = []
  outcomes n (text ∷ texts) =
      outcome (int_platform_dpdk.Http.send strerror answers n text) ∷ outcomes (n + 1) texts

  -- The state that the constructor's first part leaves.
  abbrev pub greeted : Http
  greeted = record uninitialized {
    write_handle = create_write_handle (server_url opt ++ codes "/write?db=int_telemetry_db");
    requests = greeting opt ∷ [];
    handles = 1;
    globals = 1;
  }

  init_curl-greeted :
      init_curl 0 strerror escape perform (database_url opt) uninitialized
      ≡ (outcome (treated strerror escape perform 0 (greeting opt)), greeted)
  unfolding init_curl global_init lift modify ◌>>=◌ create_write_handle set_connection_options
  init_curl-greeted =
      let (write, service) = database_url_lem opt plain.no_question.0 plain.no_question.1 in
      rw (write) (
        request-answer strerror escape perform (greeting opt) (record greeted { requests = [] })
          (λ b. tt) (treated strerror escape perform 0 (greeting opt)) refl)

  -- The socket that is made if the server takes the first request.
  abbrev pub made : Http
  made = record greeted {
    read_handle = create_read_handle;
    m_read_url = server_url opt ++ codes "/query?db=int_telemetry_db&q=";
    m_influx_db_service_url = server_url opt;
    m_database_name = codes "int_telemetry_db";
    handles = 2;
  }

  new_http-made :
      treated strerror escape perform 0 (greeting opt) ≡ none
      → new_http 0 strerror escape perform (database_url opt) uninitialized ≡ (value tt, made)
  unfolding new_http ◌>>=◌ continue lift modify init_curl_read obtain_influx_service_url
      obtain_database_name
  new_http-made taken =
      let (write, service) = database_url_lem opt plain.no_question.0 plain.no_question.1 in
      rw
        (
          init_curl-greeted ∙ ap (λ o. (outcome o, greeted)) taken,
          read_url-database_url opt plain.no_question.0 plain.no_question.1,
          service,
          database_name-database_url opt plain.no_equals.0 plain.no_equals.1,
        )
        refl

  new_http-refused :
      (what : List ℕ)
      → treated strerror escape perform 0 (greeting opt) ≡ some what
      → new_http 0 strerror escape perform (database_url opt) uninitialized
        ≡ (runtime_error what, greeted)
  unfolding new_http ◌>>=◌ continue
  new_http-refused what refused =
      rw (init_curl-greeted ∙ ap (λ o. (outcome o, greeted)) refused) refl

  -- With the user's name and password.
  abbrev pub armed : Http
  armed = record made {
    write_handle = record (made.write_handle) {
      auth_basic = true;
      userpwd = some (opt.username ++ codes ":" ++ opt.password);
    };
    read_handle = record create_read_handle {
      auth_basic = true;
      userpwd = some (opt.username ++ codes ":" ++ opt.password);
    };
  }

  pub open_socket-armed :
      treated strerror escape perform 0 (greeting opt) ≡ none
      → open_socket 0 strerror escape perform opt uninitialized ≡ (value tt, armed)
  unfolding open_socket enable_basic_auth modify
  open_socket-armed taken =
      then-value (new_http 0 strerror escape perform (database_url opt)) _ uninitialized tt made
        (new_http-made taken)

  pub open_socket-refused :
      (what : List ℕ)
      → treated strerror escape perform 0 (greeting opt) ≡ some what
      → open_socket 0 strerror escape perform opt uninitialized ≡ (runtime_error what, greeted)
  unfolding open_socket
  open_socket-refused what refused =
      then-error (new_http 0 strerror escape perform (database_url opt)) _ uninitialized what
        greeted (new_http-refused what refused)

  -- The next text goes out as it is.
  Loaded : Http → Type 0
  Loaded s =
      (text : List ℕ)
      → record (s.write_handle) { postfields = some text; postfieldsize = some (length text) }
        ≡ posted opt text

  send-posted :
      (text : List ℕ) (s : Http)
      → Loaded s
      → send 0 strerror escape perform text s ≡ (
        outcome (treated strerror escape perform (length s.requests) (posted opt text)),
        record s {
          write_handle = posted opt text;
          requests = s.requests ++ (posted opt text ∷ []);
        },
      )
  unfolding send Loaded
  send-posted text s loaded = rw (loaded text) (
      request-answer strerror escape perform (posted opt text)
        (record s { write_handle = posted opt text }) (λ b. tt) _ refl)

  sends-posted :
      (texts : List (List ℕ)) (s : Http) (n : ℕ)
      → Loaded s
      → length s.requests ≡ n
      → ((sends 0 strerror escape perform texts s).0 ≡ outcomes n texts)
        × ((sends 0 strerror escape perform texts s).1.requests
            ≡ s.requests ++ map (posted opt) texts)
  unfolding sends int_platform_dpdk.Http.send Loaded
  sends-posted [] s n loaded many = (refl, sym (append-nil s.requests))
  sends-posted (text ∷ texts) s n loaded many =
      let s' : Http = record s {
        write_handle = posted opt text;
        requests = s.requests ++ (posted opt text ∷ []);
      } in
      let (results, log) =
        sends-posted texts s' (n + 1) (λ t. refl)
          (length-snoc s.requests (posted opt text) ∙ omega (arith, many)) in
      let first =
        send-posted text s loaded
        ∙ ap (λ k. (outcome (treated strerror escape perform k (posted opt text)), s')) many in
      (
        ap (λ r. r.0 ∷ (sends 0 strerror escape perform texts r.1).0) first
            ∙ ap (λ rs. outcome (treated strerror escape perform n (posted opt text)) ∷ rs) results,
        ap (λ r. (sends 0 strerror escape perform texts r.1).1.requests) first
            ∙ log
            ∙ append_assoc s.requests (posted opt text ∷ []) (map (posted opt) texts),
      )

  -- Over libcurl, if it starts, with a protocol and a host without a question mark or an equals sign:
  -- http_sender's socket first posts an empty line to "/write?db=int_telemetry_db" of the host and port.
  -- If treatCurlResponse takes the answer for a failure, the constructor throws and nothing else is
  -- asked. Otherwise the socket is made, with the URLs of the service and for queries and with the
  -- name of the database; and of any texts sent after that, each is posted to the same URL, whole, alone
  -- and under the user's name and password, and comes to what the transport Http.send makes of the
  -- server's answers, numbered from 1 on.
  pub sends-open_socket :
      (texts : List (List ℕ))
      → ((what : List ℕ) × (s : Http) × (treated strerror escape perform 0 (greeting opt)
            ≡ some what)
          × (open_socket 0 strerror escape perform opt uninitialized ≡ (runtime_error what, s))
          × (s.requests ≡ greeting opt ∷ []))
        ⊎ ((s : Http) × (treated strerror escape perform 0 (greeting opt) ≡ none)
            × (open_socket 0 strerror escape perform opt uninitialized ≡ (value tt, s))
            × Ready opt s
            × ((sends 0 strerror escape perform texts s).0 ≡ outcomes 1 texts)
            × ((sends 0 strerror escape perform texts s).1.requests
                ≡ greeting opt ∷ map (posted opt) texts))
  unfolding Loaded create_write_handle
  sends-open_socket texts = elim (Option-cases (treated strerror escape perform 0 (greeting opt))) [
    | inl taken ↦
        let (results, log) = sends-posted texts armed 1 (λ text. refl) refl in
        inr (
          armed,
          taken,
          open_socket-armed taken,
          record { m_read_url = refl; m_influx_db_service_url = refl; m_database_name = refl },
          results,
          log,
        )
    | inr (what, refused) ↦ inl (what, greeted, refused, open_socket-refused what refused, refl)
  ]
