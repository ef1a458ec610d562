-- ===== src/Http/Client.antt =====
-- HTTP.cc: the methods of the class HTTP on its two handles. libcurl is a parameter: what
-- curl_global_init returns, what curl_easy_strerror makes of a code and curl_easy_escape of a text (nothing for
-- NULL), and what curl_easy_perform comes to, by the number of the request and the options set on the handle. (A
-- handle that curl_easy_init makes is taken to be there.)
use int_platform_dpdk.Base.{
  ℕ, ◌+◌, ◌-◌, List, [], ◌∷◌, ◌++◌, true, none, some, length, ◌==◌, if◌then◌else◌, Option,
}
use int_platform_dpdk.Text.{codes}
use int_platform_dpdk.Types.{Options}
use int_platform_dpdk.Http.Handle.{
  Handle, no_options, create_read_handle, create_write_handle, write_all,
}
use int_platform_dpdk.Http.{
  Try, value, runtime_error, out_of_range, undefined, write_url, read_url, service_url,
  database_name, database_url, treat_curl_response,
}

-- The CURLcode, the response code, and the pieces of the body that go to the write function.
pub record Reply : Type 0 where
  pub response : ℕ
  pub response_code : ℕ
  pub body : List (List ℕ)

-- The members of the class, and behind them: the history, the handle of each request when it was made;
-- how many handles libcurl has made and not freed; and how often it was started and not stopped.
pub record Http : Type 0 where
  pub write_handle : Handle
  pub read_handle : Handle
  pub m_read_url : List ℕ
  pub m_influx_db_service_url : List ℕ
  pub m_database_name : List ℕ
  pub requests : List Handle
  pub handles : ℕ
  pub globals : ℕ

-- Before the constructor.
abbrev pub uninitialized : Http
uninitialized = record {
  write_handle = no_options;
  read_handle = no_options;
  m_read_url = [];
  m_influx_db_service_url = [];
  m_database_name = [];
  requests = [];
  handles = 0;
  globals = 0;
}

abbrev pub Method : Type 0 → Type 0
Method A = Http → Try A × Http

-- After an exception the rest is not run.
unfoldable pub continue : {A B : Type 0} → (A → Method B) → Try A × Http → Try B × Http
continue f (value a, s) = f a s
continue f (runtime_error what, s) = (runtime_error what, s)
continue f (out_of_range, s) = (out_of_range, s)
continue f (undefined, s) = (undefined, s)

infixl 5 ◌>>=◌
unfoldable pub ◌>>=◌ : {A B : Type 0} → Method A → (A → Method B) → Method B
unfolding continue
(m >>= f) s = continue f (m s)

unfoldable pub lift : {A : Type 0} → Try A → Method A
lift result s = (result, s)

unfoldable pub modify : (Http → Http) → Method Unit
modify f s = (value tt, f s)

module _ (curl_global_init : ℕ) (curl_easy_strerror : ℕ → List ℕ)
    (curl_easy_escape : List ℕ → Option (List ℕ)) (perform : ℕ → Handle → Reply) where
  -- curl_easy_perform and treatCurlResponse, after the options were set.
  unfoldable pub request : Handle → Method (List (List ℕ))
  request handle s =
      let reply = perform (length s.requests) handle in
      let s' = record s { requests = s.requests ++ (handle ∷ []) } in
      elim (treat_curl_response curl_easy_strerror reply.response reply.response_code) [
        | none ↦ (value reply.body, s')
        | some what ↦ (runtime_error what, s')
      ]

  unfoldable pub global_init : Method Unit
  unfolding lift modify
  global_init =
      if curl_global_init == 0
      then modify (λ s. record s { globals = s.globals + 1 })
      else lift (runtime_error (curl_easy_strerror curl_global_init))

  unfoldable pub init_curl : List ℕ → Method Unit
  unfolding global_init lift modify request ◌>>=◌
  init_curl url = do
    _ ← global_init
    text ← lift (write_url url)
    _ ← modify (λ s. record s { write_handle = create_write_handle text; handles = s.handles + 1 })
    _ ← request (create_write_handle text)
    lift (value tt)

  unfoldable pub init_curl_read : List ℕ → Method Unit
  unfolding lift modify ◌>>=◌
  init_curl_read url = do
    text ← lift (read_url url)
    modify (λ s. record s {
      m_read_url = text;
      read_handle = create_read_handle;
      handles = s.handles + 1;
    })

  unfoldable pub obtain_influx_service_url : List ℕ → Method Unit
  unfolding lift modify ◌>>=◌
  obtain_influx_service_url url = do
    text ← lift (service_url url)
    modify (λ s. record s { m_influx_db_service_url = text })

  unfoldable pub obtain_database_name : List ℕ → Method Unit
  unfolding lift modify ◌>>=◌
  obtain_database_name url = do
    text ← lift (database_name url)
    modify (λ s. record s { m_database_name = text })

  -- The constructor.
  unfoldable pub new_http : List ℕ → Method Unit
  unfolding init_curl init_curl_read obtain_influx_service_url obtain_database_name ◌>>=◌
  new_http url = do
    _ ← init_curl url
    _ ← init_curl_read url
    _ ← obtain_influx_service_url url
    obtain_database_name url

  -- The destructor, which frees the two handles.
  unfoldable pub delete_http : Method Unit
  unfolding modify
  delete_http = modify (λ s. record s { handles = s.handles - 2; globals = s.globals - 1 })

  unfoldable pub enable_basic_auth : List ℕ → Method Unit
  unfolding modify
  enable_basic_auth auth = modify (λ s. record s {
    write_handle = record (s.write_handle) { auth_basic = true; userpwd = some auth };
    read_handle = record (s.read_handle) { auth_basic = true; userpwd = some auth };
  })

  unfoldable pub send : List ℕ → Method Unit
  unfolding request lift modify ◌>>=◌
  send lineprotocol s =
      let handle = record (s.write_handle) {
        postfields = some lineprotocol;
        postfieldsize = some (length lineprotocol);
      } in
      (request handle >>= λ body. lift (value tt)) (record s { write_handle = handle })

  -- A text made of a null pointer, which curl_easy_escape may return, is undefined. The buffer is what the
  -- write function is given as CURLOPT_WRITEDATA.
  unfoldable pub query : List ℕ → Method (List ℕ)
  unfolding request lift modify ◌>>=◌
  query text s = elim (curl_easy_escape text) [
    | none ↦ (undefined, s)
    | some escaped ↦
        let handle = record (s.read_handle) { url = some (s.m_read_url ++ escaped) } in
        (request handle >>= λ body. lift (value (write_all body [])))
          (record s { read_handle = handle })
  ]

  unfoldable pub create_database : Method Unit
  unfolding request modify ◌>>=◌
  create_database s =
      let fields = codes "q=CREATE DATABASE " ++ s.m_database_name in
      (request (record (create_write_handle (s.m_influx_db_service_url ++ codes "/query")) {
        postfields = some fields;
        postfieldsize = some (length fields);
      })
          >>= λ body. modify (λ s'. record s' { handles = s'.handles - 1 }))
        (record s { handles = s.handles + 1 })

  -- http_sender's socket.
  unfoldable pub open_socket : Options → Method Unit
  unfolding new_http enable_basic_auth ◌>>=◌
  open_socket opt = do
    _ ← new_http (database_url opt)
    enable_basic_auth (opt.username ++ codes ":" ++ opt.password)

  -- Its sends, each with what it comes to.
  unfoldable pub sends : List (List ℕ) → Http → List (Try Unit) × Http
  unfolding send
  sends [] s = ([], s)
  sends (text ∷ texts) s =
      let (result, s') = send text s in
      let (results, s'') = sends texts s' in (result ∷ results, s'')
