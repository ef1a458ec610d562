-- ===== src/Http/Requests.antt =====
-- The requests that http_sender's socket makes, and what one comes to.
use int_platform_dpdk.Base.{
  ℕ, ◌+◌, ◌-◌, ◌≡◌, refl, ap, arith, ◌∙◌, List, [], ◌∷◌, ◌++◌, length, true, false, Option, none,
  some,
}
use int_platform_dpdk.Text.{codes}
use int_platform_dpdk.Types.{Options}
use int_platform_dpdk.Http.{Try, value, runtime_error, treat_curl_response}
use int_platform_dpdk.Http.Urls.{Free}
use int_platform_dpdk.Http.Database.{server_url}
use int_platform_dpdk.Http.Handle.{noop_write_call_back, Handle}
use int_platform_dpdk.Http.Client.{Reply, Http, Method, continue, ◌>>=◌, lift, modify, request}

-- The request of the constructor: an empty line for the database, without a user.
abbrev pub greeting : Options → Handle
greeting opt = record {
  connecttimeout = some 10;
  timeout = some 10;
  tcp_keepidle = some 120;
  tcp_keepintvl = some 60;
  writefunction = some noop_write_call_back;
  postfields = some (codes "\n");
  postfieldsize = none;
  url = some (server_url opt ++ codes "/write?db=int_telemetry_db");
  post = some 1;
  auth_basic = false;
  userpwd = none;
}

-- The request for a text: the text and no more, under the user's name and password.
abbrev pub posted : Options → List ℕ → Handle
posted opt text = record {
  connecttimeout = some 10;
  timeout = some 10;
  tcp_keepidle = some 120;
  tcp_keepintvl = some 60;
  writefunction = some noop_write_call_back;
  postfields = some text;
  postfieldsize = some (length text);
  url = some (server_url opt ++ codes "/write?db=int_telemetry_db");
  post = some 1;
  auth_basic = true;
  userpwd = some (opt.username ++ codes ":" ++ opt.password);
}

-- A URL that http_sender makes is taken apart.
pub record Plain (opt : Options) : Type 0 where
  pub no_question : Free b'?' opt.protocol × Free b'?' opt.host
  pub no_equals : Free b'=' opt.protocol × Free b'=' opt.host

-- What the socket keeps when it is made.
pub record Ready (opt : Options) (s : Http) : Type 0 where
  pub m_read_url : s.m_read_url ≡ server_url opt ++ codes "/query?db=int_telemetry_db&q="
  pub m_influx_db_service_url : s.m_influx_db_service_url ≡ server_url opt
  pub m_database_name : s.m_database_name ≡ codes "int_telemetry_db"

pub then-value :
    {A B : Type 0} (m : Method A) (f : A → Method B) (s : Http) (a : A) (s' : Http)
    → m s ≡ (value a, s')
    → (m >>= f) s ≡ f a s'
unfolding ◌>>=◌ continue
then-value m f s a s' e = ap (continue f) e

pub then-error :
    {A B : Type 0} (m : Method A) (f : A → Method B) (s : Http) (what : List ℕ) (s' : Http)
    → m s ≡ (runtime_error what, s')
    → (m >>= f) s ≡ (runtime_error what, s')
unfolding ◌>>=◌ continue
then-error m f s what s' e = ap (continue f) e

-- What a request comes to, with its body if it is taken.
abbrev pub answer : {A : Type 0} → Option (List ℕ) → A → Try A
answer none a = value a
answer (some what) a = runtime_error what

-- What is lost with an exception.
abbrev pub lost : Option (List ℕ) → ℕ
lost none = 0
lost (some what) = 1

abbrev pub outcome : Option (List ℕ) → Try Unit
outcome o = answer o tt

module _ (strerror : ℕ → List ℕ) (escape : List ℕ → Option (List ℕ))
    (perform : ℕ → Handle → Reply) where
  -- What the server's answer to request `n` is taken for.
  abbrev pub treated : ℕ → Handle → Option (List ℕ)
  treated n handle =
      treat_curl_response strerror (perform n handle).response (perform n handle).response_code

  pub request-answer :
      {A : Type 0} (handle : Handle) (s : Http) (f : List (List ℕ) → A) (o : Option (List ℕ))
      → treated (length s.requests) handle ≡ o
      → (request 0 strerror escape perform handle >>= λ body. lift (value (f body))) s ≡ (
        answer o (f (perform (length s.requests) handle).body),
        record s { requests = s.requests ++ (handle ∷ []) },
      )
  unfolding request lift
  request-answer handle s f none e =
      let s' = record s { requests = s.requests ++ (handle ∷ []) } in
      let body = (perform (length s.requests) handle).body in
      then-value (request 0 strerror escape perform handle) (λ b. lift (value (f b))) s body s'
        (rw (e, request) refl)
  request-answer handle s f (some what) e =
      let s' = record s { requests = s.requests ++ (handle ∷ []) } in
      then-error (request 0 strerror escape perform handle) (λ b. lift (value (f b))) s what s'
        (rw (e, request) refl)

  -- A handle of its own is freed if the request is taken, and lost otherwise.
  pub request-freed :
      (handle : Handle) (s : Http) (o : Option (List ℕ))
      → treated (length s.requests) handle ≡ o
      → (request 0 strerror escape perform handle >>= λ body.
            modify (λ s'. record s' { handles = s'.handles - 1 }))
          (record s { handles = s.handles + 1 })
        ≡ (
          outcome o,
          record s { requests = s.requests ++ (handle ∷ []); handles = s.handles + lost o },
        )
  unfolding request modify
  request-freed handle s none e =
      let s' = record s { requests = s.requests ++ (handle ∷ []); handles = s.handles + 1 } in
      let body = (perform (length s.requests) handle).body in
      then-value (request 0 strerror escape perform handle)
        (λ b. modify (λ x. record x { handles = x.handles - 1 }))
        (record s { handles = s.handles + 1 }) body s' (rw (e, request) refl)
      ∙ ap (λ n. (value tt, record s { requests = s.requests ++ (handle ∷ []); handles = n }))
          (omega arith)
  request-freed handle s (some what) e =
      let s' = record s { requests = s.requests ++ (handle ∷ []); handles = s.handles + 1 } in
      then-error (request 0 strerror escape perform handle)
        (λ b. modify (λ x. record x { handles = x.handles - 1 }))
        (record s { handles = s.handles + 1 }) what s' (rw (e, request) refl)
