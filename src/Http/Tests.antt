-- ===== src/Http/Tests.antt =====
-- The HTTP transport at concrete values.
use int_platform_dpdk.Types.{Options}
use int_platform_dpdk.Base.{
  ℕ, ◌+◌, map, ◌≡◌, ◌<◌, ◌↔◌, ◌⊎◌, refl, List, [], ◌∷◌, ◌++◌, none, some, arith, ◌==◌,
  if◌then◌else◌, Option,
}
use int_platform_dpdk.Text.{codes, show_ℕ}
use int_platform_dpdk.Samples.{sample_options}
use int_platform_dpdk.Http.Handle.{Handle}
use int_platform_dpdk.Http.Client.{
  Reply, Http, uninitialized, open_socket, sends, query, create_database,
}
use int_platform_dpdk.Http.Requests.{Plain, Ready, greeting, posted, treated, lost, outcome}
use int_platform_dpdk.Http.Posts.{outcomes, sends-open_socket}
use int_platform_dpdk.Http.Queries.{query_result, created, query-open_socket}
use int_platform_dpdk.Http.{value, runtime_error, send, treat_curl_response}
use int_platform_dpdk.Http.Lifetime.{Use, sent, asked, created_database}
use int_platform_dpdk.Http.Responses.{send_succeeds_iff}
use int_platform_dpdk.Http.Urls.{Free}

-- 204 at first, then 500, then 503.
abbrev responses : ℕ → List ℕ → ℕ × ℕ
responses n text = (0, if n == 0 then 204 else if n == 1 then 500 else 503)

abbrev strerror : ℕ → List ℕ
strerror n = codes "error"

send_test : send strerror responses 2 [] ≡ some (codes "Influx server error:503")
unfolding send treat_curl_response show_ℕ
send_test = refl

send_succeeds_iff_example : (send strerror responses 1 (codes "x") ≡ none) ↔ (
    ((responses 1 (codes "x")).0 ≡ 0)
    × (((responses 1 (codes "x")).1 < 400) ⊎ ((responses 1 (codes "x")).1 ≡ 500)))
send_succeeds_iff_example = send_succeeds_iff strerror responses 1 (codes "x")

protocol_Free : Free b'?' sample_options.protocol
protocol_Free =
    ((λ p. absurd (omega arith)), ((λ p. absurd (omega arith)), ((λ p. absurd (omega arith)), tt)))

address_Free : Free b'?' (codes "10")
address_Free = ((λ p. absurd (omega arith)), ((λ p. absurd (omega arith)), tt))

abbrev short_host : Options
short_host = record sample_options { host = codes "10" }

short_host-Plain : Plain short_host
short_host-Plain = record {
  no_question = (protocol_Free, address_Free);
  no_equals = (
    ((λ p. absurd (omega arith)), ((λ p. absurd (omega arith)), ((λ p. absurd (omega arith)), tt))),
    ((λ p. absurd (omega arith)), ((λ p. absurd (omega arith)), tt)),
  );
}

-- A server that takes the first request and fails at the second one.
abbrev server : ℕ → Handle → Reply
server n handle = record {
  response = 0;
  response_code = if n == 1 then 503 else 204;
  body = codes "{}" ∷ codes "\n" ∷ [];
}

abbrev escaped : List ℕ → Option (List ℕ)
escaped text = some (codes "SHOW%20DATABASES")

abbrev three_texts : List (List ℕ)
three_texts = codes "a" ∷ codes "b" ∷ codes "c" ∷ []

sends-open_socket_example :
    ((what : List ℕ) × (s : Http) × (treated strerror escaped server 0 (greeting short_host)
        ≡ some what)
      × (open_socket 0 strerror escaped server short_host uninitialized ≡ (runtime_error what, s))
      × (s.requests ≡ greeting short_host ∷ []))
    ⊎ ((s : Http) × (treated strerror escaped server 0 (greeting short_host) ≡ none)
        × (open_socket 0 strerror escaped server short_host uninitialized ≡ (value tt, s))
        × Ready short_host s
        × ((sends 0 strerror escaped server three_texts s).0
            ≡ outcomes strerror escaped server short_host short_host-Plain 1 three_texts)
        × ((sends 0 strerror escaped server three_texts s).1.requests
            ≡ greeting short_host ∷ map (posted short_host) three_texts))
sends-open_socket_example =
    sends-open_socket strerror escaped server short_host short_host-Plain three_texts

accepted : treated strerror escaped server 0 (greeting short_host) ≡ none
unfolding treat_curl_response
accepted = refl

query-open_socket_example :
    (s : Http) × (open_socket 0 strerror escaped server short_host uninitialized ≡ (value tt, s))
    × (query 0 strerror escaped server (codes "SHOW DATABASES") s
        ≡ query_result strerror escaped server short_host short_host-Plain s
            (escaped (codes "SHOW DATABASES")))
    × (create_database 0 strerror escaped server s ≡ (
      outcome (treated strerror escaped server 1 (created short_host)),
      record s {
        requests = s.requests ++ (created short_host ∷ []);
        handles = s.handles + lost (treated strerror escaped server 1 (created short_host));
      },
    ))
query-open_socket_example =
    query-open_socket strerror escaped server short_host short_host-Plain (codes "SHOW DATABASES")
      accepted

-- The second request is the one that fails.
abbrev some_uses : List Use
some_uses =
    created_database ∷ sent (codes "a") ∷ asked (codes "SHOW DATABASES") ∷ created_database ∷ []
