-- ===== src/Http.antt =====
-- int_t4p4s_dpdk/p4int_influxdb/HTTP.cc: the URLs that the HTTP transport makes of the one that it is
-- given, and what it takes for a failure. libcurl is a parameter: for the number and the text of a
-- call, its code (CURLE_OK is 0) and the response code; and the text of curl_easy_strerror.
pub mod Urls
pub mod Database
pub mod Responses
pub mod Handle
pub mod Client
pub mod Requests
pub mod Names
pub mod Posts
pub mod Queries
pub mod Lifetime
mod Tests
use int_platform_dpdk.Base.{
  ℕ, zero, suc, ◌+◌, ◌-◌, ◌^◌, ◌%◌, length, List, [], ◌∷◌, ◌++◌, Bool, true, false, not, ◌&&◌,
  Option, none, some, take, drop, get_elem?, ltb, leb, ◌==◌, if◌then◌else◌,
}
use int_platform_dpdk.Text.{codes, show_ℕ}
use int_platform_dpdk.Types.{Options}

-- A value; a std::runtime_error; the std::out_of_range that `at` and `substr` throw; or an index outside
-- a text, at which nothing is defined.
pub data Try (A : Type 0) : Type 0 where
  value : A → Try A
  runtime_error : List ℕ → Try A
  out_of_range : Try A
  undefined : Try A

-- `find` of one character.
unfoldable pub find : ℕ → List ℕ → Option ℕ
find c [] = none
find c (d ∷ text) =
    if d == c then some 0 else elim (find c text) [ none ↦ none | some i ↦ some (suc i) ]

-- `insert` of a text at a position inside.
unfoldable pub insert : ℕ → List ℕ → List ℕ → List ℕ
insert i piece text = take i text ++ piece ++ drop i text

-- The character at `position - 1`; for position 0 that is 2 ^ 64 - 1, which no text reaches.
unfoldable pub at_before : ℕ → List ℕ → Option ℕ
at_before zero text = none
at_before (suc i) text = get_elem? text i

-- http_sender: the URL of the database.
unfoldable pub database_url : Options → List ℕ
database_url opt =
    opt.protocol
    ++ codes "://"
    ++ opt.host
    ++ codes ":"
    ++ show_ℕ opt.port
    ++ codes "?db=int_telemetry_db"

-- initCurl, up to the handle.
unfoldable pub write_url : List ℕ → Try (List ℕ)
write_url url = elim (find b'?' url) [
  | none ↦ runtime_error (codes "Database not specified")
  | some position ↦ elim (at_before position url) [
    | none ↦ out_of_range
    | some c ↦ value (insert position (if c == b'/' then codes "write" else codes "/write") url)
  ]
]

-- obtainInfluxServiceUrl, of a URL with a question mark.
unfoldable pub service_url : List ℕ → Try (List ℕ)
service_url url = elim (find b'?' url) [
  | none ↦ out_of_range
  | some position ↦ elim (at_before position url) [
    | none ↦ out_of_range
    | some c ↦ value (if c == b'/' then take (position - 1) url else take position url)
  ]
]

-- initCurlRead: mReadUrl, with an index that is not checked.
unfoldable pub read_url : List ℕ → Try (List ℕ)
read_url url =
    let whole = url ++ codes "&q=" in
    elim (find b'?' whole) [
      | none ↦ undefined
      | some pos ↦ elim (at_before pos whole) [
        | none ↦ undefined
        | some c ↦ value (insert pos (if c == b'/' then codes "query" else codes "/query") whole)
      ]
    ]

unfoldable pub starts_with : List ℕ → List ℕ → Bool
starts_with [] text = true
starts_with (c ∷ piece) [] = false
starts_with (c ∷ piece) (d ∷ text) = c == d && starts_with piece text

-- `find` of a text.
unfoldable pub find_text : List ℕ → List ℕ → Option ℕ
unfolding starts_with
find_text piece [] = if starts_with piece [] then some 0 else none
find_text piece (d ∷ text) =
    if starts_with piece (d ∷ text)
    then some 0
    else elim (find_text piece text) [ none ↦ none | some i ↦ some (suc i) ]

-- `substr` from a position on.
unfoldable pub substr : ℕ → List ℕ → Try (List ℕ)
substr pos text = if ltb (length text) pos then out_of_range else value (drop pos text)

-- obtainDatabaseName; if there is no "db=", 3 is added to 2 ^ 64 - 1 and wraps around.
unfoldable pub database_name : List ℕ → Try (List ℕ)
unfolding find_text substr
database_name url = elim (find_text (codes "db=") url) [
  | none ↦ substr ((2 ^ 64 - 1 + 3) % 2 ^ 64) url
  | some position ↦ substr (position + 3) url
]

-- treatCurlResponse: the text that it throws.
unfoldable pub treat_curl_response : (ℕ → List ℕ) → ℕ → ℕ → Option (List ℕ)
treat_curl_response curl_easy_strerror response code =
    if not (response == 0)
    then some (curl_easy_strerror response)
    else if code == 404
    then some (codes "Nonexistent database: " ++ show_ℕ code)
    else if leb 400 code && ltb code 500
    then some (codes "Bad request: " ++ show_ℕ code)
    else if ltb 500 code
    then some (codes "Influx server error:" ++ show_ℕ code)
    else none

-- HTTP::send, by the number and the text of the call.
unfoldable pub send : (ℕ → List ℕ) → (ℕ → List ℕ → ℕ × ℕ) → ℕ → List ℕ → Option (List ℕ)
send curl_easy_strerror perform n text =
    treat_curl_response curl_easy_strerror (perform n text).0 (perform n text).1
