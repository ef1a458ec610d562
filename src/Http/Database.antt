-- ===== src/Http/Database.antt =====
-- The URLs of the database that http_sender names.
use int_platform_dpdk.Base.{
  ℕ, zero, suc, ◌+◌, ◌/◌, ◌%◌, ◌≡◌, ◌<◌, sym, ap, ◌∙◌, List, [], ◌∷◌, ◌++◌, append_assoc, arith,
  ltb, ltb→lt, ◌==◌, Bool-cases, inl, inr, false,
}
use int_platform_dpdk.Text.{codes, digits, show_ℕ}
use int_platform_dpdk.Types.{Options}
use int_platform_dpdk.Http.{value, write_url, service_url, database_url}
use int_platform_dpdk.Http.Urls.{Free, urls_lem}

-- The text up to the port.
abbrev pub server_url : Options → List ℕ
server_url opt = opt.protocol ++ codes "://" ++ opt.host ++ codes ":" ++ show_ℕ opt.port

Free-append : (c : ℕ) (xs ys : List ℕ) → Free c xs → Free c ys → Free c (xs ++ ys)
Free-append c [] ys f g = g
Free-append c (x ∷ xs) ys (ne, f) g = (ne, Free-append c xs ys f g)

digits-Free : (c : ℕ) → 58 < c → (k n : ℕ) → Free c (digits k n)
unfolding digits
digits-Free c above zero n = tt
digits-Free c above (suc k) n = elim (Bool-cases (ltb n 10)) [
  | inl e ↦ rw e (λ p. absurd (omega (arith, ltb→lt n 10 e)), tt)
  | inr e ↦ rw e (
      Free-append c (digits k (n / 10)) ((b'0' + n % 10) ∷ []) (digits-Free c above k (n / 10))
        (λ p. absurd (omega arith), tt))
]

-- The last digit.
digits_end :
    (k n : ℕ)
    → (init : List ℕ) × (d : ℕ) × (digits (suc k) n ≡ init ++ (d ∷ [])) × ((d == b'/') ≡ false)
unfolding digits
digits_end k n = elim (Bool-cases (ltb n 10)) [
  | inl e ↦ ([], b'0' + n, rw e, ground arith)
  | inr e ↦ (digits k (n / 10), b'0' + n % 10, rw e, ground arith)
]

-- Up to the colon before the port.
abbrev before_port : Options → List ℕ
before_port opt = opt.protocol ++ codes "://" ++ opt.host ++ codes ":"

module _ (opt : Options) (c : ℕ) (above : 58 < c) (free_protocol : Free c opt.protocol)
    (free_host : Free c opt.host) where
  before_port-Free : Free c (before_port opt)
  before_port-Free =
      Free-append c (opt.protocol ++ codes "://" ++ opt.host) (codes ":")
        (Free-append c (opt.protocol ++ codes "://") opt.host
          (Free-append c opt.protocol (codes "://") free_protocol (
            (λ p. absurd (omega arith)),
            ((λ p. absurd (omega arith)), ((λ p. absurd (omega arith)), tt)),
          ))
          free_host)
        ((λ p. absurd (omega arith)), tt)

  pub server_url-Free : Free c (server_url opt)
  unfolding show_ℕ
  server_url-Free =
      Free-append c (before_port opt) (digits 20 opt.port) before_port-Free
        (digits-Free c above 20 opt.port)

-- The text up to the port, as a text with a last digit.
pub server_url_ends :
    (opt : Options)
    → Free b'?' opt.protocol
    → Free b'?' opt.host
    → (init : List ℕ) × (d : ℕ) × (server_url opt ≡ init ++ (d ∷ []))
      × ((d == b'/') ≡ false)
      × Free b'?' (init ++ (d ∷ []))
unfolding show_ℕ
server_url_ends opt free_protocol free_host =
    let (init, d, split, not_slash) = digits_end 19 opt.port in
    let whole : server_url opt ≡ (before_port opt ++ init) ++ (d ∷ []) =
      ap (λ l. before_port opt ++ l) split ∙ sym (append_assoc (before_port opt) init (d ∷ [])) in
    (
      before_port opt ++ init,
      d,
      whole,
      not_slash,
      rw (← whole) (server_url-Free opt b'?' (omega arith) free_protocol free_host),
    )

-- For a protocol and a host without a question mark, the transport of http_sender writes to the path
-- "/write" of the host and port, with the database int_telemetry_db as its query, and the URL of the
-- service is the protocol, host and port alone.
pub database_url_lem :
    (opt : Options)
    → Free b'?' opt.protocol
    → Free b'?' opt.host
    → (write_url (database_url opt) ≡ value (server_url opt ++ codes "/write?db=int_telemetry_db"))
      × (service_url (database_url opt) ≡ value (server_url opt))
unfolding database_url
database_url_lem opt free_protocol free_host =
    let (init, d, whole, not_slash, free) = server_url_ends opt free_protocol free_host in
    let (write, service) = urls_lem init d (codes "db=int_telemetry_db") free in
    let slashless : (init ++ (d ∷ [])) ≡ server_url opt = sym whole in
    (
      ap (λ l. write_url (l ++ codes "?db=int_telemetry_db")) whole
          ∙ write
          ∙ rw (not_slash) (
              ap value (
                append_assoc (init ++ (d ∷ [])) (codes "/write") (codes "?db=int_telemetry_db")
                ∙ ap (λ l. l ++ codes "/write?db=int_telemetry_db") slashless)),
      ap (λ l. service_url (l ++ codes "?db=int_telemetry_db")) whole
          ∙ service
          ∙ rw (not_slash) (ap value slashless),
    )
