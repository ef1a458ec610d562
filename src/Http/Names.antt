-- ===== src/Http/Names.antt =====
-- The URL for queries and the name of the database, of the URL that http_sender makes.
use int_platform_dpdk.Base.{
  ℕ, suc, ◌+◌, ◌≡◌, refl, sym, ap, ◌∙◌, List, [], ◌∷◌, ◌++◌, append_assoc, length, length-append,
  arith, false, some, ◌==◌, if◌then◌else◌, drop, ltb,
}
use int_platform_dpdk.Text.{codes}
use int_platform_dpdk.Types.{Options}
use int_platform_dpdk.Http.{
  value, find, insert, at_before, read_url, starts_with, find_text, substr, database_name,
  database_url,
}
use int_platform_dpdk.Http.Urls.{Free, take-append, drop-append, at_last, find_first}
use int_platform_dpdk.Http.Database.{server_url, server_url_ends, server_url-Free}

read_url-at :
    (url : List ℕ) (position c : ℕ)
    → find b'?' (url ++ codes "&q=") ≡ some position
    → at_before position (url ++ codes "&q=") ≡ some c
    → read_url url
      ≡ value (
          insert position
            (if c == b'/' then codes "query" else codes "/query")
            (url ++ codes "&q="))
unfolding read_url
read_url-at url position c found before = ground (arith, found, before)

read_url_lem :
    (init : List ℕ) (c : ℕ) (rest : List ℕ)
    → Free b'?' (init ++ (c ∷ []))
    → read_url ((init ++ (c ∷ [])) ++ (b'?' ∷ rest))
      ≡ value (
          (init ++ (c ∷ []))
          ++ (if c == b'/' then codes "query" else codes "/query")
          ++ (b'?' ∷ (rest ++ codes "&q=")))
unfolding insert
read_url_lem init c rest free =
    let base = init ++ (c ∷ []) in
    let tail = b'?' ∷ (rest ++ codes "&q=") in
    let whole : (base ++ (b'?' ∷ rest)) ++ codes "&q=" ≡ base ++ tail =
      append_assoc base (b'?' ∷ rest) (codes "&q=") in
    read_url-at (base ++ (b'?' ∷ rest)) (length base) c
      (ap (find b'?') whole ∙ find_first b'?' base (rest ++ codes "&q=") free)
      (ap (at_before (length base)) whole ∙ at_last init c tail)
    ∙ rw (whole, take-append base tail, drop-append base tail) refl

module _ (opt : Options) (free_protocol : Free b'?' opt.protocol)
    (free_host : Free b'?' opt.host) where
  pub read_url-database_url :
      read_url (database_url opt) ≡ value (server_url opt ++ codes "/query?db=int_telemetry_db&q=")
  unfolding database_url
  read_url-database_url =
      let (init, d, whole, not_slash, free) = server_url_ends opt free_protocol free_host in
      ap (λ l. read_url (l ++ codes "?db=int_telemetry_db")) whole
      ∙ read_url_lem init d (codes "db=int_telemetry_db") free
      ∙ rw (not_slash) (
          ap value (
            append_assoc (init ++ (d ∷ [])) (codes "/query") (codes "?db=int_telemetry_db&q=")
            ∙ ap (λ l. l ++ codes "/query?db=int_telemetry_db&q=") (sym whole)))

-- Without an equals sign before the question mark, "db=" is first found behind it.
not_yet :
    (xs rest : List ℕ) → Free b'=' xs → starts_with (codes "db=") (xs ++ (b'?' ∷ rest)) ≡ false
unfolding starts_with
not_yet [] rest free = refl
not_yet (x ∷ []) rest free = ground arith
not_yet (x ∷ y ∷ []) rest free = ground arith
not_yet (x ∷ y ∷ z ∷ xs) rest (nx, (ny, (nz, free))) = ground arith

find_name :
    (xs rest : List ℕ)
    → Free b'=' xs
    → find_text (codes "db=") (xs ++ (b'?' ∷ (codes "db=" ++ rest))) ≡ some (length xs + 1)
unfolding find_text starts_with
find_name [] rest free = refl
find_name (x ∷ xs) rest (nx, free) =
    rw (not_yet (x ∷ xs) (codes "db=" ++ rest) (nx, free), find_name xs rest free)
      (ap some (omega arith))

drop-past : (xs rest : List ℕ) → drop (length xs + 4) (xs ++ (b'?' ∷ (codes "db=" ++ rest))) ≡ rest
drop-past [] rest = refl
drop-past (x ∷ xs) rest =
    let more : length (x ∷ xs) + 4 ≡ suc (length xs + 4) = omega arith in
    rw (more) (drop-past xs rest)

database_name-at :
    (xs rest : List ℕ)
    → Free b'=' xs
    → database_name (xs ++ (b'?' ∷ (codes "db=" ++ rest))) ≡ value rest
unfolding database_name substr
database_name-at xs rest free =
    let url = xs ++ (b'?' ∷ (codes "db=" ++ rest)) in
    let far : length xs + 1 + 3 ≡ length xs + 4 = omega arith in
    let fits : ltb (length url) (length xs + 4) ≡ false =
      ground (arith, length-append xs (b'?' ∷ (codes "db=" ++ rest))) in
    rw (find_name xs rest free, database_name) (rw (far, fits) (ap value (drop-past xs rest)))

module _ (opt : Options) (free_protocol : Free b'=' opt.protocol)
    (free_host : Free b'=' opt.host) where
  pub database_name-database_url :
      database_name (database_url opt) ≡ value (codes "int_telemetry_db")
  unfolding database_url database_name substr
  database_name-database_url =
      let name = codes "int_telemetry_db" in
      let free = server_url-Free opt b'=' (omega arith) free_protocol free_host in
      database_name-at (server_url opt) name free
