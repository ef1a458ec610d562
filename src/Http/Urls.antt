-- ===== src/Http/Urls.antt =====
-- The URLs of a URL with a question mark.
use int_platform_dpdk.Base.{
  ℕ, ◌-◌, ◌≡◌, ◌≢◌, refl, ap, ◌∙◌, List, [], ◌∷◌, ◌++◌, append_assoc, some, take, drop, get_elem?,
  length, length-snoc, arith, ◌==◌, if◌then◌else◌,
}
use int_platform_dpdk.Text.{codes}
use int_platform_dpdk.Http.{value, find, insert, at_before, write_url, service_url}

-- The character is nowhere in the text.
abbrev pub Free : ℕ → List ℕ → Type 0
Free c [] = Unit
Free c (d ∷ text) = (d ≢ c) × Free c text

pub find_first :
    (c : ℕ) (base rest : List ℕ) → Free c base → find c (base ++ (c ∷ rest)) ≡ some (length base)
unfolding find
find_first c [] rest free = ground arith
find_first c (d ∷ base) rest (ne, free) = rw (find_first c base rest free) (ground arith)

pub take-append : (base rest : List ℕ) → take (length base) (base ++ rest) ≡ base
take-append [] rest = refl
take-append (d ∷ base) rest = ap (λ l. d ∷ l) (take-append base rest)

pub drop-append : (base rest : List ℕ) → drop (length base) (base ++ rest) ≡ rest
drop-append [] rest = refl
drop-append (d ∷ base) rest = drop-append base rest

get_elem?-middle :
    (init rest : List ℕ) (c : ℕ) → get_elem? (init ++ (c ∷ rest)) (length init) ≡ some c
get_elem?-middle [] rest c = refl
get_elem?-middle (d ∷ init) rest c = get_elem?-middle init rest c

pub at_last :
    (init : List ℕ) (c : ℕ) (rest : List ℕ)
    → at_before (length (init ++ (c ∷ []))) ((init ++ (c ∷ [])) ++ rest) ≡ some c
unfolding at_before
at_last init c rest =
    rw (length-snoc init c, append_assoc init (c ∷ []) rest) (get_elem?-middle init rest c)

take_init :
    (init : List ℕ) (c : ℕ) (rest : List ℕ)
    → take (length (init ++ (c ∷ [])) - 1) ((init ++ (c ∷ [])) ++ rest) ≡ init
take_init init c rest =
    let short : length (init ++ (c ∷ [])) - 1 ≡ length init = omega (arith, length-snoc init c) in
    rw (short, append_assoc init (c ∷ []) rest) (take-append init (c ∷ rest))

-- The two functions once the characters are found.
write_url-at :
    (url : List ℕ) (position c : ℕ)
    → find b'?' url ≡ some position
    → at_before position url ≡ some c
    → write_url url
      ≡ value (insert position (if c == b'/' then codes "write" else codes "/write") url)
unfolding write_url
write_url-at url position c found before = ground (arith, found, before)

service_url-at :
    (url : List ℕ) (position c : ℕ)
    → find b'?' url ≡ some position
    → at_before position url ≡ some c
    → service_url url ≡ value (if c == b'/' then take (position - 1) url else take position url)
unfolding service_url
service_url-at url position c found before = ground (arith, found, before)

module _ (init : List ℕ) (c : ℕ) (rest : List ℕ) (free : Free b'?' (init ++ (c ∷ []))) where
  -- Of a URL whose part before the first question mark is `init` with a last character `c` behind it,
  -- the URL for writing has "/write" between that part and the question mark, or "write" if `c` is a
  -- slash; and the URL of the service is that part, less `c` if it is a slash.
  pub urls_lem :
      let url = (init ++ (c ∷ [])) ++ (b'?' ∷ rest) in
      (write_url url
        ≡ value (
            (init ++ (c ∷ []))
            ++ (if c == b'/' then codes "write" else codes "/write")
            ++ (b'?' ∷ rest)))
      × (service_url url ≡ value (if c == b'/' then init else init ++ (c ∷ [])))
  unfolding write_url service_url insert
  urls_lem =
      let base = init ++ (c ∷ []) in
      let question = b'?' ∷ rest in
      let found = find_first b'?' base rest free in
      (
        write_url-at (base ++ question) (length base) c found (at_last init c question)
            ∙ rw (take-append base question, drop-append base question),
        service_url-at (base ++ question) (length base) c found (at_last init c question)
            ∙ rw (take-append base question, take_init init c question),
      )
