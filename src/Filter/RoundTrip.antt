-- ===== src/Filter/RoundTrip.antt =====
-- The rules of a file, and what is got back from the bytes that load_flt keeps of them.
use int_platform_dpdk.Base.{
  ℕ, ◌+◌, ◌*◌, ◌^◌, ◌<◌, ◌≡◌, refl, sym, ap, ap₂, ◌∙◌, List, [], ◌∷◌, ◌++◌, append_assoc,
  append-nil, map, Bool, true, false, Option, none, some, if◌then◌else◌, arith, inl,
}
use int_platform_dpdk.Text.{codes, show_ℕ}
use int_platform_dpdk.Text.Pieces.{
  lacks, lacks-append, pieces, pieces_first, join, all_lack, pieces-join,
}
use int_platform_dpdk.Text.Numbers.{lacks-show_ℕ}
use int_platform_dpdk.Types.{Options}
use int_platform_dpdk.Filter.{Scanned, loaded, exited, get_lines, array_of, load_lines, load_flt}

-- An address, its numbers from the left, and a port.
pub record Rule : Type 0 where
  pub first : ℕ
  pub second : ℕ
  pub third : ℕ
  pub fourth : ℕ
  pub port : ℕ

pub record IsRule (r : Rule) : Type 0 where
  pub first : r.first < 256
  pub second : r.second < 256
  pub third : r.third < 256
  pub fourth : r.fourth < 256
  pub port : r.port < 2 ^ 16

abbrev pub AllRules : List Rule → Type 0
AllRules [] = Unit
AllRules (r ∷ rules) = IsRule r × AllRules rules

-- The rule as a line, "10.0.0.1 80".
unfoldable pub rule_text : Rule → List ℕ
rule_text r =
    show_ℕ r.first
    ++ (b'.' ∷ show_ℕ r.second)
    ++ (b'.' ∷ show_ℕ r.third)
    ++ (b'.' ∷ show_ℕ r.fourth)
    ++ (b' ' ∷ show_ℕ r.port)

-- The variables that the numbers of a rule are to be stored in.
abbrev pub scanned : Rule → Scanned
scanned r = record {
  byte_3 = r.first;
  byte_2 = r.second;
  byte_1 = r.third;
  byte_0 = r.fourth;
  port = r.port;
}

-- What is documented of sscanf on a line of the format.
abbrev pub Scans : (List ℕ → Scanned → Scanned) → Type 0
Scans sscanf = (r : Rule) (before : Scanned) → IsRule r → sscanf (rule_text r) before ≡ scanned r

-- The rule that six bytes stand for: the address in the order of the host, then the port.
unfoldable pub rule_of : List ℕ → Option Rule
rule_of (b0 ∷ b1 ∷ b2 ∷ b3 ∷ low ∷ high ∷ rest) =
    some (record { first = b3; second = b2; third = b1; fourth = b0; port = low + 256 * high })
rule_of (b0 ∷ b1 ∷ b2 ∷ b3 ∷ low ∷ []) = none
rule_of (b0 ∷ b1 ∷ b2 ∷ b3 ∷ []) = none
rule_of (b0 ∷ b1 ∷ b2 ∷ []) = none
rule_of (b0 ∷ b1 ∷ []) = none
rule_of (b0 ∷ []) = none
rule_of [] = none

-- A file of rules, one a line; the last line with or without its end.
abbrev pub file_of : List Rule → Bool → List ℕ
file_of rules ended = join b'\n' (map rule_text rules) ++ (if ended then codes "\n" else [])

rule_of-array_of : (r : Rule) → IsRule r → rule_of (array_of (scanned r)) ≡ some r
unfolding rule_of array_of
rule_of-array_of r v =
    ap
      (λ p. some (record {
        first = r.first;
        second = r.second;
        third = r.third;
        fourth = r.fourth;
        port = p;
      }))
      (omega (arith, v.port))

lacks-rule_text : (r : Rule) → lacks b'\n' (rule_text r) ≡ true
unfolding rule_text lacks
lacks-rule_text r = simp (lacks-append, lacks-show_ℕ b'\n' (inl (omega arith))) (ground arith)

all_lack-rules : (rules : List Rule) → all_lack b'\n' (map rule_text rules) ≡ true
unfolding all_lack
all_lack-rules [] = refl
all_lack-rules (r ∷ rules) = ground (arith, lacks-rule_text r, all_lack-rules rules)

-- A text that is not empty.
abbrev Filled : List ℕ → Type 0
Filled text = (c : ℕ) × (cs : List ℕ) × (text ≡ c ∷ cs)

append-Filled : (xs : List ℕ) (c : ℕ) (ys : List ℕ) → Filled (xs ++ (c ∷ ys))
append-Filled [] c ys = (c, ys, refl)
append-Filled (x ∷ xs) c ys = (x, xs ++ (c ∷ ys), refl)

rule_text-Filled : (r : Rule) → Filled (rule_text r)
unfolding rule_text
rule_text-Filled r = append-Filled _ b' ' (show_ℕ r.port)

last_line : (x : List ℕ) → Filled x → get_lines (x ∷ []) ≡ x ∷ []
unfolding get_lines
last_line x (c, cs, e) = ap (λ l. get_lines (l ∷ [])) e ∙ ap (λ l. l ∷ []) (sym e)

get_lines-open :
    (r : Rule) (rules : List Rule)
    → get_lines (map rule_text (r ∷ rules)) ≡ map rule_text (r ∷ rules)
unfolding get_lines
get_lines-open r [] = last_line (rule_text r) (rule_text-Filled r)
get_lines-open r (q ∷ rules) = ap (λ l. rule_text r ∷ l) (get_lines-open q rules)

get_lines-ended : (x : List ℕ) (xs : List (List ℕ)) → get_lines ((x ∷ xs) ++ ([] ∷ [])) ≡ x ∷ xs
unfolding get_lines
get_lines-ended x [] = refl
get_lines-ended x (y ∷ xs) = ap (λ l. x ∷ l) (get_lines-ended y xs)

pieces-ended :
    (c : ℕ) (x : List ℕ) (xs : List (List ℕ))
    → all_lack c (x ∷ xs) ≡ true
    → pieces c (join c (x ∷ xs) ++ (c ∷ [])) ≡ (x ∷ xs) ++ ([] ∷ [])
unfolding join all_lack pieces
pieces-ended c x [] h = pieces_first c x [] (ground (arith, h))
pieces-ended c x (y ∷ xs) h =
    ap (pieces c) (append_assoc x (c ∷ join c (y ∷ xs)) (c ∷ []))
    ∙ pieces_first c x (join c (y ∷ xs) ++ (c ∷ [])) (ground (arith, h))
    ∙ ap (λ l. x ∷ l) (pieces-ended c y xs (ground (arith, h)))

-- The lines of the file are the rules.
file_lines :
    (r : Rule) (rules : List Rule) (ended : Bool)
    → get_lines (pieces b'\n' (file_of (r ∷ rules) ended)) ≡ map rule_text (r ∷ rules)
file_lines r rules true =
    ap get_lines
      (pieces-ended b'\n' (rule_text r) (map rule_text rules) (all_lack-rules (r ∷ rules)))
    ∙ get_lines-ended (rule_text r) (map rule_text rules)
file_lines r rules false =
    ap (λ text. get_lines (pieces b'\n' text)) (append-nil (join b'\n' (map rule_text (r ∷ rules))))
    ∙ ap get_lines
        (pieces-join b'\n' (rule_text r) (map rule_text rules) (all_lack-rules (r ∷ rules)))
    ∙ get_lines-open r rules

module _ (sscanf : List ℕ → Scanned → Scanned) (stack : ℕ → Scanned) (scans : Scans sscanf) where
  load_lines_lem :
      (n : ℕ) (rules : List Rule) (opt : Options)
      → AllRules rules
      → load_lines sscanf stack n (map rule_text rules) opt
        ≡ record opt { ip_flt = opt.ip_flt ++ map (λ r. array_of (scanned r)) rules }
  unfolding load_lines
  load_lines_lem n [] opt all = ap (λ l. record opt { ip_flt = l }) (sym (append-nil opt.ip_flt))
  load_lines_lem n (r ∷ rules) opt (v, all) =
      ap
        (λ s.
          load_lines sscanf stack (n + 1) (map rule_text rules)
            (record opt { ip_flt = opt.ip_flt ++ (array_of s ∷ []) }))
        (scans r (stack n) v)
      ∙ load_lines_lem (n + 1) rules
          (record opt { ip_flt = opt.ip_flt ++ (array_of (scanned r) ∷ []) }) all
      ∙ ap (λ l. record opt { ip_flt = l })
          (append_assoc opt.ip_flt (array_of (scanned r) ∷ [])
            (map (λ q. array_of (scanned q)) rules))

  arrays-rules :
      (rules : List Rule)
      → AllRules rules
      → map rule_of (map (λ r. array_of (scanned r)) rules) ≡ map some rules
  arrays-rules [] all = refl
  arrays-rules (r ∷ rules) (v, all) =
      ap₂ (λ o os. o ∷ os) (rule_of-array_of r v) (arrays-rules rules all)

  -- For a sscanf that reads a line of the format, "10.0.0.1 80" with numbers of 8 and 16 bits, whatever the
  -- variables held: from a file of one or more such rules, one a line and the last line with or without
  -- its end, load_flt adds to the filter, behind the rules that it had, one array of six bytes for each
  -- rule, in order, from which the rule can be got back: four bytes of the address, the lowest first,
  -- and the port's two bytes. It changes no other option. Without a file the program exits with 1.
  pub load_flt_lem :
      (r : Rule) (rules : List Rule) (ended : Bool) (opt : Options)
      → AllRules (r ∷ rules)
      → ((arrays : List (List ℕ)) × (load_flt sscanf stack (some (file_of (r ∷ rules) ended)) opt
            ≡ loaded (record opt { ip_flt = opt.ip_flt ++ arrays }))
          × (map rule_of arrays ≡ map some (r ∷ rules)))
        × (load_flt sscanf stack none opt ≡ exited 1)
  unfolding load_flt
  load_flt_lem r rules ended opt all = (
    (
      map (λ q. array_of (scanned q)) (r ∷ rules),
      ap (λ lines. loaded (load_lines sscanf stack 0 lines opt)) (file_lines r rules ended)
          ∙ ap loaded (load_lines_lem 0 (r ∷ rules) opt all),
      arrays-rules (r ∷ rules) all,
    ),
    refl,
  )
