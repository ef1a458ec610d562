-- ===== src/Filter/Tests.antt =====
-- Two rules.
use int_platform_dpdk.Base.{
  ℕ, ◌≡◌, refl, ap, ◌∙◌, List, [], ◌∷◌, ◌++◌, append_assoc, map, true, some, none, inl, arith,
  if◌then◌else◌, ◌==◌,
}
use int_platform_dpdk.Text.{codes, show_ℕ}
use int_platform_dpdk.Text.Pieces.{lacks, pieces, join, all_lack, pieces-join}
use int_platform_dpdk.Text.Numbers.{number, number-show_ℕ, lacks-show_ℕ}
use int_platform_dpdk.Samples.{sample_options}
use int_platform_dpdk.Filter.{Scanned, loaded, exited, load_flt}
use int_platform_dpdk.Filter.RoundTrip.{
  Rule, IsRule, rule_text, Scans, rule_of, file_of, load_flt_lem,
}

-- A reader of five numbers with a dot or a blank between them; of other lines it stores nothing.
abbrev dotted : List (List ℕ) → Scanned → Scanned
dotted (a ∷ b ∷ c ∷ d ∷ p ∷ rest) before = record {
  byte_3 = number a;
  byte_2 = number b;
  byte_1 = number c;
  byte_0 = number d;
  port = number p;
}
dotted (a ∷ b ∷ c ∷ d ∷ []) before = before
dotted (a ∷ b ∷ c ∷ []) before = before
dotted (a ∷ b ∷ []) before = before
dotted (a ∷ []) before = before
dotted [] before = before

abbrev blank_to_dot : List ℕ → List ℕ
blank_to_dot [] = []
blank_to_dot (c ∷ cs) = (if c == b' ' then b'.' else c) ∷ blank_to_dot cs

abbrev scan : List ℕ → Scanned → Scanned
scan line before = dotted (pieces b'.' (blank_to_dot line)) before

blank_to_dot-append :
    (xs ys : List ℕ) → blank_to_dot (xs ++ ys) ≡ blank_to_dot xs ++ blank_to_dot ys
blank_to_dot-append [] ys = refl
blank_to_dot-append (x ∷ xs) ys =
    ap (λ l. (if x == b' ' then b'.' else x) ∷ l) (blank_to_dot-append xs ys)

blank_to_dot-lacks : (xs : List ℕ) → lacks b' ' xs ≡ true → blank_to_dot xs ≡ xs
unfolding lacks
blank_to_dot-lacks [] h = refl
blank_to_dot-lacks (x ∷ xs) h = ground (arith, h, blank_to_dot-lacks xs)

number_kept : (n : ℕ) → blank_to_dot (show_ℕ n) ≡ show_ℕ n
number_kept n = blank_to_dot-lacks (show_ℕ n) (lacks-show_ℕ b' ' (inl (omega arith)) n)

no_dot : (n : ℕ) → lacks b'.' (show_ℕ n) ≡ true
no_dot n = lacks-show_ℕ b'.' (inl (omega arith)) n

numbers : Rule → List (List ℕ)
numbers r = show_ℕ r.first ∷ show_ℕ r.second ∷ show_ℕ r.third ∷ show_ℕ r.fourth ∷ show_ℕ r.port ∷ []

dots : (r : Rule) → blank_to_dot (rule_text r) ≡ join b'.' (numbers r)
unfolding rule_text join numbers
dots r = simp (blank_to_dot-append, number_kept, append_assoc) refl

all_lack-numbers : (r : Rule) → all_lack b'.' (numbers r) ≡ true
unfolding all_lack numbers
all_lack-numbers r = simp (no_dot) refl

scan-Scans : Scans scan
unfolding numbers
scan-Scans r before v =
    ap (λ text. dotted (pieces b'.' text) before) (dots r)
    ∙ ap (λ ps. dotted ps before) (pieces-join b'.' (show_ℕ r.first) _ (all_lack-numbers r))
    ∙ rw
        (
          number-show_ℕ r.first (omega (arith, v.first)),
          number-show_ℕ r.second (omega (arith, v.second)),
          number-show_ℕ r.third (omega (arith, v.third)),
          number-show_ℕ r.fourth (omega (arith, v.fourth)),
          number-show_ℕ r.port (omega (arith, v.port)),
        )
        refl

abbrev web : Rule
web = record { first = 10; second = 0; third = 0; fourth = 1; port = 80 }

abbrev secure : Rule
secure = record { first = 192; second = 168; third = 1; fourth = 20; port = 8443 }

-- What the variables hold by chance.
abbrev garbage : ℕ → Scanned
garbage n = record { byte_3 = n; byte_2 = 1; byte_1 = 2; byte_0 = 3; port = 4 }

web-IsRule : IsRule web
web-IsRule = record {
  first = omega arith;
  second = omega arith;
  third = omega arith;
  fourth = omega arith;
  port = omega arith;
}

secure-IsRule : IsRule secure
secure-IsRule = record {
  first = omega arith;
  second = omega arith;
  third = omega arith;
  fourth = omega arith;
  port = omega arith;
}

load_flt_lem_example :
    ((arrays : List (List ℕ)) × (load_flt scan garbage
          (some (file_of (web ∷ secure ∷ []) true))
          sample_options
        ≡ loaded (record sample_options { ip_flt = sample_options.ip_flt ++ arrays }))
      × (map rule_of arrays ≡ map some (web ∷ secure ∷ [])))
    × (load_flt scan garbage none sample_options ≡ exited 1)
load_flt_lem_example =
    load_flt_lem scan garbage scan-Scans web (secure ∷ []) true sample_options
      (web-IsRule, (secure-IsRule, tt))

file_test : file_of (web ∷ secure ∷ []) true ≡ codes "10.0.0.1 80\n192.168.1.20 8443\n"
unfolding rule_text show_ℕ join
file_test = refl
