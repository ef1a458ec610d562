-- ===== src/Report/Reader.antt =====
-- A reader of InfluxDB's line protocol, of the part that the program writes: lines of a measurement and
-- its tags, fields with numbers, and a timestamp, without quotes or escapes.
pub mod RoundTrip
use mathlib.Core.List.{flatten}
use int_platform_dpdk.Base.{
  ℕ, ◌≡◌, refl, sym, ap, ap₂, ◌∙◌, List, [], ◌∷◌, ◌++◌, map, append_assoc, Bool, true, false, not,
  ◌&&◌, Option, none, some, ◌==◌, if◌then◌else◌, arith, ℤ,
}
use int_platform_dpdk.Text.Pieces.{
  lacks, lacks-append, pieces, pieces_first, join, pieces-join, all_lack, lacks-join,
}
use int_platform_dpdk.Text.Numbers.{number, integer}

pub record Point : Type 0 where
  pub measurement : List ℕ
  pub tags : List (List ℕ × List ℕ)
  pub fields : List (List ℕ × ℤ)
  pub timestamp : ℕ

two : List (List ℕ) → Option (List ℕ × List ℕ)
two (k ∷ v ∷ []) = some (k, v)
two (k ∷ v ∷ w ∷ ps) = none
two (k ∷ []) = none
two [] = none

-- `key=value`.
read_pair : List ℕ → Option (List ℕ × List ℕ)
unfolding two
read_pair text = two (pieces b'=' text)

both {ℓ} : {A : Type ℓ} → Option A → Option (List A) → Option (List A)
both (some a) (some as') = some (a ∷ as')
both (some a) none = none
both none rest = none

read_pairs : List (List ℕ) → Option (List (List ℕ × List ℕ))
unfolding both read_pair
read_pairs [] = some []
read_pairs (text ∷ texts) = both (read_pair text) (read_pairs texts)

abbrev typed : List (List ℕ × List ℕ) → List (List ℕ × ℤ)
typed [] = []
typed ((k, v) ∷ ps) = (k, integer v) ∷ typed ps

point_of :
    List ℕ
    → Option (List (List ℕ × List ℕ))
    → Option (List (List ℕ × List ℕ))
    → List ℕ
    → Option Point
point_of m (some tags) (some fields) ts =
    some (record { measurement = m; tags = tags; fields = typed fields; timestamp = number ts })
point_of m (some tags) none ts = none
point_of m none fields ts = none

-- The head, the fields and the timestamp, each with its pieces.
read_parts : List (List ℕ) → List (List ℕ) → List ℕ → Option Point
unfolding point_of read_pairs
read_parts [] fields ts = none
read_parts (m ∷ tags) fields ts = point_of m (read_pairs tags) (read_pairs fields) ts

three : List (List ℕ) → Option Point
unfolding read_parts
three (head ∷ fields ∷ ts ∷ []) = read_parts (pieces b',' head) (pieces b',' fields) ts
three (head ∷ fields ∷ ts ∷ more ∷ ps) = none
three (head ∷ fields ∷ []) = none
three (head ∷ []) = none
three [] = none

unfoldable pub read_point : List ℕ → Option Point
unfolding three
read_point line = three (pieces b' ' line)

-- Lines, each with its end.
read_lines : List (List ℕ) → Option (List Point)
unfolding both
read_lines [] = none
read_lines ([] ∷ []) = some []
read_lines ((c ∷ cs) ∷ []) = none
read_lines (line ∷ next ∷ lines) = both (read_point line) (read_lines (next ∷ lines))

unfoldable pub read_points : List ℕ → Option (List Point)
unfolding read_lines
read_points text = read_lines (pieces b'\n' text)

-- A line before its parts are put together.
pub record Parts : Type 0 where
  pub measurement : List ℕ
  pub tags : List (List ℕ × List ℕ)
  pub first : List ℕ × List ℕ
  pub others : List (List ℕ × List ℕ)
  pub timestamp : List ℕ

abbrev pub pair_text : List ℕ × List ℕ → List ℕ
pair_text (k, v) = k ++ (b'=' ∷ v)

abbrev pub line_of : Parts → List ℕ
line_of p = join b' ' (
    join b',' (p.measurement ∷ map pair_text p.tags)
    ∷ join b',' (pair_text p.first ∷ map pair_text p.others)
    ∷ p.timestamp
    ∷ [])

unfoldable pub point : Parts → Point
point p = record {
  measurement = p.measurement;
  tags = p.tags;
  fields = typed (p.first ∷ p.others);
  timestamp = number p.timestamp;
}
