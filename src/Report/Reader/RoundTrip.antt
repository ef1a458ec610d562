-- ===== src/Report/Reader/RoundTrip.antt =====
-- Lines read back into their parts.
use int_platform_dpdk.Base.{
  ℕ, ◌≡◌, ◌⊎◌, inl, inr, refl, sym, ap, ap₂, ◌∙◌, List, [], ◌∷◌, ◌++◌, map, Bool, true, false, ◌&&◌,
  some, ◌==◌, arith,
}
use int_platform_dpdk.Text.Pieces.{
  lacks, lacks-append, pieces, pieces_first, pieces_last, pieces_cons, join, pieces-join, all_lack,
  lacks-join,
}
use int_platform_dpdk.Report.Reader.{
  two, read_pair, both, read_pairs, point_of, read_parts, three, read_point, read_lines,
  read_points, Parts, pair_text, line_of, point,
}

-- No separator in a text.
abbrev pub clean : List ℕ → Bool
clean x = lacks b',' x && lacks b' ' x && lacks b'=' x && lacks b'\n' x

abbrev pub clean_pairs : List (List ℕ × List ℕ) → Bool
clean_pairs [] = true
clean_pairs ((k, v) ∷ ps) = clean k && clean v && clean_pairs ps

abbrev pub clean_parts : Parts → Bool
clean_parts p =
    clean p.measurement
    && clean_pairs p.tags
    && clean_pairs (p.first ∷ p.others)
    && clean p.timestamp

read_pair_text :
    (k v : List ℕ) → clean k ≡ true → clean v ≡ true → read_pair (pair_text (k, v)) ≡ some (k, v)
unfolding read_pair two
read_pair_text k v hk hv =
    ap two
      (pieces_first b'=' k v (ground arith) ∙ ap (λ ps. k ∷ ps) (pieces_last b'=' v (ground arith)))

lacks-pair_text :
    (c : ℕ) (k v : List ℕ)
    → lacks c k ≡ true
    → lacks c v ≡ true
    → (b'=' == c) ≡ false
    → lacks c (pair_text (k, v)) ≡ true
unfolding lacks
lacks-pair_text c k v hk hv ne = ground (arith, lacks-append c k (b'=' ∷ v))

all_lack-pairs :
    (c : ℕ) (ps : List (List ℕ × List ℕ))
    → (c ≡ b',') ⊎ (c ≡ b' ') ⊎ (c ≡ b'\n')
    → clean_pairs ps ≡ true
    → all_lack c (map pair_text ps) ≡ true
unfolding all_lack
all_lack-pairs c [] which h = refl
all_lack-pairs c ((k, v) ∷ ps) which h =
    ground (arith, all_lack-pairs c ps which, lacks-pair_text c k v)

read_pairs_text :
    (ps : List (List ℕ × List ℕ)) → clean_pairs ps ≡ true → read_pairs (map pair_text ps) ≡ some ps
unfolding read_pairs both
read_pairs_text [] h = refl
read_pairs_text ((k, v) ∷ ps) h = ground (arith, read_pair_text k v, read_pairs_text ps)

module _ (p : Parts) (h : clean_parts p ≡ true) where
  heads : List (List ℕ)
  heads = p.measurement ∷ map pair_text p.tags

  values : List (List ℕ)
  values = pair_text p.first ∷ map pair_text p.others

  heads_lack : (c : ℕ) → (c ≡ b',') ⊎ (c ≡ b' ') ⊎ (c ≡ b'\n') → all_lack c heads ≡ true
  unfolding all_lack heads
  heads_lack c which = ground (arith, all_lack-pairs c p.tags which)

  values_lack : (c : ℕ) → (c ≡ b',') ⊎ (c ≡ b' ') ⊎ (c ≡ b'\n') → all_lack c values ≡ true
  unfolding values
  values_lack c which = all_lack-pairs c (p.first ∷ p.others) which (ground arith)

  line_lacks :
      (c : ℕ)
      → (c ≡ b' ') ⊎ (c ≡ b'\n')
      → all_lack c (join b',' heads ∷ join b',' values ∷ p.timestamp ∷ []) ≡ true
  unfolding all_lack
  line_lacks c which = ground (
    arith,
    lacks-join c b',' heads (ground arith) (heads_lack c (inr which)),
    lacks-join c b',' values (ground arith) (values_lack c (inr which)),
  )

  -- A line reads as its point.
  pub read_point-line_of : read_point (line_of p) ≡ some (point p)
  unfolding read_point three read_parts point_of point heads values
  read_point-line_of =
      ap three (
        pieces-join b' ' (join b',' heads) (join b',' values ∷ p.timestamp ∷ [])
          (line_lacks b' ' (inl refl)))
      ∙ ap₂ (λ hs vs. read_parts hs vs p.timestamp)
          (pieces-join b',' p.measurement (map pair_text p.tags) (heads_lack b',' (inl refl)))
          (pieces-join b',' (pair_text p.first) (map pair_text p.others)
            (values_lack b',' (inl refl)))
      ∙ ap₂ (λ ts vs. point_of p.measurement ts vs p.timestamp)
          (read_pairs_text p.tags (ground arith))
          (read_pairs_text (p.first ∷ p.others) (ground arith))

  line_of-lacks : lacks b'\n' (line_of p) ≡ true
  unfolding heads values
  line_of-lacks = lacks-join b'\n' b' ' _ refl (line_lacks b'\n' (inr refl))

-- Lines with their ends.
abbrev pub lines_text : List Parts → List ℕ
lines_text [] = []
lines_text (p ∷ ps) = line_of p ++ (b'\n' ∷ lines_text ps)

abbrev pub AllClean : List Parts → Type 0
AllClean [] = Unit
AllClean (p ∷ ps) = (clean_parts p ≡ true) × AllClean ps

-- Lines of clean parts read as their points, in order.
pub read_points-lines_text :
    (ps : List Parts) → AllClean ps → read_points (lines_text ps) ≡ some (map point ps)
unfolding read_points read_lines pieces
read_points-lines_text [] all = refl
read_points-lines_text (p ∷ ps) (h, all) =
    let (q, qs, e) = pieces_cons b'\n' (lines_text ps) in
    ap read_lines (
      pieces_first b'\n' (line_of p) (lines_text ps) (line_of-lacks p h)
      ∙ ap (λ l. line_of p ∷ l) e)
    ∙ ap₂ both (read_point-line_of p h) (ap read_lines (sym e) ∙ read_points-lines_text ps all)
