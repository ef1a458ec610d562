-- ===== src/Sender/Decoded.antt =====
-- The text of reports, read back.
use mathlib.Core.List.{flatten}
use int_platform_dpdk.Base.{
  ◌≡◌, refl, sym, ap, ap₂, ◌∙◌, List, [], ◌∷◌, ◌++◌, map, append_assoc, Bool, true, false, some,
}
use int_platform_dpdk.Types.{TelemetricMeta, TelemetricHdr}
use int_platform_dpdk.Report.{tags}
use int_platform_dpdk.Report.Lines.{report_lines, node_lines}
use int_platform_dpdk.Report.Reader.{Point, read_points, Parts, line_of, point}
use int_platform_dpdk.Report.Reader.RoundTrip.{AllClean, lines_text, read_points-lines_text}
use int_platform_dpdk.Report.Points.{
  flow_parts, flow_point, flow_line-parts, flow_parts_clean, point-flow_parts, node_parts,
  node_point, node_line-parts, node_parts_clean, point-node_parts, address_clean, AllNodesFit,
  ReportFits,
}
use int_platform_dpdk.Sender.Lossless.{report_text}

-- The points of the hop records, the first one being told apart, and those of a report.
abbrev pub node_points : Bool → TelemetricHdr → List TelemetricMeta → List Point
node_points first t [] = []
node_points first t (item ∷ items) = node_point first t item ∷ node_points false t items

abbrev pub report_points : TelemetricHdr → List Point
report_points t = flow_point t ∷ node_points true t t.node_meta

-- Those of a list of reports.
abbrev pub all_points : List TelemetricHdr → List Point
all_points [] = []
all_points (t ∷ ts) = report_points t ++ all_points ts

abbrev pub AllReportsFit : List TelemetricHdr → Type 0
AllReportsFit [] = Unit
AllReportsFit (t ∷ ts) = ReportFits t × AllReportsFit ts

abbrev nodes_parts : Bool → TelemetricHdr → List TelemetricMeta → List Parts
nodes_parts first t [] = []
nodes_parts first t (item ∷ items) = node_parts first t item ∷ nodes_parts false t items

abbrev report_parts : TelemetricHdr → List Parts
report_parts t = flow_parts t ∷ nodes_parts true t t.node_meta

abbrev all_parts : List TelemetricHdr → List Parts
all_parts [] = []
all_parts (t ∷ ts) = report_parts t ++ all_parts ts

lines_text-append : (ps qs : List Parts) → lines_text (ps ++ qs) ≡ lines_text ps ++ lines_text qs
lines_text-append [] qs = refl
lines_text-append (p ∷ ps) qs =
    ap (λ l. line_of p ++ (b'\n' ∷ l)) (lines_text-append ps qs)
    ∙ sym (append_assoc (line_of p) (b'\n' ∷ lines_text ps) (lines_text qs))

AllClean-append : (ps qs : List Parts) → AllClean ps → AllClean qs → AllClean (ps ++ qs)
AllClean-append [] qs f g = g
AllClean-append (p ∷ ps) qs (h, f) g = (h, AllClean-append ps qs f g)

module _ (t : TelemetricHdr) where
  nodes_text :
      (first : Bool) (items : List TelemetricMeta)
      → flatten (node_lines (tags t) first items) ≡ lines_text (nodes_parts first t items)
  unfolding node_lines flatten
  nodes_text first [] = refl
  nodes_text first (item ∷ items) =
      ap₂ (λ l rest. l ++ rest) (node_line-parts t item first) (nodes_text false items)
      ∙ append_assoc (line_of (node_parts first t item)) (b'\n' ∷ [])
          (lines_text (nodes_parts false t items))

  report_lines-parts : flatten (report_lines t) ≡ lines_text (report_parts t)
  unfolding report_lines flatten
  report_lines-parts =
      ap₂ (λ l rest. l ++ rest) (flow_line-parts t) (nodes_text true t.node_meta)
      ∙ append_assoc (line_of (flow_parts t)) (b'\n' ∷ [])
          (lines_text (nodes_parts true t t.node_meta))

  nodes_clean :
      (first : Bool) (items : List TelemetricMeta)
      → address_clean t ≡ true
      → AllClean (nodes_parts first t items)
  nodes_clean first [] h = tt
  nodes_clean first (item ∷ items) h = (node_parts_clean t item first h, nodes_clean false items h)

  nodes_points :
      (first : Bool) (items : List TelemetricMeta)
      → AllNodesFit items
      → map point (nodes_parts first t items) ≡ node_points first t items
  nodes_points first [] all = refl
  nodes_points first (item ∷ items) (v, all) =
      ap₂ (λ p ps. p ∷ ps) (point-node_parts first t item v) (nodes_points false items all)

report_text-parts : (ts : List TelemetricHdr) → report_text ts ≡ lines_text (all_parts ts)
unfolding report_text
report_text-parts [] = refl
report_text-parts (t ∷ ts) =
    ap₂ (λ l rest. l ++ rest) (report_lines-parts t) (report_text-parts ts)
    ∙ sym (lines_text-append (report_parts t) (all_parts ts))

all_clean : (ts : List TelemetricHdr) → AllReportsFit ts → AllClean (all_parts ts)
all_clean [] all = tt
all_clean (t ∷ ts) (v, all) =
    AllClean-append (report_parts t) (all_parts ts)
      (flow_parts_clean t v.addresses, nodes_clean t true t.node_meta v.addresses)
      (all_clean ts all)

map-append : (ps qs : List Parts) → map point (ps ++ qs) ≡ map point ps ++ map point qs
map-append [] qs = refl
map-append (p ∷ ps) qs = ap (λ l. point p ∷ l) (map-append ps qs)

points_of_parts :
    (ts : List TelemetricHdr) → AllReportsFit ts → map point (all_parts ts) ≡ all_points ts
points_of_parts [] all = refl
points_of_parts (t ∷ ts) (v, all) =
    map-append (report_parts t) (all_parts ts)
    ∙ ap₂ (λ l rest. l ++ rest)
        (ap₂ (λ p ps. p ∷ ps) (point-flow_parts t v) (nodes_points t true t.node_meta v.nodes))
        (points_of_parts ts all)

-- A reader of the line protocol gets back, from the text of any reports whose numbers fit their C++
-- types and whose addresses hold no separator, one point for each flow and each hop record, in order,
-- with all tags, the field values as integers and the timestamp; of a hop record after the first, the
-- delay only if it is not 0, and the jitter as a signed number.
pub read_points-report_text :
    (ts : List TelemetricHdr)
    → AllReportsFit ts
    → read_points (report_text ts) ≡ some (all_points ts)
read_points-report_text ts all =
    ap read_points (report_text-parts ts)
    ∙ read_points-lines_text (all_parts ts) (all_clean ts all)
    ∙ ap some (points_of_parts ts all)
