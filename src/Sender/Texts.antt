-- ===== src/Sender/Texts.antt =====
-- The text of several reports, in parts.
use mathlib.Core.List.{flatten}
use int_platform_dpdk.Base.{
  ℕ, ◌≡◌, ◌≢◌, refl, sym, ap, ◌∙◌, List, [], ◌∷◌, ◌++◌, append_assoc, append-nil, map, ◌≤◌, length,
  length-append, arith,
}
use int_platform_dpdk.Types.{TelemetricHdr}
use int_platform_dpdk.Report.{flow_line}
use int_platform_dpdk.Report.Lines.{report_lines}
use int_platform_dpdk.Sender.Lossless.{report_text}

pub report_text-append :
    (xs ys : List TelemetricHdr) → report_text (xs ++ ys) ≡ report_text xs ++ report_text ys
unfolding report_text
report_text-append [] ys = refl
report_text-append (x ∷ xs) ys =
    ap (λ l. flatten (report_lines x) ++ l) (report_text-append xs ys)
    ∙ sym (append_assoc (flatten (report_lines x)) (report_text xs) (report_text ys))

pub flatten-map :
    (blocks : List (List TelemetricHdr)) (held : List TelemetricHdr)
    → flatten (map report_text blocks) ++ report_text held ≡ report_text (flatten blocks ++ held)
unfolding flatten
flatten-map [] held = refl
flatten-map (block ∷ blocks) held =
    append_assoc (report_text block) (flatten (map report_text blocks)) (report_text held)
    ∙ ap (λ l. report_text block ++ l) (flatten-map blocks held)
    ∙ sym (report_text-append block (flatten blocks ++ held))
    ∙ ap report_text (sym (append_assoc block (flatten blocks) held))

pub map-snoc :
    (blocks : List (List TelemetricHdr)) (block : List TelemetricHdr)
    → map report_text (blocks ++ (block ∷ [])) ≡ map report_text blocks ++ (report_text block ∷ [])
map-snoc [] block = refl
map-snoc (b ∷ blocks) block = ap (λ l. report_text b ∷ l) (map-snoc blocks block)

pub flatten-snoc :
    (blocks : List (List TelemetricHdr)) (block : List TelemetricHdr)
    → flatten (blocks ++ (block ∷ [])) ≡ flatten blocks ++ block
unfolding flatten
flatten-snoc [] block = append-nil block
flatten-snoc (b ∷ blocks) block =
    ap (λ l. b ++ l) (flatten-snoc blocks block) ∙ sym (append_assoc b (flatten blocks) block)

pub report_text-snoc :
    (ts : List TelemetricHdr) (t : TelemetricHdr)
    → report_text (ts ++ (t ∷ [])) ≡ report_text ts ++ flatten (report_lines t)
unfolding report_text
report_text-snoc ts t =
    report_text-append ts (t ∷ [])
    ∙ ap (λ l. report_text ts ++ l) (append-nil (flatten (report_lines t)))

pub nil-append : (xs ys : List ℕ) → xs ++ ys ≡ [] → xs ≡ []
nil-append [] ys h = refl
nil-append (x ∷ xs) ys h = absurd (cc)

-- The text of a report has at least its first line.
pub report_lines_ne : (t : TelemetricHdr) → flatten (report_lines t) ≢ []
unfolding report_lines flatten flow_line
report_lines_ne t h =
    let positive : 1 ≤ length (flatten (report_lines t)) = simp length-append (omega arith) in
    omega (arith, positive, ap length h)

pub report_text-nil : (ts : List TelemetricHdr) → report_text ts ≡ [] → ts ≡ []
unfolding report_text
report_text-nil [] h = refl
report_text-nil (t ∷ ts) h =
    absurd (report_lines_ne t (nil-append (flatten (report_lines t)) (report_text ts) h))
