-- ===== src/Output/Columns.antt =====
-- The columns of the standard output, read back.
use mathlib.Core.List.{flatten, map-append}
use int_platform_dpdk.Base.{
  ℕ, ◌≡◌, refl, sym, ap, ◌∙◌, List, [], ◌∷◌, ◌++◌, append_assoc, map, true, none, arith, inl,
}
use int_platform_dpdk.Text.{codes, show_ℕ}
use int_platform_dpdk.Text.Pieces.{lacks, lacks-append, pieces, pieces_first}
use int_platform_dpdk.Text.Numbers.{lacks-show_ℕ}
use int_platform_dpdk.Types.{TelemetricHdr}
use int_platform_dpdk.Collector.Packets.{Printed, dropped, telemetric, totals, packet_error}
use int_platform_dpdk.Output.{
  printf, print_telemetric, print_totals, print_dropped, print_error, print_text, output,
}
use int_platform_dpdk.Output.Reader.{
  Column, origin_time, sink_time, sequence, delay_ns, jitter_ns, source, destination, source_port,
  destination_port, label, shown, after, keep, column, read_column, reports, AllLines,
}

printf_line :
    (l name value rest : List ℕ)
    → lacks b'\n' name ≡ true
    → lacks b'\n' value ≡ true
    → column l (pieces b'\n' (printf name value ++ rest))
      ≡ keep (after l (name ++ value)) (column l (pieces b'\n' rest))
unfolding printf column
printf_line l name value rest h k =
    let line : lacks b'\n' (name ++ value) ≡ true =
      ground (arith, lacks-append b'\n' name value, h, k) in
    ap (λ text. column l (pieces b'\n' text)) (append_assoc (name ++ value) (codes "\n") rest)
    ∙ ap (column l) (pieces_first b'\n' (name ++ value) rest line)

digits_line : (n : ℕ) → lacks b'\n' (show_ℕ n) ≡ true
digits_line n = lacks-show_ℕ b'\n' (inl (omega arith)) n

-- The lines of print_telemetric, each with its value.
abbrev entries : TelemetricHdr → List (List ℕ × List ℕ)
entries t =
    (codes "Orig TS       => ", show_ℕ t.orig_ts)
    ∷ (codes "Dest TS       => ", show_ℕ t.dst_ts)
    ∷ (codes "Seq           => ", show_ℕ t.seq_num)
    ∷ (codes "Delay         => ", show_ℕ t.delay)
    ∷ (codes "Sink Jitter   => ", show_ℕ t.sink_jitter)
    ∷ (codes "IP Src        => ", t.src_ip)
    ∷ (codes "IP Dst        => ", t.dst_ip)
    ∷ (codes "Src Port      => ", show_ℕ t.src_port)
    ∷ (codes "Dst Port      => ", show_ℕ t.dst_port)
    ∷ []

abbrev AllOneLine : List (List ℕ × List ℕ) → Type 0
AllOneLine [] = Unit
AllOneLine ((name, value) ∷ es) =
    (lacks b'\n' name ≡ true) × (lacks b'\n' value ≡ true) × AllOneLine es

abbrev kept : List ℕ → List (List ℕ × List ℕ) → List (List ℕ) → List (List ℕ)
kept l [] values = values
kept l ((name, value) ∷ es) values = keep (after l (name ++ value)) (kept l es values)

entries_lines :
    (l : List ℕ) (es : List (List ℕ × List ℕ)) (rest : List ℕ)
    → AllOneLine es
    → column l (pieces b'\n' (flatten (map (λ e. printf e.0 e.1) es) ++ rest))
      ≡ kept l es (column l (pieces b'\n' rest))
unfolding flatten
entries_lines l [] rest h = refl
entries_lines l ((name, value) ∷ es) rest (h, k, all) =
    ap (λ text. column l (pieces b'\n' text))
      (append_assoc (printf name value) (flatten (map (λ e. printf e.0 e.1) es)) rest)
    ∙ printf_line l name value _ h k
    ∙ ap (keep (after l (name ++ value))) (entries_lines l es rest all)

-- Each column finds its own line of the nine.
kept-entries :
    (c : Column) (t : TelemetricHdr) (values : List (List ℕ))
    → kept (label c) (entries t) values ≡ shown c t ∷ values
unfolding keep after
kept-entries origin_time t values = refl
kept-entries sink_time t values = refl
kept-entries sequence t values = refl
kept-entries delay_ns t values = refl
kept-entries jitter_ns t values = refl
kept-entries source t values = refl
kept-entries destination t values = refl
kept-entries source_port t values = refl
kept-entries destination_port t values = refl

-- The other texts are in no column.
strange :
    (c : Column) (text : List ℕ)
    → (after (label c) (codes "dropped: " ++ text) ≡ none)
      × (after (label c) (codes "total - " ++ text) ≡ none)
      × (after (label c) (codes "drop - " ++ text) ≡ none)
      × (after (label c) (codes "Error during the packet processing!") ≡ none)
      × (after (label c) [] ≡ none)
unfolding after
strange origin_time text = (refl, refl, refl, refl, refl)
strange sink_time text = (refl, refl, refl, refl, refl)
strange sequence text = (refl, refl, refl, refl, refl)
strange delay_ns text = (refl, refl, refl, refl, refl)
strange jitter_ns text = (refl, refl, refl, refl, refl)
strange source text = (refl, refl, refl, refl, refl)
strange destination text = (refl, refl, refl, refl, refl)
strange source_port text = (refl, refl, refl, refl, refl)
strange destination_port text = (refl, refl, refl, refl, refl)

module _ (c : Column) where
  own_lines :
      (t : TelemetricHdr)
      → lacks b'\n' t.src_ip ≡ true
      → lacks b'\n' t.dst_ip ≡ true
      → AllOneLine (entries t)
  unfolding lacks
  own_lines t src dst = (
    refl,
    digits_line t.orig_ts,
    (
      refl,
      digits_line t.dst_ts,
      (
        refl,
        digits_line t.seq_num,
        (
          refl,
          digits_line t.delay,
          (
            refl,
            digits_line t.sink_jitter,
            (
              refl,
              src,
              (refl, dst, (refl, digits_line t.src_port, (refl, digits_line t.dst_port, tt))),
            ),
          ),
        ),
      ),
    ),
  )

  -- A line that is in no column.
  skipped :
      (name value rest : List ℕ)
      → lacks b'\n' name ≡ true
      → lacks b'\n' value ≡ true
      → after (label c) (name ++ value) ≡ none
      → column (label c) (pieces b'\n' (printf name value ++ rest))
        ≡ column (label c) (pieces b'\n' rest)
  unfolding keep
  skipped name value rest h k other =
      printf_line (label c) name value rest h k
      ∙ ap (λ o. keep o (column (label c) (pieces b'\n' rest))) other

  totals_lines :
      (cnt drop : ℕ) (rest : List ℕ)
      → column (label c) (pieces b'\n' (print_text (totals cnt drop) ++ rest))
        ≡ column (label c) (pieces b'\n' rest)
  unfolding print_text print_totals printf lacks
  totals_lines cnt drop rest =
      let (dropped_line, total_line, drop_line, error_line, empty_line) = strange c (show_ℕ cnt) in
      let last = printf (codes "drop - ") (show_ℕ drop) in
      skipped [] [] (printf (codes "total - ") (show_ℕ cnt) ++ last ++ rest) refl refl empty_line
      ∙ ap (λ text. column (label c) (pieces b'\n' text))
          (append_assoc (printf (codes "total - ") (show_ℕ cnt)) last rest)
      ∙ skipped (codes "total - ") (show_ℕ cnt) (last ++ rest) refl (digits_line cnt) total_line
      ∙ skipped (codes "drop - ") (show_ℕ drop) rest refl (digits_line drop)
          (strange c (show_ℕ drop)).2

  print_text_lines :
      (p : Printed) (rest : List ℕ)
      → AllLines (reports (p ∷ []))
      → column (label c) (pieces b'\n' (print_text p ++ rest))
        ≡ map (shown c) (reports (p ∷ [])) ++ column (label c) (pieces b'\n' rest)
  unfolding print_text print_telemetric print_totals print_dropped print_error printf lacks
  print_text_lines (telemetric hdr) rest (src, dst, fit) =
      entries_lines (label c) (entries hdr) rest (own_lines hdr src dst) ∙ kept-entries c hdr _
  print_text_lines (dropped n) rest h =
      skipped (codes "dropped: ") (show_ℕ n) rest refl (digits_line n) (strange c (show_ℕ n)).0
  print_text_lines (totals cnt drop) rest h = totals_lines cnt drop rest
  print_text_lines packet_error rest h =
      skipped (codes "Error during the packet processing!") [] rest refl refl (strange c []).3

  AllLines-tail :
      (p : Printed) (ps : List Printed)
      → AllLines (reports (p ∷ ps))
      → AllLines (reports (p ∷ [])) × AllLines (reports ps)
  AllLines-tail (telemetric hdr) ps (src, dst, fit) = ((src, dst, tt), fit)
  AllLines-tail (dropped n) ps fit = (tt, fit)
  AllLines-tail (totals cnt drop) ps fit = (tt, fit)
  AllLines-tail packet_error ps fit = (tt, fit)

  reports-cons :
      (p : Printed) (ps : List Printed) → reports (p ∷ ps) ≡ reports (p ∷ []) ++ reports ps
  reports-cons (telemetric hdr) ps = refl
  reports-cons (dropped n) ps = refl
  reports-cons (totals cnt drop) ps = refl
  reports-cons packet_error ps = refl

  -- Whatever the program printed, counts and errors included, and whatever the numbers are, if the
  -- addresses of the reports have no end of line: the values that stand behind a label of
  -- print_telemetric in the whole output are, in order, those of the printed reports.
  pub read_column-output :
      (ps : List Printed)
      → AllLines (reports ps)
      → read_column c (output ps) ≡ map (shown c) (reports ps)
  unfolding read_column output column keep pieces
  read_column-output [] fit = ap (λ o. keep o []) (strange c []).4
  read_column-output (p ∷ ps) fit =
      let (here, rest) = AllLines-tail p ps fit in
      print_text_lines p (output ps) here
      ∙ ap (λ l. map (shown c) (reports (p ∷ [])) ++ l) (read_column-output ps rest)
      ∙ sym (map-append (shown c) (reports (p ∷ [])) (reports ps))
      ∙ ap (map (shown c)) (sym (reports-cons p ps))
