-- ===== src/Report/Lines.antt =====
-- The lines of a report, and that none overruns its buffer.
use mathlib.Core.List.{flatten}
use native.Mathlib.Nat.{add-zero}
use int_platform_dpdk.Base.{
  ℕ, ◌+◌, ◌≤◌, ◌<◌, ◌≡◌, sym, ap, ap₂, List, [], ◌∷◌, ◌++◌, append_assoc, append-nil, Bool, true,
  false, arith, length, length-append, lt→ltb, Bool-cases, inl, inr, ◌==◌,
}
use int_platform_dpdk.Outcome.{ok}
use int_platform_dpdk.Words.{signed64}
use int_platform_dpdk.Text.Bounds.{length-show_u64, length-show_ℤ}
use int_platform_dpdk.Types.{TelemetricMeta, TelemetricHdr}
use int_platform_dpdk.Report.{
  report_size, sprintf, tags, flow_line, first_line, later_line, node_line, add_nodes, add_report,
}

-- The addresses fit `IP_BUFF_SIZE` with their final zero byte and one byte to spare.
pub record HasAddresses (t : TelemetricHdr) : Type 0 where
  pub src : length t.src_ip ≤ 15
  pub dst : length t.dst_ip ≤ 15

-- The lines for the hops, one each.
unfoldable pub node_lines : List ℕ → Bool → List TelemetricMeta → List (List ℕ)
node_lines tmp first [] = []
node_lines tmp first (item ∷ items) = node_line first tmp item ∷ node_lines tmp false items

-- All lines of a report.
unfoldable pub report_lines : TelemetricHdr → List (List ℕ)
report_lines t = flow_line (tags t) t ∷ node_lines (tags t) true t.node_meta

sprintf-ok : (text : List ℕ) → length text < report_size → sprintf text ≡ ok text
unfolding sprintf
sprintf-ok text h = rw (lt→ltb (length text) report_size h)

length-tags : (t : TelemetricHdr) → HasAddresses t → length (tags t) ≤ 139
unfolding tags
length-tags t v = simp length-append (
    omega
      (arith, length-show_u64 t.src_port, length-show_u64 t.dst_port, length-show_u64 t.protocol))

length-flow_line :
    (tmp : List ℕ) (t : TelemetricHdr) → length tmp ≤ 139 → length (flow_line tmp t) < report_size
unfolding flow_line
length-flow_line tmp t h = simp length-append (
    omega (
      arith,
      length-show_u64 t.orig_ts,
      length-show_u64 t.dst_ts,
      length-show_u64 t.seq_num,
      length-show_u64 t.delay,
      length-show_u64 t.sink_jitter,
      length-show_ℤ t.reordering,
    ))

module _ (tmp : List ℕ) (small : length tmp ≤ 139) (item : TelemetricMeta) where
  length-first_line : length (first_line tmp item) < report_size
  unfolding first_line
  length-first_line = simp length-append (
      omega (
        arith,
        length-show_u64 item.hop_index,
        length-show_u64 item.hop_delay,
        length-show_u64 item.hop_jitter,
        length-show_u64 item.hop_timestamp,
      ))

  length-later_line : length (later_line tmp item) < report_size
  unfolding later_line
  length-later_line = elim (Bool-cases (item.hop_delay == 0)) [
    | inl e ↦ rw e (
        simp length-append (
          omega (
            arith,
            length-show_u64 item.hop_index,
            length-show_ℤ item.link_delay,
            length-show_ℤ (signed64 item.hop_jitter),
            length-show_u64 item.hop_timestamp,
          )))
    | inr e ↦ rw e (
        simp length-append (
          omega (
            arith,
            length-show_u64 item.hop_index,
            length-show_u64 item.hop_delay,
            length-show_ℤ item.link_delay,
            length-show_ℤ (signed64 item.hop_jitter),
            length-show_u64 item.hop_timestamp,
          )))
  ]

  length-node_line : (first : Bool) → length (node_line first tmp item) < report_size
  unfolding node_line
  length-node_line true = length-first_line
  length-node_line false = length-later_line

add_nodes-ok :
    (tmp : List ℕ)
    → length tmp ≤ 139
    → (first : Bool) (items : List TelemetricMeta) (it : ℕ) (text : List ℕ)
    → add_nodes tmp first items it text
      ≡ ok (it + length items, text ++ flatten (node_lines tmp first items))
unfolding add_nodes node_lines flatten
add_nodes-ok tmp small first [] it text =
    ap₂ (λ n l. ok (n, l)) (sym (add-zero it)) (sym (append-nil text))
add_nodes-ok tmp small first (item ∷ items) it text =
    rw (sprintf-ok (node_line first tmp item) (length-node_line tmp small item first)) (
      rw (add_nodes-ok tmp small false items (it + 1) (text ++ node_line first tmp item)) (
        ap₂ (λ n l. ok (n, l)) (omega arith)
          (append_assoc text (node_line first tmp item) (flatten (node_lines tmp false items)))))

-- With addresses of at most fifteen bytes no `sprintf` of `add_report` overruns its buffer, whatever
-- the numbers are: the call appends the report's lines to the text, and returns how many they are,
-- one for the flow and one for each hop record.
pub add_report_lem :
    (t : TelemetricHdr) (text : List ℕ)
    → HasAddresses t
    → add_report t text ≡ ok (1 + length t.node_meta, text ++ flatten (report_lines t))
unfolding add_report report_lines flatten
add_report_lem t text v =
    rw
      (
        sprintf-ok (tags t) (omega (arith, length-tags t v)),
        sprintf-ok (flow_line (tags t) t) (length-flow_line (tags t) t (length-tags t v)),
      )
      (rw (add_nodes-ok (tags t) (length-tags t v) true t.node_meta 1) (
        ap (λ l. ok (1 + length t.node_meta, l))
          (append_assoc text (flow_line (tags t) t)
            (flatten (node_lines (tags t) true t.node_meta)))))
