-- ===== src/Report/Points.antt =====
-- What a reader of the line protocol finds in a report.
use int_platform_dpdk.Base.{
  ℕ, ◌^◌, ◌<◌, ◌≡◌, refl, List, [], ◌∷◌, ◌++◌, append_assoc, Bool, true, false, ◌&&◌, ◌==◌,
  if◌then◌else◌, arith, ℤ, pos, pos_part, neg_part, Bool-cases, inl, inr,
}
use int_platform_dpdk.Words.{signed64}
use int_platform_dpdk.Text.{codes, show_ℕ, show_ℤ}
use int_platform_dpdk.Text.Numbers.{
  number-show_ℕ, integer-show_ℕ, integer-show_ℤ, lacks-show_ℕ, lacks-show_ℤ,
}
use int_platform_dpdk.Text.Pieces.{lacks, join}
use int_platform_dpdk.Types.{TelemetricMeta, TelemetricHdr}
use int_platform_dpdk.Report.{tags, flow_line, first_line, later_line, node_line}
use int_platform_dpdk.Report.Reader.{Point, Parts, line_of, point}
use int_platform_dpdk.Report.Reader.RoundTrip.{clean, clean_parts}

-- The tags that all points of a report share.
abbrev pub report_tags : TelemetricHdr → List (List ℕ × List ℕ)
report_tags t =
    (codes "srcip", t.src_ip)
    ∷ (codes "dstip", t.dst_ip)
    ∷ (codes "srcp", show_ℕ t.src_port)
    ∷ (codes "dstp", show_ℕ t.dst_port)
    ∷ (codes "protocol", show_ℕ t.protocol)
    ∷ []

abbrev pub flow_parts : TelemetricHdr → Parts
flow_parts t = record {
  measurement = codes "int_telemetry";
  tags = report_tags t;
  first = (codes "origts", show_ℕ t.orig_ts);
  others =
      (codes "dstts", show_ℕ t.dst_ts)
      ∷ (codes "seq", show_ℕ t.seq_num)
      ∷ (codes "delay", show_ℕ t.delay)
      ∷ (codes "sink_jitter", show_ℕ t.sink_jitter)
      ∷ (codes "reordering", show_ℤ t.reordering)
      ∷ [];
  timestamp = show_ℕ t.dst_ts;
}

-- The point of the flow.
abbrev pub flow_point : TelemetricHdr → Point
flow_point t = record {
  measurement = codes "int_telemetry";
  tags = report_tags t;
  fields =
      (codes "origts", pos t.orig_ts)
      ∷ (codes "dstts", pos t.dst_ts)
      ∷ (codes "seq", pos t.seq_num)
      ∷ (codes "delay", pos t.delay)
      ∷ (codes "sink_jitter", pos t.sink_jitter)
      ∷ (codes "reordering", t.reordering)
      ∷ [];
  timestamp = t.dst_ts;
}

pub flow_line-parts :
    (t : TelemetricHdr) → flow_line (tags t) t ≡ line_of (flow_parts t) ++ (b'\n' ∷ [])
unfolding flow_line tags join
flow_line-parts t = simp append_assoc

unfoldable pub address_clean : TelemetricHdr → Bool
address_clean t = clean t.src_ip && clean t.dst_ip

clean-show_ℕ : (n : ℕ) → clean (show_ℕ n) ≡ true
clean-show_ℕ n = ground (
  arith,
  lacks-show_ℕ b',' (inl (omega arith)) n,
  lacks-show_ℕ b' ' (inl (omega arith)) n,
  lacks-show_ℕ b'=' (inr (omega arith)) n,
  lacks-show_ℕ b'\n' (inl (omega arith)) n,
)

clean-show_ℤ : (z : ℤ) → clean (show_ℤ z) ≡ true
clean-show_ℤ z = ground (
  arith,
  lacks-show_ℤ b',' (inl (omega arith)) refl z,
  lacks-show_ℤ b' ' (inl (omega arith)) refl z,
  lacks-show_ℤ b'=' (inr (omega arith)) refl z,
  lacks-show_ℤ b'\n' (inl (omega arith)) refl z,
)

pub flow_parts_clean :
    (t : TelemetricHdr) → address_clean t ≡ true → clean_parts (flow_parts t) ≡ true
unfolding address_clean lacks
flow_parts_clean t h = simp (clean-show_ℕ, clean-show_ℤ) (ground arith)

-- The parts and the point of a hop record, the first one and a later one.
abbrev pub node_parts : Bool → TelemetricHdr → TelemetricMeta → Parts
node_parts first t item = record {
  measurement = codes "int_telemetry";
  tags = report_tags t ++ ((codes "hop_index", show_ℕ item.hop_index) ∷ []);
  first =
      if first
      then (codes "hop_delay", show_ℕ item.hop_delay)
      else if item.hop_delay == 0
      then (codes "link_delay", show_ℤ item.link_delay)
      else (codes "hop_delay", show_ℕ item.hop_delay);
  others =
      if first
      then (codes "hop_jitter", show_ℕ item.hop_jitter) ∷ []
      else if item.hop_delay == 0
      then (codes "hop_jitter", show_ℤ (signed64 item.hop_jitter)) ∷ []
      else (codes "link_delay", show_ℤ item.link_delay)
        ∷ (codes "hop_jitter", show_ℤ (signed64 item.hop_jitter))
        ∷ [];
  timestamp = show_ℕ item.hop_timestamp;
}

abbrev pub node_point : Bool → TelemetricHdr → TelemetricMeta → Point
node_point first t item = record {
  measurement = codes "int_telemetry";
  tags = report_tags t ++ ((codes "hop_index", show_ℕ item.hop_index) ∷ []);
  fields =
      if first
      then (codes "hop_delay", pos item.hop_delay) ∷ (codes "hop_jitter", pos item.hop_jitter) ∷ []
      else if item.hop_delay == 0
      then (codes "link_delay", item.link_delay)
        ∷ (codes "hop_jitter", signed64 item.hop_jitter)
        ∷ []
      else (codes "hop_delay", pos item.hop_delay)
        ∷ (codes "link_delay", item.link_delay)
        ∷ (codes "hop_jitter", signed64 item.hop_jitter)
        ∷ [];
  timestamp = item.hop_timestamp;
}

module _ (t : TelemetricHdr) (item : TelemetricMeta) where
  pub node_line-parts :
      (first : Bool)
      → node_line first (tags t) item ≡ line_of (node_parts first t item) ++ (b'\n' ∷ [])
  unfolding node_line first_line later_line tags join
  node_line-parts true = simp append_assoc
  node_line-parts false = elim (Bool-cases (item.hop_delay == 0)) [
    | inl e ↦ rw e (simp append_assoc)
    | inr e ↦ rw e (simp append_assoc)
  ]

  pub node_parts_clean :
      (first : Bool) → address_clean t ≡ true → clean_parts (node_parts first t item) ≡ true
  unfolding address_clean lacks
  node_parts_clean true h = simp (clean-show_ℕ) (ground arith)
  node_parts_clean false h = elim (Bool-cases (item.hop_delay == 0)) [
    | inl e ↦ rw e (simp (clean-show_ℕ, clean-show_ℤ) (ground arith))
    | inr e ↦ rw e (simp (clean-show_ℕ, clean-show_ℤ) (ground arith))
  ]

-- An integer of 64 bits.
abbrev pub Fits64 : ℤ → Type 0
Fits64 z = (pos_part z < 2 ^ 64) × (neg_part z < 2 ^ 64)

pub record NodeFits (item : TelemetricMeta) : Type 0 where
  pub hop_delay : item.hop_delay < 2 ^ 64
  pub hop_jitter : item.hop_jitter < 2 ^ 64
  pub hop_timestamp : item.hop_timestamp < 2 ^ 64
  pub link_delay : Fits64 item.link_delay

abbrev pub AllNodesFit : List TelemetricMeta → Type 0
AllNodesFit [] = Unit
AllNodesFit (item ∷ items) = NodeFits item × AllNodesFit items

-- The numbers are those of the C++ types, and the addresses hold no separator.
pub record ReportFits (t : TelemetricHdr) : Type 0 where
  pub addresses : address_clean t ≡ true
  pub orig_ts : t.orig_ts < 2 ^ 64
  pub dst_ts : t.dst_ts < 2 ^ 64
  pub seq_num : t.seq_num < 2 ^ 64
  pub delay : t.delay < 2 ^ 64
  pub sink_jitter : t.sink_jitter < 2 ^ 64
  pub reordering : Fits64 t.reordering
  pub nodes : AllNodesFit t.node_meta

pub point-flow_parts : (t : TelemetricHdr) → ReportFits t → point (flow_parts t) ≡ flow_point t
unfolding point
point-flow_parts t v =
    rw
      (
        integer-show_ℕ t.orig_ts v.orig_ts,
        integer-show_ℕ t.dst_ts v.dst_ts,
        integer-show_ℕ t.seq_num v.seq_num,
        integer-show_ℕ t.delay v.delay,
        integer-show_ℕ t.sink_jitter v.sink_jitter,
        integer-show_ℤ t.reordering v.reordering.0 v.reordering.1,
        number-show_ℕ t.dst_ts v.dst_ts,
      )
      refl

pub signed64_fits : (w : ℕ) → Fits64 (signed64 w)
unfolding signed64
signed64_fits w = ground arith

pub point-node_parts :
    (first : Bool) (t : TelemetricHdr) (item : TelemetricMeta)
    → NodeFits item
    → point (node_parts first t item) ≡ node_point first t item
unfolding point
point-node_parts true t item v =
    rw
      (
        integer-show_ℕ item.hop_delay v.hop_delay,
        integer-show_ℕ item.hop_jitter v.hop_jitter,
        number-show_ℕ item.hop_timestamp v.hop_timestamp,
      )
      refl
point-node_parts false t item v =
    let jitter = signed64_fits item.hop_jitter in
    elim (Bool-cases (item.hop_delay == 0)) [
      | inl e ↦
          rw
            (
              e,
              integer-show_ℤ item.link_delay v.link_delay.0 v.link_delay.1,
              integer-show_ℤ (signed64 item.hop_jitter) jitter.0 jitter.1,
              number-show_ℕ item.hop_timestamp v.hop_timestamp,
            )
            refl
      | inr e ↦
          rw
            (
              e,
              integer-show_ℕ item.hop_delay v.hop_delay,
              integer-show_ℤ item.link_delay v.link_delay.0 v.link_delay.1,
              integer-show_ℤ (signed64 item.hop_jitter) jitter.0 jitter.1,
              number-show_ℕ item.hop_timestamp v.hop_timestamp,
            )
            refl
    ]
