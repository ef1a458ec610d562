-- ===== src/Collector/Header/AnyOrder.antt =====
-- The flow table as the memory of the flows: the order in which it came to hold them is forgotten.
use mathlib.Core.Quot
use mathlib.Core.Quot.{Quot, Quot-set}
use native.Mathlib.Nat.{ℕ_set}
use int_platform_dpdk.Base.{
  ℕ, ◌≡◌, refl, sym, ap, ap₂, ◌∙◌, List, [], ◌∷◌, ◌==◌, if◌then◌else◌, false, arith, Bool-cases,
  inl, inr,
}
use int_platform_dpdk.Types.{TelemetricHdr}
use int_platform_dpdk.Packet.{IntInflux}
use int_platform_dpdk.Collector.Header.{FlowMap, flow_at, get_int_header_data}
use int_platform_dpdk.Collector.Header.Flows.{flow_at-get_int_header_data}
use int_platform_dpdk.Collector.Header.Runs.{headers}

-- Two tables remember the same of every flow.
abbrev pub SameFlows : FlowMap → FlowMap → Type 0
SameFlows a b = (key : ℕ) → flow_at a key ≡ flow_at b key

abbrev pub Flows : Type 0
Flows = Quot SameFlows

abbrev pub flows_of : FlowMap → Flows
flows_of flows = Quot.mk flows

-- Those of one flow, in order.
unfoldable pub of_flow {ℓ} : {A : Type ℓ} → ℕ → List (ℕ × A) → List A
of_flow key [] = []
of_flow key ((k, x) ∷ xs) = let rest = of_flow key xs in if k == key then x ∷ rest else rest

Reports-set : IsSet (List TelemetricHdr)
Reports-set = hlevel (ℕ_set)

module _ (tmp_hdr : TelemetricHdr) where
  -- The header depends on the table at the packet's own flow only.
  header_same :
      (int_hdr : IntInflux) (key : ℕ) (a b : FlowMap)
      → flow_at a key ≡ flow_at b key
      → (get_int_header_data tmp_hdr int_hdr key a).0
        ≡ (get_int_header_data tmp_hdr int_hdr key b).0
  unfolding get_int_header_data
  header_same int_hdr key a b same = rw (same) refl

  memory_same :
      (int_hdr : IntInflux) (key : ℕ) (a b : FlowMap)
      → flow_at a key ≡ flow_at b key
      → flow_at (get_int_header_data tmp_hdr int_hdr key a).1 key
        ≡ flow_at (get_int_header_data tmp_hdr int_hdr key b).1 key
  memory_same int_hdr key a b same =
      flow_at-get_int_header_data tmp_hdr int_hdr key key a
      ∙ ap₂ (λ h m. if key == key then record { seq = h.seq_num; prev_dst_ts = h.dst_ts } else m)
          (header_same int_hdr key a b same) same
      ∙ sym (flow_at-get_int_header_data tmp_hdr int_hdr key key b)

  untouched :
      (int_hdr : IntInflux) (k key : ℕ) (flows : FlowMap)
      → (k == key) ≡ false
      → flow_at (get_int_header_data tmp_hdr int_hdr k flows).1 key ≡ flow_at flows key
  untouched int_hdr k key flows other =
      flow_at-get_int_header_data tmp_hdr int_hdr k key flows ∙ rw (other) refl

  -- The packets of one flow alone.
  one_flow : ℕ → List IntInflux → FlowMap → List TelemetricHdr × FlowMap
  one_flow key [] flows = ([], flows)
  one_flow key (int_hdr ∷ packets) flows =
      let (hdr, flows') = get_int_header_data tmp_hdr int_hdr key flows in
      let (hdrs, flows'') = one_flow key packets flows' in (hdr ∷ hdrs, flows'')

  -- What a run makes of one flow is what the packets of that flow make of it alone.
  alone :
      (key : ℕ) (packets : List (ℕ × IntInflux)) (a b : FlowMap)
      → flow_at a key ≡ flow_at b key
      → (of_flow key (headers tmp_hdr packets a).0 ≡ (one_flow key (of_flow key packets) b).0)
        × (flow_at (headers tmp_hdr packets a).1 key
            ≡ flow_at (one_flow key (of_flow key packets) b).1 key)
  unfolding headers of_flow one_flow
  alone key [] a b same = (refl, same)
  alone key ((k, int_hdr) ∷ packets) a b same = elim (Bool-cases (k == key)) [
    | inl here ↦
        let at : k ≡ key = ground (arith, here) in
        let header : (get_int_header_data tmp_hdr int_hdr k a).0
            ≡ (get_int_header_data tmp_hdr int_hdr key b).0 =
          ap (λ j. (get_int_header_data tmp_hdr int_hdr j a).0) at
          ∙ header_same int_hdr key a b same in
        let memory : flow_at (get_int_header_data tmp_hdr int_hdr k a).1 key
            ≡ flow_at (get_int_header_data tmp_hdr int_hdr key b).1 key =
          ap (λ j. flow_at (get_int_header_data tmp_hdr int_hdr j a).1 key) at
          ∙ memory_same int_hdr key a b same in
        let (reports, rest) =
          alone key packets (get_int_header_data tmp_hdr int_hdr k a).1
            (get_int_header_data tmp_hdr int_hdr key b).1 memory in
        rw (here) (ap₂ (λ h hs. h ∷ hs) header reports, rest)
    | inr other ↦ rw (other) (
        alone key packets (get_int_header_data tmp_hdr int_hdr k a).1 b
          (untouched int_hdr k key a other ∙ same))
  ]

  -- Two runs with the same packets of a flow, in the same order, from tables that remember the same of it.
  alike :
      (key : ℕ) (packets others : List (ℕ × IntInflux)) (a b : FlowMap)
      → of_flow key packets ≡ of_flow key others
      → flow_at a key ≡ flow_at b key
      → (of_flow key (headers tmp_hdr packets a).0 ≡ of_flow key (headers tmp_hdr others b).0)
        × (flow_at (headers tmp_hdr packets a).1 key ≡ flow_at (headers tmp_hdr others b).1 key)
  alike key packets others a b same_packets same =
      let (reports, rest) = alone key packets a b same in
      let (reports', rest') = alone key others b b refl in
      (
        reports ∙ ap (λ ps. (one_flow key ps b).0) same_packets ∙ sym reports',
        rest ∙ ap (λ ps. flow_at (one_flow key ps b).1 key) same_packets ∙ sym rest',
      )

  -- The memory that packets leave, and the reports that they make for one flow.
  pub memory_after : List (ℕ × IntInflux) → Flows → Flows
  memory_after packets =
      Quot.lift Quot-set (λ flows. flows_of (headers tmp_hdr packets flows).1)
        (λ a b same. Quot.sound (λ key. (alike key packets packets a b refl (same key)).1))

  pub reports_for : ℕ → List (ℕ × IntInflux) → Flows → List TelemetricHdr
  reports_for key packets =
      Quot.lift Reports-set (λ flows. of_flow key (headers tmp_hdr packets flows).0)
        (λ a b same. (alike key packets packets a b refl (same key)).0)

  -- However the packets of several flows are mixed: two sequences of packets that have, of every flow,
  -- the same packets in the same order, make for every flow the same headers in the same order, from any
  -- memory of the flows, and leave the same memory.
  pub mixed_lem :
      (packets others : List (ℕ × IntInflux)) (flows : Flows)
      → ((key : ℕ) → of_flow key packets ≡ of_flow key others)
      → ((key : ℕ) → reports_for key packets flows ≡ reports_for key others flows)
        × (memory_after packets flows ≡ memory_after others flows)
  unfolding memory_after reports_for
  mixed_lem packets others flows same = (
    λ key.
        Quot.ind {β = λ f. reports_for key packets f ≡ reports_for key others f}
          (λ f. Reports-set _ _) (λ a. (alike key packets others a a (same key) refl).0) flows,
    Quot.ind {β = λ f. memory_after packets f ≡ memory_after others f} (λ f. Quot-set _ _)
        (λ a. Quot.sound (λ key. (alike key packets others a a (same key) refl).1)) flows,
  )
