-- ===== src/Pipeline/Turns.antt =====
-- Every turn keeps the invariant.
use int_platform_dpdk.Base.{
  ℕ, ◌+◌, ◌≡◌, sym, ap, ◌∙◌, List, [], ◌∷◌, ◌++◌, append_assoc, append-nil, Bool, true, false, some,
  get_elem?, set, length, length-snoc, ◌==◌, if◌then◌else◌, arith, ℕ_discrete, get_elem?-set_ne,
  eq_of_get_elem?-set,
}
use int_platform_dpdk.Outcome.{ok}
use int_platform_dpdk.Types.{Options, TelemetricHdr}
use int_platform_dpdk.Queue
use int_platform_dpdk.Ring.{Ring, pop}
use int_platform_dpdk.Ring.Window
use int_platform_dpdk.Ring.Window.{contents}
use int_platform_dpdk.Ring.Refine.{pop_refines}
use int_platform_dpdk.Report.Lines.{HasAddresses}
use int_platform_dpdk.Sender.{Transport, SenderState}
use int_platform_dpdk.Sender.Lossless.{AllAddresses, udp_next, http_next, udp_take-ok, http_take-ok}
use int_platform_dpdk.Sender.Blocks.{Blocks, udp_next-Blocks, http_next-Blocks, http_wait-Blocks}
use int_platform_dpdk.Exporter.{IntExporter, Buffered, ring_buffer_size, send_data}
use int_platform_dpdk.Exporter.State
use int_platform_dpdk.Exporter.State.{AllValid-set}
use int_platform_dpdk.Exporter.RoundRobin.{Stored, Sent, send_data-Sent}
use int_platform_dpdk.Exporter.Start.{SenderKind, by_udp, by_http}
use int_platform_dpdk.Pipeline.{Threads, exported, take_report, wait_for, turn}
use int_platform_dpdk.Pipeline.Inv.{Inv, routed, routed-snoc, AllAddresses-append}

queue_oldest :
    {A : Type 0} (q : List A) (x : A) (res : Bool × A × List A)
    → res ≡ Queue.pop q x
    → res.0 ≡ true
    → q ≡ res.1 ∷ res.2
unfolding Queue.pop
queue_oldest [] x res e h = cc
queue_oldest (y ∷ q) x res e h = rw e

-- A successful pop takes the oldest value.
pub pop_oldest :
    {A : Type 0} (size : ℕ) (r : Ring A) (x : A)
    → Window.IsValid size r
    → (pop size r x).0 ≡ true
    → contents size r ≡ (pop size r x).1 ∷ contents size (pop size r x).2
pop_oldest size r x v h =
    queue_oldest (contents size r) x
      ((pop size r x).0, (pop size r x).1, contents size (pop size r x).2) (pop_refines size x v) h

-- sendData's report, beside those that it took before.
module _ (t : TelemetricHdr) (p : Threads) (inv : Inv p) (fits : HasAddresses t) where
  fifo-Stored :
      (e : IntExporter) (s : Stored p.exporter t e) (i : ℕ) (r : Buffered)
      → get_elem? e.ring_buffs i ≡ some r
      → routed i (p.accepted ++ ((e.rr_index, t) ∷ [])) ≡ p.popped i ++ contents ring_buffer_size r
  fifo-Stored e s i r found = elim (ℕ_discrete e.rr_index i) [
    | yes here ↦
        let after : r ≡ s.after = eq_of_get_elem?-set p.exporter.ring_buffs e.rr_index s.after (
          ap (λ k. get_elem? (set p.exporter.ring_buffs e.rr_index s.after) k) here
          ∙ ap (λ rings. get_elem? rings i) (sym s.written)
          ∙ found) in
        let hit : (e.rr_index == i) ≡ true = ground arith in
        let chosen : get_elem? p.exporter.ring_buffs i ≡ some s.before =
          ap (λ k. get_elem? p.exporter.ring_buffs k) (sym here) ∙ s.chosen in
        routed-snoc i e.rr_index t p.accepted
        ∙ ap (λ b. routed i p.accepted ++ (if b then t ∷ [] else [])) hit
        ∙ ap (λ l. l ++ (t ∷ [])) (inv.fifo i s.before chosen)
        ∙ append_assoc (p.popped i) (contents ring_buffer_size s.before) (t ∷ [])
        ∙ ap (λ l. p.popped i ++ l) (sym s.queued ∙ ap (contents ring_buffer_size) (sym after))
    | no other ↦
        let same : get_elem? p.exporter.ring_buffs i ≡ some r =
          sym (get_elem?-set_ne p.exporter.ring_buffs s.after other)
          ∙ ap (λ rings. get_elem? rings i) (sym s.written)
          ∙ found in
        let miss : (e.rr_index == i) ≡ false = ground arith in
        routed-snoc i e.rr_index t p.accepted
        ∙ ap (λ b. routed i p.accepted ++ (if b then t ∷ [] else [])) miss
        ∙ append-nil (routed i p.accepted)
        ∙ inv.fifo i r same
  ]

  one : (b : Bool) → AllAddresses (if b then t ∷ [] else [])
  one true = (fits, tt)
  one false = tt

  pub stored_Inv :
      (e : IntExporter)
      → State.IsValid e
      → Stored p.exporter t e
      → Inv (record p { exporter = e; accepted = p.accepted ++ ((e.rr_index, t) ∷ []) })
  stored_Inv e v s = record {
    valid = v;
    fifo = fifo-Stored e s;
    blocks = inv.blocks;
    addresses = λ i. rw (routed-snoc i e.rr_index t p.accepted) (
        AllAddresses-append (routed i p.accepted) (if e.rr_index == i then t ∷ [] else [])
          (inv.addresses i) (one (e.rr_index == i)));
  }

  pub refused_Inv :
      (e : IntExporter)
      → State.IsValid e
      → e.ring_buffs ≡ p.exporter.ring_buffs
      → Inv (record p { exporter = e; refused = p.refused + 1 })
  refused_Inv e v same = record {
    valid = v;
    fifo = λ i r found. inv.fifo i r (ap (λ rings. get_elem? rings i) (sym same) ∙ found);
    blocks = inv.blocks;
    addresses = inv.addresses;
  }

module _ (opt : Options) (kind : SenderKind) (transports : ℕ → Transport)
    (before : TelemetricHdr) where
  -- A call of sendData, which takes the report or refuses it.
  pub export_turn :
      (t : TelemetricHdr) (p : Threads)
      → Inv p
      → HasAddresses t
      → (p' : Threads) × (turn opt kind transports before (exported t) p ≡ ok p')
        × Inv p'
        × (length p'.accepted + p'.refused ≡ length p.accepted + p.refused + 1)
  unfolding turn
  export_turn t p inv fits =
      let (res, runs, valid, result) = send_data-Sent p.exporter t inv.valid in
      by_case res runs valid result
    where
      by_case :
          (res : Bool × IntExporter)
          → send_data p.exporter t ≡ ok res
          → State.IsValid res.1
          → Sent p.exporter t res
          → (p' : Threads) × (turn opt kind transports before (exported t) p ≡ ok p')
            × Inv p'
            × (length p'.accepted + p'.refused ≡ length p.accepted + p.refused + 1)
      by_case (true, e) runs valid s = (
        _,
        rw runs,
        stored_Inv t p inv fits e valid s,
        omega (arith, length-snoc p.accepted (e.rr_index, t)),
      )
      by_case (false, e) runs valid (same, full) =
          (_, rw runs, refused_Inv t p inv fits e valid same, omega arith)

  pub take_report-ok :
      (opt.host_valid == 0) ≡ false
      → (i : ℕ) (t : TelemetricHdr) (s : SenderState) (reports : List TelemetricHdr)
      → HasAddresses t
      → Blocks s reports
      → (s' : SenderState) × (take_report opt kind transports before i t s ≡ ok s')
        × Blocks s' (reports ++ (t ∷ []))
  unfolding take_report
  take_report-ok on i t s reports fits b = by_kind kind
    where
      by_kind :
          (k : SenderKind)
          → (s' : SenderState) × (take_report opt k transports before i t s ≡ ok s')
            × Blocks s' (reports ++ (t ∷ []))
      by_kind by_udp = (
        udp_next opt (transports i) i s t,
        udp_take-ok opt (transports i) on i t s fits,
        udp_next-Blocks opt (transports i) i s reports t b,
      )
      by_kind by_http = (
        http_next opt (transports i) s t,
        http_take-ok opt (transports i) on t s fits,
        http_next-Blocks opt (transports i) s reports t b,
      )

  pub wait_for-Blocks :
      (i : ℕ) (s : SenderState) (reports : List TelemetricHdr)
      → Blocks s reports
      → Blocks (wait_for opt kind transports before i s) reports
  unfolding wait_for
  wait_for-Blocks i s reports b = by_kind kind
    where
      by_kind : (k : SenderKind) → Blocks (wait_for opt k transports before i s) reports
      by_kind by_udp = b
      by_kind by_http = http_wait-Blocks opt (transports i) s reports b
