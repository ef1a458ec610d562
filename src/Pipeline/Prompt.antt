-- ===== src/Pipeline/Prompt.antt =====
-- No thread keeps a text for long without being asked for more.
use int_platform_dpdk.Base.{
  ℕ, suc, ◌+◌, ◌≡◌, refl, sym, ap, subst, ◌∙◌, List, [], ◌∷◌, ◌++◌, false, true, Bool, get_elem?,
  length, length-set, ℕ_discrete, inl, inr, arith, Option-cases, ◌==◌,
}
use int_platform_dpdk.Outcome.{ok, ok-injective, ◌>>=◌}
use int_platform_dpdk.Types.{Options, TelemetricHdr}
use int_platform_dpdk.Sender.{Transport, SenderState, http_wait}
use int_platform_dpdk.Sender.Lossless.{AllAddresses}
use int_platform_dpdk.Exporter.{IntExporter, Buffered, send_data}
use int_platform_dpdk.Exporter.RoundRobin.{Sent, send_data-Sent}
use int_platform_dpdk.Exporter.Start.{by_http}
use int_platform_dpdk.Pipeline.{Threads, Turn, exported, polled, turn, turns}
use int_platform_dpdk.Pipeline.Inv.{Inv, exports}
use int_platform_dpdk.Pipeline.Turns.{export_turn}
use int_platform_dpdk.Pipeline.Drain.{Waited, Waited-http_wait, Waited-http_next, Polled, poll_lem}

-- The rings are as many, and no thread that holds a text has waited too long for more.
pub record Prompt (many : ℕ) (p : Threads) : Type 0 where
  pub inv : Inv p
  pub rings : length p.exporter.ring_buffs ≡ many
  pub waited : (i : ℕ) → Waited 0 (p.senders i)

Waited-weaken : (k : ℕ) (s : SenderState) → Waited k s → Waited 0 s
Waited-weaken k s (inl empty) = inl empty
Waited-weaken k s (inr (long, short)) = inr (omega arith, short)

module _ (opt : Options) (transports : ℕ → Transport) (before : TelemetricHdr)
    (on : (opt.host_valid == 0) ≡ false) where
  Waited-Polled :
      (i k : ℕ) (r : Buffered) (p p' : Threads)
      → Polled opt (transports i) i r p p'
      → Waited k (p.senders i)
      → Waited 0 (p'.senders i)
  Waited-Polled i k r p p' step waited = elim step.taken_or_waited [
    | inl (t, fewer, took) ↦
        subst (Waited 0) (sym took) (Waited-http_next opt (transports i) on (p.senders i) t)
    | inr (none_here, none_left, stays) ↦ subst (Waited 0) (sym stays) (
        Waited-weaken (suc k) (http_wait opt (transports i) (p.senders i))
          (Waited-http_wait opt (transports i) on k (p.senders i) waited))
  ]

  -- A poll of any thread.
  poll-Prompt :
      (i many : ℕ) (p : Threads)
      → Prompt many p
      → (p' : Threads) × (turn opt by_http transports before (polled i) p ≡ ok p') × Prompt many p'
  unfolding turn
  poll-Prompt i many p v = elim (Option-cases (get_elem? p.exporter.ring_buffs i)) [
    | inl missing ↦ (p, rw (missing, turn) refl, v)
    | inr (r, found) ↦
        let (p', runs, step) = poll_lem opt transports before on i p v.inv r found in
        (
          p',
          runs,
          record {
            inv = step.inv;
            rings = step.many ∙ v.rings;
            waited = λ j. elim (ℕ_discrete i j) [
              | yes here ↦
                  subst (λ k. Waited 0 (p'.senders k)) here
                    (Waited-Polled i 0 r p p' step (v.waited i))
              | no other ↦ subst (Waited 0) (sym (step.others j other)) (v.waited j)
            ];
          },
        )
  ]

  -- A call of sendData.
  export_keeps :
      (t : TelemetricHdr) (p : Threads)
      → Inv p
      → (p' : Threads) × (turn opt by_http transports before (exported t) p ≡ ok p')
        × (p'.senders ≡ p.senders)
        × (length p'.exporter.ring_buffs ≡ length p.exporter.ring_buffs)
  unfolding turn
  export_keeps t p inv =
      let (res, runs, valid, result) = send_data-Sent p.exporter t inv.valid in
      by_case res runs result
    where
      by_case :
          (res : Bool × IntExporter)
          → send_data p.exporter t ≡ ok res
          → Sent p.exporter t res
          → (p' : Threads) × (turn opt by_http transports before (exported t) p ≡ ok p')
            × (p'.senders ≡ p.senders)
            × (length p'.exporter.ring_buffs ≡ length p.exporter.ring_buffs)
      by_case (true, e) runs s = (
        record p { exporter = e; accepted = p.accepted ++ ((e.rr_index, t) ∷ []) },
        rw runs refl,
        refl,
        ap length s.written ∙ length-set p.exporter.ring_buffs e.rr_index s.after,
      )
      by_case (false, e) runs (same, full) =
          (record p { exporter = e; refused = p.refused + 1 }, rw runs refl, refl, ap length same)

  pub turns-Prompt :
      (ts : List Turn) (many : ℕ) (p : Threads)
      → Prompt many p
      → AllAddresses (exports ts)
      → (p' : Threads) × (turns opt by_http transports before ts p ≡ ok p') × Prompt many p'
  unfolding turns
  turns-Prompt [] many p v fit = (p, refl, v)
  turns-Prompt (exported t ∷ ts) many p v (fits, fit) =
      let (mid, runs, kept, count) = export_turn opt by_http transports before t p v.inv fits in
      let (q, runs', senders, rings) = export_keeps t p v.inv in
      let same : q ≡ mid = ok-injective (sym runs' ∙ runs) in
      let v' : Prompt many q = record {
        inv = subst Inv (sym same) kept;
        rings = rings ∙ v.rings;
        waited = λ i. subst (λ f. Waited 0 (f i)) (sym senders) (v.waited i);
      } in
      let (p', rest, v'') = turns-Prompt ts many q v' fit in
      (p', ap (λ o. o >>= turns opt by_http transports before ts) runs' ∙ rest, v'')
  turns-Prompt (polled i ∷ ts) many p v fit =
      let (mid, runs, v') = poll-Prompt i many p v in
      let (p', rest, v'') = turns-Prompt ts many mid v' fit in (p', rw runs rest, v'')
