-- ===== src/Pipeline/Fit.antt =====
-- The reports in the rings are those that sendData was called with.
use int_platform_dpdk.Base.{
  ℕ, ◌+◌, ◌≡◌, refl, sym, ap, subst, ◌∙◌, List, [], ◌∷◌, ◌++◌, Bool, true, false, if◌then◌else◌,
  ◌==◌,
}
use int_platform_dpdk.Outcome.{ok, ok-injective, ◌>>=◌}
use int_platform_dpdk.Types.{Options, TelemetricHdr}
use int_platform_dpdk.Report.Points.{ReportFits}
use int_platform_dpdk.Sender.{Transport}
use int_platform_dpdk.Sender.Lossless.{AllAddresses}
use int_platform_dpdk.Sender.Decoded.{AllReportsFit}
use int_platform_dpdk.Exporter.{IntExporter, send_data}
use int_platform_dpdk.Exporter.RoundRobin.{send_data-Sent}
use int_platform_dpdk.Exporter.Start.{SenderKind}
use int_platform_dpdk.Pipeline.{Threads, Turn, exported, polled, turn, turns}
use int_platform_dpdk.Pipeline.Inv.{Inv, routed, routed-snoc, exports}
use int_platform_dpdk.Pipeline.Turns.{export_turn}
use int_platform_dpdk.Pipeline.Polls.{poll_turn}

pub AllReportsFit-append :
    (xs ys : List TelemetricHdr) → AllReportsFit xs → AllReportsFit ys → AllReportsFit (xs ++ ys)
AllReportsFit-append [] ys f g = g
AllReportsFit-append (x ∷ xs) ys (v, f) g = (v, AllReportsFit-append xs ys f g)

-- Every report that was taken can be read back.
abbrev pub RoutedFit : Threads → Type 0
RoutedFit p = (i : ℕ) → AllReportsFit (routed i p.accepted)

one : (t : TelemetricHdr) → ReportFits t → (b : Bool) → AllReportsFit (if b then t ∷ [] else [])
one t v true = (v, tt)
one t v false = tt

module _ (opt : Options) (kind : SenderKind) (transports : ℕ → Transport) (before : TelemetricHdr)
    (on : (opt.host_valid == 0) ≡ false) where
  export_fit :
      (t : TelemetricHdr) (p : Threads)
      → Inv p
      → RoutedFit p
      → ReportFits t
      → (p' : Threads) × (turn opt kind transports before (exported t) p ≡ ok p') × RoutedFit p'
  unfolding turn
  export_fit t p inv fit v =
      let (res, runs, valid, result) = send_data-Sent p.exporter t inv.valid in by_case res runs
    where
      by_case :
          (res : Bool × IntExporter)
          → send_data p.exporter t ≡ ok res
          → (p' : Threads) × (turn opt kind transports before (exported t) p ≡ ok p') × RoutedFit p'
      by_case (true, e) runs = (
        record p { exporter = e; accepted = p.accepted ++ ((e.rr_index, t) ∷ []) },
        rw runs refl,
        λ i. rw (routed-snoc i e.rr_index t p.accepted) (
            AllReportsFit-append (routed i p.accepted) (if e.rr_index == i then t ∷ [] else [])
              (fit i) (one t v (e.rr_index == i))),
      )
      by_case (false, e) runs =
          (record p { exporter = e; refused = p.refused + 1 }, rw runs refl, fit)

  pub turns_fit :
      (ts : List Turn) (p : Threads)
      → Inv p
      → AllAddresses (exports ts)
      → AllReportsFit (exports ts)
      → RoutedFit p
      → (p' : Threads) × (turns opt kind transports before ts p ≡ ok p') × RoutedFit p'
  unfolding turns
  turns_fit [] p inv short small fit = (p, refl, fit)
  turns_fit (exported t ∷ ts) p inv (h, short) (v, small) fit =
      let (mid, runs, kept, count) = export_turn opt kind transports before t p inv h in
      let (q, runs', fit') = export_fit t p inv fit v in
      let same : q ≡ mid = ok-injective (sym runs' ∙ runs) in
      let (p', rest, done) = turns_fit ts mid kept short small (subst RoutedFit same fit') in
      (p', ap (λ o. o >>= turns opt kind transports before ts) runs ∙ rest, done)
  turns_fit (polled i ∷ ts) p inv short small fit =
      let (mid, runs, kept, same, as_many) = poll_turn opt kind transports before on i p inv in
      let fit' : RoutedFit mid =
        λ j. subst (λ log. AllReportsFit (routed j log)) (sym same) (fit j) in
      let (p', rest, done) = turns_fit ts mid kept short small fit' in
      (p', ap (λ o. o >>= turns opt kind transports before ts) runs ∙ rest, done)
