-- ===== src/Pipeline/Append.antt =====
-- Turns after turns.
use int_platform_dpdk.Base.{◌≡◌, refl, sym, ◌∙◌, List, [], ◌∷◌, ◌++◌}
use int_platform_dpdk.Outcome.{◌>>=◌, >>=_assoc, >>=_cong}
use int_platform_dpdk.Types.{Options, TelemetricHdr}
use int_platform_dpdk.Base.{ℕ}
use int_platform_dpdk.Sender.{Transport}
use int_platform_dpdk.Exporter.Start.{SenderKind}
use int_platform_dpdk.Pipeline.{Threads, Turn, turn, turns}

module _ (opt : Options) (kind : SenderKind) (transports : ℕ → Transport)
    (before : TelemetricHdr) where
  pub turns-append :
      (ts us : List Turn) (p : Threads)
      → turns opt kind transports before (ts ++ us) p
        ≡ (turns opt kind transports before ts p >>= turns opt kind transports before us)
  unfolding turns
  turns-append [] us p = refl
  turns-append (t ∷ ts) us p =
      >>=_cong (turn opt kind transports before t p) _ _ (turns-append ts us)
      ∙ sym (
          >>=_assoc (turn opt kind transports before t p) (turns opt kind transports before ts)
            (turns opt kind transports before us))
