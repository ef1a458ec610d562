-- ===== src/Pipeline/Accounts.antt =====
-- What becomes of every report, over any sequence of turns from the start of the exporter on.
use mathlib.Core.List.{flatten}
use int_platform_dpdk.Base.{
  ℕ, zero, suc, ◌+◌, ◌<◌, ◌^◌, ◌≡◌, refl, ap, List, [], ◌∷◌, ◌++◌, false, some, get_elem?, length,
  ◌==◌, arith,
}
use int_platform_dpdk.Outcome.{ok}
use int_platform_dpdk.Types.{Options, TelemetricHdr}
use int_platform_dpdk.Ring.Window.{contents}
use int_platform_dpdk.Sender.{Transport}
use int_platform_dpdk.Sender.Lossless.{report_text, AllAddresses}
use int_platform_dpdk.Sender.Blocks.{Blocks, idle-Blocks, produced-Blocks}
use int_platform_dpdk.Exporter.{IntExporter, Buffered, ring_buffer_size}
use int_platform_dpdk.Exporter.State
use int_platform_dpdk.Exporter.Start.{SenderKind, sender_kind, constructed, new_exporter}
use int_platform_dpdk.Exporter.Fresh.{threads_from, new_exporter-IsValid}
use int_platform_dpdk.Exporter.Queued.{queued, ring_total}
use int_platform_dpdk.Pipeline.{Threads, Turn, exported, polled, started, turns}
use int_platform_dpdk.Pipeline.Inv.{Inv, routed, exports}
use int_platform_dpdk.Pipeline.Turns.{export_turn}
use int_platform_dpdk.Pipeline.Polls.{poll_turn}

-- Where the reports are that sendData was called with: taken for a ring or refused; and those taken for
-- ring `i` popped by its thread, in order, or still in the ring. The text of the popped ones was
-- handed to the thread's socket, or is what the thread still holds.
pub record Accounted (asked : List TelemetricHdr) (p : Threads) : Type 0 where
  pub all : length p.accepted + p.refused ≡ length asked
  pub each :
      (i : ℕ) (r : Buffered)
      → get_elem? p.exporter.ring_buffs i ≡ some r
      → routed i p.accepted ≡ p.popped i ++ contents ring_buffer_size r
  pub text : (i : ℕ) → flatten (p.senders i).sent ++ (p.senders i).text ≡ report_text (p.popped i)
  pub blocks : (i : ℕ) → Blocks (p.senders i) (p.popped i)

-- A ring of no reports and another one are not told apart by their sum.
none_in :
    (rings : List Buffered) (i : ℕ) (r : Buffered)
    → ring_total rings ≡ 0
    → get_elem? rings i ≡ some r
    → length (contents ring_buffer_size r) ≡ 0
unfolding ring_total
none_in [] i r h e = cc
none_in (q ∷ rings) zero r h e = let same : q ≡ r = cc in rw (← same) (omega (arith, h))
none_in (q ∷ rings) (suc i) r h e = none_in rings i r (omega (arith, h)) e

nil_of_length : (xs : List TelemetricHdr) → length xs ≡ 0 → [] ≡ xs
nil_of_length [] h = refl
nil_of_length (x ∷ xs) h = absurd (omega arith)

pub started_Inv : (e : IntExporter) → State.IsValid e → queued e ≡ 0 → Inv (started e)
unfolding queued routed report_text flatten
started_Inv e v zero_queued = record {
  valid = v;
  fifo = λ i r found. nil_of_length _ (none_in e.ring_buffs i r zero_queued found);
  blocks = λ i. idle-Blocks;
  addresses = λ i. tt;
}

module _ (opt : Options) (kind : SenderKind) (transports : ℕ → Transport) (before : TelemetricHdr)
    (on : (opt.host_valid == 0) ≡ false) where
  pub turns_Inv :
      (ts : List Turn) (p : Threads)
      → Inv p
      → AllAddresses (exports ts)
      → (p' : Threads) × (turns opt kind transports before ts p ≡ ok p')
        × Inv p'
        × (length p'.accepted + p'.refused ≡ length p.accepted + p.refused + length (exports ts))
  unfolding turns
  turns_Inv [] p inv fit = (p, refl, inv, omega arith)
  turns_Inv (exported t ∷ ts) p inv (fits, fit) =
      let (mid, runs, kept, count) = export_turn opt kind transports before t p inv fits in
      let (p', rest, inv', counts) = turns_Inv ts mid kept fit in
      (p', rw runs rest, inv', omega (arith, count, counts))
  turns_Inv (polled i ∷ ts) p inv fit =
      let (mid, runs, kept, same, as_many) = poll_turn opt kind transports before on i p inv in
      let (p', rest, inv', counts) = turns_Inv ts mid kept fit in
      (p', rw runs rest, inv', omega (arith, counts, ap length same, as_many))

  -- With a host, a protocol that is known and any number of rings in 32 bits: the constructor makes an
  -- exporter, and however the calls of sendData and the polls of the threads follow each other, for
  -- reports whose addresses take at most fifteen bytes, no turn faults. At the end sendData has taken or
  -- refused each report that it was called with; for each ring, the reports taken for it are, in
  -- order, those that its thread popped and then those that it holds; and what each thread has handed
  -- to its socket, followed by what it still holds, is the text of those that it popped; each single
  -- text that it handed over being that of at least one whole report.
  pub turns-Accounted :
      (cells : ℕ → TelemetricHdr) (ts : List Turn)
      → sender_kind opt.protocol ≡ some kind
      → opt.raw_buffer < 2 ^ 32
      → AllAddresses (exports ts)
      → (e : IntExporter) × (p : Threads) × (new_exporter cells opt
          ≡ constructed e (threads_from kind 0 opt.raw_buffer))
        × (turns opt kind transports before ts (started e) ≡ ok p)
        × Accounted (exports ts) p
  turns-Accounted cells ts known small fit =
      let (e, made, valid, many, none_queued) = new_exporter-IsValid cells opt kind known small in
      let (p, runs, inv, counts) = turns_Inv ts (started e) (started_Inv e valid none_queued) fit in
      (
        e,
        p,
        made,
        runs,
        record {
          all = omega (arith, counts);
          each = inv.fifo;
          text = λ i. produced-Blocks (p.senders i) (p.popped i) (inv.blocks i);
          blocks = inv.blocks;
        },
      )
