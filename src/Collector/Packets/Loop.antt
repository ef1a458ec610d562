-- ===== src/Collector/Packets/Loop.antt =====
-- loop_proccess over any sequence of arrivals: which packets it handles and which reports are due.
use int_platform_dpdk.Base.{
  ℕ, zero, suc, ◌+◌, ◌%◌, ◌^◌, ◌≤◌, ◌<◌, ◌≡◌, ap, ◌∙◌, List, [], ◌∷◌, Bool, true, false, not, ◌&&◌,
  some, arith, ◌==◌, if◌then◌else◌,
}
use int_platform_dpdk.Outcome.{ok}
use int_platform_dpdk.Words.{u64}
use int_platform_dpdk.Types.{Options, TelemetricHdr, ret_ok}
use int_platform_dpdk.Packet.{Buffer}
use int_platform_dpdk.Exporter.{IntExporter}
use int_platform_dpdk.Exporter.State
use int_platform_dpdk.Exporter.Queued.{queued}
use int_platform_dpdk.Collector.Packets.{
  World, Arrival, received, setup_stop, after_wait, process_packet, loop_proccess,
}
use int_platform_dpdk.Collector.Packets.Once.{sampled}
use int_platform_dpdk.Collector.Packets.Process.{IsSafe, process_packet-Processed}

-- Every packet that the buffer comes to hold is safe.
abbrev pub AllSafe : Options → Buffer → List Arrival → Type 0
AllSafe opt buff [] = Unit
AllSafe opt buff (a ∷ arrivals) =
    IsSafe opt (received buff a) × AllSafe opt (received buff a) arrivals

-- How many packets are processed: up to the one during whose wait the signal comes, with it.
unfoldable pub handled : List Arrival → ℕ
handled [] = 0
handled (a ∷ arrivals) = if a.interrupted then 1 else suc (handled arrivals)

-- Whether the signal comes at all.
unfoldable pub signalled : List Arrival → Bool
signalled [] = false
signalled (a ∷ arrivals) = if a.interrupted then true else signalled arrivals

-- Of `n` packets from the `cnt`-th on, those that are due for the host.
unfoldable pub due : Options → ℕ → ℕ → ℕ
due opt cnt zero = 0
due opt cnt (suc n) =
    (if not (opt.host_valid == 0) && (cnt % opt.smpl_rate == 0) then 1 else 0) + due opt (cnt + 1) n

-- The counts after `n` packets, if no sender pops a report in between.
pub record Counted (opt : Options) (w w' : World) (n : ℕ) : Type 0 where
  pub valid : State.IsValid w'.exporter
  pub pkt_cnt : w'.pkt_cnt ≡ w.pkt_cnt + n
  pub reports :
      queued w'.exporter + w'.pkt_drop ≡ queued w.exporter + w.pkt_drop + due opt w.pkt_cnt n
  pub few_drops : w'.pkt_drop ≤ w.pkt_drop + n

pub due-suc :
    (opt : Options) (cnt n : ℕ) → due opt cnt (suc n) ≡ due opt cnt 1 + due opt (cnt + 1) n
unfolding due
due-suc opt cnt n = omega arith

-- Senders that leave the exporter valid.
abbrev pub KeepValid : (ℕ → IntExporter → IntExporter) → Type 0
KeepValid senders = (n : ℕ) (e : IntExporter) → State.IsValid e → State.IsValid (senders n e)

module _ (stack : TelemetricHdr) (opt : Options) where
  -- The loop's body once: the packet, then the count.
  pub one_packet :
      (buff : Buffer) (w : World)
      → IsSafe opt buff
      → State.IsValid w.exporter
      → w.pkt_drop + 1 < 2 ^ 64
      → w.pkt_cnt + 1 < 2 ^ 64
      → (v : World) × (process_packet stack buff opt w ≡ ok (ret_ok, v))
        × Counted opt w (record v { pkt_cnt = u64 (v.pkt_cnt + 1) }) 1
        × (v.stop ≡ w.stop)
  unfolding sampled due
  one_packet buff w safe valid few small =
      let (v, runs, p) = process_packet-Processed stack buff opt w safe valid few in
      (
        v,
        runs,
        record {
          valid = p.valid;
          pkt_cnt = omega (arith, p.pkt_cnt);
          reports = p.counted ∙ omega arith;
          few_drops = p.few;
        },
        p.stop,
      )

  pub stopped :
      (senders : ℕ → IntExporter → IntExporter) (arrivals : List Arrival) (buff : Buffer)
      (w : World)
      → w.stop ≡ true
      → loop_proccess senders stack opt arrivals buff w ≡ ok (some ret_ok, w)
  unfolding loop_proccess
  stopped senders [] buff w e = rw e
  stopped senders (a ∷ arrivals) buff w e = rw e

  -- An arrival whose packet is processed without a fault, the rest being still to come.
  pub pass_on :
      (senders : ℕ → IntExporter → IntExporter) (a : Arrival) (arrivals : List Arrival)
      (buff : Buffer) (w : World) (v : World) (b : Bool)
      → w.stop ≡ false
      → a.interrupted ≡ b
      → process_packet stack
          (received buff a)
          opt
          (if b then setup_stop (after_wait senders w) else after_wait senders w)
        ≡ ok (ret_ok, v)
      → loop_proccess senders stack opt (a ∷ arrivals) buff w
        ≡ loop_proccess senders stack opt arrivals
            (received buff a)
            (record v { pkt_cnt = u64 (v.pkt_cnt + 1) })
  unfolding loop_proccess
  pass_on senders a arrivals buff w v b going e runs = simp (
    going,
    ap
          (λ c.
            process_packet stack (received buff a) opt
              (if c then setup_stop (after_wait senders w) else after_wait senders w))
          e
        ∙ runs,
  )
