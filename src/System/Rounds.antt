-- ===== src/System/Rounds.antt =====
-- What a round of the loop and a poll do to the running program, and the round as loop_proccess does it.
use int_platform_dpdk.Base.{
  ℕ, ◌+◌, ◌^◌, ◌≤◌, ◌<◌, ◌≡◌, refl, sym, ap, subst, ◌∙◌, List, ◌∷◌, ◌++◌, false, none, some, ◌==◌,
  if◌then◌else◌, arith, Bool-cases, inl, inr,
}
use int_platform_dpdk.Outcome.{ok, ok-injective}
use int_platform_dpdk.Words.{u64}
use int_platform_dpdk.Types.{Options, TelemetricHdr, ret_ok}
use int_platform_dpdk.Exporter.{IntExporter}
use int_platform_dpdk.Exporter.State
use int_platform_dpdk.Exporter.Start.{SenderKind}
use int_platform_dpdk.Sender.{Transport}
use int_platform_dpdk.Collector.Packets.{
  World, Arrival, received, after_wait, process_packet, loop_proccess,
}
use int_platform_dpdk.Collector.Packets.Process.{IsSafe}
use int_platform_dpdk.Collector.Packets.Loop.{KeepValid, one_packet, pass_on}
use int_platform_dpdk.Pipeline.{Threads}
use int_platform_dpdk.Pipeline.Inv.{Inv}
use int_platform_dpdk.Pipeline.Polls.{poll_turn}
use int_platform_dpdk.System.{poll, System, threads_of, taken_report, round, event}
use int_platform_dpdk.System.Steps.{same_Inv, waited, waited_same, Rounded, round_lem}

-- Another exporter in the globals.
abbrev pub with_exporter : IntExporter → World → World
with_exporter e w = record w { exporter = e }

-- Senders that leave a given exporter in the wait for packet `n`.
abbrev pub leaving :
    ℕ → IntExporter → (ℕ → IntExporter → IntExporter) → ℕ → IntExporter → IntExporter
leaving n left senders m e = if m == n then left else senders m e

-- From a count on, two descriptions of the senders are the same.
abbrev pub Agree : ℕ → (ℕ → IntExporter → IntExporter) → (ℕ → IntExporter → IntExporter) → Type 0
Agree n senders others = (m : ℕ) (e : IntExporter) → n ≤ m → senders m e ≡ others m e

pub leaving-KeepValid :
    (n : ℕ) (left : IntExporter) (senders : ℕ → IntExporter → IntExporter)
    → State.IsValid left
    → KeepValid senders
    → KeepValid (leaving n left senders)
leaving-KeepValid n left senders valid kept m e h = elim (Bool-cases (m == n)) [
  | inl here ↦ rw (here) valid
  | inr other ↦ rw (other) (kept m e h)
]

pub leaving-here :
    (n : ℕ) (left e : IntExporter) (senders : ℕ → IntExporter → IntExporter)
    → leaving n left senders n e ≡ left
leaving-here n left e senders = ground arith

pub leaving-Agree :
    (n : ℕ) (left : IntExporter) (senders others : ℕ → IntExporter → IntExporter)
    → Agree n others (leaving n left senders)
    → Agree (n + 1) others senders
leaving-Agree n left senders others same m e h =
    let later : (m == n) ≡ false = ground arith in
    same m e (omega (arith, h)) ∙ ap (λ b. if b then left else senders m e) later

module _ (stack : TelemetricHdr) (opt : Options) (kind : SenderKind) (transports : ℕ → Transport)
    (before : TelemetricHdr) (on : (opt.host_valid == 0) ≡ false) where
  -- The program after a poll, which changes nothing of the main thread but the exporter.
  abbrev pub after_poll : Threads → System → System
  after_poll p s = record s {
    world = with_exporter p.exporter s.world;
    senders = p.senders;
    popped = p.popped;
  }

  pub poll_step :
      (i : ℕ) (s : System)
      → Inv (threads_of s)
      → (p : Threads) × (event stack opt kind transports before (poll i) s ≡ ok (after_poll p s))
        × Inv (threads_of (after_poll p s))
  unfolding event
  poll_step i s inv =
      let (p, runs, kept, same, as_many) =
        poll_turn opt kind transports before on i (threads_of s) inv in
      (p, rw runs refl, same_Inv p p.exporter s.accepted s.world.pkt_drop kept refl (sym same))

  -- The program after a round.
  abbrev pub after_round : Arrival → World → System → System
  after_round a v s = record s {
    world = record v { pkt_cnt = u64 (v.pkt_cnt + 1) };
    buffer = received s.buffer a;
    returned = if v.stop then some ret_ok else none;
    accepted = s.accepted ++ taken_report stack opt (received s.buffer a) (waited a s.world);
  }

  pub round_step :
      (a : Arrival) (s : System)
      → Inv (threads_of s)
      → IsSafe opt (received s.buffer a)
      → s.world.pkt_drop + 1 < 2 ^ 64
      → s.world.pkt_cnt + 1 < 2 ^ 64
      → (v : World) × (process_packet stack (received s.buffer a) opt (waited a s.world)
          ≡ ok (ret_ok, v))
        × (round stack opt a s ≡ ok (after_round a v s))
        × Rounded stack opt a s (after_round a v s)
  unfolding round
  round_step a s inv safe few small =
      let (exporter, pkt_cnt, pkt_drop, stop) = waited_same stack opt a s.world in
      let (v, processed, once, kept) =
        one_packet stack opt (received s.buffer a) (waited a s.world) safe
          (subst State.IsValid (sym exporter) inv.valid) (omega (arith, few, pkt_drop))
          (omega (arith, small, pkt_cnt)) in
      let here : round stack opt a s ≡ ok (after_round a v s) = rw processed refl in
      let (m, step, r) = round_lem stack opt a s inv safe few small in
      (v, processed, here, subst (Rounded stack opt a s) (ok-injective (sym step ∙ here)) r)

  -- The round, as loop_proccess does it.
  pub same_round :
      (a : Arrival) (later : List Arrival) (s : System) (e : IntExporter) (v : World)
      (others : ℕ → IntExporter → IntExporter)
      → s.world.stop ≡ false
      → others s.world.pkt_cnt e ≡ s.world.exporter
      → process_packet stack (received s.buffer a) opt (waited a s.world) ≡ ok (ret_ok, v)
      → loop_proccess others stack opt (a ∷ later) s.buffer (with_exporter e s.world)
        ≡ loop_proccess others stack opt later
            (received s.buffer a)
            (record v { pkt_cnt = u64 (v.pkt_cnt + 1) })
  unfolding after_wait
  same_round a later s e v others going met processed =
      pass_on stack opt others a later s.buffer (with_exporter e s.world) v a.interrupted going refl
        (ap
            (λ x.
              process_packet stack (received s.buffer a) opt (waited a (with_exporter x s.world)))
            met
          ∙ processed)
