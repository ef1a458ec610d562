-- ===== src/Sender/UdpBatches.antt =====
-- When udp_sender sends: it waits until the records make up the batch exactly.
use mathlib.Core.List.{flatten}
use int_platform_dpdk.Base.{
  ℕ, ◌+◌, ◌*◌, ◌≤◌, ◌<◌, ◌^◌, ◌≡◌, ◌≢◌, refl, sym, ap, ◌∙◌, List, [], ◌∷◌, ◌++◌, append_assoc,
  append-nil, true, false, arith, length, length-snoc, ◌==◌, ℕ_discrete,
}
use int_platform_dpdk.Outcome.{ok}
use int_platform_dpdk.Types.{Options, TelemetricHdr}
use int_platform_dpdk.Report.Lines.{report_lines}
use int_platform_dpdk.Sender.{Transport, SenderState, flush_text, udp_message, udp_sender}
use int_platform_dpdk.Sender.Lossless.{report_text, AllAddresses, added, udp_take-ok}

-- How many records the reports come to.
abbrev pub records : List TelemetricHdr → ℕ
records [] = 0
records (t ∷ ts) = 1 + length t.node_meta + records ts

-- Every report comes to `k` records.
abbrev pub AllOf : ℕ → List TelemetricHdr → Type 0
AllOf k [] = Unit
AllOf k (t ∷ ts) = (1 + length t.node_meta ≡ k) × AllOf k ts

mul_le : (a m k : ℕ) → a ≤ m → a * k ≤ m * k
mul_le a m k h = grind arith

mul_lt : (a m k : ℕ) → a < m → 0 < k → a * k < m * k
mul_lt a m k h some = grind arith

module _ (opt : Options) (transport : Transport) (on : (opt.host_valid == 0) ≡ false) where
  -- With a host, and over reports whose addresses take at most fifteen bytes: once the records that
  -- udp_sender holds outnumber the batch, it sends nothing more, however many reports follow, until
  -- its 32-bit count of records wraps around: it only keeps their text.
  pub udp_sender_stuck :
      (id : ℕ) (ts : List TelemetricHdr) (s : SenderState)
      → AllAddresses ts
      → opt.batch < s.it
      → s.it + records ts < 2 ^ 32
      → (s' : SenderState) × (udp_sender opt transport id ts s ≡ ok s')
        × (s'.sent ≡ s.sent)
        × (s'.text ≡ s.text ++ report_text ts)
  unfolding udp_sender report_text
  udp_sender_stuck id [] s v over fits = (s, refl, refl, sym (append-nil _))
  udp_sender_stuck id (t ∷ ts) s (v, vs) over fits =
      let counted : (added s t).it ≡ s.it + (1 + length t.node_meta) = omega arith in
      let skipped : ((added s t).it == opt.batch) ≡ false = ground arith in
      let (s', runs, kept, text) =
        udp_sender_stuck id ts (added s t) vs (omega (arith, counted)) (omega (arith, counted)) in
      (
        s',
        rw (udp_take-ok opt transport on id t s v) (rw skipped runs),
        kept,
        text ∙ append_assoc s.text (flatten (report_lines t)) (report_text ts),
      )

  -- With a host, and over reports whose addresses take at most fifteen bytes: where every report comes
  -- to `k` records, at least one, and the batch is `m` times `k`, in 32 bits, udp_sender sends one
  -- batch for every `m` reports: started with `j` reports held (fewer than `m`), it ends with `j'`
  -- reports held after `q` batches, where `j + length ts ≡ m * q + j'` and `j' < m`.
  pub udp_sender_batches :
      (id k m : ℕ) (ts : List TelemetricHdr) (s : SenderState) (j : ℕ)
      → AllAddresses ts
      → AllOf k ts
      → opt.batch ≡ m * k
      → 0 < k
      → m * k < 2 ^ 32
      → s.it ≡ j * k
      → j < m
      → (s' : SenderState) × (q : ℕ) × (j' : ℕ) × (udp_sender opt transport id ts s ≡ ok s')
        × (length s'.sent ≡ length s.sent + q)
        × (s'.it ≡ j' * k)
        × (j' < m)
        × (j + length ts ≡ m * q + j')
  unfolding udp_sender flush_text
  udp_sender_batches id k m [] s j v sizes whole some small at less =
      (s, 0, j, refl, omega arith, at, less, omega arith)
  udp_sender_batches id k m (t ∷ ts) s j (v, vs) (size, sizes) whole some small at less =
      elim (ℕ_discrete (j + 1) m) [
        | yes last ↦
            let full : ((added s t).it == opt.batch) ≡ true =
              ground (arith, counted, last_batch last) in
            let (s', q, j', runs, sent, held, below, sum) =
              udp_sender_batches id k m ts (flush_text (udp_message id) transport (added s t)) 0 vs
                sizes whole some small (omega arith) (omega arith) in
            (
              s',
              q + 1,
              j',
              rw (udp_take-ok opt transport on id t s v) (rw full runs),
              sent ∙ omega (arith, length-snoc s.sent (added s t).text),
              held,
              below,
              omega (arith, sum, last),
            )
        | no more ↦
            let short : ((added s t).it == opt.batch) ≡ false =
              ground (arith, counted, not_yet more) in
            let (s', q, j', runs, sent, held, below, sum) =
              udp_sender_batches id k m ts (added s t) (j + 1) vs sizes whole some small counted
                (omega arith) in
            (
              s',
              q,
              j',
              rw (udp_take-ok opt transport on id t s v) (rw short runs),
              sent,
              held,
              below,
              omega (arith, sum),
            )
      ]
    where
      room : (j + 1) * k ≤ m * k
      room = mul_le (j + 1) m k (omega arith)

      counted : (added s t).it ≡ (j + 1) * k
      counted = omega (arith, room)

      last_batch : j + 1 ≡ m → (j + 1) * k ≡ opt.batch
      last_batch e = ap (λ n. n * k) e ∙ sym whole

      not_yet : j + 1 ≢ m → (j + 1) * k ≢ opt.batch
      not_yet ne e = absurd (omega (arith, mul_lt (j + 1) m k (omega arith) some, e, whole))
