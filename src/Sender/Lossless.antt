-- ===== src/Sender/Lossless.antt =====
-- What a sender has handed to its transport, and what it still holds.
use mathlib.Core.List.{flatten}
use int_platform_dpdk.Base.{
  ℕ, ◌+◌, ◌≡◌, refl, sym, ap, ◌∙◌, List, [], ◌∷◌, ◌++◌, append_assoc, append-nil, false, not, ◌&&◌,
  Option, none, some, length, leb, ◌==◌, if◌then◌else◌, Bool-cases, inl, inr,
}
use int_platform_dpdk.Outcome.{ok}
use int_platform_dpdk.Words.{u32}
use int_platform_dpdk.Types.{Options, TelemetricHdr}
use int_platform_dpdk.Report.Lines.{HasAddresses, report_lines, add_report_lem}
use int_platform_dpdk.Sender.{
  Transport, SenderState, is_empty, pop_threshold, flush_text, udp_message, http_message, udp_take,
  udp_sender, http_wait, http_take, http_sender,
}

-- All that a sender was given to send: what it handed over, then what it still holds.
abbrev pub produced : SenderState → List ℕ
produced s = flatten s.sent ++ s.text

flatten-snoc : (xss : List (List ℕ)) (xs : List ℕ) → flatten (xss ++ (xs ∷ [])) ≡ flatten xss ++ xs
unfolding flatten
flatten-snoc [] xs = append-nil xs
flatten-snoc (ys ∷ xss) xs = rw (flatten-snoc xss xs) (sym (append_assoc ys (flatten xss) xs))

produced-flush_text :
    (message : Option (List ℕ) → List (List ℕ)) (transport : Transport) (s : SenderState)
    → produced (flush_text message transport s) ≡ produced s
unfolding flush_text
produced-flush_text message transport s = append-nil _ ∙ flatten-snoc s.sent s.text

-- The text of a list of reports.
unfoldable pub report_text : List TelemetricHdr → List ℕ
report_text [] = []
report_text (t ∷ ts) = flatten (report_lines t) ++ report_text ts

-- The reports among the results of the polls.
abbrev pub popped : List (Option TelemetricHdr) → List TelemetricHdr
popped [] = []
popped (none ∷ polls) = popped polls
popped (some t ∷ polls) = t ∷ popped polls

-- Every report has addresses that fit their buffers.
abbrev pub AllAddresses : List TelemetricHdr → Type 0
AllAddresses [] = Unit
AllAddresses (t ∷ ts) = HasAddresses t × AllAddresses ts

-- The state with a report's lines behind the text, before the test of the batch.
abbrev pub added : SenderState → TelemetricHdr → SenderState
added s t = record s {
  text = s.text ++ flatten (report_lines t);
  it = u32 (s.it + (1 + length t.node_meta));
}

produced-added :
    (s : SenderState) (t : TelemetricHdr)
    → produced (added s t) ≡ produced s ++ flatten (report_lines t)
produced-added s t = sym (append_assoc (flatten s.sent) s.text (flatten (report_lines t)))

-- The state after one report.
abbrev pub udp_next : Options → Transport → ℕ → SenderState → TelemetricHdr → SenderState
udp_next opt transport id s t =
    if (added s t).it == opt.batch
    then flush_text (udp_message id) transport (added s t)
    else added s t

abbrev pub http_next : Options → Transport → SenderState → TelemetricHdr → SenderState
http_next opt transport s t =
    if leb opt.batch (added s t).it
    then flush_text http_message transport (added (record s { flush = 0 }) t)
    else added (record s { flush = 0 }) t

module _ (opt : Options) (transport : Transport) (on : (opt.host_valid == 0) ≡ false) where
  -- One report in udp_sender, when the host is given.
  pub udp_take-ok :
      (id : ℕ) (t : TelemetricHdr) (s : SenderState)
      → HasAddresses t
      → udp_take opt transport id t s ≡ ok (udp_next opt transport id s t)
  unfolding udp_take
  udp_take-ok id t s v = rw (on) (
      rw (add_report_lem t s.text v)
        (elim (Bool-cases ((added s t).it == opt.batch)) [ inl e ↦ rw e | inr e ↦ rw e ]))

  -- One report in http_sender, when the host is given.
  pub http_take-ok :
      (t : TelemetricHdr) (s : SenderState)
      → HasAddresses t
      → http_take opt transport t s ≡ ok (http_next opt transport s t)
  unfolding http_take
  http_take-ok t s v = rw (on) (
      rw (add_report_lem t s.text v)
        (elim (Bool-cases (leb opt.batch (added s t).it)) [ inl e ↦ rw e | inr e ↦ rw e ]))

  pub produced-udp :
      (id : ℕ) (t : TelemetricHdr) (s : SenderState)
      → produced (udp_next opt transport id s t) ≡ produced s ++ flatten (report_lines t)
  produced-udp id t s = elim (Bool-cases ((added s t).it == opt.batch)) [
    | inl e ↦ rw e (produced-flush_text (udp_message id) transport (added s t) ∙ produced-added s t)
    | inr e ↦ rw e (produced-added s t)
  ]

  pub produced-http :
      (t : TelemetricHdr) (s : SenderState)
      → produced (http_next opt transport s t) ≡ produced s ++ flatten (report_lines t)
  produced-http t s = elim (Bool-cases (leb opt.batch (added s t).it)) [
    | inl e ↦ rw e (
        produced-flush_text http_message transport (added (record s { flush = 0 }) t)
        ∙ produced-added s t)
    | inr e ↦ rw e (produced-added s t)
  ]

  pub produced-wait : (s : SenderState) → produced (http_wait opt transport s) ≡ produced s
  unfolding http_wait
  produced-wait s =
      elim (Bool-cases (
        u32 (s.flush + 1) == pop_threshold && not (is_empty s.text) && not (opt.host_valid == 0))) [
          | inl e ↦
              rw e (
                produced-flush_text http_message transport (record s { flush = u32 (s.flush + 1) }))
          | inr e ↦ rw e
        ]

  -- udp_sender, with a host and over reports whose addresses take at most fifteen bytes, loses and
  -- repeats nothing: what it has handed to its socket, followed by what it still holds, is what it
  -- held before with the text of every popped report behind it, in order; and it never faults.
  pub udp_sender-lossless :
      (id : ℕ) (ts : List TelemetricHdr) (s : SenderState)
      → AllAddresses ts
      → (s' : SenderState) × (udp_sender opt transport id ts s ≡ ok s')
        × (produced s' ≡ produced s ++ report_text ts)
  unfolding udp_sender report_text
  udp_sender-lossless id [] s v = (s, refl, sym (append-nil _))
  udp_sender-lossless id (t ∷ ts) s (v, vs) =
      let (s', runs, all) = udp_sender-lossless id ts (udp_next opt transport id s t) vs in
      (
        s',
        rw (udp_take-ok id t s v) runs,
        all
            ∙ ap (λ l. l ++ report_text ts) (produced-udp id t s)
            ∙ append_assoc (produced s) (flatten (report_lines t)) (report_text ts),
      )

  -- http_sender, with a host, over any sequence of polls whose reports have addresses of at most
  -- fifteen bytes, loses and repeats nothing, flushes on empty polls included: what it has handed to
  -- its socket, followed by what it still holds, is what it held before with the text of every popped
  -- report behind it, in order; and it never faults.
  pub http_sender-lossless :
      (polls : List (Option TelemetricHdr)) (s : SenderState)
      → AllAddresses (popped polls)
      → (s' : SenderState) × (http_sender opt transport polls s ≡ ok s')
        × (produced s' ≡ produced s ++ report_text (popped polls))
  unfolding http_sender report_text
  http_sender-lossless [] s v = (s, refl, sym (append-nil _))
  http_sender-lossless (none ∷ polls) s v =
      let (s', runs, all) = http_sender-lossless polls (http_wait opt transport s) v in
      (s', runs, all ∙ ap (λ l. l ++ report_text (popped polls)) (produced-wait s))
  http_sender-lossless (some t ∷ polls) s (v, vs) =
      let (s', runs, all) = http_sender-lossless polls (http_next opt transport s t) vs in
      (
        s',
        rw (http_take-ok t s v) runs,
        all
            ∙ ap (λ l. l ++ report_text (popped polls)) (produced-http t s)
            ∙ append_assoc (produced s) (flatten (report_lines t)) (report_text (popped polls)),
      )
