-- ===== src/Udp/Oversized.antt =====
-- Batches that no datagram holds.
use mathlib.Core.List.{flatten}
use int_platform_dpdk.Base.{
  ℕ, ◌+◌, ◌*◌, ◌≤◌, ◌<◌, ◌≡◌, refl, ap, ◌∙◌, List, [], ◌∷◌, Bool, true, false, length,
  length-append, length-snoc, Option, some, ◌==◌, arith, Bool-cases, inl, inr,
}
use int_platform_dpdk.Outcome.{ok}
use int_platform_dpdk.Types.{Options, TelemetricMeta, TelemetricHdr}
use int_platform_dpdk.Report.{tags, flow_line, first_line, later_line, node_line}
use int_platform_dpdk.Report.Lines.{report_lines, node_lines}
use int_platform_dpdk.Sender.{Transport, SenderState, idle, flush_text, udp_message, udp_sender}
use int_platform_dpdk.Sender.Lossless.{AllAddresses, added, udp_next, udp_take-ok}
use int_platform_dpdk.Udp.{send}

-- The payload of a datagram over IPv4.
abbrev pub max_datagram : ℕ
max_datagram = 65507

-- What is documented of send_to: a text that no datagram holds is refused.
abbrev pub HasLimit : Transport → Type 0
HasLimit send_to =
    (n : ℕ) (text : List ℕ)
    → max_datagram < length text
    → (what : List ℕ) × (send_to n text ≡ some what)

-- Without a digit or an address, a line has 85 bytes.
abbrev pub min_line : ℕ
min_line = 85

length-tags_ge : (t : TelemetricHdr) → 49 ≤ length (tags t)
unfolding tags
length-tags_ge t = simp length-append (omega arith)

module _ (t : TelemetricHdr) where
  length-node_line_ge :
      (first : Bool) (item : TelemetricMeta) → min_line ≤ length (node_line first (tags t) item)
  unfolding node_line first_line later_line
  length-node_line_ge true item = simp length-append (omega (arith, length-tags_ge t))
  length-node_line_ge false item = elim (Bool-cases (item.hop_delay == 0)) [
    | inl e ↦ rw e (simp length-append (omega (arith, length-tags_ge t)))
    | inr e ↦ rw e (simp length-append (omega (arith, length-tags_ge t)))
  ]

  length-node_lines_ge :
      (first : Bool) (items : List TelemetricMeta)
      → min_line * length items ≤ length (flatten (node_lines (tags t) first items))
  unfolding node_lines flatten
  length-node_lines_ge first [] = omega arith
  length-node_lines_ge first (item ∷ items) =
      simp length-append
        (omega (arith, length-node_line_ge first item, length-node_lines_ge false items))

  length-report_lines_ge : min_line * (1 + length t.node_meta) ≤ length (flatten (report_lines t))
  unfolding report_lines flatten flow_line
  length-report_lines_ge =
      simp length-append (omega (arith, length-tags_ge t, length-node_lines_ge true t.node_meta))

send_refuses : (send_to : Transport) → HasLimit send_to → HasLimit (send send_to)
unfolding send
send_refuses send_to limit n text long =
    let (what, e) = limit n text long in (what, rw (e, send) refl)

module _ (opt : Options) (send_to : Transport) (limit : HasLimit send_to)
    (on : (opt.host_valid == 0) ≡ false) (large : max_datagram < min_line * opt.batch) where
  -- The text held is as long as its lines are many, and each text handed over was refused.
  record Refused (s : SenderState) : Type 0 where
    long : min_line * s.it ≤ length s.text
    refused : length s.errors ≡ length s.sent

  length-udp_message :
      (id : ℕ) (o : Option (List ℕ)) (what : List ℕ) → o ≡ some what → length (udp_message id o) ≡ 1
  unfolding udp_message
  length-udp_message id o what e = rw (e) refl

  added-Refused : (s : SenderState) (t : TelemetricHdr) → Refused s → Refused (added s t)
  added-Refused s t r = record {
    long = simp length-append (omega (arith, r.long, length-report_lines_ge t));
    refused = r.refused;
  }

  flush_Refused :
      (id : ℕ) (s : SenderState)
      → Refused s
      → s.it ≡ opt.batch
      → Refused (flush_text (udp_message id) (send send_to) s)
  unfolding flush_text
  flush_Refused id s r full =
      let long : max_datagram < length s.text =
        omega (arith, r.long, large, ap (λ n. min_line * n) full) in
      let (what, e) = send_refuses send_to limit (length s.sent) s.text long in
      record {
        long = omega arith;
        refused =
            length-append s.errors (udp_message id (send send_to (length s.sent) s.text))
            ∙ omega (arith, r.refused, length-udp_message id _ what e, length-snoc s.sent s.text);
      }

  udp_sender-Refused :
      (id : ℕ) (ts : List TelemetricHdr) (s : SenderState)
      → AllAddresses ts
      → Refused s
      → (s' : SenderState) × (udp_sender opt (send send_to) id ts s ≡ ok s') × Refused s'
  unfolding udp_sender
  udp_sender-Refused id [] s v r = (s, refl, r)
  udp_sender-Refused id (t ∷ ts) s (v, vs) r =
      let (s', runs, r') =
        udp_sender-Refused id ts (udp_next opt (send send_to) id s t) vs
          (next_refused (added-Refused s t r)) in
      (s', rw (udp_take-ok opt (send send_to) on id t s v) runs, r')
    where
      next_refused : Refused (added s t) → Refused (udp_next opt (send send_to) id s t)
      next_refused kept = elim (Bool-cases ((added s t).it == opt.batch)) [
        | inl full ↦ rw (full) (flush_Refused id (added s t) kept (ground arith))
        | inr short ↦ rw (short) kept
      ]

  -- Over a UDP socket that refuses what no datagram holds, with a host and a batch of records of which 85
  -- bytes each are more than 65507 bytes (as the default of 1000 is), for reports whose addresses take
  -- at most fifteen bytes: udp_sender runs without a fault and without any success. As many exceptions
  -- are printed as texts were handed over, and the text that it holds at the end has at least 85 bytes
  -- for each record counted.
  pub udp_sender_oversized :
      (id : ℕ) (ts : List TelemetricHdr)
      → AllAddresses ts
      → (s' : SenderState) × (udp_sender opt (send send_to) id ts idle ≡ ok s')
        × (length s'.errors ≡ length s'.sent)
        × (min_line * s'.it ≤ length s'.text)
  udp_sender_oversized id ts v =
      let (s', runs, r) =
        udp_sender-Refused id ts idle v (record { long = omega arith; refused = refl }) in
      (s', runs, r.refused, r.long)
