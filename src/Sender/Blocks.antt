-- ===== src/Sender/Blocks.antt =====
-- What each text handed over is made of: whole reports, in order.
use mathlib.Core.List.{flatten}
use int_platform_dpdk.Base.{
  ℕ, ◌+◌, ◌≡◌, ◌≢◌, refl, sym, ap, ap₂, subst, ◌∙◌, List, [], ◌∷◌, ◌++◌, append_assoc, append-nil,
  map, false, not, ◌&&◌, Option, none, some, leb, ◌==◌, Bool-cases, inl, inr, arith,
}
use int_platform_dpdk.Outcome.{ok}
use int_platform_dpdk.Words.{u32}
use int_platform_dpdk.Types.{Options, TelemetricHdr}
use int_platform_dpdk.Report.Lines.{report_lines}
use int_platform_dpdk.Sender.{
  Transport, SenderState, idle, is_empty, pop_threshold, flush_text, udp_message, http_message,
  udp_sender, http_wait, http_sender,
}
use int_platform_dpdk.Sender.Lossless.{
  produced, report_text, popped, AllAddresses, added, udp_next, http_next, udp_take-ok,
  http_take-ok,
}
use int_platform_dpdk.Sender.Texts.{flatten-map, map-snoc, flatten-snoc, report_text-snoc}

-- None of the blocks is empty.
abbrev pub AllFilled : List (List TelemetricHdr) → Type 0
AllFilled [] = Unit
AllFilled (block ∷ blocks) = (block ≢ []) × AllFilled blocks

-- The reports taken so far: in blocks, one for each text handed over, and those of the text held.
pub record Blocks (s : SenderState) (reports : List TelemetricHdr) : Type 0 where
  pub blocks : List (List TelemetricHdr)
  pub held : List TelemetricHdr
  pub filled : AllFilled blocks
  pub sent : s.sent ≡ map report_text blocks
  pub text : s.text ≡ report_text held
  pub all : flatten blocks ++ held ≡ reports

-- Nothing is lost.
pub produced-Blocks :
    (s : SenderState) (reports : List TelemetricHdr)
    → Blocks s reports
    → produced s ≡ report_text reports
produced-Blocks s reports b =
    ap₂ (λ xs x. flatten xs ++ x) b.sent b.text ∙ flatten-map b.blocks b.held ∙ ap report_text b.all

pub idle-Blocks : Blocks idle []
unfolding report_text flatten
idle-Blocks = record { blocks = []; held = []; filled = tt; sent = refl; text = refl; all = refl }

AllFilled-snoc :
    (blocks : List (List TelemetricHdr)) (block : List TelemetricHdr)
    → AllFilled blocks
    → block ≢ []
    → AllFilled (blocks ++ (block ∷ []))
AllFilled-snoc [] block f ne = (ne, tt)
AllFilled-snoc (b ∷ blocks) block (h, f) ne = (h, AllFilled-snoc blocks block f ne)

snoc_ne : (ts : List TelemetricHdr) (t : TelemetricHdr) → ts ++ (t ∷ []) ≢ []
snoc_ne [] t h = cc
snoc_ne (u ∷ ts) t h = cc

-- A text that is not empty is handed over as a block of its own.
flush_text-Blocks :
    (message : Option (List ℕ) → List (List ℕ)) (transport : Transport) (s : SenderState)
    (reports : List TelemetricHdr) (b : Blocks s reports)
    → b.held ≢ []
    → Blocks (flush_text message transport s) reports
unfolding flush_text report_text
flush_text-Blocks message transport s reports b some_held = record {
  blocks = b.blocks ++ (b.held ∷ []);
  held = [];
  filled = AllFilled-snoc b.blocks b.held b.filled some_held;
  sent = ap₂ (λ xs x. xs ++ (x ∷ [])) b.sent b.text ∙ sym (map-snoc b.blocks b.held);
  text = refl;
  all = append-nil _ ∙ flatten-snoc b.blocks b.held ∙ b.all;
}

added-Blocks :
    (s : SenderState) (reports : List TelemetricHdr) (t : TelemetricHdr)
    → Blocks s reports
    → (b : Blocks (added s t) (reports ++ (t ∷ []))) × (b.held ≢ [])
added-Blocks s reports t b = (
  record {
    blocks = b.blocks;
    held = b.held ++ (t ∷ []);
    filled = b.filled;
    sent = b.sent;
    text = ap (λ l. l ++ flatten (report_lines t)) b.text ∙ sym (report_text-snoc b.held t);
    all = sym (append_assoc (flatten b.blocks) b.held (t ∷ [])) ∙ ap (λ l. l ++ (t ∷ [])) b.all;
  },
  snoc_ne b.held t,
)

fresh-Blocks :
    (s : SenderState) (reports : List TelemetricHdr) (n : ℕ)
    → Blocks s reports
    → Blocks (record s { flush = n }) reports
fresh-Blocks s reports n b = record {
  blocks = b.blocks;
  held = b.held;
  filled = b.filled;
  sent = b.sent;
  text = b.text;
  all = b.all;
}

held_ne :
    (s : SenderState) (reports : List TelemetricHdr) (b : Blocks s reports)
    → is_empty s.text ≡ false
    → b.held ≢ []
unfolding report_text
held_ne s reports b some_text none_held =
    let empty : s.text ≡ [] = b.text ∙ ap report_text none_held in ground (arith, empty, some_text)

module _ (opt : Options) (transport : Transport) where
  pub udp_next-Blocks :
      (id : ℕ) (s : SenderState) (reports : List TelemetricHdr) (t : TelemetricHdr)
      → Blocks s reports
      → Blocks (udp_next opt transport id s t) (reports ++ (t ∷ []))
  udp_next-Blocks id s reports t b =
      let (more, some_held) = added-Blocks s reports t b in
      elim (Bool-cases ((added s t).it == opt.batch)) [
        | inl full ↦
            rw (full) (flush_text-Blocks (udp_message id) transport (added s t) _ more some_held)
        | inr short ↦ rw (short) more
      ]

  pub http_next-Blocks :
      (s : SenderState) (reports : List TelemetricHdr) (t : TelemetricHdr)
      → Blocks s reports
      → Blocks (http_next opt transport s t) (reports ++ (t ∷ []))
  http_next-Blocks s reports t b =
      let fresh = record s { flush = 0 } in
      let (more, some_held) = added-Blocks fresh reports t (fresh-Blocks s reports 0 b) in
      elim (Bool-cases (leb opt.batch (added s t).it)) [
        | inl full ↦
            rw (full) (flush_text-Blocks http_message transport (added fresh t) _ more some_held)
        | inr short ↦ rw (short) more
      ]

  pub http_wait-Blocks :
      (s : SenderState) (reports : List TelemetricHdr)
      → Blocks s reports
      → Blocks (http_wait opt transport s) reports
  unfolding http_wait
  http_wait-Blocks s reports b =
      let waited = record s { flush = u32 (s.flush + 1) } in
      let same = fresh-Blocks s reports (u32 (s.flush + 1)) b in
      elim (Bool-cases (
        waited.flush == pop_threshold && not (is_empty waited.text) && not (opt.host_valid == 0))) [
          | inl due ↦ rw (due) (
              flush_text-Blocks http_message transport waited reports same
                (held_ne waited reports same (ground (arith, due))))
          | inr early ↦ rw (early) same
        ]

module _ (opt : Options) (transport : Transport) (on : (opt.host_valid == 0) ≡ false) where
  udp_sender_from-Blocks :
      (id : ℕ) (ts : List TelemetricHdr) (s : SenderState) (reports : List TelemetricHdr)
      → AllAddresses ts
      → Blocks s reports
      → (s' : SenderState) × (udp_sender opt transport id ts s ≡ ok s') × Blocks s' (reports ++ ts)
  unfolding udp_sender
  udp_sender_from-Blocks id [] s reports v b =
      (s, refl, subst (Blocks s) (sym (append-nil reports)) b)
  udp_sender_from-Blocks id (t ∷ ts) s reports (v, vs) b =
      let (s', runs, b') =
        udp_sender_from-Blocks id ts (udp_next opt transport id s t) (reports ++ (t ∷ [])) vs
          (udp_next-Blocks opt transport id s reports t b) in
      (
        s',
        rw (udp_take-ok opt transport on id t s v) runs,
        subst (Blocks s') (append_assoc reports (t ∷ []) ts) b',
      )

  http_sender_from-Blocks :
      (polls : List (Option TelemetricHdr)) (s : SenderState) (reports : List TelemetricHdr)
      → AllAddresses (popped polls)
      → Blocks s reports
      → (s' : SenderState) × (http_sender opt transport polls s ≡ ok s')
        × Blocks s' (reports ++ popped polls)
  unfolding http_sender
  http_sender_from-Blocks [] s reports v b =
      (s, refl, subst (Blocks s) (sym (append-nil reports)) b)
  http_sender_from-Blocks (none ∷ polls) s reports v b =
      http_sender_from-Blocks polls (http_wait opt transport s) reports v
        (http_wait-Blocks opt transport s reports b)
  http_sender_from-Blocks (some t ∷ polls) s reports (v, vs) b =
      let (s', runs, b') =
        http_sender_from-Blocks polls (http_next opt transport s t) (reports ++ (t ∷ [])) vs
          (http_next-Blocks opt transport s reports t b) in
      (
        s',
        rw (http_take-ok opt transport on t s v) runs,
        subst (Blocks s') (append_assoc reports (t ∷ []) (popped polls)) b',
      )

  -- udp_sender, with a host and over reports whose addresses take at most fifteen bytes, started without a
  -- text: it never faults, and the reports that it popped fall, in order, into blocks of at least one
  -- report and a rest, so that each text that it handed over is the text of one block, and the text
  -- that it holds is that of the rest.
  pub udp_sender-Blocks :
      (id : ℕ) (ts : List TelemetricHdr)
      → AllAddresses ts
      → (s' : SenderState) × (udp_sender opt transport id ts idle ≡ ok s') × Blocks s' ts
  udp_sender-Blocks id ts v = udp_sender_from-Blocks id ts idle [] v idle-Blocks

  -- http_sender, with a host and over any sequence of polls whose reports have addresses of at most
  -- fifteen bytes, started without a text: it never faults, and the reports that it popped fall, in
  -- order, into blocks of at least one report and a rest, so that each text that it handed over, flushes on
  -- empty polls included, is the text of one block, and the text that it holds is that of the rest.
  pub http_sender-Blocks :
      (polls : List (Option TelemetricHdr))
      → AllAddresses (popped polls)
      → (s' : SenderState) × (http_sender opt transport polls idle ≡ ok s')
        × Blocks s' (popped polls)
  http_sender-Blocks polls v = http_sender_from-Blocks polls idle [] v idle-Blocks
