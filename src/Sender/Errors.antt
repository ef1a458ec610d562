-- ===== src/Sender/Errors.antt =====
-- What the senders print of the exceptions of their transport.
use mathlib.Core.List.{map-append}
use int_platform_dpdk.Base.{
  ℕ, ◌+◌, ◌≡◌, refl, sym, ap, ap₂, ◌∙◌, List, [], ◌∷◌, ◌++◌, append_assoc, append-nil, map, length,
  false, not, ◌&&◌, Option, none, some, leb, ◌==◌, Bool-cases, inl, inr, arith,
}
use int_platform_dpdk.Outcome.{ok}
use int_platform_dpdk.Words.{u32}
use int_platform_dpdk.Text.{codes, show_ℕ}
use int_platform_dpdk.Types.{Options, TelemetricHdr}
use int_platform_dpdk.Sender.{
  Transport, SenderState, idle, is_empty, pop_threshold, flush_text, udp_message, http_message,
  udp_sender, http_wait, http_sender,
}
use int_platform_dpdk.Sender.Lossless.{
  popped, AllAddresses, added, udp_next, http_next, udp_take-ok, http_take-ok,
}

abbrev thrown : Option (List ℕ) → List (List ℕ)
thrown none = []
thrown (some what) = what ∷ []

-- The exceptions of the calls with these texts, the first of which is number `n`.
unfoldable pub exceptions : Transport → ℕ → List (List ℕ) → List (List ℕ)
exceptions transport n [] = []
exceptions transport n (text ∷ texts) = elim (transport n text) [
  | none ↦ exceptions transport (n + 1) texts
  | some what ↦ what ∷ exceptions transport (n + 1) texts
]

exceptions-cons :
    (transport : Transport) (n : ℕ) (text : List ℕ) (texts : List (List ℕ)) (o : Option (List ℕ))
    → transport n text ≡ o
    → exceptions transport n (text ∷ texts) ≡ thrown o ++ exceptions transport (n + 1) texts
unfolding exceptions
exceptions-cons transport n text texts none e = rw (e, exceptions) refl
exceptions-cons transport n text texts (some what) e = rw (e, exceptions) refl

exceptions-snoc :
    (transport : Transport) (n : ℕ) (texts : List (List ℕ)) (text : List ℕ)
    → exceptions transport n (texts ++ (text ∷ []))
      ≡ exceptions transport n texts ++ thrown (transport (n + length texts) text)
unfolding exceptions
exceptions-snoc transport n [] text =
    exceptions-cons transport n text [] (transport n text) refl
    ∙ append-nil (thrown (transport n text))
    ∙ ap (λ k. thrown (transport k text)) (omega arith)
exceptions-snoc transport n (x ∷ texts) text =
    exceptions-cons transport n x (texts ++ (text ∷ [])) (transport n x) refl
    ∙ ap (λ l. thrown (transport n x) ++ l) (exceptions-snoc transport (n + 1) texts text)
    ∙ sym (append_assoc (thrown (transport n x)) (exceptions transport (n + 1) texts) _)
    ∙ ap₂ (λ l k. l ++ thrown (transport k text))
        (sym (exceptions-cons transport n x texts (transport n x) refl)) (omega arith)

-- The line of udp_sender's thread `id` for an exception, and that of http_sender.
abbrev pub udp_line : ℕ → List ℕ → List ℕ
udp_line id what = codes "ID:" ++ show_ℕ id ++ codes ", error: " ++ what ++ codes "\n"

abbrev pub http_line : List ℕ → List ℕ
http_line what = []

udp_message-line : (id : ℕ) (o : Option (List ℕ)) → udp_message id o ≡ map (udp_line id) (thrown o)
unfolding udp_message
udp_message-line id none = refl
udp_message-line id (some what) = refl

http_message-line : (o : Option (List ℕ)) → http_message o ≡ map http_line (thrown o)
unfolding http_message
http_message-line none = refl
http_message-line (some what) = refl

module _ (transport : Transport) (line : List ℕ → List ℕ) where
  -- One line was printed for each exception, in order.
  abbrev pub Reported : SenderState → Type 0
  Reported s = s.errors ≡ map line (exceptions transport 0 s.sent)

  flush_text-Reported :
      (message : Option (List ℕ) → List (List ℕ)) (s : SenderState)
      → ((o : Option (List ℕ)) → message o ≡ map line (thrown o))
      → Reported s
      → Reported (flush_text message transport s)
  unfolding flush_text
  flush_text-Reported message s prints r =
      ap₂ (λ xs ys. xs ++ ys) r (prints (transport (length s.sent) s.text))
      ∙ sym (
          map-append line (exceptions transport 0 s.sent)
            (thrown (transport (length s.sent) s.text)))
      ∙ ap (λ k. map line (exceptions transport 0 s.sent ++ thrown (transport k s.text)))
          (omega arith)
      ∙ ap (map line) (sym (exceptions-snoc transport 0 s.sent s.text))

module _ (opt : Options) (transport : Transport) where
  udp_next-Reported :
      (id : ℕ) (s : SenderState) (t : TelemetricHdr)
      → Reported transport (udp_line id) s
      → Reported transport (udp_line id) (udp_next opt transport id s t)
  udp_next-Reported id s t r = elim (Bool-cases ((added s t).it == opt.batch)) [
    | inl full ↦ rw (full) (
        flush_text-Reported transport (udp_line id) (udp_message id) (added s t)
          (udp_message-line id) r)
    | inr short ↦ rw (short) r
  ]

  http_next-Reported :
      (s : SenderState) (t : TelemetricHdr)
      → Reported transport http_line s
      → Reported transport http_line (http_next opt transport s t)
  http_next-Reported s t r = elim (Bool-cases (leb opt.batch (added s t).it)) [
    | inl full ↦ rw (full) (
        flush_text-Reported transport http_line http_message (added (record s { flush = 0 }) t)
          http_message-line r)
    | inr short ↦ rw (short) r
  ]

  http_wait-Reported :
      (s : SenderState)
      → Reported transport http_line s
      → Reported transport http_line (http_wait opt transport s)
  unfolding http_wait
  http_wait-Reported s r =
      let waited = record s { flush = u32 (s.flush + 1) } in
      elim (Bool-cases (
        waited.flush == pop_threshold && not (is_empty waited.text) && not (opt.host_valid == 0))) [
          | inl due ↦
              rw (due)
                (flush_text-Reported transport http_line http_message waited http_message-line r)
          | inr early ↦ rw (early) r
        ]

module _ (opt : Options) (transport : Transport) (on : (opt.host_valid == 0) ≡ false) where
  udp_sender_from-Reported :
      (id : ℕ) (ts : List TelemetricHdr) (s : SenderState)
      → AllAddresses ts
      → Reported transport (udp_line id) s
      → (s' : SenderState) × (udp_sender opt transport id ts s ≡ ok s')
        × Reported transport (udp_line id) s'
  unfolding udp_sender
  udp_sender_from-Reported id [] s v r = (s, refl, r)
  udp_sender_from-Reported id (t ∷ ts) s (v, vs) r =
      let (s', runs, r') =
        udp_sender_from-Reported id ts (udp_next opt transport id s t) vs
          (udp_next-Reported opt transport id s t r) in
      (s', rw (udp_take-ok opt transport on id t s v) runs, r')

  http_sender_from-Reported :
      (polls : List (Option TelemetricHdr)) (s : SenderState)
      → AllAddresses (popped polls)
      → Reported transport http_line s
      → (s' : SenderState) × (http_sender opt transport polls s ≡ ok s')
        × Reported transport http_line s'
  unfolding http_sender
  http_sender_from-Reported [] s v r = (s, refl, r)
  http_sender_from-Reported (none ∷ polls) s v r =
      http_sender_from-Reported polls (http_wait opt transport s) v
        (http_wait-Reported opt transport s r)
  http_sender_from-Reported (some t ∷ polls) s (v, vs) r =
      let (s', runs, r') =
        http_sender_from-Reported polls (http_next opt transport s t) vs
          (http_next-Reported opt transport s t r) in
      (s', rw (http_take-ok opt transport on t s v) runs, r')

  -- With a host and over reports whose addresses take at most fifteen bytes, started without a text, over
  -- any transport: neither sender ever faults or stops for an exception, and both print one line for
  -- each exception of the transport, in order, and no other. udp_sender's line has the number of the
  -- thread and the text of the exception, http_sender's has nothing.
  pub senders_report :
      (id : ℕ) (ts : List TelemetricHdr) (polls : List (Option TelemetricHdr))
      → AllAddresses ts
      → AllAddresses (popped polls)
      → ((s' : SenderState) × (udp_sender opt transport id ts idle ≡ ok s')
          × (s'.errors ≡ map (udp_line id) (exceptions transport 0 s'.sent)))
        × ((s' : SenderState) × (http_sender opt transport polls idle ≡ ok s')
            × (s'.errors ≡ map http_line (exceptions transport 0 s'.sent)))
  unfolding exceptions
  senders_report id ts polls v vs =
      (udp_sender_from-Reported id ts idle v refl, http_sender_from-Reported polls idle vs refl)
