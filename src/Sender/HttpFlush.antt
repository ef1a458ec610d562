-- ===== src/Sender/HttpFlush.antt =====
-- When http_sender sends: at the batch, and after ten empty polls.
use mathlib.Core.List.{flatten}
use int_platform_dpdk.Base.{
  ℕ, zero, suc, ◌+◌, ◌<◌, ◌≡◌, refl, sym, ap, ◌∙◌, List, [], ◌∷◌, ◌++◌, append-nil, true, false,
  Option, none, some, arith, leb, ◌==◌, Bool-cases, inl, inr, replicate,
}
use int_platform_dpdk.Outcome.{ok, ok-injective}
use int_platform_dpdk.Words.{u32}
use int_platform_dpdk.Types.{Options, TelemetricHdr}
use int_platform_dpdk.Sender.{
  Transport, SenderState, flush_text, is_empty, pop_threshold, http_wait, http_sender,
}
use int_platform_dpdk.Sender.Lossless.{
  produced, report_text, popped, AllAddresses, added, http_next, http_take-ok, http_sender-lossless,
}

-- Ten polls that find the ring empty.
abbrev pub ten_empty : List (Option TelemetricHdr)
ten_empty = replicate 10 none

nil_of_is_empty : (text : List ℕ) → is_empty text ≡ true → text ≡ []
nil_of_is_empty [] h = refl
nil_of_is_empty (c ∷ text) h = cc

module _ (opt : Options) (transport : Transport) (on : (opt.host_valid == 0) ≡ false) where
  -- With a host, and over polls whose reports have addresses of at most fifteen bytes: started with a
  -- count of records below the batch, http_sender ends with one below the batch, without a fault.
  pub http_sender-below_batch :
      (polls : List (Option TelemetricHdr)) (s : SenderState)
      → AllAddresses (popped polls)
      → s.it < opt.batch
      → (s' : SenderState) × (http_sender opt transport polls s ≡ ok s') × (s'.it < opt.batch)
  unfolding http_sender http_wait flush_text
  http_sender-below_batch [] s v h = (s, refl, h)
  http_sender-below_batch (none ∷ polls) s v h =
      http_sender-below_batch polls (http_wait opt transport s) v (ground arith)
  http_sender-below_batch (some t ∷ polls) s (v, vs) h =
      let (s', runs, below) =
        http_sender-below_batch polls (http_next opt transport s t) vs (ground arith) in
      (s', rw (http_take-ok opt transport on t s v) runs, below)

  pub wait_on : (s : SenderState) → s.flush < 9 → (http_wait opt transport s).flush ≡ s.flush + 1
  unfolding http_wait
  wait_on s h =
      let e : (u32 (s.flush + 1) == pop_threshold) ≡ false = ground arith in rw e (omega arith)

  pub wait_last : (s : SenderState) → s.flush ≡ 9 → (http_wait opt transport s).text ≡ []
  unfolding http_wait flush_text
  wait_last s h = elim (Bool-cases (is_empty s.text)) [
    | inl e ↦ ground (arith, nil_of_is_empty s.text)
    | inr e ↦ ground arith
  ]

  -- The polls up to the tenth empty one leave no text behind.
  emptied :
      (k : ℕ) (s : SenderState)
      → s.flush + suc k ≡ pop_threshold
      → (s' : SenderState) × (http_sender opt transport (replicate (suc k) none) s ≡ ok s')
        × (s'.text ≡ [])
  unfolding http_sender
  emptied zero s h = (http_wait opt transport s, refl, wait_last s (omega arith))
  emptied (suc k) s h =
      emptied k (http_wait opt transport s) (omega (arith, wait_on s (omega arith)))

  pub flush-http_next :
      (s : SenderState) (t : TelemetricHdr) → (http_next opt transport s t).flush ≡ 0
  unfolding flush_text
  flush-http_next s t = elim (Bool-cases (leb opt.batch (added s t).it)) [
    | inl e ↦ rw e
    | inr e ↦ rw e
  ]

  leaves_none :
      (polls : List (Option TelemetricHdr)) (t : TelemetricHdr) (s : SenderState)
      → AllAddresses (popped (polls ++ (some t ∷ ten_empty)))
      → (s' : SenderState) × (http_sender opt transport (polls ++ (some t ∷ ten_empty)) s ≡ ok s')
        × (s'.text ≡ [])
  unfolding http_sender
  leaves_none [] t s (v, vs) =
      let (s', runs, none_left) =
        emptied 9 (http_next opt transport s t) (rw (flush-http_next s t)) in
      (s', rw (http_take-ok opt transport on t s v) runs, none_left)
  leaves_none (none ∷ polls) t s v = leaves_none polls t (http_wait opt transport s) v
  leaves_none (some t' ∷ polls) t s (v, vs) =
      let (s', runs, none_left) = leaves_none polls t (http_next opt transport s t') vs in
      (s', rw (http_take-ok opt transport on t' s v) runs, none_left)

  -- With a host, and over polls whose reports have addresses of at most fifteen bytes: a pause of
  -- ten empty polls after a report delivers everything: the sender then holds no text, and the
  -- texts that it handed over are, put together, what it held at first with the text of every
  -- popped report behind it, in order.
  pub http_sender_delivers :
      (polls : List (Option TelemetricHdr)) (t : TelemetricHdr) (s : SenderState)
      → AllAddresses (popped (polls ++ (some t ∷ ten_empty)))
      → (s' : SenderState) × (http_sender opt transport (polls ++ (some t ∷ ten_empty)) s ≡ ok s')
        × (s'.text ≡ [])
        × (flatten s'.sent ≡ produced s ++ report_text (popped (polls ++ (some t ∷ ten_empty))))
  http_sender_delivers polls t s v =
      let all = polls ++ (some t ∷ ten_empty) in
      let (s', runs, none_left) = leaves_none polls t s v in
      let (s'', runs', whole) = http_sender-lossless opt transport on all s v in
      let same : s'' ≡ s' = ok-injective (sym runs' ∙ runs) in
      (
        s',
        runs,
        none_left,
        sym (append-nil (flatten s'.sent))
            ∙ ap (λ l. flatten s'.sent ++ l) (sym none_left)
            ∙ ap produced (sym same)
            ∙ whole,
      )
