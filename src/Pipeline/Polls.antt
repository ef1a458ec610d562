-- ===== src/Pipeline/Polls.antt =====
-- A sender's turn keeps the invariant.
use int_platform_dpdk.Base.{
  ℕ, ◌≡◌, refl, sym, ap, subst, ◌∙◌, [], ◌∷◌, ◌++◌, append_assoc, false, some, get_elem?, set,
  update, update_self, update_ne, length-set, ◌==◌, ℕ_discrete, Bool-cases, inl, inr, Option-cases,
  get_elem?-set_ne, eq_of_get_elem?-set,
}
use int_platform_dpdk.Outcome.{ok}
use int_platform_dpdk.Types.{Options, TelemetricHdr}
use int_platform_dpdk.Ring.{pop}
use int_platform_dpdk.Ring.Window
use int_platform_dpdk.Ring.Window.{contents}
use int_platform_dpdk.Ring.Refine.{pop-IsValid}
use int_platform_dpdk.Report.Lines.{HasAddresses}
use int_platform_dpdk.Sender.{Transport, SenderState}
use int_platform_dpdk.Sender.Lossless.{report_text, AllAddresses}
use int_platform_dpdk.Sender.Blocks.{Blocks}
use int_platform_dpdk.Exporter.{Buffered, ring_buffer_size}
use int_platform_dpdk.Exporter.State.{AllValid-set}
use int_platform_dpdk.Exporter.Start.{SenderKind}
use int_platform_dpdk.Pipeline.{Threads, polled, wait_for, poll_ring, turn}
use int_platform_dpdk.Pipeline.Inv.{Inv, routed, AllAddresses-suffix}
use int_platform_dpdk.Pipeline.Turns.{pop_oldest, take_report-ok, wait_for-Blocks}

-- The threads after thread `i` has taken the report `t`, which left its ring as `r'`.
abbrev pub popped_by : Threads → ℕ → TelemetricHdr → Buffered → SenderState → Threads
popped_by p i t r' s = record p {
  exporter = record (p.exporter) { ring_buffs = set (p.exporter.ring_buffs) i r' };
  senders = update p.senders i s;
  popped = update p.popped i (p.popped i ++ (t ∷ []));
}

module _ (p : Threads) (inv : Inv p) (i : ℕ) (r : Buffered)
    (found : get_elem? p.exporter.ring_buffs i ≡ some r) (t : TelemetricHdr) (r' : Buffered)
    (oldest : contents ring_buffer_size r ≡ t ∷ contents ring_buffer_size r')
    (valid : Window.IsValid ring_buffer_size r') where
  -- The report that is popped was routed to this ring.
  routed_popped : routed i p.accepted ≡ p.popped i ++ (t ∷ contents ring_buffer_size r')
  routed_popped = inv.fifo i r found ∙ ap (λ l. p.popped i ++ l) oldest

  pub fits : HasAddresses t
  fits =
      let suffix : AllAddresses (t ∷ contents ring_buffer_size r') =
        AllAddresses-suffix (p.popped i) _ (subst AllAddresses routed_popped (inv.addresses i)) in
      suffix.0

  fifo_here :
      (q : Buffered)
      → get_elem? (set p.exporter.ring_buffs i r') i ≡ some q
      → routed i p.accepted
        ≡ update p.popped i (p.popped i ++ (t ∷ [])) i ++ contents ring_buffer_size q
  fifo_here q h =
      routed_popped
      ∙ sym (append_assoc (p.popped i) (t ∷ []) (contents ring_buffer_size r'))
      ∙ ap (λ l. l ++ contents ring_buffer_size r')
          (sym (update_self p.popped i (p.popped i ++ (t ∷ []))))
      ∙ ap (λ b. update p.popped i (p.popped i ++ (t ∷ [])) i ++ contents ring_buffer_size b)
          (sym (eq_of_get_elem?-set p.exporter.ring_buffs i r' h))

  popped_by_Inv : (s : SenderState) → Blocks s (p.popped i ++ (t ∷ [])) → Inv (popped_by p i t r' s)
  unfolding report_text
  popped_by_Inv s more = record {
    valid = record {
      small = inv.valid.small;
      counted = length-set p.exporter.ring_buffs i r' ∙ inv.valid.counted;
      turn = inv.valid.turn;
      rings = AllValid-set p.exporter.ring_buffs i r' inv.valid.rings valid;
    };
    fifo = λ j q h. elim (ℕ_discrete i j) [
      | yes here ↦
          subst
            (λ k.
              get_elem? (set p.exporter.ring_buffs i r') k ≡ some q
              → routed k p.accepted
                ≡ update p.popped i (p.popped i ++ (t ∷ [])) k ++ contents ring_buffer_size q)
            here (fifo_here q) h
      | no other ↦
          inv.fifo j q (sym (get_elem?-set_ne p.exporter.ring_buffs r' other) ∙ h)
          ∙ ap (λ l. l ++ contents ring_buffer_size q)
              (sym (update_ne p.popped i j (p.popped i ++ (t ∷ [])) other))
    ];
    blocks = λ j. elim (ℕ_discrete i j) [
      | yes here ↦
          subst
            (λ k. Blocks (update p.senders i s k) (update p.popped i (p.popped i ++ (t ∷ [])) k))
            here
            (subst (λ x. Blocks x (update p.popped i (p.popped i ++ (t ∷ [])) i))
              (sym (update_self p.senders i s))
              (subst (Blocks s) (sym (update_self p.popped i (p.popped i ++ (t ∷ [])))) more))
      | no other ↦
          subst (λ x. Blocks x (update p.popped i (p.popped i ++ (t ∷ [])) j))
            (sym (update_ne p.senders i j s other))
            (subst (Blocks (p.senders j))
              (sym (update_ne p.popped i j (p.popped i ++ (t ∷ [])) other)) (inv.blocks j))
    ];
    addresses = inv.addresses;
  }

-- The threads after thread `i` has found its ring empty.
waited_Inv :
    (p : Threads) (i : ℕ) (s : SenderState)
    → Inv p
    → Blocks s (p.popped i)
    → Inv (record p { senders = update p.senders i s })
waited_Inv p i s inv same = record {
  valid = inv.valid;
  fifo = inv.fifo;
  blocks = λ j. elim (ℕ_discrete i j) [
    | yes here ↦
        subst (λ k. Blocks (update p.senders i s k) (p.popped k)) here
          (subst (λ x. Blocks x (p.popped i)) (sym (update_self p.senders i s)) same)
    | no other ↦
        subst (λ x. Blocks x (p.popped j)) (sym (update_ne p.senders i j s other)) (inv.blocks j)
  ];
  addresses = inv.addresses;
}

module _ (opt : Options) (kind : SenderKind) (transports : ℕ → Transport) (before : TelemetricHdr)
    (on : (opt.host_valid == 0) ≡ false) where
  poll_ring_Inv :
      (i : ℕ) (r : Buffered) (p : Threads)
      → Inv p
      → get_elem? p.exporter.ring_buffs i ≡ some r
      → (p' : Threads) × (poll_ring opt kind transports before i r p ≡ ok p')
        × Inv p'
        × (p'.accepted ≡ p.accepted)
        × (p'.refused ≡ p.refused)
  unfolding poll_ring
  poll_ring_Inv i r p inv found =
      let ring_valid : Window.IsValid ring_buffer_size r = inv.valid.rings i r found in
      elim (Bool-cases (pop ring_buffer_size r before).0) [
        | inl got ↦
            let r' = (pop ring_buffer_size r before).2 in
            let t = (pop ring_buffer_size r before).1 in
            let oldest = pop_oldest ring_buffer_size r before ring_valid got in
            let kept = pop-IsValid ring_buffer_size before ring_valid in
            let (s, runs, more) =
              take_report-ok opt kind transports before on i t (p.senders i) (p.popped i)
                (fits p inv i r found t r' oldest kept) (inv.blocks i) in
            (
              popped_by p i t r' s,
              rw (got) (rw runs),
              popped_by_Inv p inv i r found t r' oldest kept s more,
              refl,
              refl,
            )
        | inr nothing ↦ (
          record p {
            senders = update p.senders i (wait_for opt kind transports before i (p.senders i));
          },
          rw (nothing),
          waited_Inv p i _ inv (
              wait_for-Blocks opt kind transports before i (p.senders i) (p.popped i)
                (inv.blocks i)),
          refl,
          refl,
        )
      ]

  -- One poll by any thread.
  pub poll_turn :
      (i : ℕ) (p : Threads)
      → Inv p
      → (p' : Threads) × (turn opt kind transports before (polled i) p ≡ ok p')
        × Inv p'
        × (p'.accepted ≡ p.accepted)
        × (p'.refused ≡ p.refused)
  unfolding turn
  poll_turn i p inv = elim (Option-cases (get_elem? p.exporter.ring_buffs i)) [
    | inl missing ↦ (p, rw (missing, turn) refl, inv, refl, refl)
    | inr (r, found) ↦
        let (p', runs, kept, same, as_many) = poll_ring_Inv i r p inv found in
        (p', rw (found, turn) runs, kept, same, as_many)
  ]
