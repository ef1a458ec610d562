-- ===== src/Pipeline/Drain.antt =====
-- What http_sender's thread comes to when it polls on.
use int_platform_dpdk.Base.{
  ℕ, suc, ◌≤◌, ◌<◌, ◌≡◌, ◌≢◌, ◌⊎◌, refl, sym, ap, subst, ◌∙◌, List, [], ◌∷◌, false, true, Bool,
  some, get_elem?, update, update_self, update_ne, length, length-set, ℕ_discrete, Bool-cases, inl,
  inr, arith, ◌==◌, get_elem?-set_self, lt_of_get_elem?,
}
use int_platform_dpdk.Outcome.{ok, ok-injective}
use int_platform_dpdk.Types.{Options, TelemetricHdr}
use int_platform_dpdk.Queue
use int_platform_dpdk.Ring.{pop}
use int_platform_dpdk.Ring.Window
use int_platform_dpdk.Ring.Window.{contents}
use int_platform_dpdk.Ring.Refine.{pop_refines, pop-IsValid}
use int_platform_dpdk.Sender.{Transport, SenderState, http_wait}
use int_platform_dpdk.Sender.Lossless.{http_next, http_take-ok}
use int_platform_dpdk.Sender.HttpFlush.{wait_on, wait_last, flush-http_next}
use int_platform_dpdk.Exporter.{Buffered, ring_buffer_size}
use int_platform_dpdk.Exporter.Start.{by_http}
use int_platform_dpdk.Pipeline.{Threads, polled, take_report, wait_for, poll_ring, turn}
use int_platform_dpdk.Pipeline.Inv.{Inv}
use int_platform_dpdk.Pipeline.Turns.{pop_oldest}
use int_platform_dpdk.Pipeline.Polls.{popped_by, fits, poll_turn}

-- No text is held, or at least `k` polls in a row found the ring empty, and fewer than ten.
abbrev pub Waited : ℕ → SenderState → Type 0
Waited k s = (s.text ≡ []) ⊎ ((k ≤ s.flush) × (s.flush < 10))

module _ (opt : Options) (transport : Transport) (on : (opt.host_valid == 0) ≡ false) where
  pub Waited-http_wait :
      (k : ℕ) (s : SenderState) → Waited k s → Waited (suc k) (http_wait opt transport s)
  unfolding http_wait
  Waited-http_wait k s (inl empty) = inl (ground (arith, empty))
  Waited-http_wait k s (inr (long, short)) = elim (ℕ_discrete s.flush 9) [
    | yes nine ↦ inl (wait_last opt transport on s nine)
    | no early ↦
        let more = wait_on opt transport on s (omega (arith, short, early)) in
        inr (omega (arith, more, long), omega (arith, more, short, early))
  ]

  pub Waited-http_next :
      (s : SenderState) (t : TelemetricHdr) → Waited 0 (http_next opt transport s t)
  Waited-http_next s t =
      let fresh = flush-http_next opt transport on s t in inr (omega arith, omega (arith, fresh))

empty_if :
    {A : Type 0} (q : List A) (x : A) (res : Bool × A × List A)
    → res ≡ Queue.pop q x
    → res.0 ≡ false
    → length q ≡ 0
unfolding Queue.pop
empty_if [] x res e h = refl
empty_if (y ∷ q) x res e h = cc

-- Thread `i` has polled its ring `r`.
pub record Polled (opt : Options) (transport : Transport) (i : ℕ) (r : Buffered) (p p' : Threads)
    : Type 0 where
  pub inv : Inv p'
  pub many : length p'.exporter.ring_buffs ≡ length p.exporter.ring_buffs
  pub accepted : p'.accepted ≡ p.accepted
  pub others : (j : ℕ) → i ≢ j → p'.senders j ≡ p.senders j
  pub after : Buffered
  pub here : get_elem? p'.exporter.ring_buffs i ≡ some after
  pub taken_or_waited :
      ((t : TelemetricHdr) × (suc (length (contents ring_buffer_size after))
          ≡ length (contents ring_buffer_size r))
        × (p'.senders i ≡ http_next opt transport (p.senders i) t))
      ⊎ ((length (contents ring_buffer_size r) ≡ 0)
          × (length (contents ring_buffer_size after) ≡ 0)
          × (p'.senders i ≡ http_wait opt transport (p.senders i)))

module _ (opt : Options) (transports : ℕ → Transport) (before : TelemetricHdr)
    (on : (opt.host_valid == 0) ≡ false) where
  -- A poll as far as the invariant goes, for the state that it comes to.
  inv_of :
      (i : ℕ) (p p' : Threads)
      → Inv p
      → turn opt by_http transports before (polled i) p ≡ ok p'
      → Inv p'
  inv_of i p p' inv runs =
      let (q, runs', kept, same, as_many) = poll_turn opt by_http transports before on i p inv in
      subst Inv (ok-injective (sym runs' ∙ runs)) kept

  module _ (i : ℕ) (p : Threads) (inv : Inv p) (r : Buffered)
      (found : get_elem? p.exporter.ring_buffs i ≡ some r) where
    poll_full :
        (pop ring_buffer_size r before).0 ≡ true
        → (p' : Threads) × (turn opt by_http transports before (polled i) p ≡ ok p')
          × Polled opt (transports i) i r p p'
    unfolding turn poll_ring take_report
    poll_full got =
        let ring_valid : Window.IsValid ring_buffer_size r = inv.valid.rings i r found in
        let r' = (pop ring_buffer_size r before).2 in
        let t = (pop ring_buffer_size r before).1 in
        let oldest = pop_oldest ring_buffer_size r before ring_valid got in
        let kept = pop-IsValid ring_buffer_size before ring_valid in
        let s = http_next opt (transports i) (p.senders i) t in
        let took =
          http_take-ok opt (transports i) on t (p.senders i)
            (fits p inv i r found t r' oldest kept) in
        let runs : turn opt by_http transports before (polled i) p ≡ ok (popped_by p i t r' s) =
          rw (found, turn) (rw (got) (rw (took) refl)) in
        (
          popped_by p i t r' s,
          runs,
          record {
            inv = inv_of i p (popped_by p i t r' s) inv runs;
            many = length-set p.exporter.ring_buffs i r';
            accepted = refl;
            others = λ j other. update_ne p.senders i j s other;
            after = r';
            here =
                get_elem?-set_self p.exporter.ring_buffs i r'
                  (lt_of_get_elem? p.exporter.ring_buffs i found);
            taken_or_waited = inl (t, sym (ap length oldest), update_self p.senders i s);
          },
        )

    poll_empty :
        (pop ring_buffer_size r before).0 ≡ false
        → (p' : Threads) × (turn opt by_http transports before (polled i) p ≡ ok p')
          × Polled opt (transports i) i r p p'
    unfolding turn poll_ring wait_for
    poll_empty nothing =
        let ring_valid : Window.IsValid ring_buffer_size r = inv.valid.rings i r found in
        let s = http_wait opt (transports i) (p.senders i) in
        let p' : Threads = record p { senders = update p.senders i s } in
        let runs : turn opt by_http transports before (polled i) p ≡ ok p' =
          rw (found, turn) (rw (nothing) refl) in
        let none_held =
          empty_if (contents ring_buffer_size r) before _
            (pop_refines ring_buffer_size before ring_valid) nothing in
        (
          p',
          runs,
          record {
            inv = inv_of i p p' inv runs;
            many = refl;
            accepted = refl;
            others = λ j other. update_ne p.senders i j s other;
            after = r;
            here = found;
            taken_or_waited = inr (none_held, none_held, update_self p.senders i s);
          },
        )

    pub poll_lem :
        (p' : Threads) × (turn opt by_http transports before (polled i) p ≡ ok p')
        × Polled opt (transports i) i r p p'
    poll_lem = elim (Bool-cases (pop ring_buffer_size r before).0) [
      | inl got ↦ poll_full got
      | inr nothing ↦ poll_empty nothing
    ]
