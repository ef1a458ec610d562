-- ===== src/Pipeline/Delivery.antt =====
-- What http_sender's threads have handed over once they have polled long enough.
use mathlib.Core.List.{flatten}
use int_platform_dpdk.Base.{
  ℕ, zero, suc, ◌+◌, ◌^◌, ◌≤◌, ◌<◌, ◌≡◌, ◌⊎◌, refl, sym, ap, subst, ◌∙◌, List, [], ◌∷◌, ◌++◌,
  append-nil, map, false, some, get_elem?, length, inl, inr, arith, ◌==◌, replicate, get_elem?_lt,
}
use int_platform_dpdk.Outcome.{ok, ◌>>=◌}
use int_platform_dpdk.Types.{Options, TelemetricHdr}
use int_platform_dpdk.Ring.Window
use int_platform_dpdk.Ring.Window.{contents}
use int_platform_dpdk.Ring.Refine.{length-contents}
use int_platform_dpdk.Ring.Arith.{distance-lt}
use int_platform_dpdk.Sender.{Transport}
use int_platform_dpdk.Sender.Lossless.{report_text, AllAddresses}
use int_platform_dpdk.Sender.Blocks.{AllFilled, produced-Blocks}
use int_platform_dpdk.Sender.Texts.{report_text-nil}
use int_platform_dpdk.Exporter.{IntExporter, Buffered, ring_buffer_size}
use int_platform_dpdk.Exporter.State
use int_platform_dpdk.Exporter.Queued.{queued}
use int_platform_dpdk.Exporter.Start.{by_http, sender_kind, constructed, new_exporter}
use int_platform_dpdk.Exporter.Fresh.{threads_from, new_exporter-IsValid}
use int_platform_dpdk.Pipeline.{Threads, Turn, polled, started, turns}
use int_platform_dpdk.Pipeline.Inv.{Inv, routed, exports}
use int_platform_dpdk.Pipeline.Append.{turns-append}
use int_platform_dpdk.Pipeline.Accounts.{started_Inv}
use int_platform_dpdk.Pipeline.Drain.{Waited, Waited-http_wait, Waited-http_next, poll_lem}
use int_platform_dpdk.Pipeline.Prompt.{Prompt, turns-Prompt}

nil_of : (xs : List TelemetricHdr) → length xs ≡ 0 → xs ≡ []
nil_of [] h = refl
nil_of (x ∷ xs) h = absurd (omega arith)

module _ (opt : Options) (transports : ℕ → Transport) (before : TelemetricHdr)
    (on : (opt.host_valid == 0) ≡ false) where
  -- Polls of thread `i`: first the ring is emptied, then the text.
  polls_lem :
      (m i k : ℕ) (p : Threads) (r : Buffered)
      → Inv p
      → get_elem? p.exporter.ring_buffs i ≡ some r
      → Waited k (p.senders i)
      → (length (contents ring_buffer_size r) ≡ 0) ⊎ (k ≡ 0)
      → length (contents ring_buffer_size r) + 10 ≤ m + k
      → (p' : Threads) × (r' : Buffered) × (turns opt by_http transports before
            (replicate m (polled i))
            p
          ≡ ok p')
        × Inv p'
        × (p'.accepted ≡ p.accepted)
        × (get_elem? p'.exporter.ring_buffs i ≡ some r')
        × (length (contents ring_buffer_size r') ≡ 0)
        × ((p'.senders i).text ≡ [])
  unfolding turns
  polls_lem zero i k p r inv found (inl empty) in_turn long = (
    p,
    r,
    refl,
    inv,
    refl,
    found,
    elim in_turn [ inl none_left ↦ none_left | inr never ↦ absurd (omega (arith, never, long)) ],
    empty,
  )
  polls_lem zero i k p r inv found (inr (many, few)) in_turn long =
      absurd (omega (arith, many, few, long))
  polls_lem (suc m) i k p r inv found waited in_turn long =
      let (mid, runs, step) = poll_lem opt transports before on i p inv r found in
      elim step.taken_or_waited [
        | inl (t, fewer, took) ↦
            let fresh =
              subst (Waited 0) (sym took)
                (Waited-http_next opt (transports i) on (p.senders i) t) in
            let begun : k ≡ 0 = elim in_turn [
              | inl none_left ↦ absurd (omega (arith, none_left, fewer))
              | inr zero_k ↦ zero_k
            ] in
            let (p', r', rest, kept, same, found', none_left, empty) =
              polls_lem m i 0 mid step.after step.inv step.here fresh (inr refl)
                (omega (arith, fewer, begun, long)) in
            (p', r', rw runs rest, kept, same ∙ step.accepted, found', none_left, empty)
        | inr (none_here, none_after, stays) ↦
            let longer =
              subst (Waited (suc k)) (sym stays)
                (Waited-http_wait opt (transports i) on k (p.senders i) waited) in
            let (p', r', rest, kept, same, found', none_left, empty) =
              polls_lem m i (suc k) mid step.after step.inv step.here longer (inl none_after)
                (omega (arith, none_here, none_after, long)) in
            (p', r', rw runs rest, kept, same ∙ step.accepted, found', none_left, empty)
      ]

  -- With nothing left, the blocks are all that was taken.
  pub whole_blocks :
      (p : Threads) (i : ℕ) (r : Buffered)
      → Inv p
      → get_elem? p.exporter.ring_buffs i ≡ some r
      → contents ring_buffer_size r ≡ []
      → (p.senders i).text ≡ []
      → (blocks : List (List TelemetricHdr)) × AllFilled blocks
        × ((p.senders i).sent ≡ map report_text blocks)
        × (flatten blocks ≡ routed i p.accepted)
  whole_blocks p i r inv found nothing empty =
      let b = inv.blocks i in
      let none_held = report_text-nil b.held (sym b.text ∙ empty) in
      (
        b.blocks,
        b.filled,
        b.sent,
        sym (append-nil (flatten b.blocks))
            ∙ ap (λ l. flatten b.blocks ++ l) (sym none_held)
            ∙ b.all
            ∙ sym (append-nil (p.popped i))
            ∙ ap (λ l. p.popped i ++ l) (sym nothing)
            ∙ sym (inv.fifo i r found),
      )

  started-Prompt : (e : IntExporter) → Inv (started e) → Prompt (length e.ring_buffs) (started e)
  started-Prompt e inv = record { inv = inv; rings = refl; waited = λ i. inl refl }

  length-ring :
      (r : Buffered)
      → Window.IsValid ring_buffer_size r
      → length (contents ring_buffer_size r) < ring_buffer_size
  length-ring r v = omega (
    arith,
    length-contents ring_buffer_size r,
    distance-lt ring_buffer_size r.tail r.head v.tail_in v.head_in,
  )

  -- What is shown of the polls at an exporter that is made.
  pub record Delivered (ts : List Turn) (i : ℕ) (e : IntExporter) (p : Threads) : Type 0 where
    pub ring : Buffered
    pub runs :
        turns opt by_http transports before
          (ts ++ replicate (ring_buffer_size + 10) (polled i))
          (started e)
        ≡ ok p
    pub inv : Inv p
    pub found : get_elem? p.exporter.ring_buffs i ≡ some ring
    pub nothing : contents ring_buffer_size ring ≡ []
    pub empty : (p.senders i).text ≡ []

  pub started-Delivered :
      (e : IntExporter) (ts : List Turn) (i : ℕ)
      → State.IsValid e
      → queued e ≡ 0
      → AllAddresses (exports ts)
      → i < e.th_num
      → (p : Threads) × Delivered ts i e p
  started-Delivered e ts i valid none_queued fit inside =
      let (q, runs, prompt) =
        turns-Prompt opt transports before on ts (length e.ring_buffs) (started e)
          (started-Prompt e (started_Inv e valid none_queued)) fit in
      let (r, found) =
        get_elem?_lt q.exporter.ring_buffs i (omega (arith, inside, prompt.rings, valid.counted)) in
      let short = length-ring r (prompt.inv.valid.rings i r found) in
      let (p, r', polls, inv, same, found', none_left, empty) =
        polls_lem (ring_buffer_size + 10) i 0 q r prompt.inv found (prompt.waited i) (inr refl)
          (omega (arith, short)) in
      let polls_of = replicate (ring_buffer_size + 10) (polled i) in
      (
        p,
        record {
          ring = r';
          runs =
              turns-append opt by_http transports before ts polls_of (started e)
              ∙ ap (λ o. o >>= turns opt by_http transports before polls_of) runs
              ∙ polls;
          inv = inv;
          found = found';
          nothing = nil_of (contents ring_buffer_size r') none_left;
          empty = empty;
        },
      )

  -- With a host, the protocol "http" or "https" and any number of rings in 32 bits, for reports whose
  -- addresses take at most fifteen bytes: whatever calls of sendData and polls of the threads came
  -- before, in any order, once thread `i` has polled as often as a ring has cells, and ten times more,
  -- it has handed over everything: its ring and its text are empty, and the texts that it handed to its
  -- socket are, put together, the text of all the reports that sendData took for its ring, in order; each
  -- single text being that of a block of at least one of them.
  pub polls_deliver :
      (cells : ℕ → TelemetricHdr) (ts : List Turn) (i : ℕ)
      → sender_kind opt.protocol ≡ some by_http
      → opt.raw_buffer < 2 ^ 32
      → AllAddresses (exports ts)
      → i < opt.raw_buffer
      → (e : IntExporter) × (p : Threads) × (r : Buffered) × (new_exporter cells opt
          ≡ constructed e (threads_from by_http 0 opt.raw_buffer))
        × (turns opt by_http transports before
              (ts ++ replicate (ring_buffer_size + 10) (polled i))
              (started e)
            ≡ ok p)
        × (get_elem? p.exporter.ring_buffs i ≡ some r)
        × (contents ring_buffer_size r ≡ [])
        × ((p.senders i).text ≡ [])
        × (flatten (p.senders i).sent ≡ report_text (routed i p.accepted))
        × ((blocks : List (List TelemetricHdr)) × AllFilled blocks
            × ((p.senders i).sent ≡ map report_text blocks)
            × (flatten blocks ≡ routed i p.accepted))
  polls_deliver cells ts i known small fit inside =
      let (e, made, valid, many, none_queued) =
        new_exporter-IsValid cells opt by_http known small in
      let (p, d) = started-Delivered e ts i valid none_queued fit (omega (arith, inside, many)) in
      (
        e,
        p,
        d.ring,
        made,
        d.runs,
        d.found,
        d.nothing,
        d.empty,
        sym (append-nil (flatten (p.senders i).sent))
            ∙ ap (λ l. flatten (p.senders i).sent ++ l) (sym d.empty)
            ∙ produced-Blocks (p.senders i) (p.popped i) (d.inv.blocks i)
            ∙ ap report_text (
                sym (append-nil (p.popped i))
                ∙ ap (λ l. p.popped i ++ l) (sym d.nothing)
                ∙ sym (d.inv.fifo i d.ring d.found)),
        whole_blocks p i d.ring d.inv d.found d.nothing d.empty,
      )
