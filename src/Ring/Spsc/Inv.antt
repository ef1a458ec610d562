-- ===== src/Ring/Spsc/Inv.antt =====
-- What holds of the ring between any two steps of the two threads.
use int_platform_dpdk.Base.{
  ℕ, suc, ◌+◌, ◌-◌, ◌^◌, ◌≤◌, ◌<◌, ◌≡◌, ◌≢◌, refl, sym, ap, ◌∙◌, [], ◌∷◌, ◌++◌, arith, length,
  length-snoc, ap₂, update, append_assoc, update_self, update_ne,
}
use int_platform_dpdk.Ring.{next}
use int_platform_dpdk.Ring.Window.{step, window, distance}
use int_platform_dpdk.Ring.Arith.{next-eq-step}
use int_platform_dpdk.Ring.Spsc.{
  index, Shared, Producer, loaded_head, may_write, wrote, Consumer, loaded_tail, may_read, has_read,
  Produce, load_head, full, room, write, store_head, Consume, load_tail, none_left, some_left, read,
  store_tail,
}
use int_platform_dpdk.Ring.Spsc.Index.{
  index-lt, distance-index, index-ne, next-index, window-update_past, window-snoc, window-uncons,
  index-next,
}

-- How many values are in the ring.
abbrev pub held : {A : Type 0} → Shared A → ℕ
held m = length m.pushed - length m.popped

-- What the locals of `push` say of `head`, the number of values pushed, the last acquire load and
-- the cells.
abbrev pub ProducerFacts : {A : Type 0} → ℕ → ℕ → ℕ → ℕ → (ℕ → A) → Producer A → Type 0
ProducerFacts size head n seen cells Producer.idle = Unit
ProducerFacts size head n seen cells (loaded_head v h) = h ≡ head
ProducerFacts size head n seen cells (may_write v h) = (h ≡ head) × (n + 1 < seen + size)
ProducerFacts size head n seen cells (wrote v h) =
    (h ≡ head) × (n + 1 < seen + size) × (cells h ≡ v)

-- What the locals of `pop` say of `tail`, the number of values popped, the last acquire load and
-- the cells.
abbrev pub ConsumerFacts : {A : Type 0} → ℕ → ℕ → ℕ → (ℕ → A) → Consumer A → Type 0
ConsumerFacts tail n seen cells Consumer.idle = Unit
ConsumerFacts tail n seen cells (loaded_tail t) = t ≡ tail
ConsumerFacts tail n seen cells (may_read t) = (t ≡ tail) × (n < seen)
ConsumerFacts tail n seen cells (has_read t v) = (t ≡ tail) × (n < seen) × (v ≡ cells t)

-- A write to a cell that is not at `tail` while a value is waiting does not touch what `pop` reads.
ConsumerFacts-update :
    {A : Type 0} (tail n seen : ℕ) (cells : ℕ → A) (h : ℕ) (x : A) (c : Consumer A)
    → (n < seen → tail ≢ h)
    → ConsumerFacts tail n seen cells c
    → ConsumerFacts tail n seen (update cells h x) c
ConsumerFacts-update tail n seen cells h x Consumer.idle apart f = tt
ConsumerFacts-update tail n seen cells h x (loaded_tail t) apart f = f
ConsumerFacts-update tail n seen cells h x (may_read t) apart f = f
ConsumerFacts-update tail n seen cells h x (has_read t v) apart (e, lt, r) =
    (e, lt, r ∙ sym (update_ne cells h t x (λ p. apart lt (sym e ∙ sym p))))

pub record Inv {A : Type 0} (size : ℕ) (m : Shared A) (p : Producer A) (c : Consumer A)
    : Type 0 where
  pub head_at : m.memory.head ≡ index size (length m.pushed)
  pub tail_at : m.memory.tail ≡ index size (length m.popped)
  pub tail_seen : m.seen_tail ≤ length m.popped
  pub fits : length m.pushed < m.seen_tail + size
  pub head_seen : m.seen_head ≤ length m.pushed
  pub behind : length m.popped ≤ m.seen_head
  pub fifo : m.pushed ≡ m.popped ++ window size m.memory.ring m.memory.tail (held m)
  pub producing : ProducerFacts size m.memory.head (length m.pushed) m.seen_tail m.memory.ring p
  pub consuming : ConsumerFacts m.memory.tail (length m.popped) m.seen_head m.memory.ring c

-- The cell at `head` lies just past the window that `pop` reads.
pub record Past {A : Type 0} (size : ℕ) (m : Shared A) : Type 0 where
  pub tail_in : m.memory.tail < size
  pub head_in : m.memory.head < size
  pub apart : distance size m.memory.tail m.memory.head ≡ held m

module _ {A : Type 0} (size : ℕ) (nonempty : 0 < size) (small : size < 2 ^ 64) where
  pub Inv-Past : {m : Shared A} {p : Producer A} {c : Consumer A} → Inv size m p c → Past size m
  Inv-Past {m} inv = record {
    tail_in = rw (inv.tail_at) (index-lt size nonempty small (length m.popped));
    head_in = rw (inv.head_at) (index-lt size nonempty small (length m.pushed));
    apart =
        rw (inv.head_at, inv.tail_at)
          (distance-index size nonempty small (held m) (length m.popped) (length m.pushed)
            (omega arith) (omega arith));
  }

  -- While a value is waiting, the two indices name different cells.
  pub tail-ne-head :
      {m : Shared A} {p : Producer A} {c : Consumer A}
      → Inv size m p c
      → length m.popped < m.seen_head
      → m.memory.tail ≢ m.memory.head
  tail-ne-head {m} inv lt e =
      index-ne size nonempty small (length m.popped) (length m.pushed) (omega arith) (omega arith)
        (sym inv.tail_at ∙ e ∙ inv.head_at)

  pub Produce-Inv :
      {m m' : Shared A} {p p' : Producer A} {c : Consumer A}
      → Produce size m p m' p'
      → Inv size m p c
      → Inv size m' p' c
  Produce-Inv (load_head v) inv = record {
    head_at = inv.head_at;
    tail_at = inv.tail_at;
    tail_seen = inv.tail_seen;
    fits = inv.fits;
    head_seen = inv.head_seen;
    behind = inv.behind;
    fifo = inv.fifo;
    producing = refl;
    consuming = inv.consuming;
  }
  Produce-Inv (full n old new e) inv = record {
    head_at = inv.head_at;
    tail_at = inv.tail_at;
    tail_seen = new;
    fits = omega arith;
    head_seen = inv.head_seen;
    behind = inv.behind;
    fifo = inv.fifo;
    producing = tt;
    consuming = inv.consuming;
  }
  Produce-Inv {m} (room n old new ne) inv = record {
    head_at = inv.head_at;
    tail_at = inv.tail_at;
    tail_seen = new;
    fits = omega arith;
    head_seen = inv.head_seen;
    behind = inv.behind;
    fifo = inv.fifo;
    producing = (
      inv.producing,
      next-index size nonempty small n (length m.pushed) (omega arith) (omega arith)
          (rw (inv.producing ∙ inv.head_at) at ne),
    );
    consuming = inv.consuming;
  }
  Produce-Inv {m} {c = c} (write {v} {h}) inv = record {
    head_at = inv.head_at;
    tail_at = inv.tail_at;
    tail_seen = inv.tail_seen;
    fits = inv.fits;
    head_seen = inv.head_seen;
    behind = inv.behind;
    fifo = rw (inv.producing.0) (
        inv.fifo
        ∙ ap (λ w. m.popped ++ w)
            (sym (
              window-update_past size m.memory.ring v m.memory.head (held m) m.memory.tail
                past.tail_in past.head_in past.apart)));
    producing = (inv.producing.0, inv.producing.1, update_self m.memory.ring h v);
    consuming =
        ConsumerFacts-update m.memory.tail (length m.popped) m.seen_head m.memory.ring h v c
          (λ lt. rw (inv.producing.0) (tail-ne-head inv lt)) inv.consuming;
  }
    where
      past : Past size m
      past = Inv-Past inv
  Produce-Inv {m} (store_head {v} {h}) inv = record {
    head_at =
        rw (length-snoc m.pushed v) (
          ap (next size) (inv.producing.0 ∙ inv.head_at) ∙ sym (index-next size (length m.pushed)));
    tail_at = inv.tail_at;
    tail_seen = inv.tail_seen;
    fits = omega (arith, length-snoc m.pushed v);
    head_seen = omega (arith, length-snoc m.pushed v);
    behind = inv.behind;
    fifo = rw (longer) (
        ap (λ l. l ++ (v ∷ [])) inv.fifo
        ∙ append_assoc m.popped (window size m.memory.ring m.memory.tail (held m)) (v ∷ [])
        ∙ ap (λ w. m.popped ++ w) grown);
    producing = tt;
    consuming = inv.consuming;
  }
    where
      past : Past size m
      past = Inv-Past inv

      longer : length (m.pushed ++ (v ∷ [])) - length m.popped ≡ suc (held m)
      longer = omega (arith, length-snoc m.pushed v, inv.tail_seen, inv.head_seen, inv.behind)

      grown :
          window size m.memory.ring m.memory.tail (held m) ++ (v ∷ [])
          ≡ window size m.memory.ring m.memory.tail (suc (held m))
      grown =
          rw
            (window-snoc size m.memory.ring m.memory.head (held m) m.memory.tail past.tail_in
              past.head_in past.apart)
            (ap (λ x. window size m.memory.ring m.memory.tail (held m) ++ (x ∷ []))
              (sym inv.producing.2 ∙ ap m.memory.ring inv.producing.0))

  pub Consume-Inv :
      {m m' : Shared A} {p : Producer A} {c c' : Consumer A}
      → Consume size m c m' c'
      → Inv size m p c
      → Inv size m' p c'
  Consume-Inv load_tail inv = record {
    head_at = inv.head_at;
    tail_at = inv.tail_at;
    tail_seen = inv.tail_seen;
    fits = inv.fits;
    head_seen = inv.head_seen;
    behind = inv.behind;
    fifo = inv.fifo;
    producing = inv.producing;
    consuming = refl;
  }
  Consume-Inv (none_left n old new e) inv = record {
    head_at = inv.head_at;
    tail_at = inv.tail_at;
    tail_seen = inv.tail_seen;
    fits = inv.fits;
    head_seen = new;
    behind = omega arith;
    fifo = inv.fifo;
    producing = inv.producing;
    consuming = tt;
  }
  Consume-Inv {m} (some_left n old new ne) inv = record {
    head_at = inv.head_at;
    tail_at = inv.tail_at;
    tail_seen = inv.tail_seen;
    fits = inv.fits;
    head_seen = new;
    behind = omega arith;
    fifo = inv.fifo;
    producing = inv.producing;
    consuming = (inv.consuming, lt);
  }
    where
      differ : length m.popped ≢ n
      differ p = ne (inv.consuming ∙ inv.tail_at ∙ ap (index size) p)

      lt : length m.popped < n
      lt = omega (arith, differ, inv.behind, old)
  Consume-Inv read inv = record {
    head_at = inv.head_at;
    tail_at = inv.tail_at;
    tail_seen = inv.tail_seen;
    fits = inv.fits;
    head_seen = inv.head_seen;
    behind = inv.behind;
    fifo = inv.fifo;
    producing = inv.producing;
    consuming = (inv.consuming.0, inv.consuming.1, refl);
  }
  Consume-Inv {m} (store_tail {t} {v}) inv = record {
    head_at = inv.head_at;
    tail_at =
        rw (length-snoc m.popped v) (
          ap (next size) (inv.consuming.0 ∙ inv.tail_at) ∙ sym (index-next size (length m.popped)));
    tail_seen = omega (arith, length-snoc m.popped v);
    fits = inv.fits;
    head_seen = inv.head_seen;
    behind = omega (arith, length-snoc m.popped v);
    fifo =
        inv.fifo
        ∙ ap (λ w. m.popped ++ w) shrunk
        ∙ sym (
            append_assoc m.popped (v ∷ []) (
              window size m.memory.ring (next size t)
                (length m.pushed - length (m.popped ++ (v ∷ [])))));
    producing = inv.producing;
    consuming = tt;
  }
    where
      past : Past size m
      past = Inv-Past inv

      shorter : held m - 1 ≡ length m.pushed - length (m.popped ++ (v ∷ []))
      shorter = omega (arith, length-snoc m.popped v)

      advanced : step size m.memory.tail ≡ next size t
      advanced =
          sym (next-eq-step size m.memory.tail small past.tail_in)
          ∙ ap (next size) (sym inv.consuming.0)

      first : m.memory.ring m.memory.tail ≡ v
      first = ap m.memory.ring (sym inv.consuming.0) ∙ sym inv.consuming.2

      shrunk :
          window size m.memory.ring m.memory.tail (held m)
          ≡ v
            ∷ window size m.memory.ring
                (next size t)
                (length m.pushed - length (m.popped ++ (v ∷ [])))
      shrunk =
          window-uncons size m.memory.ring m.memory.tail (held m)
            (omega (arith, inv.consuming.1, inv.head_seen))
          ∙ ap₂ (λ x w. x ∷ w) first (ap₂ (window size m.memory.ring) advanced shorter)
