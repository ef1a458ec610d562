-- ===== src/Ring/Spsc.antt =====
-- ringbuffer.h with one producer (the packet loop) and one consumer (a sender thread), a shared
-- access at a time. A step is one atomic load or store, or one access of a cell.
--
-- The atomics are taken as the memory model gives them: a thread reads its own index exactly (the
-- relaxed loads), and an acquire load of the other thread's index returns any value stored there
-- that is not older than the last one it returned. The cells are plain memory; that no step races
-- on one is proved in Spsc/Safety.
pub mod Index
pub mod Inv
pub mod Safety
use int_platform_dpdk.Base.{ℕ, zero, suc, ◌≤◌, ◌≡◌, ◌≢◌, List, [], ◌∷◌, ◌++◌, length, update}
use int_platform_dpdk.Ring.{Ring, next, empty}

-- The value that an index holds after `n` stores: it starts at 0, and each store is a `next`.
unfoldable pub index : ℕ → ℕ → ℕ
index size zero = 0
index size (suc n) = next size (index size n)

-- `memory` is the object. `pushed` and `popped` are the values whose `push` has published them and
-- whose `pop` has released them; `seen_tail` and `seen_head` count the stores that the last acquire
-- load of each thread has seen.
pub record Shared (A : Type 0) : Type 0 where
  pub memory : Ring A
  pub pushed : List A
  pub popped : List A
  pub seen_tail : ℕ
  pub seen_head : ℕ

-- Where `push` stands, with its live locals: `next_head` is always `next size head`.
pub data Producer (A : Type 0) : Type 0 where
  idle : Producer A
  loaded_head : (value : A) (head : ℕ) → Producer A
  may_write : (value : A) (head : ℕ) → Producer A
  wrote : (value : A) (head : ℕ) → Producer A

-- Where `pop` stands.
pub data Consumer (A : Type 0) : Type 0 where
  idle : Consumer A
  loaded_tail : (tail : ℕ) → Consumer A
  may_read : (tail : ℕ) → Consumer A
  has_read : (tail : ℕ) (value : A) → Consumer A

-- One step of `push`; `c` is the number of `pop`s whose store the acquire load sees.
pub data Produce {A : Type 0} (size : ℕ) (m : Shared A)
    : Producer A → Shared A → Producer A → Type 0 where
  load_head : (v : A) → Produce size m Producer.idle m (Producer.loaded_head v m.memory.head)
  full :
      {v : A} {h : ℕ} (c : ℕ)
      → m.seen_tail ≤ c
      → c ≤ length m.popped
      → next size h ≡ index size c
      → Produce size m (Producer.loaded_head v h) (record m { seen_tail = c }) Producer.idle
  room :
      {v : A} {h : ℕ} (c : ℕ)
      → m.seen_tail ≤ c
      → c ≤ length m.popped
      → next size h ≢ index size c
      → Produce size m
          (Producer.loaded_head v h)
          (record m { seen_tail = c })
          (Producer.may_write v h)
  write :
      {v : A} {h : ℕ}
      → Produce size m
          (Producer.may_write v h)
          (record m { memory = record (m.memory) { ring = update m.memory.ring h v } })
          (Producer.wrote v h)
  store_head :
      {v : A} {h : ℕ}
      → Produce size m
          (Producer.wrote v h)
          (record m {
            memory = record (m.memory) { head = next size h };
            pushed = m.pushed ++ (v ∷ []);
          })
          Producer.idle

-- One step of `pop`; `c` is the number of `push`es whose store the acquire load sees.
pub data Consume {A : Type 0} (size : ℕ) (m : Shared A)
    : Consumer A → Shared A → Consumer A → Type 0 where
  load_tail : Consume size m Consumer.idle m (Consumer.loaded_tail m.memory.tail)
  none_left :
      {t : ℕ} (c : ℕ)
      → m.seen_head ≤ c
      → c ≤ length m.pushed
      → t ≡ index size c
      → Consume size m (Consumer.loaded_tail t) (record m { seen_head = c }) Consumer.idle
  some_left :
      {t : ℕ} (c : ℕ)
      → m.seen_head ≤ c
      → c ≤ length m.pushed
      → t ≢ index size c
      → Consume size m (Consumer.loaded_tail t) (record m { seen_head = c }) (Consumer.may_read t)
  read : {t : ℕ} → Consume size m (Consumer.may_read t) m (Consumer.has_read t (m.memory.ring t))
  store_tail :
      {t : ℕ} {v : A}
      → Consume size m
          (Consumer.has_read t v)
          (record m {
            memory = record (m.memory) { tail = next size t };
            popped = m.popped ++ (v ∷ []);
          })
          Consumer.idle

pub record System (A : Type 0) : Type 0 where
  pub shared : Shared A
  pub producer : Producer A
  pub consumer : Consumer A

-- Either thread moves, in any order.
pub data Step {A : Type 0} (size : ℕ) (s : System A) : System A → Type 0 where
  produce :
      {m : Shared A} {p : Producer A}
      → Produce size s.shared s.producer m p
      → Step size s (record s { shared = m; producer = p })
  consume :
      {m : Shared A} {c : Consumer A}
      → Consume size s.shared s.consumer m c
      → Step size s (record s { shared = m; consumer = c })

abbrev pub start : {A : Type 0} → (ℕ → A) → System A
start cells = record {
  shared = record { memory = empty cells; pushed = []; popped = []; seen_tail = 0; seen_head = 0 };
  producer = Producer.idle;
  consumer = Consumer.idle;
}

pub data Reach {A : Type 0} (size : ℕ) (cells : ℕ → A) : System A → Type 0 where
  here : Reach size cells (start cells)
  later : {s t : System A} → Reach size cells s → Step size s t → Reach size cells t
