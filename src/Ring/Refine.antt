-- ===== src/Ring/Refine.antt =====
-- A valid ring behaves as the bounded queue of its contents.
use int_platform_dpdk.Base.{
  ℕ, ◌-◌, ◌^◌, ◌<◌, ◌≡◌, ◌≢◌, refl, ap, List, [], ◌∷◌, ◌++◌, true, false, length, ltb, update,
  ℕ_discrete, arith,
}
use int_platform_dpdk.Queue
use int_platform_dpdk.Queue.{Op, put, get, Reply, stored, taken}
use int_platform_dpdk.Ring.{Ring, push, pop, empty}
use int_platform_dpdk.Ring.Window.{IsValid, step, distance, window, contents, length-window}
use int_platform_dpdk.Ring.Arith.{
  next-eq-step, step-lt, distance-step_tail, distance-step_head, distance-full, distance-lt,
  distance_self, window-update,
}

-- A client's calls in order, with what each returns.
unfoldable pub run : {A : Type 0} → ℕ → Ring A → List (Op A) → List (Reply A)
run size r [] = []
run size r (put x ∷ ops) = let (done, r') = push size r x in stored done ∷ run size r' ops
run size r (get v ∷ ops) = let (done, out, r') = pop size r v in taken done out ∷ run size r' ops

pub empty-IsValid :
    {A : Type 0} (size : ℕ) (cells : ℕ → A) → 0 < size → size < 2 ^ 64 → IsValid size (empty cells)
unfolding empty
empty-IsValid size cells h small = omega arith

pub push-IsValid :
    {A : Type 0} (size : ℕ) {r : Ring A} (x : A) → IsValid size r → IsValid size (push size r x).1
unfolding push
push-IsValid size {r} x v =
    ground (arith, next-eq-step size r.head v.small v.head_in, step-lt size r.head v.head_in)

pub pop-IsValid :
    {A : Type 0} (size : ℕ) {r : Ring A} (x : A) → IsValid size r → IsValid size (pop size r x).2
unfolding pop
pop-IsValid size {r} x v =
    ground (arith, next-eq-step size r.tail v.small v.tail_in, step-lt size r.tail v.tail_in)

pub length-contents :
    {A : Type 0} (size : ℕ) (r : Ring A) → length (contents size r) ≡ distance size r.tail r.head
length-contents size r = length-window size r.ring r.tail (distance size r.tail r.head)

module _ {A : Type 0} (size : ℕ) {r : Ring A} (x : A) (v : IsValid size r) where
  open v use {small, head_in, tail_in}

  pub push-full : step size r.head ≡ r.tail → push size r x ≡ (false, r)
  unfolding push
  push-full e = ground (arith, next-eq-step size r.head small head_in)

  pub push-room :
      step size r.head ≢ r.tail
      → push size r x ≡ (true, record r { ring = update r.ring r.head x; head = step size r.head })
  unfolding push
  push-room ne = ground (arith, next-eq-step size r.head small head_in)

  -- On a valid ring of `size` cells, `push` returns what the `push` of a queue of at most `size - 1`
  -- values returns, and leaves the ring holding that queue.
  pub push_refines :
      let (done, r') = push size r x in
      (done, contents size r') ≡ Queue.push (size - 1) (contents size r) x
  unfolding Queue.push
  push_refines = elim (ℕ_discrete (step size r.head) r.tail) [
    | yes e ↦ rw (push-full e) (rw (ltb_full e))
    | no ne ↦ rw (push-room ne) (rw (ltb_room ne) (ap (λ q. (true, q)) (extended ne)))
  ]
    where
      extended :
          step size r.head ≢ r.tail
          → window size (update r.ring r.head x) r.tail (distance size r.tail (step size r.head))
            ≡ contents size r ++ (x ∷ [])
      extended ne =
          rw (distance-step_head size r.tail r.head tail_in head_in ne)
            (window-update size r.ring x r.head _ r.tail tail_in head_in refl)

      ltb_full : step size r.head ≡ r.tail → ltb (length (contents size r)) (size - 1) ≡ false
      ltb_full e =
          ground (arith, length-contents size r, distance-full size r.tail r.head tail_in head_in e)

      ltb_room : step size r.head ≢ r.tail → ltb (length (contents size r)) (size - 1) ≡ true
      ltb_room ne = ground (
        arith,
        length-contents size r,
        distance-step_head size r.tail r.head tail_in head_in ne,
        distance-lt size r.tail (step size r.head) tail_in (step-lt size r.head head_in),
      )

  pub pop-empty : r.tail ≡ r.head → pop size r x ≡ (false, x, r)
  unfolding pop
  pop-empty e = ground arith

  pub pop-some :
      r.tail ≢ r.head → pop size r x ≡ (true, r.ring r.tail, record r { tail = step size r.tail })
  unfolding pop
  pop-some ne = ground (arith, next-eq-step size r.tail small tail_in)

  -- On a valid ring, `pop` returns what the queue's `pop` returns, and leaves the ring holding the
  -- rest.
  pub pop_refines :
      let (done, out, r') = pop size r x in
      (done, out, contents size r') ≡ Queue.pop (contents size r) x
  unfolding Queue.pop
  pop_refines = elim (ℕ_discrete r.tail r.head) [
    | yes e ↦ rw (pop-empty e) (rw e (rw (distance_self size r.head)))
    | no ne ↦ rw (pop-some ne) (rw (distance-step_tail size r.tail r.head tail_in head_in ne))
  ]

-- No sequence of calls tells a valid ring of `size` cells from a queue of at most `size - 1` values.
pub run_refines :
    {A : Type 0} (size : ℕ) (ops : List (Op A)) {r : Ring A}
    → IsValid size r
    → run size r ops ≡ Queue.run (size - 1) (contents size r) ops
unfolding run Queue.run
run_refines size [] v = refl
run_refines size (put x ∷ ops) {r} v =
    rw (run_refines size ops (push-IsValid size x v), ← push_refines size x v)
run_refines size (get x ∷ ops) {r} v =
    rw (run_refines size ops (pop-IsValid size x v), ← pop_refines size x v)
