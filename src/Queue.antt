-- ===== src/Queue.antt =====
-- What the ring promises: a FIFO of at most `capacity` values, oldest first.
use int_platform_dpdk.Base.{ℕ, List, [], ◌∷◌, ◌++◌, Bool, true, false, length, ltb, if◌then◌else◌}

-- What a client may call; the argument of `get` is what the reference argument holds before.
pub data Op (A : Type 0) : Type 0 where
  put : A → Op A
  get : A → Op A

-- What the client sees of a call.
pub data Reply (A : Type 0) : Type 0 where
  stored : Bool → Reply A
  taken : Bool → A → Reply A

unfoldable pub push : {A : Type 0} → ℕ → List A → A → Bool × List A
push capacity q x = if ltb (length q) capacity then (true, q ++ (x ∷ [])) else (false, q)

unfoldable pub pop : {A : Type 0} → List A → A → Bool × A × List A
pop [] value = (false, value, [])
pop (x ∷ q) value = (true, x, q)

unfoldable pub run : {A : Type 0} → ℕ → List A → List (Op A) → List (Reply A)
run capacity q [] = []
run capacity q (put x ∷ ops) =
    let (done, q') = push capacity q x in stored done ∷ run capacity q' ops
run capacity q (get v ∷ ops) = let (done, out, q') = pop q v in taken done out ∷ run capacity q' ops
