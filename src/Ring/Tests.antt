-- ===== src/Ring/Tests.antt =====
-- The ring at concrete inputs.
use int_platform_dpdk.Base.{
  ℕ, ◌-◌, ◌<◌, ◌≡◌, ◌≢◌, refl, List, [], ◌∷◌, ◌++◌, true, false, arith, length, ◌==◌, if◌then◌else◌,
}
use int_platform_dpdk.Queue
use int_platform_dpdk.Queue.{Op, put, get, Reply, stored, taken}
use int_platform_dpdk.Ring.{Ring, next, empty, push, pop}
use int_platform_dpdk.Ring.Window.{IsValid, step, distance, contents}
use int_platform_dpdk.Ring.Refine.{run, run_refines}
use int_platform_dpdk.Ring.Spsc.{
  index, may_write, may_read, System, load_head, room, write, store_head, load_tail, some_left,
  produce, consume, Reach, here, later,
}
use int_platform_dpdk.Ring.Spsc.Safety.{pushed-eq-popped_contents, no_race}

-- 8, then 9, round the end of an array of three.
abbrev cells : ℕ → ℕ
cells i = if i == 2 then 8 else if i == 0 then 9 else 7

abbrev wrapped : Ring ℕ
wrapped = record { ring = cells; head = 1; tail = 2 }

wrapped-IsValid : IsValid 3 wrapped
wrapped-IsValid = omega arith

abbrev script : List (Op ℕ)
script = put 1 ∷ get 0 ∷ put 1 ∷ get 0 ∷ get 0 ∷ get 5 ∷ []

contents-wrapped : contents 3 wrapped ≡ 8 ∷ 9 ∷ []
unfolding distance step
contents-wrapped = refl

run-wrapped :
    run 3 wrapped script
    ≡ stored false ∷ taken true 8 ∷ stored true ∷ taken true 9 ∷ taken true 1 ∷ taken false 5 ∷ []
unfolding run push pop
run-wrapped = refl

run_refines_example : run 3 wrapped script ≡ Queue.run (3 - 1) (contents 3 wrapped) script
run_refines_example = run_refines 3 script wrapped-IsValid

-- One value published, a second about to be written while the first is about to be read.
abbrev contended : System ℕ
contended = record {
  shared = record {
    memory = record { ring = (λ j. if 0 == j then 5 else cells j); head = next 3 0; tail = 0 };
    pushed = 5 ∷ [];
    popped = [];
    seen_tail = 0;
    seen_head = 1;
  };
  producer = may_write 6 (next 3 0);
  consumer = may_read 0;
}

contended-Reach : Reach 3 cells contended
unfolding empty next index
contended-Reach =
    later
      (later
        (later
          (later
            (later
              (later
                (later (later here (produce (load_head 5)))
                  (produce (room 0 (omega arith) (omega arith) (omega arith))))
                (produce write))
              (produce store_head))
            (consume load_tail))
          (consume (some_left 1 (omega arith) (omega arith) (omega arith))))
        (produce (load_head 6)))
      (produce (room 0 (omega arith) (omega arith) (omega arith)))

pushed-eq-popped_contents_example :
    (5 ∷ [] ≡ [] ++ contents 3 contended.shared.memory)
    × (length (contents 3 contended.shared.memory) < 3)
pushed-eq-popped_contents_example =
    pushed-eq-popped_contents 3 (omega arith) (omega arith) contended-Reach

no_race_example : (next 3 0 ≢ 0) × (next 3 0 < 3) × (0 < 3)
no_race_example = no_race 3 (omega arith) (omega arith) contended-Reach refl refl
