-- ===== src/Exporter/RoundRobin.antt =====
-- What sendData does with a report.
use int_platform_dpdk.Base.{
  ℕ, zero, suc, ◌-◌, ◌<◌, ◌≡◌, refl, ◌∙◌, inl, inr, List, [], ◌∷◌, ◌++◌, Bool, true, false,
  Bool-cases, arith, length, get_elem?, set, some, dec_lt, get_elem?_lt, lt_of_get_elem?,
  length-set,
}
use int_platform_dpdk.Outcome.{ok}
use int_platform_dpdk.Types.{TelemetricHdr}
use int_platform_dpdk.Queue
use int_platform_dpdk.Ring.{push}
use int_platform_dpdk.Ring.Window
use int_platform_dpdk.Ring.Window.{step, contents}
use int_platform_dpdk.Ring.Arith.{step-lt, distance-lt}
use int_platform_dpdk.Ring.Refine.{push_refines, push-IsValid, length-contents}
use int_platform_dpdk.Exporter.{
  IntExporter, Buffered, ring_buffer_size, ring_at, send_loop, send_data,
}
use int_platform_dpdk.Exporter.State.{
  IsValid, FullAt, AllValid-set, next_turn, walk, walk-zero, walk-suc, walk_covers,
}

-- The report went to the ring that the index has come to: one with room, which now holds it last.
-- Every other ring is as it was.
pub record Stored (e : IntExporter) (telemetric : TelemetricHdr) (e' : IntExporter) : Type 0 where
  pub before : Buffered
  pub chosen : get_elem? e.ring_buffs e'.rr_index ≡ some before
  pub room : length (contents ring_buffer_size before) < ring_buffer_size - 1
  pub after : Buffered
  pub written : e'.ring_buffs ≡ set e.ring_buffs e'.rr_index after
  pub queued :
      contents ring_buffer_size after ≡ contents ring_buffer_size before ++ (telemetric ∷ [])

-- What `rounds` rounds of the loop come to: a report stored, or that many full rings in a row.
abbrev pub Tried : ℕ → IntExporter → TelemetricHdr → Bool × IntExporter → Type 0
Tried rounds e telemetric (true, e') = Stored e telemetric e'
Tried rounds e telemetric (false, e') =
    (e'.ring_buffs ≡ e.ring_buffs)
    × ((j : ℕ) → j < rounds → FullAt e.ring_buffs (walk e.th_num (step e.th_num e.rr_index) j))

module _ (r : Buffered) (t : TelemetricHdr) (v : Window.IsValid ring_buffer_size r) where
  push_full :
      (push ring_buffer_size r t).0 ≡ false
      → length (contents ring_buffer_size r) ≡ ring_buffer_size - 1
  unfolding Queue.push
  push_full h =
      let fits : length (contents ring_buffer_size r) < ring_buffer_size =
        rw (length-contents ring_buffer_size r)
          (distance-lt ring_buffer_size r.tail r.head v.tail_in v.head_in) in
      ground (arith, push_refines ring_buffer_size t v)

  push_room :
      (push ring_buffer_size r t).0 ≡ true
      → (length (contents ring_buffer_size r) < ring_buffer_size - 1)
        × (contents ring_buffer_size (push ring_buffer_size r t).1
            ≡ contents ring_buffer_size r ++ (t ∷ []))
  unfolding Queue.push
  push_room h = ground (arith, push_refines ring_buffer_size t v)

  push-true :
      length (contents ring_buffer_size r) < ring_buffer_size - 1
      → (push ring_buffer_size r t).0 ≡ true
  unfolding Queue.push
  push-true h = ground (arith, push_refines ring_buffer_size t v)

ring_at-ok :
    (rings : List Buffered) (i : ℕ) (r : Buffered)
    → get_elem? rings i ≡ some r
    → ring_at rings i ≡ ok r
unfolding ring_at
ring_at-ok rings i r e = rw (e, ring_at)

turned :
    {e : IntExporter} → IsValid e → (i : ℕ) → i < e.th_num → IsValid (record e { rr_index = i })
turned v i h = record { small = v.small; counted = v.counted; turn = inl h; rings = v.rings }

-- One round, at a ring with room and at a full one.
module _ (rounds : ℕ) (e : IntExporter) (t : TelemetricHdr) (v : IsValid e)
    (h : e.rr_index < e.th_num) (r : Buffered)
    (found : get_elem? e.ring_buffs (step e.th_num e.rr_index) ≡ some r) where
  send_stored :
      (push ring_buffer_size r t).0 ≡ true
      → send_loop (suc rounds) e t
        ≡ ok (
          true,
          record e {
            ring_buffs = set e.ring_buffs (step e.th_num e.rr_index) (push ring_buffer_size r t).1;
            rr_index = step e.th_num e.rr_index;
          },
        )
  unfolding send_loop
  send_stored done =
      rw (next_turn e.th_num e.rr_index v.small h)
        (rw (ring_at-ok e.ring_buffs (step e.th_num e.rr_index) r found) (rw done))

  send_next :
      (push ring_buffer_size r t).0 ≡ false
      → send_loop (suc rounds) e t
        ≡ send_loop rounds (record e { rr_index = step e.th_num e.rr_index }) t
  unfolding send_loop
  send_next full =
      rw (next_turn e.th_num e.rr_index v.small h)
        (rw (ring_at-ok e.ring_buffs (step e.th_num e.rr_index) r found) (rw full))

  stored_IsValid : IsValid (record e {
    ring_buffs = set e.ring_buffs (step e.th_num e.rr_index) (push ring_buffer_size r t).1;
    rr_index = step e.th_num e.rr_index;
  })
  stored_IsValid = record {
    small = v.small;
    counted = length-set e.ring_buffs _ _ ∙ v.counted;
    turn = inl (step-lt e.th_num e.rr_index h);
    rings =
        AllValid-set e.ring_buffs _ _ v.rings (push-IsValid ring_buffer_size t (v.rings _ r found));
  }

  -- The rings that are full when the rounds after a full ring fail.
  full_before :
      (push ring_buffer_size r t).0 ≡ false
      → ((j : ℕ)
          → j < rounds
          → FullAt e.ring_buffs (walk e.th_num (step e.th_num (step e.th_num e.rr_index)) j))
      → (j : ℕ) → j < suc rounds
      → FullAt e.ring_buffs (walk e.th_num (step e.th_num e.rr_index) j)
  full_before full rest zero lt q e' =
      let same : q ≡ r = cc (walk-zero e.th_num (step e.th_num e.rr_index)) in
      rw same (push_full r t (v.rings _ r found) full)
  full_before full rest (suc j) lt q e' =
      rest j (omega arith) q (rw (walk-suc e.th_num (step e.th_num e.rr_index) j) at e')

extend :
    (rounds : ℕ) (e : IntExporter) (t : TelemetricHdr) (v : IsValid e) (h : e.rr_index < e.th_num)
    (r : Buffered) (found : get_elem? e.ring_buffs (step e.th_num e.rr_index) ≡ some r)
    → (push ring_buffer_size r t).0 ≡ false
    → (res : Bool × IntExporter)
    → Tried rounds (record e { rr_index = step e.th_num e.rr_index }) t res
    → Tried (suc rounds) e t res
extend rounds e t v h r found full (true, e') s = record {
  before = s.before;
  chosen = s.chosen;
  room = s.room;
  after = s.after;
  written = s.written;
  queued = s.queued;
}
extend rounds e t v h r found full (false, e') (same, rest) =
    (same, full_before rounds e t v h r found full rest)

send_loop-Tried :
    (rounds : ℕ) (e : IntExporter) (t : TelemetricHdr)
    → IsValid e
    → e.rr_index < e.th_num
    → (res : Bool × IntExporter) × (send_loop rounds e t ≡ ok res)
      × IsValid res.1
      × Tried rounds e t res
unfolding send_loop
send_loop-Tried zero e t v h = ((false, e), refl, v, (refl, λ j lt. elim lt [ ]))
send_loop-Tried (suc rounds) e t v h =
    let index = step e.th_num e.rr_index in
    let lt : index < e.th_num = step-lt e.th_num e.rr_index h in
    let (r, found) = get_elem?_lt e.ring_buffs index (omega (arith, v.counted)) in
    elim (Bool-cases (push ring_buffer_size r t).0) [
      | inl done ↦ (
        _,
        send_stored rounds e t v h r found done,
        stored_IsValid rounds e t v h r found,
        record {
          before = r;
          chosen = found;
          room = (push_room r t (v.rings index r found) done).0;
          after = (push ring_buffer_size r t).1;
          written = refl;
          queued = (push_room r t (v.rings index r found) done).1;
        },
      )
      | inr full ↦
          let (res, runs, valid, tried) =
            send_loop-Tried rounds (record e { rr_index = index }) t (turned v index lt) lt in
          (
            res,
            send_next rounds e t v h r found full ∙ runs,
            valid,
            extend rounds e t v h r found full res tried,
          )
    ]

-- What a call of sendData comes to.
abbrev pub Sent : IntExporter → TelemetricHdr → Bool × IntExporter → Type 0
Sent e telemetric (true, e') = Stored e telemetric e'
Sent e telemetric (false, e') = (e'.ring_buffs ≡ e.ring_buffs) × ((i : ℕ) → FullAt e.ring_buffs i)

send_loop-none :
    (n : ℕ) (e : IntExporter) (t : TelemetricHdr) → n ≡ 0 → send_loop n e t ≡ ok (false, e)
unfolding send_loop
send_loop-none zero e t h = refl
send_loop-none (suc n) e t h = absurd (omega arith)

-- As many full rings as there are rings are all of them.
Tried-Sent :
    (e : IntExporter) (t : TelemetricHdr)
    → IsValid e
    → e.rr_index < e.th_num
    → (res : Bool × IntExporter) → Tried e.th_num e t res
    → Sent e t res
Tried-Sent e t v h (true, e') s = s
Tried-Sent e t v h (false, e') (same, full) = (same, everywhere)
  where
    everywhere : (i : ℕ) → FullAt e.ring_buffs i
    everywhere i r found =
        let inside : i < e.th_num =
          omega (arith, lt_of_get_elem? e.ring_buffs i found, v.counted) in
        let (j, lt, e') =
          walk_covers e.th_num (step e.th_num e.rr_index) i (step-lt e.th_num e.rr_index h)
            inside in
        full j lt r (rw e' found)

-- On a valid exporter sendData stays inside the list of rings and leaves a valid exporter. It either
-- stores the report as the last of exactly one ring, which had room, or finds every ring full and
-- leaves them all as they are.
pub send_data-Sent :
    (e : IntExporter) (t : TelemetricHdr)
    → IsValid e
    → (res : Bool × IntExporter) × (send_data e t ≡ ok res) × IsValid res.1 × Sent e t res
unfolding send_data
send_data-Sent e t v = elim (dec_lt e.rr_index e.th_num) [
  | yes h ↦
      let (res, runs, valid, tried) = send_loop-Tried e.th_num e t v h in
      (res, runs, valid, Tried-Sent e t v h res tried)
  | no h ↦
      let none : e.th_num ≡ 0 = omega (arith, v.turn) in
      (
        (false, e),
        send_loop-none e.th_num e t none,
        v,
        (
          refl,
          λ i r found. absurd (omega (arith, lt_of_get_elem? e.ring_buffs i found, v.counted)),
        ),
      )
]

first_round :
    (n : ℕ) (e : IntExporter) (t : TelemetricHdr) (r : Buffered)
    → IsValid e
    → e.rr_index < e.th_num
    → get_elem? e.ring_buffs (step e.th_num e.rr_index) ≡ some r
    → length (contents ring_buffer_size r) < ring_buffer_size - 1
    → 0 < n
    → (e' : IntExporter) × (send_loop n e t ≡ ok (true, e'))
      × (e'.rr_index ≡ step e.th_num e.rr_index)
first_round zero e t r v h found room pos = elim pos [ ]
first_round (suc n) e t r v h found room pos =
    (_, send_stored n e t v h r found (push-true r t (v.rings _ r found) room), refl)

-- On a valid exporter with at least one ring, when the ring whose turn it is has room, sendData
-- succeeds and the index has come to that ring.
pub send_data_in_turn :
    (e : IntExporter) (t : TelemetricHdr) (r : Buffered)
    → IsValid e
    → e.rr_index < e.th_num
    → get_elem? e.ring_buffs (step e.th_num e.rr_index) ≡ some r
    → length (contents ring_buffer_size r) < ring_buffer_size - 1
    → (e' : IntExporter) × (send_data e t ≡ ok (true, e'))
      × (e'.rr_index ≡ step e.th_num e.rr_index)
unfolding send_data
send_data_in_turn e t r v h found room = first_round e.th_num e t r v h found room (omega arith)
