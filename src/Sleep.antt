-- ===== src/Sleep.antt =====
-- int_t4p4s_dpdk/p4int_influxdb/p4int.cc, delay_usecs: a sleep that signals may interrupt. nanosleep is
-- a parameter: for the number of a call and what it is asked for, whether it slept to the end, was
-- interrupted with some time remaining, or failed otherwise.
mod Tests
use int_platform_dpdk.Base.{
  ℕ, zero, suc, ◌+◌, ◌*◌, ◌/◌, ◌%◌, ◌^◌, ◌≤◌, ◌<◌, ◌≡◌, ◌≢◌, ◌⊎◌, refl, ap, subst, sym, false,
  length, ◌∙◌, List, [], ◌∷◌, Option, none, some, ◌==◌, if◌then◌else◌, arith, Bool-cases, inl, inr,
}

pub record Timespec : Type 0 where
  pub tv_sec : ℕ
  pub tv_nsec : ℕ

pub data Slept : Type 0 where
  slept : Slept
  interrupted : Timespec → Slept
  failed : Slept

Slept-cases :
    (r : Slept) → ((r ≡ slept) ⊎ (r ≡ failed)) ⊎ ((left : Timespec) × (r ≡ interrupted left))
Slept-cases slept = inl (inl refl)
Slept-cases failed = inl (inr refl)
Slept-cases (interrupted left) = inr (left, refl)

-- The calls from `retry:` on, by what each is asked for, or `none` if the fuel runs out.
module _ (nanosleep : ℕ → Timespec → Slept) where
  unfoldable pub retry : ℕ → ℕ → Timespec → Option (List Timespec)
  retry zero n t = none
  retry (suc fuel) n t = elim (nanosleep n t) [
    | slept ↦ some (t ∷ [])
    | failed ↦ some (t ∷ [])
    | interrupted left ↦ elim (retry fuel (n + 1) left) [ none ↦ none | some ts ↦ some (t ∷ ts) ]
  ]

  unfoldable pub delay_usecs : ℕ → ℕ → Option (List Timespec)
  unfolding retry
  delay_usecs fuel us =
      if us == 0
      then some []
      else retry fuel 0 (record { tv_sec = us / 1000000; tv_nsec = us % 1000000 * 1000 })

abbrev pub nanoseconds : Timespec → ℕ
nanoseconds t = t.tv_sec * 1000000000 + t.tv_nsec

-- What POSIX says of nanosleep: the remaining time is a valid one, and no more than was asked for.
abbrev pub IsNanosleep : (ℕ → Timespec → Slept) → Type 0
IsNanosleep nanosleep =
    (n : ℕ) (t left : Timespec)
    → nanosleep n t ≡ interrupted left
    → (left.tv_nsec < 1000000000) × (nanoseconds left ≤ nanoseconds t)

-- Each call is asked for a valid time, and for no more than `most`; none asks for more than the one
-- before.
abbrev pub Asked : ℕ → List Timespec → Type 0
Asked most [] = Unit
Asked most (t ∷ ts) = (t.tv_nsec < 1000000000) × (nanoseconds t ≤ most) × Asked (nanoseconds t) ts

-- The first call asks for exactly the time.
abbrev pub Starts : ℕ → List Timespec → Type 0
Starts time [] = Unit
Starts time (t ∷ ts) = nanoseconds t ≡ time

-- Call `k` is not interrupted, whatever it is asked for.
abbrev pub Uninterrupted : (ℕ → Timespec → Slept) → ℕ → Type 0
Uninterrupted nanosleep k = (t left : Timespec) → nanosleep k t ≢ interrupted left

-- From call `n` on: each call after the first asks for exactly what the one before left, and only the
-- last one is not interrupted.
abbrev pub Resumes : (ℕ → Timespec → Slept) → ℕ → List Timespec → Type 0
Resumes nanosleep n [] = Unit
Resumes nanosleep n (t ∷ []) = (left : Timespec) → nanosleep n t ≢ interrupted left
Resumes nanosleep n (t ∷ u ∷ ts) =
    (nanosleep n t ≡ interrupted u) × Resumes nanosleep (n + 1) (u ∷ ts)

not_empty : (t : Timespec) (ts : List Timespec) → (length (t ∷ ts) == 0) ≡ false
not_empty t ts = ground arith

module _ (nanosleep : ℕ → Timespec → Slept) (posix : IsNanosleep nanosleep) where
  -- What the calls from `t` on come to.
  Finishes : ℕ → ℕ → ℕ → Timespec → Type 0
  Finishes fuel n most t =
      (ts : List Timespec) × (retry nanosleep fuel n t ≡ some (t ∷ ts))
      × Asked most (t ∷ ts)
      × Resumes nanosleep n (t ∷ ts)

  over-Finishes :
      (fuel n most : ℕ) (t : Timespec)
      → (nanosleep n t ≡ slept) ⊎ (nanosleep n t ≡ failed)
      → t.tv_nsec < 1000000000
      → nanoseconds t ≤ most
      → Finishes (suc fuel) n most t
  unfolding retry Finishes
  over-Finishes fuel n most t (inl e) valid fits =
      ([], rw (e, retry) refl, (valid, fits, tt), λ left h. ground (arith, e, h))
  over-Finishes fuel n most t (inr e) valid fits =
      ([], rw (e, retry) refl, (valid, fits, tt), λ left h. ground (arith, e, h))

  again-Finishes :
      (fuel n most : ℕ) (t left : Timespec)
      → nanosleep n t ≡ interrupted left
      → t.tv_nsec < 1000000000
      → nanoseconds t ≤ most
      → Finishes fuel (n + 1) (nanoseconds t) left
      → Finishes (suc fuel) n most t
  unfolding retry Finishes
  again-Finishes fuel n most t left e valid fits (ts, runs, asked, resumes) =
      (left ∷ ts, rw (e, retry) (rw (runs) refl), (valid, fits, asked), (e, resumes))

  retry-Finishes :
      (k n most : ℕ) (t : Timespec)
      → Uninterrupted nanosleep (n + k)
      → t.tv_nsec < 1000000000
      → nanoseconds t ≤ most
      → Finishes (suc k) n most t
  retry-Finishes zero n most t ends valid fits = elim (Slept-cases (nanosleep n t)) [
    | inl over ↦ over-Finishes zero n most t over valid fits
    | inr (left, e) ↦ absurd (ends t left (ap (λ m. nanosleep m t) (omega arith) ∙ e))
  ]
  retry-Finishes (suc k) n most t ends valid fits =
      let later : Uninterrupted nanosleep (n + 1 + k) =
        λ u left h. ends u left (ap (λ m. nanosleep m u) (omega arith) ∙ h) in
      elim (Slept-cases (nanosleep n t)) [
        | inl over ↦ over-Finishes (suc k) n most t over valid fits
        | inr (left, e) ↦
            let (left_valid, less) = posix n t left e in
            again-Finishes (suc k) n most t left e valid fits
              (retry-Finishes k (n + 1) (nanoseconds t) left later left_valid less)
      ]

  -- With a nanosleep that leaves valid times no longer than asked, delay_usecs ends as soon as one of
  -- its calls is not interrupted: `k + 1` rounds are enough if call `k` is not. It calls nanosleep unless
  -- `us` is 0, and then not at all. It first asks for
  -- exactly `us` microseconds, always for a valid time, and never for more than the time before; each
  -- later call asks for exactly the time that the one before left, and it stops at the first that is not
  -- interrupted.
  pub delay_usecs_ends :
      (us k : ℕ)
      → Uninterrupted nanosleep k
      → (ts : List Timespec) × (delay_usecs nanosleep (suc k) us ≡ some ts)
        × ((length ts == 0) ≡ (us == 0))
        × Asked (us * 1000) ts
        × Starts (us * 1000) ts
        × Resumes nanosleep 0 ts
  unfolding delay_usecs Finishes
  delay_usecs_ends us k ends = elim (Bool-cases (us == 0)) [
    | inl zero_time ↦ ([], rw (zero_time) refl, sym zero_time, tt, tt, tt)
    | inr some_time ↦
        let first : Timespec = record { tv_sec = us / 1000000; tv_nsec = us % 1000000 * 1000 } in
        let exact : nanoseconds first ≡ us * 1000 = omega arith in
        let (ts, runs, asked, resumes) =
          retry-Finishes k 0 (us * 1000) first
            (λ t left h. ends t left (ap (λ m. nanosleep m t) (omega arith) ∙ h)) (omega arith)
            (omega (arith, exact)) in
        (first ∷ ts, rw (some_time) runs, not_empty first ts ∙ sym some_time, asked, exact, resumes)
  ]
