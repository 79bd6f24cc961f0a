-- ===== src/Video/Pipeline/Pacing.antt =====
-- pipeline.rs, FramePacer: how often it fires.
use win_xtend.Prelude.{
  ℕ, suc, ◌+◌, ◌*◌, ◌/◌, ◌≤◌, ◌<◌, ◌≡◌, refl, ◌⊎◌, true, false, ltb, leb, if◌then◌else◌, some, List,
  [], ◌∷◌, length, All, arith, Bool-cases, Option-cases, Bool, Option, none, ap, ◌∙◌, sym, subst,
  inl, inr,
}
use native.Mathlib.Nat.{suc-mul, le-div_iff_mul-le}
use win_xtend.Video.Frame.{clamp_fps}
use win_xtend.Video.Pipeline.{FramePacer, new_pacer, tick}

-- The times of a series at which it fires.
abbrev pub fired : FramePacer → List ℕ → List ℕ
fired p [] = []
fired p (now ∷ times) =
    let rest = fired (tick p now).0 times in if (tick p now).1 then now ∷ rest else rest

-- The pacer that waits for a deadline.
abbrev waiting : ℕ → ℕ → FramePacer
waiting interval due = record { interval = interval; next_due = some due }

-- A call before the deadline does nothing; a later one fires and sets the next deadline, an interval
-- after the last at least.
tick_cases :
    (i due now : ℕ)
    → (tick (waiting i due) now ≡ (waiting i due, false))
      ⊎ ((next : ℕ) × (due ≤ now)
          × (due + i ≤ next)
          × (tick (waiting i due) now ≡ (waiting i next, true)))
unfolding tick
tick_cases i due now = elim (Bool-cases (ltb now due)) [
  | inl early ↦ inl (rw early refl)
  | inr due_now ↦
      let next : ℕ = if leb (due + i) now then now + i else due + i in
      inr (next, ground arith, ground arith, rw due_now refl)
]

-- From a deadline on, the calls that fire are an interval apart.
fired_from :
    (i due last : ℕ) (times : List ℕ)
    → All (λ t. t ≤ last) times
    → let n = length (fired (waiting i due) times) in (n ≡ 0) ⊎ (n * i + due ≤ last + i)
fired_from i due last [] h = inl refl
fired_from i due last (now ∷ times) h = elim (tick_cases i due now) [
  | inl early ↦ rw early (fired_from i due last times h.1)
  | inr (next, reached, later, fires) ↦ rw fires (
      inr (
        one_more (length (fired (waiting i next) times)) i due next now last reached h.0 later
          (fired_from i next last times h.1)))
]
  where
    one_more :
        (n i due next now last : ℕ)
        → due ≤ now
        → now ≤ last
        → due + i ≤ next
        → (n ≡ 0) ⊎ (n * i + next ≤ last + i)
        → suc n * i + due ≤ last + i
    one_more n i due next now last a b c (inl e) = rw e (omega arith)
    one_more n i due next now last a b c (inr h) = omega (arith, suc-mul n i)

clamp_fps_bounds : (fps : ℕ) → (0 < clamp_fps fps) × (clamp_fps fps ≤ 240)
unfolding clamp_fps
clamp_fps_bounds fps = omega arith

-- The pacer after it was asked at these times.
abbrev pub after_times : FramePacer → List ℕ → FramePacer
after_times p [] = p
after_times p (now ∷ times) = after_times (tick p now).0 times

tick-interval : (p : FramePacer) (now : ℕ) → (tick p now).0.interval ≡ p.interval
unfolding tick
tick-interval p now = elim (Option-cases p.next_due) [
  | inl fresh ↦ rw (tick, fresh) refl
  | inr (due, e) ↦ elim (Bool-cases (ltb now due)) [
    | inl early ↦ rw (tick, e, early) refl
    | inr due_now ↦ rw (tick, e, due_now) refl
  ]
]

after_times-interval :
    (p : FramePacer) (times : List ℕ) → (after_times p times).interval ≡ p.interval
after_times-interval p [] = refl
after_times-interval p (now ∷ times) =
    after_times-interval (tick p now).0 times ∙ tick-interval p now

-- A call that fires, and one that does not, leave a deadline that is later than the call.
tick_waits :
    (p : FramePacer) (now : ℕ)
    → 0 < p.interval
    → (next : ℕ) × ((tick p now).0 ≡ waiting p.interval next) × (now < next)
unfolding tick
tick_waits p now h = elim (Option-cases p.next_due) [
  | inl fresh ↦ (now + p.interval, rw (tick, fresh) refl, omega arith)
  | inr (due, e) ↦ elim (Bool-cases (ltb now due)) [
    | inl early ↦ (
      due,
      rw (tick, e, early) (ap (λ (o : Option ℕ). record p { next_due = o }) e),
      ground (arith, early),
    )
    | inr due_now ↦
        let next : ℕ = if leb (due + p.interval) now then now + p.interval else due + p.interval in
        (next, rw (tick, e, due_now) refl, ground arith)
  ]
]

-- A window that starts with a call at `first`.
window :
    (p : FramePacer) (first last : ℕ) (times : List ℕ)
    → 0 < p.interval
    → first ≤ last
    → All (λ t. t ≤ last) times
    → length (fired p (first ∷ times)) * p.interval + first < last + 2 * p.interval
window p first last times h le all =
    let (next, e, later) = tick_waits p first h in
    rw e (
      bound next later (tick p first).1 (fired (waiting p.interval next) times)
        (fired_from p.interval next last times all))
  where
    bound :
        (next : ℕ)
        → first < next
        → (fires : Bool) (rest : List ℕ)
        → (length rest ≡ 0) ⊎ (length rest * p.interval + next ≤ last + p.interval)
        → length (if fires then first ∷ rest else rest) * p.interval + first < last + 2 * p.interval
    bound next later true rest (inl n) = rw n (omega (arith, suc-mul 0 p.interval))
    bound next later true rest (inr n) = omega (arith, suc-mul (length rest) p.interval)
    bound next later false rest (inl n) = rw n (omega arith)
    bound next later false rest (inr n) = omega arith

-- Whatever times the pacer of a stream was asked at before, in any order, the frames that it sends
-- from a time `first` to a time `last` are fewer, less two, than the intervals between the two: it
-- makes up for no deadline that it missed. From the start of the stream they are no more, less one,
-- and the first call fires. The interval is never below 1/240 s, whatever rate was asked for.
pub fired-rate :
    (fps : ℕ) (before : List ℕ) (first last : ℕ) (times : List ℕ)
    → first ≤ last
    → All (λ t. t ≤ last) times
    → let p = new_pacer fps in
      let frames = length (fired p (first ∷ times)) in
      let later = length (fired (after_times p before) (first ∷ times)) in
      (later * p.interval + first < last + 2 * p.interval)
      × (1 ≤ frames)
      × (frames * p.interval + first ≤ last + p.interval)
      × (4166666 ≤ p.interval)
unfolding new_pacer tick
fired-rate fps before first last times h all = (
  subst (λ n. length (fired (after_times p before) (first ∷ times)) * n + first < last + 2 * n)
      (after_times-interval p before)
      (window (after_times p before) first last times
        (subst (λ n. 0 < n) (sym (after_times-interval p before)) (omega (arith, slow))) h all),
  omega arith,
  from_start (length (fired (waiting i (first + i)) times))
      (fired_from i (first + i) last times all),
  slow,
)
  where
    i : ℕ
    i = 1000000000 / clamp_fps fps

    p : FramePacer
    p = record { interval = i; next_due = none }

    slow : 4166666 ≤ i
    slow =
        (le-div_iff_mul-le (omega (arith, clamp_fps_bounds fps))).1
          (omega (arith, clamp_fps_bounds fps))

    from_start : (n : ℕ) → (n ≡ 0) ⊎ (n * i + (first + i) ≤ last + i) → suc n * i + first ≤ last + i
    from_start n (inl e) = rw e (omega arith)
    from_start n (inr k) = omega (arith, suc-mul n i)
