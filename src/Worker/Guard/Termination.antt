-- ===== src/Worker/Guard/Termination.antt =====
-- The loop of the size guard ends, after at most one attempt more than the retries of the profile.
use mathlib.Core.Option.{some-injective}
use recodarr.Prelude.{
  ℕ, zero, suc, ◌+◌, ◌≤◌, ◌<◌, ◌≡◌, refl, sym, ap, Text, List, ◌++◌, Option, none, some, arith,
  Option-cases, inl, inr,
}
use recodarr.Worker.Guard.{
  begin_try, round, Files, RunResult, RunOutcome, try_commit, Try, kept, judge_result, after_call,
  encode_loop, next_try, Plan, failed_with, ProfileRow, encoded, End, Encoder,
}

abbrev pub attempts_of : End → ℕ
attempts_of (encoded r t) = t.attempt
attempts_of (failed_with r e t) = t.attempt
attempts_of (kept final t) = t.attempt

module _ (enc : Encoder) (p : ProfileRow) (rates : List ℕ) (plan : Plan) (source : Text)
    (size : ℕ) where
  judge_attempts :
      (r : RunResult) (t : Try) (fs : Files) (x : End)
      → (judge_result enc p rates plan source size r t fs).0 ≡ some x
      → attempts_of x ≡ t.attempt
  unfolding judge_result try_commit
  judge_attempts r t fs (encoded r' t') h = ground arith
  judge_attempts r t fs (failed_with r' e t') h = ground arith
  judge_attempts r t fs (kept n t') h = ground arith

  judge_retries :
      (r : RunResult) (t : Try) (fs : Files)
      → (judge_result enc p rates plan source size r t fs).0 ≡ none
      → t.attempt ≤ plan.max_retries
  unfolding judge_result
  judge_retries r t fs h = ground arith

  after_attempts :
      (outcome : RunOutcome) (fs : Files) (t : Try) (x : End)
      → (after_call enc p rates plan source size outcome fs t).0 ≡ some x
      → attempts_of x ≡ t.attempt
  unfolding after_call
  after_attempts (r, some e) fs t x h = sym (ap attempts_of (some-injective _ _ h))
  after_attempts (r, none) fs t x h = judge_attempts r (record t { log = t.log ++ r.log }) fs x h

  after_retries :
      (outcome : RunOutcome) (fs : Files) (t : Try)
      → (after_call enc p rates plan source size outcome fs t).0 ≡ none
      → t.attempt ≤ plan.max_retries
  unfolding after_call
  after_retries (r, some e) fs t h = cc
  after_retries (r, none) fs t h = judge_retries r (record t { log = t.log ++ r.log }) fs h

  after_counts :
      (outcome : RunOutcome) (fs : Files) (t : Try)
      → (after_call enc p rates plan source size outcome fs t).1.attempt ≡ t.attempt
  unfolding after_call
  after_counts (r, some e) fs t = refl
  after_counts (r, none) fs t = refl

  next_counts : (t : Try) → (next_try plan t).attempt ≡ t.attempt
  unfolding next_try
  next_counts t = ground arith

  abbrev round_of : Try → Files → Option End × Try × Files
  round_of = round enc p rates plan source size

  round_counts : (t : Try) (fs : Files) → (round_of t fs).1.attempt ≡ t.attempt + 1
  unfolding round begin_try
  round_counts t fs = after_counts _ _ (begin_try plan t)

  round_retries :
      (t : Try) (fs : Files) → (round_of t fs).0 ≡ none → t.attempt + 1 ≤ plan.max_retries
  unfolding round begin_try
  round_retries t fs = after_retries _ _ (begin_try plan t)

  round_attempts :
      (t : Try) (fs : Files) (x : End) → (round_of t fs).0 ≡ some x → attempts_of x ≡ t.attempt + 1
  unfolding round begin_try
  round_attempts t fs = after_attempts _ _ (begin_try plan t)

  -- With fuel for the retries that are left, the loop reaches an end, after at most
  -- `max_retries + 1` attempts, whatever the encoder does.
  pub encode_loop_total :
      (f : ℕ) (t : Try) (fs : Files)
      → t.attempt ≤ plan.max_retries
      → plan.max_retries < f + t.attempt
      → (end : End) × (fs' : Files) × (encode_loop enc p rates plan source size f t fs
          ≡ some (end, fs'))
        × (attempts_of end ≤ plan.max_retries + 1)
  unfolding encode_loop
  encode_loop_total zero t fs left fuel = absurd (omega arith)
  encode_loop_total (suc f) t fs left fuel = elim (Option-cases (round_of t fs).0) [
    | inl e ↦
        let counts = round_counts t fs in
        let next = next_counts (round_of t fs).1 in
        let more = round_retries t fs e in
        let (end, fs', h, bound) =
          encode_loop_total f (next_try plan (round_of t fs).1) (round_of t fs).2 (omega arith)
            (omega arith) in
        (end, fs', rw (e, encode_loop) h, bound)
    | inr (x, e) ↦
        (x, (round_of t fs).2, rw (e, encode_loop) refl, omega (arith, round_attempts t fs x e))
  ]
