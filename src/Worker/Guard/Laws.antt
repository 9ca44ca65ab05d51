-- ===== src/Worker/Guard/Laws.antt =====
-- What the size guard guarantees of any encoder that keeps to the contract of RunSettings.NoCommit.
use mathlib.Core.Option.{some-injective}
use recodarr.Handbrake.Args.{Settings}
use recodarr.Store.Rows.{ProfileRow}
use recodarr.Handbrake.Run.{RunOutcome, RunResult, discard_temp, commit}
use recodarr.Files.{write_other, write, remove, rename, Files}
use recodarr.Prelude.{
  subst, text_eq_refl, ℕ, zero, suc, ◌≡◌, refl, sym, ◌∙◌, Bool, true, false, not, ◌&&◌, ◌||◌, Text,
  text_eq, List, ◌++◌, Option, none, some, leb, arith, Bool-cases, Option-cases, inl, inr,
}
use recodarr.Worker.Guard.{
  next_try, begin_try, after_call, settings_of, kept, failed_with, round, encoded, encode_loop,
  is_retry, is_off, fits_threshold, Try, judge_result, Plan, try_commit, End, Encoder,
}

-- An encoder that is asked not to commit leaves the source alone; a success leaves the result, of the
-- size that it names, at a path of its own.
pub record IsCareful (enc : Encoder) (source : Text) : Type 0 where
  pub keeps :
      (n : ℕ) (s : Settings) (fs : Files)
      → s.no_commit ≡ true
      → (enc.encode n s fs).1 source ≡ fs source
  pub leaves :
      (n : ℕ) (s : Settings) (fs : Files)
      → s.no_commit ≡ true
      → (enc.encode n s fs).0.1 ≡ none
      → (enc.encode n s fs).1 (enc.encode n s fs).0.0.temp_path_of
        ≡ some (enc.encode n s fs).0.0.final_size
  pub apart :
      (n : ℕ) (s : Settings) (fs : Files)
      → s.no_commit ≡ true
      → (enc.encode n s fs).0.1 ≡ none
      → text_eq (enc.encode n s fs).0.0.temp_path_of source ≡ false

-- The source at the end of the loop: replaced by a result that fits, or as it was.
abbrev pub Settled : Text → ℕ → ℕ → Option ℕ → End → Files → Type 0
Settled source size percent before (encoded r t) fs =
    (fs source ≡ some r.final_size) × (fits_threshold r.final_size size percent ≡ true)
Settled source size percent before (failed_with r e t) fs = fs source ≡ before
Settled source size percent before (kept final t) fs =
    (fs source ≡ before) × (fits_threshold final size percent ≡ false)

-- After one round: settled, or the source is as it was.
abbrev RoundSettled : Text → ℕ → ℕ → Option ℕ → Option End → Files → Type 0
RoundSettled source size percent before (some end) fs = Settled source size percent before end fs
RoundSettled source size percent before none fs = fs source ≡ before

try_commit-Settled :
    (source : Text) (r : RunResult) (ok : Bool) (t : Try) (fs : Files) (size percent : ℕ)
    → text_eq r.temp_path_of source ≡ false
    → fs r.temp_path_of ≡ some r.final_size
    → fits_threshold r.final_size size percent ≡ true
    → Settled source size percent
        (fs source)
        (try_commit source r ok t fs).0
        (try_commit source r ok t fs).1
unfolding try_commit commit rename remove write
try_commit-Settled source r true t fs size percent away tmp fit =
    ground (arith, text_eq_refl source)
try_commit-Settled source r false t fs size percent away tmp fit = ground arith

module _ (enc : Encoder) (p : ProfileRow) (rates : List ℕ) (plan : Plan) (source : Text)
    (size : ℕ) where
  judge_settled :
      (r : RunResult) (t : Try) (fs : Files)
      → is_off plan.policy ≡ false
      → text_eq r.temp_path_of source ≡ false
      → fs r.temp_path_of ≡ some r.final_size
      → RoundSettled source size p.bloat_min_savings_percent
          (fs source)
          (judge_result enc p rates plan source size r t fs).0
          (judge_result enc p rates plan source size r t fs).1
  unfolding judge_result discard_temp remove
  judge_settled r t fs o away tmp =
      elim (Bool-cases (fits_threshold r.final_size size p.bloat_min_savings_percent)) [
        | inl fit ↦
            rw (o, fit)
              (try_commit-Settled source r (enc.renames t.attempt) t fs size
                p.bloat_min_savings_percent away tmp fit)
        | inr big ↦ elim (Bool-cases (is_retry plan.policy && leb t.attempt plan.max_retries)) [
          | inl again ↦ rw (o, big, again) (write_other r.temp_path_of source none fs away)
          | inr last ↦ rw (o, big, last) (write_other r.temp_path_of source none fs away, big)
        ]
      ]

  after_call_settled :
      (outcome : RunOutcome) (fs : Files) (t : Try) (before : Option ℕ)
      → is_off plan.policy ≡ false
      → fs source ≡ before
      → (outcome.1 ≡ none → text_eq outcome.0.temp_path_of source ≡ false)
      → (outcome.1 ≡ none → fs outcome.0.temp_path_of ≡ some outcome.0.final_size)
      → RoundSettled source size p.bloat_min_savings_percent before
          (after_call enc p rates plan source size outcome fs t).0
          (after_call enc p rates plan source size outcome fs t).2
  unfolding after_call
  after_call_settled (r, some e) fs t before o b away tmp = b
  after_call_settled (r, none) fs t before o b away tmp =
      rw (← b) (judge_settled r (record t { log = t.log ++ r.log }) fs o (away refl) (tmp refl))

  round_settled :
      (t : Try) (fs : Files)
      → is_off plan.policy ≡ false
      → IsCareful enc source
      → RoundSettled source size p.bloat_min_savings_percent
          (fs source)
          (round enc p rates plan source size t fs).0
          (round enc p rates plan source size t fs).2
  unfolding round settings_of
  round_settled t fs o c =
      let n = (begin_try plan t).attempt in
      let s = settings_of p rates (not (is_off plan.policy) || enc.remote n) (begin_try plan t) in
      let asked : s.no_commit ≡ true = rw o refl in
      after_call_settled (enc.encode n s fs).0 (enc.encode n s fs).1 (begin_try plan t) (fs source)
        o (c.keeps n s fs asked) (c.apart n s fs asked) (c.leaves n s fs asked)

  abbrev round_of : Try → Files → Option End × Try × Files
  round_of = round enc p rates plan source size

  abbrev loop_of : ℕ → Try → Files → Option (End × Files)
  loop_of = encode_loop enc p rates plan source size

  loop_again :
      (f : ℕ) (t : Try) (fs : Files)
      → (round_of t fs).0 ≡ none
      → loop_of (suc f) t fs ≡ loop_of f (next_try plan (round_of t fs).1) (round_of t fs).2
  unfolding encode_loop
  loop_again f t fs e = ground (arith, e)

  loop_ends :
      (f : ℕ) (t : Try) (fs : Files) (x : End)
      → (round_of t fs).0 ≡ some x
      → loop_of (suc f) t fs ≡ some (x, (round_of t fs).2)
  unfolding encode_loop
  loop_ends f t fs x e = ground (arith, e)

  -- If the guard is on and the encoder is careful, the loop ends with the source replaced by a result
  -- that meets the threshold, or with the source as it was before the first attempt; it gives up only
  -- over a result that does not meet the threshold.
  pub encode_loop-Settled :
      (f : ℕ) (t : Try) (fs fs' : Files) (end : End)
      → is_off plan.policy ≡ false
      → IsCareful enc source
      → loop_of f t fs ≡ some (end, fs')
      → Settled source size p.bloat_min_savings_percent (fs source) end fs'
  encode_loop-Settled zero t fs fs' end o c h = unfold encode_loop in cc h
  encode_loop-Settled (suc f) t fs fs' end o c h = elim (Option-cases (round_of t fs).0) [
    | inl e ↦
        let same : (round_of t fs).2 source ≡ fs source = rw e at (round_settled t fs o c) in
        rw same at (
          encode_loop-Settled f (next_try plan (round_of t fs).1) (round_of t fs).2 fs' end o c
            (sym (loop_again f t fs e) ∙ h))
    | inr (x, e) ↦
        let settled : Settled source size p.bloat_min_savings_percent (fs source) x
            (round_of t fs).2 =
          rw e at (round_settled t fs o c) in
        let same = some-injective _ _ (sym (loop_ends f t fs x e) ∙ h) in
        subst (λ y. Settled source size p.bloat_min_savings_percent (fs source) y.0 y.1) same
          settled
  ]
