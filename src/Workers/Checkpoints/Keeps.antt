-- ===== src/Workers/Checkpoints/Keeps.antt =====
-- What a call keeps, the loop of the workers keeps.
use mm_mem.Base.{
  ℕ, zero, suc, ◌+◌, ◌≤◌, ◌<◌, ◌≡◌, sym, ◌∙◌, refl, inl, inr, Bool, true, false, some, arith,
  if_true, if_false, ltb, Bool-cases, add64,
}
use mathlib.Core.Path.{subst}
use mathlib.Core.Option.{some-injective}
use mm_mem.Workers.Timer.{Clock}
use mm_mem.Workers.Checkpoints.{Plan, Progress, checkpoint, count_call, pass, passes}

finished_lem :
    (clock : Clock) (plan : Plan) (s : Progress)
    → (count_call clock plan s).0.finished ≡ add64 s.finished plan.call_size
unfolding count_call checkpoint
finished_lem clock plan s = elim (Bool-cases (ltb s.next_chkpt (add64 s.finished plan.call_size))) [
  | inl reached ↦ rw reached refl
  | inr not_yet ↦ rw not_yet refl
]

-- `holds i finished a`: in front of the call with the number `i` of a pass.
module _ {ℓ κ} {A : Type ℓ} (clock : Clock) (plan : Plan) (call : (i : ℕ) → A → A) (count : ℕ)
    (holds : (i finished : ℕ) → A → Type κ)
    (keeps : (i finished : ℕ) (a : A)
      → i < count
      → holds i finished a
      → holds (suc i) (add64 finished plan.call_size) (call i a)) where
  -- A pass that `j` calls have brought to its end.
  record HasPassed (r : A × Progress × Bool) : Type κ where
    j : ℕ
    within : j ≤ count
    held : holds j r.1.finished r.0
    some_call : r.2 ≡ true → 0 < j
    all_calls : r.2 ≡ false → j ≡ count

  counted-holds :
      (i : ℕ) (a : A) (s : Progress)
      → i < count
      → holds i s.finished a
      → holds (suc i) (count_call clock plan s).0.finished (call i a)
  counted-holds i a s h held =
      subst (λ f. holds (suc i) f (call i a)) (sym (finished_lem clock plan s))
        (keeps i s.finished a h held)

  pass-keeps :
      (n i : ℕ) (a : A) (s : Progress)
      → i + n ≡ count
      → holds i s.finished a
      → HasPassed (pass clock plan call n i a s)
  unfolding pass
  pass-keeps zero i a s e h = record {
    j = i;
    within = omega (arith, e);
    held = h;
    some_call = λ stop. cc;
    all_calls = λ more. omega (arith, e);
  }
  pass-keeps (suc n) i a s e h =
      let next = counted-holds i a s (omega (arith, e)) h in
      elim (Bool-cases (count_call clock plan s).1) [
        | inl stop ↦ rw stop (record {
          j = suc i;
          within = omega (arith, e);
          held = next;
          some_call = λ again. omega arith;
          all_calls = λ more. cc;
        })
        | inr more ↦ rw more (
            pass-keeps n (i + 1) (call i a) (count_call clock plan s).0 (omega (arith, e)) (
              subst (λ k. holds k (count_call clock plan s).0.finished (call i a))
                (let e : suc i ≡ i + 1 = omega arith in e) next))
      ]

  -- What holds in front of a pass, `before`, gives what holds when the loop has ended.
  pub passes-keeps :
      (before : (finished : ℕ) → A → Type κ) (fuel : ℕ) (begin : A → A) (a : A) (s : Progress)
      (result : A × Progress)
      → ((f : ℕ) (b : A) → before f b → holds 0 f (begin b))
      → ((f : ℕ) (b : A) → holds count f b → before f b)
      → before s.finished a
      → passes clock plan call fuel count begin a s ≡ some result
      → (j : ℕ) × (0 < j) × (j ≤ count) × holds j result.1.finished result.0
  unfolding passes
  passes-keeps before zero begin a s result enter leave h e = cc e
  passes-keeps before (suc fuel) begin a s result enter leave h e =
      let after = pass clock plan call count 0 (begin a) s in
      let passed = pass-keeps count 0 (begin a) s (omega arith) (enter s.finished a h) in
      elim (Bool-cases after.2) [
        | inl stop ↦
            let ended : some (after.0, after.1) ≡ some result = sym (if_true _ stop) ∙ e in
            (
              passed.j,
              passed.some_call stop,
              passed.within,
              subst (λ r. holds passed.j r.1.finished r.0) (some-injective _ _ ended) passed.held,
            )
        | inr more ↦
            passes-keeps before fuel begin after.0 after.1 result enter leave
              (leave after.1.finished after.0
                (subst (λ k. holds k after.1.finished after.0) (passed.all_calls more) passed.held))
              (sym (if_false _ more) ∙ e)
      ]
