-- ===== src/Memory/Usage/Booked.antt =====
-- Booking a usage again changes nothing. Code: `record_usage` of src/app/memory/job.py.
use fin_agent_platform.Prelude.{
  ℕ, ◌≡◌, refl, sym, ap, ◌∙◌, inl, inr, Bool, true, false, not, Option, none, some, List, [], ◌∷◌,
  Text, arith, ◌==◌, if◌then◌else◌, Bool-cases,
}
use fin_agent_platform.Prelude.Sql.{update_where, any_where, count_where}
use fin_agent_platform.Memory.Usage.{
  UsageRow, MemoryUsage, MemoryUsageStage, usage_row, is_usage_of, overwrite, upsert, parse_job,
  record_parsed, record_usage, same_stage, selector, extractor, consolidator,
}

same_stage_refl : (s : MemoryUsageStage) → same_stage s s ≡ true
same_stage_refl selector = refl
same_stage_refl extractor = refl
same_stage_refl consolidator = refl

-- An update that keeps its own condition and is idempotent on a row.
module _ (p : UsageRow → Bool) (f : UsageRow → UsageRow)
    (keeps : (r : UsageRow) → p r ≡ true → p (f r) ≡ true)
    (twice : (r : UsageRow) → f (f r) ≡ f r) where
  update_where-twice :
      (t : List UsageRow) → update_where p f (update_where p f t) ≡ update_where p f t
  unfolding update_where
  update_where-twice [] = refl
  update_where-twice (r ∷ t) = elim (Bool-cases (p r)) [
    | inl e ↦ rw e (rw (keeps r e) (rw (twice r, update_where-twice t)))
    | inr e ↦ rw e (rw e (rw (update_where-twice t)))
  ]

  count_where-update_where :
      (t : List UsageRow) → count_where p (update_where p f t) ≡ count_where p t
  unfolding update_where count_where
  count_where-update_where [] = refl
  count_where-update_where (r ∷ t) = elim (Bool-cases (p r)) [
    | inl e ↦ rw e (rw (keeps r e) (rw (count_where-update_where t)))
    | inr e ↦ rw e (rw e (rw (count_where-update_where t)))
  ]

  unmatched_update : (t : List UsageRow) → count_where p t ≡ 0 → update_where p f t ≡ t
  unfolding update_where count_where
  unmatched_update [] h = refl
  unmatched_update (r ∷ t) h = ground (arith, unmatched_update t)

  any_where-update_where : (t : List UsageRow) → any_where p (update_where p f t) ≡ any_where p t
  unfolding any_where
  any_where-update_where t = ap (λ n. not (n == 0)) (count_where-update_where t)

  any_where-cons : (a : UsageRow) (t : List UsageRow) → p a ≡ true → any_where p (a ∷ t) ≡ true
  unfolding any_where count_where
  any_where-cons a t h = rw h (ground arith)

  abbrev put : UsageRow → List UsageRow → List UsageRow
  put a t = if any_where p t then update_where p f t else a ∷ t

  none_of_any : (t : List UsageRow) → any_where p t ≡ false → count_where p t ≡ 0
  unfolding any_where
  none_of_any t h = ground arith

  put-put : (a b : UsageRow) (t : List UsageRow) → p a ≡ true → f a ≡ a → put b (put a t) ≡ put a t
  unfolding update_where
  put-put a b t h k = elim (Bool-cases (any_where p t)) [
    | inl e ↦ rw e (rw (any_where-update_where t, e) (update_where-twice t))
    | inr e ↦
        rw e (
          rw (any_where-cons a t h, update_where) (rw (h, k, unmatched_update t (none_of_any t e))))
  ]

-- The same usage with another identifier and another time.
upsert-upsert :
    (id now later_id later run thread : ℕ) (job : Option ℕ) (u : MemoryUsage) (t : List UsageRow)
    → upsert
        (usage_row later_id later run thread job u)
        (upsert (usage_row id now run thread job u) t)
      ≡ upsert (usage_row id now run thread job u) t
unfolding upsert
upsert-upsert id now later_id later run thread job u t =
    let new = usage_row id now run thread job u in
    put-put (is_usage_of run u.stage) (overwrite new) (λ r h. h) (λ r. refl) new
      (usage_row later_id later run thread job u) t (ground (arith, same_stage_refl u.stage)) refl

record_parsed-again :
    (id now later_id later : ℕ) (u : MemoryUsage) (run thread : Option ℕ) (job : Option (Option ℕ))
    (t out : List UsageRow)
    → record_parsed id now u run thread job t ≡ some out
    → record_parsed later_id later u run thread job out ≡ some out
record_parsed-again id now later_id later u (some run) (some thread) (some job) t out h =
    let same : upsert (usage_row id now run thread job u) t ≡ out = cc in
    ap some (
      ap (upsert (usage_row later_id later run thread job u)) (sym same)
      ∙ upsert-upsert id now later_id later run thread job u t
      ∙ same)
record_parsed-again id now later_id later u (some run) (some thread) none t out h = cc
record_parsed-again id now later_id later u (some run) none job t out h = cc
record_parsed-again id now later_id later u none thread job t out h = cc

-- A usage that is booked once more, as after a crash, leaves the table as it was: nothing is
-- counted twice, and the row keeps its identifier and its first time.
pub record_usage-record_usage :
    (parse : Text → Option ℕ) (id now later_id later : ℕ) (u : MemoryUsage) (t out : List UsageRow)
    → record_usage parse id now u t ≡ some out
    → record_usage parse later_id later u out ≡ some out
unfolding record_usage
record_usage-record_usage parse id now later_id later u t out h =
    record_parsed-again id now later_id later u (parse u.run_id) (parse u.thread_id)
      (parse_job parse u.job_id) t out h
