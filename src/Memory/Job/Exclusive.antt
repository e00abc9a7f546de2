-- ===== src/Memory/Job/Exclusive.antt =====
-- Consumers whose claims overlap: `claim` of src/app/memory/job.py as the transaction it is, between
-- the endings that other consumers write.
use fin_agent_platform.Prelude.{
  ℕ, ◌+◌, ◌≤◌, ◌≡◌, refl, sym, ap, ◌∙◌, inl, inr, Bool, true, false, not, ◌&&◌, ◌||◌, Option, none,
  some, List, [], ◌∷◌, Text, ◌==◌, text_eq, text_eq_iff, if◌then◌else◌, Has, here, there,
  Bool-cases, Option-cases, arith,
}
use fin_agent_platform.Prelude.Sql.{update_where}
use fin_agent_platform.Schema.{MemoryJobRow, job_queued, same_job_status}
use fin_agent_platform.Memory.Job.{
  Jobs, MemoryJob, Consumers, is_held, find_held, unlock, begin_claim, commit_claim, abort_claim,
  first_queued, write_row, set_claimed, change_running, is_running, finish, complete, discard,
  give_up, set_ending, completed, gave_up, set_discarded,
}
use fin_agent_platform.Memory.Job.Queue.{first_queued-IsFirst}

-- A claim begins, is committed or is lost; a consumer ends its job.
pub data Step : Type 0 where
  begins : Step
  commits : ℕ → ℕ → Step
  aborts : ℕ → Step
  completes : Text → ℕ → List Text → ℕ → Step
  discards : Text → Text → ℕ → Step
  gives_up : Text → Text → ℕ → Step

abbrev pub hands : Text → Option MemoryJob → ℕ
hands id none = 0
hands id (some job) = if text_eq job.id id then 1 else 0

module _ (parse : Text → Option ℕ) (hex : ℕ → Text) where
  unfoldable pub after_step : Step → Consumers → Consumers
  unfolding begin_claim commit_claim abort_claim complete discard give_up
  after_step begins c = begin_claim c
  after_step (commits id now) c = (commit_claim hex id now c).1
  after_step (aborts id) c = abort_claim id c
  after_step (completes id accepted reasons now) c = record c {
    jobs = (complete parse id accepted reasons now c.jobs).1;
  }
  after_step (discards id reason now) c = record c { jobs = (discard parse id reason now c.jobs).1 }
  after_step (gives_up id error now) c = record c { jobs = (give_up parse id error now c.jobs).1 }

  -- How many consumers get the job of that identifier.
  unfoldable pub handed : Text → List Step → Consumers → ℕ
  unfolding commit_claim after_step text_eq
  handed id [] c = 0
  handed id (commits i now ∷ steps) c =
      hands id (commit_claim hex i now c).0 + handed id steps (after_step (commits i now) c)
  handed id (begins ∷ steps) c = handed id steps (after_step begins c)
  handed id (aborts i ∷ steps) c = handed id steps (after_step (aborts i) c)
  handed id (completes j n rs now ∷ steps) c = handed id steps (after_step (completes j n rs now) c)
  handed id (discards j why now ∷ steps) c = handed id steps (after_step (discards j why now) c)
  handed id (gives_up j why now ∷ steps) c = handed id steps (after_step (gives_up j why now) c)

abbrev one_if : Bool → ℕ
one_if b = if b then 1 else 0

abbrev queued_at : ℕ → MemoryJobRow → Bool
queued_at i j = j.id == i && same_job_status j.status job_queued

unfoldable pub has_queued : ℕ → Jobs → Bool
has_queued i [] = false
has_queued i (j ∷ t) = queued_at i j || has_queued i t

-- Nobody holds a row twice, and what is held is queued in the table.
unfoldable pub all_distinct : List MemoryJobRow → Bool
unfolding is_held
all_distinct [] = true
all_distinct (j ∷ held) = not (is_held j.id held) && all_distinct held

pub record IsHolding (c : Consumers) : Type 0 where
  pub distinct : all_distinct c.held ≡ true
  pub queued : (i : ℕ) → is_held i c.held ≡ true → has_queued i c.jobs ≡ true

has_queued-member :
    (j : MemoryJobRow) (t : Jobs) → Has j t → j.status ≡ job_queued → has_queued j.id t ≡ true
unfolding has_queued
has_queued-member j [] h q = elim h [ ]
has_queued-member j (k ∷ t) (here p) q =
    let same : k.id ≡ j.id = ap (λ (x : MemoryJobRow). x.id) p in
    let waits : k.status ≡ job_queued = ap (λ (x : MemoryJobRow). x.status) p ∙ q in
    rw (same, waits) (ground arith)
has_queued-member j (k ∷ t) (there m) q = ground (arith, has_queued-member j t m q)

-- An update of running rows to rows that do not wait leaves what is queued.
has_queued-change :
    (i n : ℕ) (change : MemoryJobRow → MemoryJobRow) (t : Jobs)
    → ((j : MemoryJobRow) → same_job_status (change j).status job_queued ≡ false)
    → has_queued i (update_where (is_running n) change t) ≡ has_queued i t
unfolding has_queued update_where
has_queued-change i n change [] h = refl
has_queued-change i n change (j ∷ t) h = ground (arith, has_queued-change i n change t h, h j)

has_queued-finish :
    (parse : Text → Option ℕ) (i : ℕ) (id : Text) (change : MemoryJobRow → MemoryJobRow) (t : Jobs)
    → ((j : MemoryJobRow) → same_job_status (change j).status job_queued ≡ false)
    → has_queued i (finish parse id change t).1 ≡ has_queued i t
unfolding finish change_running
has_queued-finish parse i id change t h = elim (Option-cases (parse id)) [
  | inl e ↦ rw (e, finish)
  | inr (n, e) ↦ rw (e, finish) (has_queued-change i n change t h)
]

-- A row that is written is queued no more, and every other row is as it was.
has_queued-written :
    (now : ℕ) (j : MemoryJobRow) (t : Jobs)
    → has_queued j.id (write_row (set_claimed now j) t) ≡ false
unfolding has_queued write_row update_where
has_queued-written now j [] = refl
has_queued-written now j (k ∷ t) = ground (arith, has_queued-written now j t)

has_queued-other :
    (i now : ℕ) (j : MemoryJobRow) (t : Jobs)
    → (j.id == i) ≡ false
    → has_queued i (write_row (set_claimed now j) t) ≡ has_queued i t
unfolding has_queued write_row update_where
has_queued-other i now j [] h = refl
has_queued-other i now j (k ∷ t) h = ground (arith, has_queued-other i now j t h)

id-find_held :
    (id : ℕ) (held : List MemoryJobRow) (j : MemoryJobRow)
    → find_held id held ≡ some j
    → (j.id ≡ id) × (is_held id held ≡ true)
unfolding find_held is_held
id-find_held id [] j e = ground arith
id-find_held id (k ∷ held) j e = elim (Bool-cases (k.id == id)) [
  | inl h ↦ let same : k ≡ j = ground arith in (rw (← same) (ground arith), ground arith)
  | inr h ↦ ground (arith, id-find_held id held j (ground arith))
]

is_held-unlock :
    (i id : ℕ) (held : List MemoryJobRow)
    → all_distinct held ≡ true
    → is_held i (unlock id held) ≡ (not (id == i) && is_held i held)
unfolding is_held unlock all_distinct
is_held-unlock i id [] d = ground arith
is_held-unlock i id (j ∷ held) d = elim (Bool-cases (j.id == id)) [
  | inl e ↦
      let same : j.id ≡ id = ground arith in
      let mine : is_held id held ≡ false = rw (← same) (ground arith) in
      elim (Bool-cases (id == i)) [
        | inl f ↦
            let one : id ≡ i = ground arith in
            let other : is_held i held ≡ false = ap (λ n. is_held n held) (sym one) ∙ mine in
            rw (e, f) other
        | inr f ↦ ground (arith, same)
      ]
  | inr e ↦ ground (arith, is_held-unlock i id held (ground arith))
]

unlock-distinct :
    (id : ℕ) (held : List MemoryJobRow)
    → all_distinct held ≡ true
    → all_distinct (unlock id held) ≡ true
unfolding unlock all_distinct
unlock-distinct id [] d = refl
unlock-distinct id (j ∷ held) d =
    ground
      (arith, unlock-distinct id held (ground arith), is_held-unlock j.id id held (ground arith))

begin_claim-jobs : (i : ℕ) (c : Consumers) → has_queued i (begin_claim c).jobs ≡ has_queued i c.jobs
unfolding begin_claim
begin_claim-jobs i c = elim (Option-cases (first_queued (λ id. is_held id c.held) c.jobs)) [
  | inl e ↦ rw (e, begin_claim)
  | inr (j, e) ↦ rw (e, begin_claim)
]

begin_claim-IsHolding : (c : Consumers) → IsHolding c → IsHolding (begin_claim c)
unfolding begin_claim is_held all_distinct
begin_claim-IsHolding c h =
    let locked : ℕ → Bool = λ id. is_held id c.held in
    elim (Option-cases (first_queued locked c.jobs)) [
      | inl e ↦ rw (e, begin_claim) h
      | inr (j, e) ↦
          let f = first_queued-IsFirst locked c.jobs j e in
          let waits : j.status ≡ job_queued = ground (arith, f.free) in
          let there = has_queued-member j c.jobs f.member waits in
          rw (e, begin_claim)
            (record {
              distinct = ground (arith, f.free, h.distinct);
              queued = λ i m. elim (Bool-cases (j.id == i)) [
                | inl same ↦
                    let one : j.id ≡ i = ground arith in
                    ap (λ n. has_queued n c.jobs) (sym one) ∙ there
                | inr other ↦ h.queued i (ground (arith, m, other))
              ];
            })
    ]

unlock-IsHolding :
    (id : ℕ) (c : Consumers) (t : Jobs)
    → ((i : ℕ) → (id == i) ≡ false → has_queued i t ≡ has_queued i c.jobs)
    → IsHolding c
    → IsHolding (record { jobs = t; held = unlock id c.held })
unlock-IsHolding id c t kept h = record {
  distinct = unlock-distinct id c.held h.distinct;
  queued = λ i m.
      let left = is_held-unlock i id c.held h.distinct in
      let other : (id == i) ≡ false = ground (arith, left, m) in
      kept i other ∙ h.queued i (ground (arith, left, m));
}

commit_claim-IsHolding :
    (hex : ℕ → Text) (id now : ℕ) (c : Consumers)
    → IsHolding c
    → IsHolding (commit_claim hex id now c).1
unfolding commit_claim
commit_claim-IsHolding hex id now c h = elim (Option-cases (find_held id c.held)) [
  | inl e ↦ rw (e, commit_claim) h
  | inr (j, e) ↦
      let same = (id-find_held id c.held j e).0 in
      rw (e, commit_claim)
        (unlock-IsHolding id c (write_row (set_claimed now j) c.jobs)
          (λ i other. has_queued-other i now j c.jobs (ap (λ n. n == i) same ∙ other)) h)
]

jobs-IsHolding :
    (c : Consumers) (t : Jobs)
    → ((i : ℕ) → has_queued i t ≡ has_queued i c.jobs)
    → IsHolding c
    → IsHolding (record c { jobs = t })
jobs-IsHolding c t kept h = record { distinct = h.distinct; queued = λ i m. kept i ∙ h.queued i m }

module _ (parse : Text → Option ℕ) (hex : ℕ → Text) (inj : (a b : ℕ) → hex a ≡ hex b → a ≡ b) where
  after_step-IsHolding :
      (s : Step) (c : Consumers) → IsHolding c → IsHolding (after_step parse hex s c)
  unfolding after_step abort_claim complete discard give_up
  after_step-IsHolding begins c h = begin_claim-IsHolding c h
  after_step-IsHolding (commits id now) c h = commit_claim-IsHolding hex id now c h
  after_step-IsHolding (aborts id) c h = unlock-IsHolding id c c.jobs (λ i other. refl) h
  after_step-IsHolding (completes id n rs now) c h =
      jobs-IsHolding c _ (λ i. has_queued-finish parse i id _ c.jobs (λ j. refl)) h
  after_step-IsHolding (discards id why now) c h =
      jobs-IsHolding c _ (λ i. has_queued-finish parse i id _ c.jobs (λ j. refl)) h
  after_step-IsHolding (gives_up id why now) c h =
      jobs-IsHolding c _ (λ i. has_queued-finish parse i id _ c.jobs (λ j. refl)) h

  -- 1 while the job is queued.
  abbrev waiting_at : ℕ → Consumers → ℕ
  waiting_at i c = one_if (has_queued i c.jobs)

  commit_claim-hands :
      (i id now : ℕ) (c : Consumers)
      → IsHolding c
      → hands (hex i) (commit_claim hex id now c).0 + waiting_at i (commit_claim hex id now c).1
        ≤ waiting_at i c
  unfolding commit_claim
  commit_claim-hands i id now c h = elim (Option-cases (find_held id c.held)) [
    | inl e ↦ rw (e, commit_claim) (omega arith)
    | inr (j, e) ↦
        let (same, held) = id-find_held id c.held j e in
        elim (Bool-cases (j.id == i)) [
          | inl mine ↦
              let one : j.id ≡ i = ground arith in
              let there : has_queued i c.jobs ≡ true =
                ap (λ n. has_queued n c.jobs) (sym one ∙ same) ∙ h.queued id held in
              let gone : has_queued i (write_row (set_claimed now j) c.jobs) ≡ false =
                ap (λ n. has_queued n (write_row (set_claimed now j) c.jobs)) (sym one)
                ∙ has_queued-written now j c.jobs in
              rw (e, commit_claim, there, gone) (ground arith)
          | inr other ↦
              let kept = has_queued-other i now j c.jobs other in
              let not_his : text_eq (hex j.id) (hex i) ≡ false =
                elim (Bool-cases (text_eq (hex j.id) (hex i))) [
                  | inl t ↦
                      let one = inj j.id i ((text_eq_iff (hex j.id) (hex i)).0 t) in
                      absurd (ground (arith, one, other))
                  | inr f ↦ f
                ] in
              rw (e, commit_claim, kept, not_his) (omega arith)
        ]
  ]

  handed-waiting :
      (i : ℕ) (steps : List Step) (c : Consumers)
      → IsHolding c
      → handed parse hex (hex i) steps c ≤ waiting_at i c
  unfolding handed
  handed-waiting i [] c h = omega arith
  handed-waiting i (commits id now ∷ steps) c h =
      let rest = handed-waiting i steps _ (commit_claim-IsHolding hex id now c h) in
      omega (arith, commit_claim-hands i id now c h, rest)
  handed-waiting i (begins ∷ steps) c h =
      let rest = handed-waiting i steps _ (begin_claim-IsHolding c h) in
      let same : has_queued i (begin_claim c).jobs ≡ has_queued i c.jobs = begin_claim-jobs i c in
      omega (arith, rest, ap one_if same)
  handed-waiting i (aborts id ∷ steps) c h =
      handed-waiting i steps _ (after_step-IsHolding (aborts id) c h)
  handed-waiting i (completes id n rs now ∷ steps) c h =
      let rest = handed-waiting i steps _ (after_step-IsHolding (completes id n rs now) c h) in
      omega (
        arith,
        rest,
        ap one_if
            (has_queued-finish parse i id (set_ending (completed n rs) now) c.jobs (λ j. refl)),
      )
  handed-waiting i (discards id why now ∷ steps) c h =
      let rest = handed-waiting i steps _ (after_step-IsHolding (discards id why now) c h) in
      omega (
        arith,
        rest,
        ap one_if (has_queued-finish parse i id (set_discarded why now) c.jobs (λ j. refl)),
      )
  handed-waiting i (gives_up id why now ∷ steps) c h =
      let rest = handed-waiting i steps _ (after_step-IsHolding (gives_up id why now) c h) in
      omega (
        arith,
        rest,
        ap one_if (has_queued-finish parse i id (set_ending (gave_up why) now) c.jobs (λ j. refl)),
      )

  -- However the transactions of the consumers overlap, from a state in which no row is held twice and
  -- what is held is queued: over claims that begin, commit or are lost and jobs that are completed,
  -- discarded or given up, with nothing requeued, no job is handed to two consumers. (`inj` is that
  -- different UUIDs print differently.)
  pub claim_exclusive :
      (i : ℕ) (steps : List Step) (c : Consumers)
      → IsHolding c
      → handed parse hex (hex i) steps c ≤ 1
  claim_exclusive i steps c h = ground (arith, handed-waiting i steps c h)
