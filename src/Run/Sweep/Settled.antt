-- ===== src/Run/Sweep/Settled.antt =====
-- The two sweeps while other processes write to the same runs: src/app/run/reaper.py and
-- src/app/run/approval.py.
use fin_agent_platform.Prelude.{
  ℕ, ◌+◌, ◌≡◌, refl, ap, sym, ◌∙◌, inl, inr, Bool, true, false, Option, none, some, List, [], ◌∷◌,
  ◌++◌, map, Text, text_eq, text_eq_iff, arith, ◌==◌, if◌then◌else◌, contains, Bool-cases,
  Option-cases, length, length-append,
}
use fin_agent_platform.Prelude.Sql.{count_where}
use fin_agent_platform.Schema.{RunRow, Db, cancellable_status}
use fin_agent_platform.Event.{Event}
use fin_agent_platform.Run.Repository.{transit, transit_from}
use fin_agent_platform.Run.Repository.Calls.{Call, after_all, finals, targets}
use fin_agent_platform.Run.Repository.Table.{
  find, IsTable, KeepsId, holds_at, ids, transit_at-find, id-find,
}
use fin_agent_platform.Run.Repository.Finality.{is_live, open_at, transit-closes}
use fin_agent_platform.Run.Repository.History.{
  finals-balance, after_all-IsTable, after_all-kept, transit_from-IsTable,
}
use fin_agent_platform.Run.Sweep.{World, ended_by, sweep_all}
use fin_agent_platform.Run.Sweep.Loop.{ended_by-db, ended_by-log}

ended_by-length :
    (b : Bool) (e : Event) (db : Db) (w : World)
    → length (ended_by b e db w).1.log ≡ length w.log + (ended_by b e db w).0
ended_by-length true e db w = omega (arith, length-append w.log (e ∷ []))
ended_by-length false e db w = omega arith

holds_any :
    (p : RunRow → Bool) (o : Option RunRow) → holds_at p o ≡ true → holds_at (λ r. true) o ≡ true
holds_any p none h = h
holds_any p (some r) h = refl

-- How many events of a run the log has.
abbrev pub events_of : Text → List Event → ℕ
events_of run log = count_where (λ (e : Event). text_eq e.run_id run) log

events_of-append :
    (run : Text) (log : List Event) (e : Event)
    → events_of run (log ++ e ∷ []) ≡ events_of run log + (if text_eq e.run_id run then 1 else 0)
unfolding count_where
events_of-append run [] e = omega arith
events_of-append run (f ∷ log) e = omega (arith, events_of-append run log e)

-- How many of the statements of others, sent during a sweep with these endings, answer that they
-- ended run `i`.
unfoldable pub others_finals :
    (Text → Option ℕ) → (Text → Db → Bool × Db) → (Text → List Call) → ℕ → List Text → Db → ℕ
others_finals parse end_run others i [] db = 0
others_finals parse end_run others i (run_id ∷ ids) db =
    finals parse i (others run_id) db
    + others_finals parse end_run others i ids
        (end_run run_id (after_all parse (others run_id) db)).1

module _ (parse : Text → Option ℕ) (hex : ℕ → Text)
    (parse-hex : (i : ℕ) → parse (hex i) ≡ some i) where
  hex-eq : (n i : ℕ) → text_eq (hex n) (hex i) ≡ (n == i)
  hex-eq n i = elim (Bool-cases (text_eq (hex n) (hex i))) [
    | inl e ↦
        let same : hex n ≡ hex i = (text_eq_iff (hex n) (hex i)).0 e in
        let one : some n ≡ some i = sym (parse-hex n) ∙ ap parse same ∙ parse-hex i in
        rw e (ground (arith, one))
    | inr e ↦ elim (Bool-cases (n == i)) [
      | inl same ↦
          let one : n ≡ i = ground arith in
          absurd (ground (arith, (text_eq_iff (hex n) (hex i)).1 (ap hex one)))
      | inr other ↦ rw (e, other)
    ]
  ]

  module _ (change : Text → RunRow → RunRow) (event : Text → Event)
      (k : (t : Text) → KeepsId (change t))
      (final : (t : Text) (r : RunRow) → is_live (change t r) ≡ false)
      (about : (t : Text) → (event t).run_id ≡ t) (others : Text → List Call) where
    abbrev sweeping : List Text → World → ℕ × World
    sweeping ids w =
        sweep_all (λ run_id db. transit parse run_id (change run_id) db) event
          (λ run_id db. after_all parse (others run_id) db) ids w

    abbrev before : ℕ → World → Db
    before n w = after_all parse (others (hex n)) w.db

    abbrev ending : ℕ → World → Bool × Db
    ending n w = transit parse (hex n) (change (hex n)) (before n w)

    abbrev next : ℕ → World → World
    next n w = (ended_by (ending n w).0 (event (hex n)) (ending n w).1 w).1

    next-db : (n : ℕ) (w : World) → (next n w).db ≡ (ending n w).1
    next-db n w = ended_by-db (ending n w).0 (event (hex n)) (ending n w).1 w

    next-IsTable : (n : ℕ) (w : World) → IsTable w.db.runs → IsTable (next n w).db.runs
    unfolding transit
    next-IsTable n w t = rw (next-db n w) (
        transit_from-IsTable parse (hex n) cancellable_status (change (hex n)) (before n w)
          (k (hex n)) (after_all-IsTable parse (others (hex n)) w.db t))

    -- One round: an event exactly where the update ended the run.
    next-balance :
        (i n : ℕ) (w : World)
        → IsTable w.db.runs
        → events_of (hex i) (next n w).log
            + finals parse i (others (hex n)) w.db
            + open_at i (next n w).db
          ≡ events_of (hex i) w.log + open_at i w.db
    next-balance i n w t =
        let b = finals-balance parse i (others (hex n)) w.db t in
        let own =
          transit-closes parse (hex n) i (change (hex n)) (before n w)
            (after_all-IsTable parse (others (hex n)) w.db t) (k (hex n)) (final (hex n)) in
        let log = ended_by-log (ending n w).0 (event (hex n)) (ending n w).1 w in
        let more = events_of-append (hex i) w.log (event (hex n)) in
        let mine : text_eq (event (hex n)).run_id (hex i) ≡ (n == i) =
          ap (λ t. text_eq t (hex i)) (about (hex n)) ∙ hex-eq n i in
        let one : targets i (parse (hex n)) ≡ (n == i) = ap (targets i) (parse-hex n) in
        elim (Bool-cases (ending n w).0) [
          | inl e ↦ rw (log, next-db n w, e, more, mine) (ground (arith, b, own, one, e))
          | inr e ↦ rw (log, next-db n w, e) (ground (arith, b, own, one, e))
        ]

    sweep_all-balance :
        (i : ℕ) (ns : List ℕ) (w : World)
        → IsTable w.db.runs
        → events_of (hex i) (sweeping (map hex ns) w).1.log
            + others_finals parse
                (λ run_id db. transit parse run_id (change run_id) db)
                others
                i
                (map hex ns)
                w.db
            + open_at i (sweeping (map hex ns) w).1.db
          ≡ events_of (hex i) w.log + open_at i w.db
    unfolding sweep_all others_finals
    sweep_all-balance i [] w t = omega arith
    sweep_all-balance i (n ∷ ns) w t =
        let ih = sweep_all-balance i ns (next n w) (next-IsTable n w t) in
        let others_next =
          ap
            (λ db.
              others_finals parse (λ run_id db. transit parse run_id (change run_id) db) others i
                (map hex ns) db)
            (next-db n w) in
        omega (arith, ih, next-balance i n w t, others_next)

    -- What is closed stays closed.
    sweep_all-closed :
        (i : ℕ) (ns : List ℕ) (w : World)
        → IsTable w.db.runs
        → open_at i w.db ≡ 0
        → open_at i (sweeping (map hex ns) w).1.db ≡ 0
    unfolding sweep_all
    sweep_all-closed i [] w t h = h
    sweep_all-closed i (n ∷ ns) w t h =
        let b = finals-balance parse i (others (hex n)) w.db t in
        let own =
          transit-closes parse (hex n) i (change (hex n)) (before n w)
            (after_all-IsTable parse (others (hex n)) w.db t) (k (hex n)) (final (hex n)) in
        sweep_all-closed i ns (next n w) (next-IsTable n w t)
          (rw (next-db n w) (omega (arith, b, own, h)))

    transit-closed :
        (n i : ℕ) (w : World)
        → n ≡ i
        → IsTable w.db.runs
        → holds_at (λ r. true) (find i w.db.runs) ≡ true
        → open_at i (ending n w).1 ≡ 0
    unfolding transit transit_from
    transit-closed n i w same t there =
        let here = after_all-kept parse i (others (hex n)) w.db there in
        elim (Option-cases (find i (before n w).runs)) [
          | inl e ↦ absurd (ground (arith, e, here))
          | inr (r, e) ↦
              rw
                (
                  parse-hex n,
                  transit_from,
                  transit_at-find n cancellable_status (change (hex n)) (before n w) i (k (hex n)),
                  e,
                )
                (ground (arith, id-find i (before n w).runs r e, final (hex n) r))
        ]

    next-kept :
        (n i : ℕ) (w : World)
        → holds_at (λ r. true) (find i w.db.runs) ≡ true
        → holds_at (λ r. true) (find i (next n w).db.runs) ≡ true
    unfolding transit transit_from
    next-kept n i w there =
        let here = after_all-kept parse i (others (hex n)) w.db there in
        elim (Option-cases (find i (before n w).runs)) [
          | inl e ↦ absurd (ground (arith, e, here))
          | inr (r, e) ↦ rw (
            next-db n w,
            parse-hex n,
            transit_from,
            transit_at-find n cancellable_status (change (hex n)) (before n w) i (k (hex n)),
            e,
          )
        ]

    -- A run that is swept is closed in the end: by the sweep, or by somebody before it.
    sweep_all-closes :
        (i : ℕ) (ns : List ℕ) (w : World)
        → IsTable w.db.runs
        → holds_at (λ r. true) (find i w.db.runs) ≡ true
        → contains i ns ≡ true
        → open_at i (sweeping (map hex ns) w).1.db ≡ 0
    unfolding sweep_all contains
    sweep_all-closes i [] w t there h = ground arith
    sweep_all-closes i (n ∷ ns) w t there h = elim (Bool-cases (n == i)) [
      | inl e ↦
          let same : n ≡ i = ground arith in
          sweep_all-closed i ns (next n w) (next-IsTable n w t)
            (rw (next-db n w) (transit-closed n i w same t there))
      | inr e ↦
          sweep_all-closes i ns (next n w) (next-IsTable n w t) (next-kept n i w there)
            (ground arith)
    ]

    -- A run that is not swept gets no event of the sweep.
    sweep_all-silent :
        (i : ℕ) (ns : List ℕ) (w : World)
        → contains i ns ≡ false
        → events_of (hex i) (sweeping (map hex ns) w).1.log ≡ events_of (hex i) w.log
    unfolding sweep_all contains
    sweep_all-silent i [] w h = refl
    sweep_all-silent i (n ∷ ns) w h =
        let ih = sweep_all-silent i ns (next n w) (ground arith) in
        let log = ended_by-log (ending n w).0 (event (hex n)) (ending n w).1 w in
        let more = events_of-append (hex i) w.log (event (hex n)) in
        let mine : text_eq (event (hex n)).run_id (hex i) ≡ (n == i) =
          ap (λ t. text_eq t (hex i)) (about (hex n)) ∙ hex-eq n i in
        elim (Bool-cases (ending n w).0) [
          | inl e ↦ ih ∙ rw (log, e, more, mine) (ground arith)
          | inr e ↦ ih ∙ rw (log, e)
        ]

    -- The answer is the number of events pushed.
    sweep_all-count :
        (ids : List Text) (w : World)
        → length (sweeping ids w).1.log ≡ length w.log + (sweeping ids w).0
    unfolding sweep_all
    sweep_all-count [] w = omega arith
    sweep_all-count (run_id ∷ ids) w =
        let db = after_all parse (others run_id) w.db in
        let m = transit parse run_id (change run_id) db in
        let ih = sweep_all-count ids (ended_by m.0 (event run_id) m.1 w).1 in
        omega (arith, ih, ended_by-length m.0 (event run_id) m.1 w)

    -- A sweep over the runs that pass a test, whatever others send before each of its updates.
    pub sweep_settled :
        (p : RunRow → Bool) (i : ℕ) (ns : List ℕ) (w : World)
        → IsTable w.db.runs
        → contains i ns ≡ holds_at p (find i w.db.runs)
        → let (count, w') = sweeping (map hex ns) w in
          let chosen = holds_at p (find i w.db.runs) in
          (events_of (hex i) w'.log
              + others_finals parse
                  (λ run_id db. transit parse run_id (change run_id) db)
                  others
                  i
                  (map hex ns)
                  w.db
              + open_at i w'.db
            ≡ events_of (hex i) w.log + open_at i w.db)
          × ((if chosen then open_at i w'.db else 0) ≡ 0)
          × ((if chosen then events_of (hex i) w.log else events_of (hex i) w'.log)
              ≡ events_of (hex i) w.log)
          × (length w'.log ≡ length w.log + count)
    sweep_settled p i ns w t member = (
      sweep_all-balance i ns w t,
      elim (Bool-cases (holds_at p (find i w.db.runs))) [
        | inl e ↦ rw e (sweep_all-closes i ns w t (holds_any p (find i w.db.runs) e) (member ∙ e))
        | inr e ↦ rw e
      ],
      elim (Bool-cases (holds_at p (find i w.db.runs))) [
        | inl e ↦ rw e
        | inr e ↦ rw e (sweep_all-silent i ns w (member ∙ e))
      ],
      sweep_all-count (map hex ns) w,
    )
