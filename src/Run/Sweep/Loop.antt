-- ===== src/Run/Sweep/Loop.antt =====
-- The loop of a sweep over the runs that a query found: src/app/run/reaper.py and
-- src/app/run/approval.py.
use mathlib.Core.Option
use mathlib.Core.List.{append_assoc, append-nil}
use fin_agent_platform.Prelude.{
  ℕ, ◌≡◌, refl, sym, ap, ◌∙◌, inl, inr, Bool, true, false, ◌&&◌, Option, none, some, List, [], ◌∷◌,
  ◌++◌, map, Text, arith, if◌then◌else◌, contains, Distinct, All, Option-cases, length,
}
use fin_agent_platform.Schema.{RunRow, Db, cancellable_status}
use fin_agent_platform.Event.{Event}
use fin_agent_platform.Run.Repository.{transit, transit_from, transit_at, at_status}
use fin_agent_platform.Run.Repository.Table.{
  find, IsTable, KeepsId, holds_at, transit_at-find, transit_at-changed, transit_at-IsTable,
  id-find,
}
use fin_agent_platform.Run.Repository.Finality.{is_live}
use fin_agent_platform.Run.Sweep.{World, ended_by, sweep_all}

pub ended_by-db : (b : Bool) (e : Event) (db : Db) (w : World) → (ended_by b e db w).1.db ≡ db
ended_by-db true e db w = refl
ended_by-db false e db w = refl

pub ended_by-log :
    (b : Bool) (e : Event) (db : Db) (w : World)
    → (ended_by b e db w).1.log ≡ (if b then w.log ++ e ∷ [] else w.log)
ended_by-log true e db w = refl
ended_by-log false e db w = refl

pub ended_by-count :
    (b : Bool) (e : Event) (db : Db) (w : World) → (ended_by b e db w).0 ≡ (if b then 1 else 0)
ended_by-count true e db w = refl
ended_by-count false e db w = refl

-- Nothing is sent in between.
abbrev pub undisturbed : Text → Db → Db
undisturbed run_id db = db

abbrev pub live_at : ℕ → Db → Bool
live_at i db = holds_at is_live (find i db.runs)

All-of_contains : (P : ℕ → Type 0) (ns : List ℕ) → ((n : ℕ) → contains n ns ≡ true → P n) → All P ns
unfolding contains
All-of_contains P [] h = tt
All-of_contains P (n ∷ ns) h =
    (h n (ground arith), All-of_contains P ns (λ m e. h m (ground (arith, e))))

live_of_holds :
    (p : RunRow → Bool) (o : Option RunRow)
    → ((r : RunRow) → p r ≡ true → is_live r ≡ true)
    → holds_at p o ≡ true
    → holds_at is_live o ≡ true
live_of_holds p none f h = h
live_of_holds p (some r) f h = f r h

module _ (parse : Text → Option ℕ) (hex : ℕ → Text) (parse-hex : (i : ℕ) → parse (hex i) ≡ some i)
    (change : Text → RunRow → RunRow) (event : Text → Event) (k : (t : Text) → KeepsId (change t))
    (final : (t : Text) (r : RunRow) → is_live (change t r) ≡ false) where
  abbrev ending : Text → Db → Bool × Db
  ending run_id db = transit parse run_id (change run_id) db

  transit-hex :
      (i : ℕ) (db : Db) → ending (hex i) db ≡ transit_at i cancellable_status (change (hex i)) db
  unfolding transit
  transit-hex i db = rw (parse-hex i, transit_from)

  abbrev round : ℕ → World → World
  round n w = (ended_by (ending (hex n) w.db).0 (event (hex n)) (ending (hex n) w.db).1 w).1

  round-find :
      (n j : ℕ) (w : World)
      → find j (round n w).db.runs
        ≡ Option.map
            (λ r. if at_status n cancellable_status r then change (hex n) r else r)
            (find j w.db.runs)
  round-find n j w =
      let m = ending (hex n) w.db in
      rw (ended_by-db m.0 (event (hex n)) m.1 w, transit-hex n w.db)
        (transit_at-find n cancellable_status (change (hex n)) w.db j (k (hex n)))

  round-IsTable : (n : ℕ) (w : World) → IsTable w.db.runs → IsTable (round n w).db.runs
  round-IsTable n w t =
      let m = ending (hex n) w.db in
      rw (ended_by-db m.0 (event (hex n)) m.1 w, transit-hex n w.db)
        (transit_at-IsTable n cancellable_status (change (hex n)) w.db (k (hex n)) t)

  -- What a sweep over the runs `ns` makes of a row.
  abbrev pub swept : ℕ → List ℕ → RunRow → RunRow
  swept j ns r = if contains j ns && is_live r then change (hex j) r else r

  pub sweep_all-find :
      (ns : List ℕ) (j : ℕ) (w : World)
      → find j (sweep_all ending event undisturbed (map hex ns) w).1.db.runs
        ≡ Option.map (swept j ns) (find j w.db.runs)
  unfolding sweep_all contains
  sweep_all-find [] j w = elim (Option-cases (find j w.db.runs)) [
    | inl e ↦ rw e
    | inr (r, e) ↦ rw e
  ]
  sweep_all-find (n ∷ ns) j w =
      let ih = sweep_all-find ns j (round n w) in
      let one = round-find n j w in
      elim (Option-cases (find j w.db.runs)) [
        | inl e ↦ rw e (ih ∙ rw one (rw e))
        | inr (r, e) ↦
            rw e (ih ∙ rw one (rw e (ground (arith, id-find j w.db.runs r, final (hex n) r))))
      ]

  ending-true :
      (n : ℕ) (w : World)
      → IsTable w.db.runs
      → live_at n w.db ≡ true
      → (ending (hex n) w.db).0 ≡ true
  ending-true n w t l =
      rw (transit-hex n w.db) (transit_at-changed n cancellable_status (change (hex n)) w.db t ∙ l)

  round-live :
      (n : ℕ) (ns : List ℕ) (w : World)
      → contains n ns ≡ false
      → All (λ m. live_at m w.db ≡ true) ns
      → All (λ m. live_at m (round n w).db ≡ true) ns
  unfolding contains
  round-live n [] w f l = tt
  round-live n (m ∷ ns) w f l = (still, round-live n ns w (ground arith) l.1)
    where
      still : live_at m (round n w).db ≡ true
      still = elim (Option-cases (find m w.db.runs)) [
        | inl e ↦ absurd (ground (arith, e, l.0))
        | inr (r, e) ↦ rw (round-find n m w) (rw e (ground (arith, e, l.0, id-find m w.db.runs r)))
      ]

  -- Every run that is swept was open: as many endings as runs, and the event of each, in order.
  pub sweep_all-log :
      (ns : List ℕ) (w : World)
      → IsTable w.db.runs
      → Distinct ns
      → All (λ n. live_at n w.db ≡ true) ns
      → ((sweep_all ending event undisturbed (map hex ns) w).0 ≡ length (map hex ns))
        × ((sweep_all ending event undisturbed (map hex ns) w).1.log
            ≡ w.log ++ map event (map hex ns))
  unfolding sweep_all contains
  sweep_all-log [] w t d l = (refl, sym (append-nil w.log))
  sweep_all-log (n ∷ ns) w t d l =
      let m = ending (hex n) w.db in
      let e = event (hex n) in
      let ih = sweep_all-log ns (round n w) (round-IsTable n w t) d.1 (round-live n ns w d.0 l.1) in
      let one = ending-true n w t l.0 in
      let log : (round n w).log ≡ w.log ++ e ∷ [] = ended_by-log m.0 e m.1 w ∙ (rw one) in
      (
        omega (arith, ih.0, ended_by-count m.0 e m.1 w ∙ ap (λ b. if b then 1 else 0) one),
        ih.1
            ∙ ap (λ l. l ++ map event (map hex ns)) log
            ∙ append_assoc w.log (e ∷ []) (map event (map hex ns)),
      )

  -- A sweep over the open runs that pass a test: it ends exactly those, counts them, and pushes the
  -- event of each.
  pub sweep_exact :
      (p : RunRow → Bool) (ns : List ℕ) (w : World)
      → IsTable w.db.runs
      → Distinct ns
      → ((j : ℕ) → contains j ns ≡ holds_at p (find j w.db.runs))
      → ((r : RunRow) → p r ≡ true → is_live r ≡ true)
      → let (count, w') = sweep_all ending event undisturbed (map hex ns) w in
        ((j : ℕ)
          → find j w'.db.runs
            ≡ Option.map (λ r. if p r then change (hex j) r else r) (find j w.db.runs))
        × (count ≡ length (map hex ns))
        × (w'.log ≡ w.log ++ map event (map hex ns))
  sweep_exact p ns w t d member live =
      let open_runs : All (λ n. live_at n w.db ≡ true) ns =
        All-of_contains (λ n. live_at n w.db ≡ true) ns
          (λ n h. live_of_holds p (find n w.db.runs) live (sym (member n) ∙ h)) in
      let (count, log) = sweep_all-log ns w t d open_runs in
      (λ j. sweep_all-find ns j w ∙ row j, count, log)
    where
      row :
          (j : ℕ)
          → Option.map (swept j ns) (find j w.db.runs)
            ≡ Option.map (λ r. if p r then change (hex j) r else r) (find j w.db.runs)
      row j = elim (Option-cases (find j w.db.runs)) [
        | inl e ↦ rw e
        | inr (r, e) ↦ rw e (ground (arith, member j ∙ ap (holds_at p) e, live r))
      ]
