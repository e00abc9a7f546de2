-- ===== src/Run/Log/Rows.antt =====
-- The rows of `run_events` that one run has: `record` and `replay` of src/app/run/archive.py on rows
-- whose identifiers increase.
use fin_agent_platform.Prelude.{
  ℕ, ◌≡◌, ◌≢◌, refl, ap, ◌∙◌, ◌==◌, Text, Option-cases, not, ◌||◌, inl, inr, Bool, true, false,
  Option, none, some, List, [], ◌∷◌, ◌++◌, map, arith, filter, All, Bool-cases,
}
use mathlib.Core.List.{append-nil}
use fin_agent_platform.Event.{LoggedEvent}
use fin_agent_platform.Run.Log.{
  ArchiveRow, record_event, EventId, id_lt, pack, archive_row, has_row, insert_by_seq, by_seq,
  decode_row, is_replayed, head_id,
}
use fin_agent_platform.Run.Log.Pack.{FitsBits, ltb-pack, unpack-pack}
use fin_agent_platform.Run.Log.Slices.{IsIncreasing, is_between}

abbrev pub Fits : Option EventId → Type 0
Fits none = Unit
Fits (some id) = FitsBits id

-- A new identifier is in no row yet.
pub fresh_row :
    (i : ℕ) (id : EventId) (history : List LoggedEvent)
    → FitsBits id
    → All (λ e. FitsBits e.id × (id_lt e.id id ≡ true)) history
    → has_row i (pack id) (map (archive_row i) history) ≡ false
fresh_row i id [] f h = refl
fresh_row i id (e ∷ es) f h =
    let packed = ltb-pack e.id id h.0.0 f in ground (arith, packed, h.0.1, fresh_row i id es f h.1)

pub zip-All :
    (P Q : LoggedEvent → Type 0) (xs : List LoggedEvent)
    → All P xs
    → All Q xs
    → All (λ e. P e × Q e) xs
zip-All P Q [] h k = tt
zip-All P Q (x ∷ xs) h k = ((h.0, k.0), zip-All P Q xs h.1 k.1)

pub All-take : (P : LoggedEvent → Type 0) (xs ys : List LoggedEvent) → All P (xs ++ ys) → All P xs
All-take P [] ys h = tt
All-take P (x ∷ xs) ys h = (h.0, All-take P xs ys h.1)

-- Sorting rows whose events are in order changes nothing.
insert_first :
    (i : ℕ) (e : LoggedEvent) (es : List LoggedEvent)
    → FitsBits e.id
    → All (λ f. FitsBits f.id) es
    → All (λ f. id_lt e.id f.id ≡ true) es
    → insert_by_seq (archive_row i e) (map (archive_row i) es)
      ≡ archive_row i e ∷ map (archive_row i) es
unfolding insert_by_seq
insert_first i e [] f fs h = refl
insert_first i e (g ∷ es) f fs h = ground (arith, ltb-pack e.id g.id f fs.0, h.0)

pub by_seq-rows :
    (i : ℕ) (es : List LoggedEvent)
    → All (λ f. FitsBits f.id) es
    → IsIncreasing es
    → by_seq (map (archive_row i) es) ≡ map (archive_row i) es
unfolding by_seq
by_seq-rows i [] f h = refl
by_seq-rows i (e ∷ es) f h = rw (by_seq-rows i es f.1 h.1) (insert_first i e es f.0 f.1 h.0)

pub decode-rows :
    (i : ℕ) (es : List LoggedEvent)
    → All (λ f. FitsBits f.id) es
    → map decode_row (map (archive_row i) es) ≡ es
decode-rows i [] f = refl
decode-rows i (e ∷ es) f = rw (unpack-pack e.id f.0, decode-rows i es f.1)

is_replayed-row :
    (i : ℕ) (start stop : Option EventId) (e : LoggedEvent)
    → Fits start
    → Fits stop
    → FitsBits e.id
    → is_replayed i start stop (archive_row i e) ≡ is_between start stop e
is_replayed-row i none none e a b f = ground arith
is_replayed-row i none (some t) e a b f = ground (arith, ltb-pack e.id t f b)
is_replayed-row i (some s) none e a b f = ground (arith, ltb-pack s e.id a f)
is_replayed-row i (some s) (some t) e a b f =
    ground (arith, ltb-pack e.id t f b, ltb-pack s e.id a f)

pub filter-rows :
    (i : ℕ) (start stop : Option EventId) (es : List LoggedEvent)
    → Fits start
    → Fits stop
    → All (λ f. FitsBits f.id) es
    → filter (is_replayed i start stop) (map (archive_row i) es)
      ≡ map (archive_row i) (filter (is_between start stop) es)
unfolding filter
filter-rows i start stop [] a b f = refl
filter-rows i start stop (e ∷ es) a b f =
    rw (is_replayed-row i start stop e a b f.0)
      (ground (arith, filter-rows i start stop es a b f.1))

pub filter-Fits :
    (p : LoggedEvent → Bool) (es : List LoggedEvent)
    → All (λ f. FitsBits f.id) es
    → All (λ f. FitsBits f.id) (filter p es)
unfolding filter
filter-Fits p [] f = tt
filter-Fits p (e ∷ es) f = elim (Bool-cases (p e)) [
  | inl h ↦ rw h (f.0, filter-Fits p es f.1)
  | inr h ↦ rw h (filter-Fits p es f.1)
]

pub Fits-head : (es : List LoggedEvent) → All (λ f. FitsBits f.id) es → Fits (head_id es)
Fits-head [] f = tt
Fits-head (e ∷ es) f = f.0

-- The rows of one run, among those of all runs.
abbrev pub is_own : ℕ → ArchiveRow → Bool
is_own i r = r.run_id == i

pub has_row-own :
    (i seq : ℕ) (t : List ArchiveRow) → has_row i seq t ≡ has_row i seq (filter (is_own i) t)
unfolding filter
has_row-own i seq [] = refl
has_row-own i seq (r ∷ t) = ground (arith, has_row-own i seq t)

pub replayed-own :
    (i : ℕ) (start stop : Option EventId) (t : List ArchiveRow)
    → filter (is_replayed i start stop) t ≡ filter (is_replayed i start stop) (filter (is_own i) t)
unfolding filter
replayed-own i start stop [] = refl
replayed-own i start stop (r ∷ t) = elim (Bool-cases (r.run_id == i)) [
  | inl e ↦ rw e (ground (arith, replayed-own i start stop t))
  | inr e ↦ rw e (replayed-own i start stop t)
]

pub own-append :
    (i : ℕ) (t u : List ArchiveRow)
    → filter (is_own i) (t ++ u) ≡ filter (is_own i) t ++ filter (is_own i) u
unfolding filter
own-append i [] u = refl
own-append i (r ∷ t) u = ground (arith, own-append i t u)

-- What is recorded for another run leaves the rows of this one.
pub own-foreign :
    (parse : Text → Option ℕ) (i : ℕ) (written : Bool) (e : LoggedEvent) (t : List ArchiveRow)
    → parse e.event.run_id ≢ some i
    → filter (is_own i) (record_event parse written e t) ≡ filter (is_own i) t
unfolding record_event filter
own-foreign parse i written e t other = elim (Option-cases (parse e.event.run_id)) [
  | inl h ↦ rw (h, record_event)
  | inr (j, h) ↦ elim (Bool-cases (has_row j (pack e.id) t || not written)) [
    | inl x ↦ rw (h, x, record_event)
    | inr x ↦
        let differs : (j == i) ≡ false = elim (Bool-cases (j == i)) [
          | inl same ↦ let one : j ≡ i = ground arith in absurd (other (h ∙ ap some one))
          | inr f ↦ f
        ] in
        rw (h, x, record_event)
          (own-append i t (archive_row j e ∷ []) ∙ rw differs (append-nil (filter (is_own i) t)))
  ]
]
