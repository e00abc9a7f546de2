-- ===== src/Run/Log/Slices.antt =====
-- A list of events with increasing identifiers, cut where the stream begins: `read` of
-- src/app/run/log.py.
use mathlib.Core.List.{append-nil}
use fin_agent_platform.Prelude.{
  ◌≡◌, refl, ap, ◌∙◌, inl, inr, Bool, true, false, ◌&&◌, Option, none, some, List, [], ◌∷◌, ◌++◌,
  arith, filter, All, Bool-cases,
}
use fin_agent_platform.Event.{LoggedEvent}
use fin_agent_platform.Run.Log.{EventId, id_lt, is_after, head_id}

-- Each event comes after the ones before it.
abbrev pub IsIncreasing : List LoggedEvent → Type 0
IsIncreasing [] = Unit
IsIncreasing (e ∷ es) = All (λ f. id_lt e.id f.id ≡ true) es × IsIncreasing es

abbrev pub is_before : Option EventId → LoggedEvent → Bool
is_before none e = true
is_before (some stop) e = id_lt e.id stop

-- The events that the table has to give: after the cursor, before the stream.
abbrev pub is_between : Option EventId → Option EventId → LoggedEvent → Bool
is_between start stop e = is_after start e && is_before stop e

pub filter-append :
    (p : LoggedEvent → Bool) (xs ys : List LoggedEvent)
    → filter p (xs ++ ys) ≡ filter p xs ++ filter p ys
unfolding filter
filter-append p [] ys = refl
filter-append p (x ∷ xs) ys = elim (Bool-cases (p x)) [
  | inl e ↦ rw e (ap (λ l. x ∷ l) (filter-append p xs ys))
  | inr e ↦ rw e (filter-append p xs ys)
]

pub All-drop : (P : LoggedEvent → Type 0) (xs ys : List LoggedEvent) → All P (xs ++ ys) → All P ys
All-drop P [] ys h = h
All-drop P (x ∷ xs) ys h = All-drop P xs ys h.1

pub IsIncreasing-drop : (xs ys : List LoggedEvent) → IsIncreasing (xs ++ ys) → IsIncreasing ys
IsIncreasing-drop [] ys h = h
IsIncreasing-drop (x ∷ xs) ys h = IsIncreasing-drop xs ys h.1

pub before_rest :
    (xs : List LoggedEvent) (y : LoggedEvent) (ys : List LoggedEvent)
    → IsIncreasing (xs ++ y ∷ ys)
    → All (λ e. id_lt e.id y.id ≡ true) xs
before_rest [] y ys h = tt
before_rest (x ∷ xs) y ys h = ((All-drop _ xs (y ∷ ys) h.0).0, before_rest xs y ys h.1)

pub filter-IsIncreasing :
    (p : LoggedEvent → Bool) (xs : List LoggedEvent) → IsIncreasing xs → IsIncreasing (filter p xs)
unfolding filter
filter-IsIncreasing p [] h = tt
filter-IsIncreasing p (x ∷ xs) h = elim (Bool-cases (p x)) [
  | inl e ↦ rw e (kept_all (λ f. id_lt x.id f.id ≡ true) xs h.0, filter-IsIncreasing p xs h.1)
  | inr e ↦ rw e (filter-IsIncreasing p xs h.1)
]
  where
    kept_all : (P : LoggedEvent → Type 0) (ys : List LoggedEvent) → All P ys → All P (filter p ys)
    kept_all P [] a = tt
    kept_all P (y ∷ ys) a = ground (arith, kept_all P ys a.1)

none_before :
    (start : Option EventId) (x : LoggedEvent) (xs : List LoggedEvent)
    → All (λ f. id_lt x.id f.id ≡ true) xs
    → filter (is_between start (some x.id)) xs ≡ []
unfolding filter
none_before start x [] h = refl
none_before start x (y ∷ ys) h = ground (arith, none_before start x ys h.1)

filter-empty : (p : LoggedEvent → Bool) → filter p [] ≡ []
unfolding filter
filter-empty p = refl

filter-keep :
    (p : LoggedEvent → Bool) (x : LoggedEvent) (xs : List LoggedEvent)
    → p x ≡ true
    → filter p (x ∷ xs) ≡ x ∷ filter p xs
unfolding filter
filter-keep p x xs h = rw h

filter-skip :
    (p : LoggedEvent → Bool) (x : LoggedEvent) (xs : List LoggedEvent)
    → p x ≡ false
    → filter p (x ∷ xs) ≡ filter p xs
unfolding filter
filter-skip p x xs h = rw h

-- Nothing of the stream lies before the first event taken from it.
stream_slice :
    (start : Option EventId) (xs : List LoggedEvent)
    → IsIncreasing xs
    → filter (is_between start (head_id (filter (is_after start) xs))) xs ≡ []
stream_slice start [] h = filter-empty _
stream_slice start (x ∷ xs) h = elim (Bool-cases (is_after start x)) [
  | inl e ↦
      rw (filter-keep (is_after start) x xs e) (
        filter-skip (is_between start (some x.id)) x xs (ground arith) ∙ none_before start x xs h.0)
  | inr e ↦
      let stop = head_id (filter (is_after start) xs) in
      rw (filter-skip (is_after start) x xs e)
        (filter-skip (is_between start stop) x xs (rw e) ∙ stream_slice start xs h.1)
]

head_before :
    (start : Option EventId) (e : LoggedEvent) (xs : List LoggedEvent)
    → All (λ f. id_lt e.id f.id ≡ true) xs
    → is_before (head_id (filter (is_after start) xs)) e ≡ true
unfolding filter
head_before start e [] h = refl
head_before start e (x ∷ xs) h = elim (Bool-cases (is_after start x)) [
  | inl a ↦ rw a h.0
  | inr a ↦ rw a (head_before start e xs h.1)
]

-- What precedes the stream lies before its first event.
older_slice :
    (start : Option EventId) (xs ys : List LoggedEvent)
    → IsIncreasing (xs ++ ys)
    → filter (is_between start (head_id (filter (is_after start) ys))) xs
      ≡ filter (is_after start) xs
unfolding filter
older_slice start [] ys h = refl
older_slice start (x ∷ xs) ys h =
    rw (head_before start x ys (All-drop _ xs ys h.0)) (ground (arith, older_slice start xs ys h.1))

-- The slice of the table and the stream together are everything after the cursor.
pub slices_join :
    (start : Option EventId) (older stream : List LoggedEvent)
    → IsIncreasing (older ++ stream)
    → let live = filter (is_after start) stream in
      filter (is_between start (head_id live)) (older ++ stream) ++ live
      ≡ filter (is_after start) (older ++ stream)
slices_join start older stream h = rw (
  filter-append (is_between start (head_id (filter (is_after start) stream))) older stream,
  older_slice start older stream h,
  stream_slice start stream (IsIncreasing-drop older stream h),
  append-nil (filter (is_after start) older),
  filter-append (is_after start) older stream,
)
