-- ===== src/Run/Replay/Faithful.antt =====
-- What the reader of a replay sees is what the reader of the live events saw.
-- Code: src/app/run/replay.py.
use fin_agent_platform.Prelude.{
  ℕ, ◌≡◌, refl, sym, ap, ◌∙◌, inl, inr, true, false, ◌&&◌, Option, none, some, List, [], ◌∷◌, ◌++◌,
  map, Text, arith, Bool-cases, text_eq_iff,
}
use mathlib.Core.Path.{subst}
use mathlib.Core.List.{map-append, append_assoc}
use fin_agent_platform.Event.{
  EventData, token_data, reasoning_data, LoggedEvent, EventType, token, reasoning, type_of,
  same_type, same_path,
}
use fin_agent_platform.Run.Replay.{is_mergeable_type, mergeable, merge, collapse_after, collapse}

-- What a screen is made of: the characters of a text, each with its kind and its sub-agent, and
-- every other event whole.
pub data Atom : Type 0 where
  char_of : EventType → List Text → ℕ → Atom
  whole : LoggedEvent → Atom

abbrev atoms_of_data : EventData → LoggedEvent → List Atom
atoms_of_data (token_data t) e = map (char_of token e.event.path) t
atoms_of_data (reasoning_data t) e = map (char_of reasoning e.event.path) t
atoms_of_data d e = whole e ∷ []

abbrev pub atoms_of : LoggedEvent → List Atom
atoms_of e = atoms_of_data e.event.data_ e

unfoldable pub atoms : List LoggedEvent → List Atom
atoms [] = []
atoms (e ∷ es) = atoms_of e ++ atoms es

same_path-eq : (p q : List Text) → same_path p q ≡ true → p ≡ q
unfolding same_path
same_path-eq [] [] h = refl
same_path-eq [] (b ∷ q) h = cc
same_path-eq (a ∷ p) [] h = cc
same_path-eq (a ∷ p) (b ∷ q) h = ground (arith, text_eq_iff a b, same_path-eq p q)

-- Two payloads of one mergeable type both carry a text.
data BothText (d e : EventData) : Type 0 where
  tokens : (s t : Text) → d ≡ token_data s → e ≡ token_data t → BothText d e
  reasonings : (s t : Text) → d ≡ reasoning_data s → e ≡ reasoning_data t → BothText d e

both_text :
    (d e : EventData)
    → (is_mergeable_type (type_of e) && same_type (type_of d) (type_of e)) ≡ true
    → BothText d e
unfolding is_mergeable_type same_type type_of
both_text (token_data s) (token_data t) h = tokens s t refl refl
both_text (reasoning_data s) (reasoning_data t) h = reasonings s t refl refl
both_text _ _ h = absurd (ground arith)

-- A merge that the loop asks for succeeds, and shows the two texts in a row.
record Merged (p c : LoggedEvent) : Type 0 where
  result : LoggedEvent
  merged : merge p c ≡ some result
  shown : atoms_of result ≡ atoms_of p ++ atoms_of c
  last_id : result.id ≡ c.id
  same_kind : type_of result.event.data_ ≡ type_of p.event.data_
  path_kept : result.event.path ≡ p.event.path

merge-Merged : (p c : LoggedEvent) → mergeable p c ≡ true → Merged p c
unfolding mergeable merge type_of
merge-Merged p c h = go (both_text p.event.data_ c.event.data_ (ground arith))
  where
    path_eq : p.event.path ≡ c.event.path
    path_eq = same_path-eq p.event.path c.event.path (ground arith)

    go : BothText p.event.data_ c.event.data_ → Merged p c
    go (tokens s t e f) = record {
      result = record c { event = record c.event { data_ = token_data (s ++ t) } };
      merged = rw (e, f);
      shown = rw (e, f, path_eq) (map-append (char_of token c.event.path) s t);
      last_id = refl;
      same_kind = rw e;
      path_kept = sym path_eq;
    }
    go (reasonings s t e f) = record {
      result = record c { event = record c.event { data_ = reasoning_data (s ++ t) } };
      merged = rw (e, f);
      shown = rw (e, f, path_eq) (map-append (char_of reasoning c.event.path) s t);
      last_id = refl;
      same_kind = rw e;
      path_kept = sym path_eq;
    }

abbrev pub last_id : List LoggedEvent → Option (ℕ × ℕ)
last_id [] = none
last_id (e ∷ []) = some e.id
last_id (_ ∷ e ∷ es) = last_id (e ∷ es)

-- No two neighbours are left that the loop would join.
abbrev pub IsSettled : List LoggedEvent → Type 0
IsSettled [] = Unit
IsSettled (e ∷ []) = Unit
IsSettled (d ∷ e ∷ es) = (mergeable d e ≡ false) × IsSettled (e ∷ es)

-- What the loop makes of the event held and the events to come.
record Collapsed (p : LoggedEvent) (es : List LoggedEvent) : Type 0 where
  head : LoggedEvent
  rest : List LoggedEvent
  returned : collapse_after p es ≡ some (head ∷ rest)
  shown : atoms (head ∷ rest) ≡ atoms (p ∷ es)
  cursor : last_id (head ∷ rest) ≡ last_id (p ∷ es)
  same_kind : type_of head.event.data_ ≡ type_of p.event.data_
  path_kept : head.event.path ≡ p.event.path
  settled : IsSettled (head ∷ rest)

last_id-cons :
    (x y : LoggedEvent) (es : List LoggedEvent) → x.id ≡ y.id → last_id (x ∷ es) ≡ last_id (y ∷ es)
last_id-cons x y [] h = ap some h
last_id-cons x y (e ∷ es) h = refl

mergeable-kind :
    (p c d : LoggedEvent)
    → type_of d.event.data_ ≡ type_of c.event.data_
    → d.event.path ≡ c.event.path
    → mergeable p d ≡ mergeable p c
unfolding mergeable
mergeable-kind p c d t h = rw (t, h)

collapse_after-Collapsed : (p : LoggedEvent) (es : List LoggedEvent) → Collapsed p es
unfolding collapse_after atoms
collapse_after-Collapsed p [] = record {
  head = p;
  rest = [];
  returned = refl;
  shown = refl;
  cursor = refl;
  same_kind = refl;
  path_kept = refl;
  settled = tt;
}
collapse_after-Collapsed p (c ∷ es) = elim (Bool-cases (mergeable p c)) [
  | inl h ↦
      let m = merge-Merged p c h in
      let ih = collapse_after-Collapsed m.result es in
      record {
        head = ih.head;
        rest = ih.rest;
        returned = rw (h, m.merged) ih.returned;
        shown =
            ih.shown
            ∙ ap (λ a. a ++ atoms es) m.shown
            ∙ append_assoc (atoms_of p) (atoms_of c) (atoms es);
        cursor = ih.cursor ∙ last_id-cons m.result c es m.last_id;
        same_kind = ih.same_kind ∙ m.same_kind;
        path_kept = ih.path_kept ∙ m.path_kept;
        settled = ih.settled;
      }
  | inr h ↦
      let ih = collapse_after-Collapsed c es in
      record {
        head = p;
        rest = ih.head ∷ ih.rest;
        returned = rw (h, ih.returned);
        shown = ap (λ a. atoms_of p ++ a) ih.shown;
        cursor = ih.cursor;
        same_kind = refl;
        path_kept = refl;
        settled = (mergeable-kind p c ih.head ih.same_kind ih.path_kept ∙ h, ih.settled);
      }
]

-- The result of `collapse` shows the same screen, ends on the same cursor, and holds no two
-- neighbours that could be joined.
pub record IsFaithful (es out : List LoggedEvent) : Type 0 where
  pub shown : atoms out ≡ atoms es
  pub cursor : last_id out ≡ last_id es
  pub settled : IsSettled out

-- `collapse` raises nothing on any events, and what it returns shows, character by character and in
-- order, what they showed, ends on the identifier of the last event, and can be collapsed no more.
pub collapse-IsFaithful :
    (es : List LoggedEvent)
    → (out : List LoggedEvent) × (collapse es ≡ some out) × IsFaithful es out
unfolding collapse
collapse-IsFaithful [] = ([], refl, record { shown = refl; cursor = refl; settled = tt })
collapse-IsFaithful (e ∷ es) =
    let c = collapse_after-Collapsed e es in
    (
      c.head ∷ c.rest,
      c.returned,
      record { shown = c.shown; cursor = c.cursor; settled = c.settled },
    )

settled_after :
    (p : LoggedEvent) (es : List LoggedEvent)
    → IsSettled (p ∷ es)
    → collapse_after p es ≡ some (p ∷ es)
unfolding collapse_after
settled_after p [] h = refl
settled_after p (e ∷ es) h = rw (h.0, settled_after e es h.1)

-- Collapsing what `collapse` returned changes nothing.
pub collapse_twice : (es out : List LoggedEvent) → collapse es ≡ some out → collapse out ≡ some out
unfolding collapse
collapse_twice es [] h = refl
collapse_twice es (o ∷ out) h =
    let (c, e, f) = collapse-IsFaithful es in
    let same : c ≡ o ∷ out = cc in settled_after o out (subst IsSettled same f.settled)
