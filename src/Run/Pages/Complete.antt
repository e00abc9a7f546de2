-- ===== src/Run/Pages/Complete.antt =====
-- Paging through a thread shows every run once: `list_by_thread` of src/app/run/repository.py as a
-- client calls it, each time with the cursor that it was given.
use mathlib.Core.Path.{subst}
use mathlib.Core.List.{append_assoc, map-append}
use fin_agent_platform.Prelude.{
  ℕ, zero, suc, ◌+◌, ◌<◌, ◌≡◌, refl, ap, sym, ◌∙◌, inl, inr, true, false, Option, none, some, List,
  [], ◌∷◌, ◌++◌, map, arith, ltb, filter, length, length-take, take, Bool-cases, Text,
}
use fin_agent_platform.Schema.{RunRow, Db}
use fin_agent_platform.Run.Repository.Table.{IsTable}
use fin_agent_platform.Run.Query.Members.{filter-IsTable}
use fin_agent_platform.Run.Pages.{
  RunDetail, to_detail, Position, position, newest_first, is_beyond, Page, page_of, last_row,
  in_thread, rows_beyond, list_by_thread,
}
use fin_agent_platform.Run.Pages.Cuts.{
  filter-filter, beyond_cut, take-take, take_all, Cut-page, last_row-append, beyond_none,
}
use fin_agent_platform.Run.Pages.Sorted.{
  IsNewestFirst, newest_first-IsNewestFirst, newest_first-filter,
}

-- A client that asks for the next page as long as there is one. `none` is an error of the code, or
-- the fuel has run out.
unfoldable pub all_pages :
    (Option Position → Option Page) → ℕ → Option Position → Option (List RunDetail)
all_pages fetch zero cursor = none
all_pages fetch (suc n) cursor = elim (fetch cursor) [
  | none ↦ none
  | some page ↦ elim page.next_cursor [
    | none ↦ some page.items
    | some next ↦ elim (all_pages fetch n (some next)) [
      | none ↦ none
      | some rest ↦ some (page.items ++ rest)
    ]
  ]
]

module _ (hex : ℕ → Text) (f : Option Position → Option Page) (n : ℕ)
    (cursor : Option Position) where
  last_page :
      (page : List RunRow) (o : Option RunRow)
      → f cursor ≡ page_of hex page false o
      → all_pages f (suc n) cursor ≡ some (map (to_detail hex) page)
  unfolding all_pages
  last_page page o h = rw (h, all_pages)

  further_page :
      (page : List RunRow) (a : RunRow) (rest : List RunDetail)
      → f cursor ≡ page_of hex page true (some a)
      → all_pages f n (some (position a)) ≡ some rest
      → all_pages f (suc n) cursor ≡ some (map (to_detail hex) page ++ rest)
  unfolding all_pages
  further_page page a rest h k = rw (h, all_pages) (rw k)

module _ (hex : ℕ → Text) (parse : Text → Option ℕ) (thread_id user_id : Text) (thread owner m : ℕ)
    (db : Db) (t : IsTable db.runs) (p : parse thread_id ≡ some thread)
    (q : parse user_id ≡ some owner) where
  abbrev pub history : List RunRow
  history = newest_first (filter (in_thread thread owner) db.runs)

  abbrev pub fetch : Option Position → Option Page
  fetch cursor = list_by_thread hex parse thread_id user_id cursor (suc m) db

  rows_beyond_lem :
      (cursor : Option Position)
      → rows_beyond thread owner cursor db.runs ≡ filter (is_beyond cursor) history
  unfolding rows_beyond
  rows_beyond_lem cursor =
      ap newest_first (filter-filter (in_thread thread owner) (is_beyond cursor) db.runs)
      ∙ newest_first-filter (is_beyond cursor) (filter (in_thread thread owner) db.runs)
          (filter-IsTable (in_thread thread owner) db.runs t)

  fetch_lem :
      (cursor : Option Position) (rest : List RunRow)
      → filter (is_beyond cursor) history ≡ rest
      → fetch cursor
        ≡ page_of hex (take (suc m) rest) (ltb (suc m) (length rest)) (last_row (take (suc m) rest))
  unfolding list_by_thread
  fetch_lem cursor rest e =
      let rows : rows_beyond thread owner cursor db.runs ≡ rest = rows_beyond_lem cursor ∙ e in
      let more : ltb (suc m) (length (take (suc m + 1) rest)) ≡ ltb (suc m) (length rest) =
        ground (arith, length-take (suc m + 1) rest) in
      rw (p, q, rows) (rw (take-take (suc m) (suc m + 1) rest (omega arith), more))

  pages_from :
      (n : ℕ) (cursor : Option Position) (newer rest : List RunRow)
      → history ≡ newer ++ rest
      → filter (is_beyond cursor) history ≡ rest
      → length rest < n
      → all_pages fetch n cursor ≡ some (map (to_detail hex) rest)
  pages_from zero cursor newer rest e b l = absurd (omega arith)
  pages_from (suc n) cursor newer rest e b l = elim (Bool-cases (ltb (suc m) (length rest))) [
    | inl more ↦
        let c = Cut-page m rest more in
        let page : fetch cursor ≡ page_of hex (c.front ++ c.last ∷ []) true (some c.last) =
          fetch_lem cursor rest b ∙ rw (more, c.page, last_row-append c.front c.last) in
        let whole : history ≡ (newer ++ c.front) ++ c.last ∷ c.back =
          e ∙ ap (λ l. newer ++ l) c.split ∙ sym (append_assoc newer c.front (c.last ∷ c.back)) in
        let sorted : IsNewestFirst history =
          newest_first-IsNewestFirst (filter (in_thread thread owner) db.runs)
            (filter-IsTable (in_thread thread owner) db.runs t) in
        let beyond : filter (is_beyond (some (position c.last))) history ≡ c.back =
          ap (filter (is_beyond (some (position c.last)))) whole
          ∙ beyond_cut (newer ++ c.front) c.last c.back (subst IsNewestFirst whole sorted) in
        let next : all_pages fetch n (some (position c.last)) ≡ some (map (to_detail hex) c.back) =
          pages_from n (some (position c.last)) ((newer ++ c.front) ++ c.last ∷ []) c.back
            (whole ∙ sym (append_assoc (newer ++ c.front) (c.last ∷ []) c.back)) beyond
            (omega (arith, c.shorter)) in
        further_page hex fetch n cursor (c.front ++ c.last ∷ []) c.last (map (to_detail hex) c.back)
          page next
        ∙ ap some (
            sym (map-append (to_detail hex) (c.front ++ c.last ∷ []) c.back)
            ∙ ap (map (to_detail hex)) (append_assoc c.front (c.last ∷ []) c.back ∙ sym c.split))
    | inr done ↦
        last_page hex fetch n cursor rest (last_row (take (suc m) rest))
          (fetch_lem cursor rest b ∙ rw (done, take_all (suc m) rest done))
  ]

  -- On a table with its primary key that nothing writes meanwhile, for identifiers that parse and a
  -- positive limit, a client that follows the cursors is given, page after page, each run of this
  -- user in the thread exactly once, from the newest to the oldest, and reaches the end within as
  -- many pages as there are runs and one more.
  pub all_pages_lem :
      (n : ℕ) → length history < n → all_pages fetch n none ≡ some (map (to_detail hex) history)
  all_pages_lem n l = pages_from n none [] history refl (beyond_none history) l
