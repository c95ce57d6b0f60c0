-- ===== src/Database/Paging/Walk.antt =====
-- Following `next_cursor` from page to page (app/database.py) visits every decision once.
use fraud_detection.Prelude.{
  ℕ, zero, suc, ◌+◌, ◌≤◌, ◌<◌, ◌≡◌, refl, sym, ap, ◌∙◌, subst, Bool, true, false, Option, none,
  some, List, [], ◌∷◌, ◌++◌, length, take, drop, arith, Bool-cases, inl, inr, ltb, take-append-drop,
  length-drop,
}
use native.Mathlib.Numerals.{add-one}
use native.Mathlib.Decide.{dec_le}
use fraud_detection.Prelude.Result.{Result, ok, err}
use fraud_detection.Database.Rows.{TransactionRecord}
use fraud_detection.Database.Paging.{
  TransactionFilters, PageCursor, cursor_of, precedes, matches, after_cursor, where_rows,
  newest_first, last_cursor, PageError, page_size_ok, page_of, list_transactions,
}
use fraud_detection.Database.Paging.Order.{
  AllBelow, IsDescending, HasDistinctIds, HasDistinctIds-where_rows, newest_first-IsDescending,
  where_rows-newest_first, precedes_irrefl, precedes-asym, precedes_trans,
}

longer : (n : ℕ) (rows : List TransactionRecord) → n < length rows → ltb n (length rows) ≡ true
longer n rows h = ground arith

not_longer : (n : ℕ) (rows : List TransactionRecord) → length rows ≤ n → ltb n (length rows) ≡ false
not_longer n rows h = ground arith

-- The rows of all pages from a cursor on, as a client collects them.
abbrev follow :
    (Option PageCursor → List TransactionRecord)
    → Result PageError (List TransactionRecord × Option PageCursor)
    → List TransactionRecord
follow later (ok (rows, some cursor)) = rows ++ later (some cursor)
follow later (ok (rows, none)) = rows
follow later (err e) = []

pub walk :
    TransactionFilters → ℕ → List TransactionRecord → ℕ → Option PageCursor → List TransactionRecord
walk filters limit table zero cursor = []
walk filters limit table (suc pages) cursor =
    follow (walk filters limit table pages) (list_transactions filters limit cursor table)

-- the rows before a row of a descending list come after its cursor
where_rows-below :
    (c : PageCursor) (rows : List TransactionRecord)
    → AllBelow c rows
    → where_rows (after_cursor (some c)) rows ≡ rows
unfolding where_rows after_cursor
where_rows-below c [] h = refl
where_rows-below c (row ∷ rows) h = rw (h.0, where_rows-below c rows h.1) refl

last_cursor-below :
    (k : ℕ) (rows : List TransactionRecord) (b c : PageCursor)
    → AllBelow b rows
    → last_cursor (take k rows) ≡ some c
    → precedes c b ≡ true
unfolding last_cursor
last_cursor-below zero rows b c h e = cc
last_cursor-below (suc k) [] b c h e = cc
last_cursor-below (suc zero) (row ∷ rows) b c h e =
    let same : cursor_of row ≡ c = cc in subst (λ z. precedes z b ≡ true) same h.0
last_cursor-below (suc (suc k)) (row ∷ []) b c h e =
    let same : cursor_of row ≡ c = cc in subst (λ z. precedes z b ≡ true) same h.0
last_cursor-below (suc (suc k)) (row ∷ other ∷ rows) b c h e =
    last_cursor-below (suc k) (other ∷ rows) b c h.1 e

-- the first row of a descending list is not behind its own cursor
where_rows_self :
    (row : TransactionRecord) (rows : List TransactionRecord) (c : PageCursor)
    → AllBelow (cursor_of row) rows
    → cursor_of row ≡ c
    → where_rows (after_cursor (some c)) (row ∷ rows) ≡ rows
unfolding where_rows after_cursor
where_rows_self row rows c h same =
    subst (λ z. where_rows (after_cursor (some z)) (row ∷ rows) ≡ rows) same
      (rw (precedes_irrefl (cursor_of row)) (where_rows-below (cursor_of row) rows h))

-- the rows of a descending list that stand behind the last row of its beginning
where_rows-after :
    (k : ℕ) (rows : List TransactionRecord) (c : PageCursor)
    → IsDescending rows
    → last_cursor (take (suc k) rows) ≡ some c
    → where_rows (after_cursor (some c)) rows ≡ drop (suc k) rows
unfolding where_rows after_cursor last_cursor
where_rows-after k [] c h e = cc
where_rows-after zero (row ∷ rows) c h e = where_rows_self row rows c h.0 (cc)
where_rows-after (suc k) (row ∷ []) c h e = where_rows_self row [] c h.0 (cc)
where_rows-after (suc k) (row ∷ other ∷ rows) c h e =
    let below = last_cursor-below (suc k) (other ∷ rows) (cursor_of row) c h.0 e in
    rw (precedes-asym c (cursor_of row) below) (where_rows-after k (other ∷ rows) c h.1 e)

-- a cursor behind another: its rows are among the other's
abbrev IsBehind : PageCursor → Option PageCursor → Type 0
IsBehind c none = Unit
IsBehind c (some b) = precedes c b ≡ true

where_rows-narrow :
    (c : PageCursor) (b : Option PageCursor) (rows : List TransactionRecord)
    → IsBehind c b
    → where_rows (after_cursor (some c)) (where_rows (after_cursor b) rows)
      ≡ where_rows (after_cursor (some c)) rows
unfolding where_rows after_cursor
where_rows-narrow c b [] h = refl
where_rows-narrow c none (row ∷ rows) h = rw (where_rows-narrow c none rows h) refl
where_rows-narrow c (some b) (row ∷ rows) h = elim (Bool-cases (precedes (cursor_of row) b)) [
  | inl kept ↦ rw (kept, where_rows-narrow c (some b) rows h) refl
  | inr dropped ↦ elim (Bool-cases (precedes (cursor_of row) c)) [
    | inl further ↦ let kept = precedes_trans (cursor_of row) c b further h in absurd (cc)
    | inr not_further ↦ rw (dropped, not_further, where_rows-narrow c (some b) rows h) refl
  ]
]

-- a cursor that a page gives is behind the one that it was fetched with
AllBelow-after :
    (b : PageCursor) (rows : List TransactionRecord)
    → AllBelow b (where_rows (after_cursor (some b)) rows)
unfolding where_rows after_cursor
AllBelow-after b [] = tt
AllBelow-after b (row ∷ rows) = elim (Bool-cases (precedes (cursor_of row) b)) [
  | inl kept ↦ rw kept (kept, AllBelow-after b rows)
  | inr dropped ↦ rw dropped (AllBelow-after b rows)
]

last_cursor-IsBehind :
    (k : ℕ) (c : PageCursor) (b : Option PageCursor) (rows : List TransactionRecord)
    → last_cursor (take k (where_rows (after_cursor b) rows)) ≡ some c
    → IsBehind c b
last_cursor-IsBehind k c none rows e = tt
last_cursor-IsBehind k c (some b) rows e =
    last_cursor-below k (where_rows (after_cursor (some b)) rows) b c (AllBelow-after b rows) e

IsDescending-where_rows :
    (p : TransactionRecord → Bool) (rows : List TransactionRecord)
    → HasDistinctIds rows
    → IsDescending (where_rows p (newest_first rows))
IsDescending-where_rows p rows h =
    rw (where_rows-newest_first p rows h)
      (newest_first-IsDescending (where_rows p rows) (HasDistinctIds-where_rows p rows h))

last_cursor-some :
    (k : ℕ) (row : TransactionRecord) (rows : List TransactionRecord)
    → (c : PageCursor) × (last_cursor (take (suc k) (row ∷ rows)) ≡ some c)
unfolding last_cursor
last_cursor-some zero row rows = (cursor_of row, refl)
last_cursor-some (suc k) row [] = (cursor_of row, refl)
last_cursor-some (suc k) row (other ∷ rows) = last_cursor-some k other rows

take-all : (n : ℕ) (rows : List TransactionRecord) → length rows ≤ n → take n rows ≡ rows
take-all zero [] h = refl
take-all zero (row ∷ rows) h = absurd (omega arith)
take-all (suc n) [] h = refl
take-all (suc n) (row ∷ rows) h = ap (λ rest. row ∷ rest) (take-all n rows (omega arith))

take-take-suc : (n : ℕ) (rows : List TransactionRecord) → take n (take (suc n) rows) ≡ take n rows
take-take-suc zero rows = refl
take-take-suc (suc n) [] = refl
take-take-suc (suc n) (row ∷ rows) = ap (λ rest. row ∷ rest) (take-take-suc n rows)

length-take-suc :
    (n : ℕ) (rows : List TransactionRecord) → n < length rows → length (take (suc n) rows) ≡ suc n
length-take-suc zero [] h = absurd (omega arith)
length-take-suc zero (row ∷ rows) h = refl
length-take-suc (suc n) [] h = absurd (omega arith)
length-take-suc (suc n) (row ∷ rows) h = ap suc (length-take-suc n rows (omega arith))

-- One page of a list of rows: all of them, or the first `limit` with the cursor of the last.
page_of-short :
    (limit : ℕ) (rows : List TransactionRecord)
    → length rows ≤ limit
    → page_of limit (take (limit + 1) rows) ≡ (rows, none)
unfolding page_of
page_of-short limit rows h =
    rw (take-all (limit + 1) rows (omega arith), not_longer limit rows h) refl

page_of-long :
    (limit : ℕ) (rows : List TransactionRecord)
    → limit < length rows
    → page_of limit (take (limit + 1) rows) ≡ (take limit rows, last_cursor (take limit rows))
unfolding page_of
page_of-long limit rows h =
    rw
      (
        add-one,
        longer limit (take (suc limit) rows) (omega (arith, length-take-suc limit rows h)),
        take-take-suc limit rows,
      )
      refl

module _ (filters : TransactionFilters) (table : List TransactionRecord) where
  -- the decisions that the filters want, newest first
  abbrev pub wanted_rows : List TransactionRecord
  wanted_rows = newest_first (where_rows (matches filters) table)

  list_transactions-eq :
      (limit : ℕ) (cursor : Option PageCursor)
      → HasDistinctIds table
      → page_size_ok limit ≡ true
      → list_transactions filters limit cursor table
        ≡ ok (page_of limit (take (limit + 1) (where_rows (after_cursor cursor) wanted_rows)))
  unfolding list_transactions
  list_transactions-eq limit cursor h ok_size =
      rw
        (
          ok_size,
          where_rows-newest_first (after_cursor cursor) (where_rows (matches filters) table)
              (HasDistinctIds-where_rows (matches filters) table h),
        )
        refl

  module _ (m : ℕ) (h : HasDistinctIds table) (ok_size : page_size_ok (suc m) ≡ true) where
    abbrev rest_of : Option PageCursor → List TransactionRecord
    rest_of cursor = where_rows (after_cursor cursor) wanted_rows

    -- the rows behind a page are those behind its cursor
    rest_of-next :
        (cursor : Option PageCursor) (c : PageCursor)
        → last_cursor (take (suc m) (rest_of cursor)) ≡ some c
        → rest_of (some c) ≡ drop (suc m) (rest_of cursor)
    rest_of-next cursor c e =
        sym (
          where_rows-narrow c cursor wanted_rows
            (last_cursor-IsBehind (suc m) c cursor wanted_rows e))
        ∙ where_rows-after m (rest_of cursor) c
            (IsDescending-where_rows (after_cursor cursor) (where_rows (matches filters) table)
              (HasDistinctIds-where_rows (matches filters) table h))
            e

    -- a page that is not the last, and what follows it
    walk-long :
        (later : Option PageCursor → List TransactionRecord) (cursor : Option PageCursor)
        → suc m < length (rest_of cursor)
        → ((c : PageCursor)
            → length (rest_of (some c)) < length (rest_of cursor)
            → later (some c) ≡ rest_of (some c))
        → follow later (list_transactions filters (suc m) cursor table) ≡ rest_of cursor
    walk-long later cursor long ih = nonempty (rest_of cursor) refl
      where
        nonempty :
            (rows : List TransactionRecord)
            → rest_of cursor ≡ rows
            → follow later (list_transactions filters (suc m) cursor table) ≡ rest_of cursor
        nonempty [] e = absurd (omega (arith, ap length e))
        nonempty (row ∷ rows) e =
            let (c, last) = last_cursor-some m row rows in
            let last' : last_cursor (take (suc m) (rest_of cursor)) ≡ some c = rw e last in
            let next = rest_of-next cursor c last' in
            let shorter : length (rest_of (some c)) < length (rest_of cursor) =
              rw next (omega (arith, length-drop (suc m) (rest_of cursor))) in
            rw
              (
                list_transactions-eq (suc m) cursor h ok_size,
                page_of-long (suc m) (rest_of cursor) long,
                last',
                ih c shorter,
                next,
              )
              (take-append-drop (suc m) (rest_of cursor))

    walk-eq :
        (pages : ℕ) (cursor : Option PageCursor)
        → length (rest_of cursor) ≤ pages
        → walk filters (suc m) table (suc pages) cursor ≡ rest_of cursor
    unfolding walk
    walk-eq zero cursor few = elim (dec_le (length (rest_of cursor)) (suc m)) [
      | yes short ↦
          rw
            (
              list_transactions-eq (suc m) cursor h ok_size,
              page_of-short (suc m) (rest_of cursor) short,
            )
            refl
      | no long ↦ absurd (omega arith)
    ]
    walk-eq (suc pages) cursor few = elim (dec_le (length (rest_of cursor)) (suc m)) [
      | yes short ↦
          rw
            (
              list_transactions-eq (suc m) cursor h ok_size,
              page_of-short (suc m) (rest_of cursor) short,
            )
            refl
      | no long ↦
          walk-long (walk filters (suc m) table (suc pages)) cursor (omega arith)
            (λ c shorter. walk-eq pages (some c) (omega arith))
    ]

where_rows-everything : (rows : List TransactionRecord) → where_rows (after_cursor none) rows ≡ rows
unfolding where_rows after_cursor
where_rows-everything [] = refl
where_rows-everything (row ∷ rows) = ap (λ rest. row ∷ rest) (where_rows-everything rows)

zero_limit : ¬ (page_size_ok zero ≡ true)
unfolding page_size_ok
zero_limit e = cc

-- Following `next_cursor` gives every wanted decision once, newest first: the pages that a client
-- fetches one after another, of any accepted size, put together are the decisions of the table that
-- match the filters in descending order, as soon as it follows as many cursors as there are such
-- decisions. The table's ids are distinct, and it does not change meanwhile.
pub walk-wanted_rows :
    (filters : TransactionFilters) (table : List TransactionRecord) (limit pages : ℕ)
    → HasDistinctIds table
    → page_size_ok limit ≡ true
    → length (wanted_rows filters table) ≤ pages
    → walk filters limit table (suc pages) none ≡ wanted_rows filters table
walk-wanted_rows filters table zero pages h ok_size few = absurd (zero_limit ok_size)
walk-wanted_rows filters table (suc m) pages h ok_size few =
    let all = where_rows-everything (wanted_rows filters table) in
    walk-eq filters table m h ok_size pages none (rw all few) ∙ all
