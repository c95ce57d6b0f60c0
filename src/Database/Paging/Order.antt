-- ===== src/Database/Paging/Order.antt =====
-- The order of a page's rows (app/database.py): strictly descending, since ids are distinct, and
-- filtering commutes with ordering.
use fraud_detection.Prelude.{
  ◌≡◌, ◌≢◌, refl, sym, Bool, true, false, List, [], ◌∷◌, arith, Bool-cases, inl, inr, if◌then◌else◌,
}
use fraud_detection.Database.Rows.{TransactionRecord}
use fraud_detection.Database.Paging.{
  PageCursor, cursor_of, precedes, where_rows, insert_row, newest_first,
}

-- Every row comes before the cursor.
abbrev pub AllBelow : PageCursor → List TransactionRecord → Type 0
AllBelow c [] = Unit
AllBelow c (row ∷ rows) = (precedes (cursor_of row) c ≡ true) × AllBelow c rows

-- Strictly descending in (`occurred_at`, `transaction_id`).
abbrev pub IsDescending : List TransactionRecord → Type 0
IsDescending [] = Unit
IsDescending (row ∷ rows) = AllBelow (cursor_of row) rows × IsDescending rows

-- No other row of the list has the row's id.
abbrev pub IsNewId : TransactionRecord → List TransactionRecord → Type 0
IsNewId row [] = Unit
IsNewId row (other ∷ rows) =
    (row.decision.transaction_id ≢ other.decision.transaction_id) × IsNewId row rows

-- `transaction_id` is the primary key.
abbrev pub HasDistinctIds : List TransactionRecord → Type 0
HasDistinctIds [] = Unit
HasDistinctIds (row ∷ rows) = IsNewId row rows × HasDistinctIds rows

pub precedes_trans :
    (a b c : PageCursor) → precedes a b ≡ true → precedes b c ≡ true → precedes a c ≡ true
precedes_trans a b c h k = ground arith

precedes-flip :
    (a b : PageCursor)
    → a.transaction_id ≢ b.transaction_id
    → precedes a b ≡ false
    → precedes b a ≡ true
precedes-flip a b h k = ground arith

pub precedes_irrefl : (a : PageCursor) → precedes a a ≡ false
precedes_irrefl a = ground arith

pub precedes-asym : (a b : PageCursor) → precedes a b ≡ true → precedes b a ≡ false
precedes-asym a b h = ground arith

AllBelow-trans :
    (a b : PageCursor) (rows : List TransactionRecord)
    → precedes a b ≡ true
    → AllBelow a rows
    → AllBelow b rows
AllBelow-trans a b [] h k = tt
AllBelow-trans a b (row ∷ rows) h k =
    (precedes_trans (cursor_of row) a b k.0 h, AllBelow-trans a b rows h k.1)

AllBelow-insert_row :
    (c : PageCursor) (row : TransactionRecord) (rows : List TransactionRecord)
    → precedes (cursor_of row) c ≡ true
    → AllBelow c rows
    → AllBelow c (insert_row row rows)
unfolding insert_row
AllBelow-insert_row c row [] h k = (h, tt)
AllBelow-insert_row c row (other ∷ rows) h k =
    elim (Bool-cases (precedes (cursor_of other) (cursor_of row))) [
      | inl first ↦ rw first (h, k)
      | inr later ↦ rw later (k.0, AllBelow-insert_row c row rows h k.1)
    ]

IsDescending-insert_row :
    (row : TransactionRecord) (rows : List TransactionRecord)
    → IsNewId row rows
    → IsDescending rows
    → IsDescending (insert_row row rows)
unfolding insert_row
IsDescending-insert_row row [] n h = (tt, tt)
IsDescending-insert_row row (other ∷ rows) n h =
    elim (Bool-cases (precedes (cursor_of other) (cursor_of row))) [
      | inl first ↦
          rw first ((first, AllBelow-trans (cursor_of other) (cursor_of row) rows first h.0), h)
      | inr later ↦ rw later (
        AllBelow-insert_row (cursor_of other) row rows
            (precedes-flip (cursor_of other) (cursor_of row) (λ e. n.0 (sym e)) later) h.0,
        IsDescending-insert_row row rows n.1 h.1,
      )
    ]

IsNewId-insert_row :
    (row other : TransactionRecord) (rows : List TransactionRecord)
    → row.decision.transaction_id ≢ other.decision.transaction_id
    → IsNewId row rows
    → IsNewId row (insert_row other rows)
unfolding insert_row
IsNewId-insert_row row other [] h n = (h, tt)
IsNewId-insert_row row other (next ∷ rows) h n =
    elim (Bool-cases (precedes (cursor_of next) (cursor_of other))) [
      | inl first ↦ rw first (h, n)
      | inr later ↦ rw later (n.0, IsNewId-insert_row row other rows h n.1)
    ]

IsNewId-newest_first :
    (row : TransactionRecord) (rows : List TransactionRecord)
    → IsNewId row rows
    → IsNewId row (newest_first rows)
unfolding newest_first
IsNewId-newest_first row [] n = tt
IsNewId-newest_first row (other ∷ rows) n =
    IsNewId-insert_row row other (newest_first rows) n.0 (IsNewId-newest_first row rows n.1)

pub newest_first-IsDescending :
    (rows : List TransactionRecord) → HasDistinctIds rows → IsDescending (newest_first rows)
unfolding newest_first
newest_first-IsDescending [] h = tt
newest_first-IsDescending (row ∷ rows) h =
    IsDescending-insert_row row (newest_first rows) (IsNewId-newest_first row rows h.0)
      (newest_first-IsDescending rows h.1)

insert_row-first :
    (row : TransactionRecord) (rows : List TransactionRecord)
    → AllBelow (cursor_of row) rows
    → insert_row row rows ≡ row ∷ rows
unfolding insert_row
insert_row-first row [] h = refl
insert_row-first row (other ∷ rows) h = rw h.0 refl

insert_row-here :
    (row other : TransactionRecord) (rows : List TransactionRecord)
    → precedes (cursor_of other) (cursor_of row) ≡ true
    → insert_row row (other ∷ rows) ≡ row ∷ other ∷ rows
unfolding insert_row
insert_row-here row other rows h = rw h refl

insert_row-there :
    (row other : TransactionRecord) (rows : List TransactionRecord)
    → precedes (cursor_of other) (cursor_of row) ≡ false
    → insert_row row (other ∷ rows) ≡ other ∷ insert_row row rows
unfolding insert_row
insert_row-there row other rows h = rw h refl

newest_first-cons :
    (row : TransactionRecord) (rows : List TransactionRecord)
    → newest_first (row ∷ rows) ≡ insert_row row (newest_first rows)
unfolding newest_first
newest_first-cons row rows = refl

module _ (p : TransactionRecord → Bool) where
  AllBelow-where_rows :
      (c : PageCursor) (rows : List TransactionRecord)
      → AllBelow c rows
      → AllBelow c (where_rows p rows)
  unfolding where_rows
  AllBelow-where_rows c [] h = tt
  AllBelow-where_rows c (row ∷ rows) h = elim (Bool-cases (p row)) [
    | inl kept ↦ rw kept (h.0, AllBelow-where_rows c rows h.1)
    | inr dropped ↦ rw dropped (AllBelow-where_rows c rows h.1)
  ]

  IsNewId-where_rows :
      (row : TransactionRecord) (rows : List TransactionRecord)
      → IsNewId row rows
      → IsNewId row (where_rows p rows)
  unfolding where_rows
  IsNewId-where_rows row [] n = tt
  IsNewId-where_rows row (other ∷ rows) n = elim (Bool-cases (p other)) [
    | inl kept ↦ rw kept (n.0, IsNewId-where_rows row rows n.1)
    | inr dropped ↦ rw dropped (IsNewId-where_rows row rows n.1)
  ]

  pub HasDistinctIds-where_rows :
      (rows : List TransactionRecord) → HasDistinctIds rows → HasDistinctIds (where_rows p rows)
  unfolding where_rows
  HasDistinctIds-where_rows [] h = tt
  HasDistinctIds-where_rows (row ∷ rows) h = elim (Bool-cases (p row)) [
    | inl kept ↦ rw kept (IsNewId-where_rows row rows h.0, HasDistinctIds-where_rows rows h.1)
    | inr dropped ↦ rw dropped (HasDistinctIds-where_rows rows h.1)
  ]

  -- the later case, with the rest filtered
  insert_row-kept :
      (row other : TransactionRecord) (rest : List TransactionRecord)
      → precedes (cursor_of other) (cursor_of row) ≡ false
      → (if p other
          then other ∷ (if p row then insert_row row rest else rest)
          else if p row
          then insert_row row rest
          else rest)
        ≡ (if p row
            then insert_row row (if p other then other ∷ rest else rest)
            else if p other
            then other ∷ rest
            else rest)
  insert_row-kept row other rest later = elim (Bool-cases (p row)) [
    | inl kept ↦ rw kept (elim (Bool-cases (p other)) [
      | inl yes_other ↦ rw (yes_other, insert_row-there row other rest later) refl
      | inr no_other ↦ rw no_other refl
    ])
    | inr dropped ↦ rw dropped refl
  ]

  where_rows-insert_row :
      (row : TransactionRecord) (rows : List TransactionRecord)
      → IsDescending rows
      → where_rows p (insert_row row rows)
        ≡ (if p row then insert_row row (where_rows p rows) else where_rows p rows)
  unfolding where_rows
  where_rows-insert_row row [] h = unfold insert_row in refl
  where_rows-insert_row row (other ∷ rows) h =
      elim (Bool-cases (precedes (cursor_of other) (cursor_of row))) [
        | inl first ↦
            let below : AllBelow (cursor_of row) (other ∷ rows) =
              (first, AllBelow-trans (cursor_of other) (cursor_of row) rows first h.0) in
            rw
              (
                insert_row-here row other rows first,
                insert_row-first row _ (AllBelow-where_rows (cursor_of row) (other ∷ rows) below),
              )
              refl
        | inr later ↦
            rw (insert_row-there row other rows later, where_rows-insert_row row rows h.1)
              (insert_row-kept row other (where_rows p rows) later)
      ]

  pub where_rows-newest_first :
      (rows : List TransactionRecord)
      → HasDistinctIds rows
      → where_rows p (newest_first rows) ≡ newest_first (where_rows p rows)
  unfolding where_rows
  where_rows-newest_first [] h = unfold newest_first in refl
  where_rows-newest_first (row ∷ rows) h =
      rw
        (
          newest_first-cons row rows,
          where_rows-insert_row row (newest_first rows) (newest_first-IsDescending rows h.1),
          where_rows-newest_first rows h.1,
        )
        (elim (Bool-cases (p row)) [
          | inl kept ↦ rw (kept, newest_first-cons row (where_rows p rows)) refl
          | inr dropped ↦ rw dropped refl
        ])
