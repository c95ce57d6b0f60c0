-- ===== src/Api/RuleSets/Listed.antt =====
-- The versions of a key as a list of rows, and its pages (app/database.py).
use fraud_detection.Prelude.{
  ℕ, zero, suc, ◌≤◌, ◌<◌, ◌≡◌, ◌⊎◌, refl, sym, ap, ◌∙◌, subst, String, Bool, true, false, Option,
  none, some, List, [], ◌∷◌, ltb, ltb→lt, ◌&&◌, if◌then◌else◌, if-true, if-false, if-both,
  Bool-cases, inl, inr, length, take, drop, str_eq, arith,
}
use fraud_detection.Rules.Numbers.{Numbers}
use fraud_detection.Database.RuleSets.{RuleSetVersionRecord, insert_version_row, version_rows}
use fraud_detection.Api.RuleSets.Below.{
  not_ltb, below, AllBelow, AreDescending, IsNotIn, insert-AreDescending, below-all, below-below,
  version_rows-below,
}

module _ {N : Numbers} where
  abbrev pub AllPositive : List (RuleSetVersionRecord N) → Type 0
  AllPositive [] = Unit
  AllPositive (row ∷ rows) = (1 ≤ row.version) × AllPositive rows

  pub AllPositive-insert :
      (row : RuleSetVersionRecord N) (rows : List (RuleSetVersionRecord N))
      → 1 ≤ row.version
      → AllPositive rows
      → AllPositive (insert_version_row row rows)
  unfolding insert_version_row
  AllPositive-insert row [] h hs = (h, tt)
  AllPositive-insert row (other ∷ rows) h (k, ks) =
      if-both AllPositive (ltb other.version row.version) (h, (k, ks))
        (k, AllPositive-insert row rows h ks)

  -- The table as `create_rule_set_version` keeps it: the versions of the key are distinct, and at least 1.
  abbrev pub HasVersions : String → List (RuleSetVersionRecord N) → Type 0
  HasVersions key [] = Unit
  HasVersions key (row ∷ rows) =
      ((str_eq row.rule_set_key key ≡ false)
        ⊎ ((1 ≤ row.version) × IsNotIn row.version (version_rows key none rows)))
      × HasVersions key rows

  pub record AreListed (rows : List (RuleSetVersionRecord N)) : Type 0 where
    pub descending : AreDescending rows
    pub positive : AllPositive rows

  pub version_rows-AreListed :
      (key : String) (rows : List (RuleSetVersionRecord N))
      → HasVersions key rows
      → AreListed (version_rows key none rows)
  unfolding version_rows
  version_rows-AreListed key [] h = record { descending = tt; positive = tt }
  version_rows-AreListed key (row ∷ rows) (h, hs) =
      by_key (version_rows-AreListed key rows hs) (str_eq row.rule_set_key key) h
    where
      by_key :
          (rest : AreListed (version_rows key none rows)) (b : Bool)
          → (b ≡ false) ⊎ ((1 ≤ row.version) × IsNotIn row.version (version_rows key none rows))
          → AreListed (
              if b && true
              then insert_version_row row (version_rows key none rows)
              else version_rows key none rows)
      by_key rest false h = rest
      by_key rest true (inl e) = absurd (cc)
      by_key rest true (inr (one, fresh)) = record {
        descending = insert-AreDescending row (version_rows key none rows) fresh rest.descending;
        positive = AllPositive-insert row (version_rows key none rows) one rest.positive;
      }

  -- the version of the last row of a page
  unfoldable pub last_row : List (RuleSetVersionRecord N) → Option ℕ
  last_row [] = none
  last_row (row ∷ []) = some row.version
  last_row (row ∷ other ∷ rest) = last_row (other ∷ rest)

  pub below-nothing :
      (bound : ℕ) (rows : List (RuleSetVersionRecord N))
      → bound ≤ 1
      → AllPositive rows
      → below bound rows ≡ []
  unfolding below
  below-nothing bound [] h hs = refl
  below-nothing bound (row ∷ rows) h (k, ks) =
      let ih = below-nothing bound rows h ks in ground (arith, ih)

  pub last_row-lt :
      (n v bound : ℕ) (rows : List (RuleSetVersionRecord N))
      → AllBelow bound rows
      → last_row (take (suc n) rows) ≡ some v
      → v < bound
  unfolding last_row
  last_row-lt n v bound [] h e = absurd (cc)
  last_row-lt zero v bound (row ∷ rows) (h, hs) e = let same : row.version ≡ v = cc in omega arith
  last_row-lt (suc n) v bound (row ∷ []) (h, hs) e = let same : row.version ≡ v = cc in omega arith
  last_row-lt (suc n) v bound (row ∷ other ∷ rows) (h, hs) e =
      last_row-lt n v bound (other ∷ rows) hs e

  -- What is older than the last row of a full page is what the page leaves.
  pub below-drop :
      (n v : ℕ) (rows : List (RuleSetVersionRecord N))
      → AreDescending rows
      → length (take (suc n) rows) ≡ suc n
      → last_row (take (suc n) rows) ≡ some v
      → below v rows ≡ drop (suc n) rows
  unfolding below last_row
  below-drop n v [] h e l = absurd (omega arith)
  below-drop zero v (row ∷ rows) (all, h) e l =
      let same : row.version ≡ v = cc in
      if-false (row ∷ below v rows) (below v rows) (not_ltb row.version v (le same))
      ∙ below-all v rows (subst (λ b. AllBelow b rows) same all)
    where
      le : row.version ≡ v → v ≤ row.version
      le e = omega arith
  below-drop (suc n) v (row ∷ []) (all, h) e l = absurd (omega arith)
  below-drop (suc n) v (row ∷ other ∷ rows) ((lt, all), h) e l =
      if-false (row ∷ below v (other ∷ rows)) (below v (other ∷ rows))
        (not_ltb row.version v (before (last_row-lt n v row.version (other ∷ rows) (lt, all) l)))
      ∙ below-drop n v (other ∷ rows) h (omega arith) l
    where
      before : v < row.version → v ≤ row.version
      before k = omega arith

module _ {N : Numbers} where
  pub AllBelow-below :
      (a b : ℕ) (rows : List (RuleSetVersionRecord N)) → AllBelow a rows → AllBelow a (below b rows)
  unfolding below
  AllBelow-below a b [] h = tt
  AllBelow-below a b (row ∷ rows) (h, hs) =
      if-both (AllBelow a) (ltb row.version b) (h, AllBelow-below a b rows hs)
        (AllBelow-below a b rows hs)

  pub below-bounded : (b : ℕ) (rows : List (RuleSetVersionRecord N)) → AllBelow b (below b rows)
  unfolding below
  below-bounded b [] = tt
  below-bounded b (row ∷ rows) = elim (Bool-cases (ltb row.version b)) [
    | inl lt ↦
        subst (AllBelow b) (sym (if-true (row ∷ below b rows) (below b rows) lt))
          (ltb→lt row.version b lt, below-bounded b rows)
    | inr ge ↦
        subst (AllBelow b) (sym (if-false (row ∷ below b rows) (below b rows) ge))
          (below-bounded b rows)
  ]

  pub below-AreListed :
      (b : ℕ) (rows : List (RuleSetVersionRecord N)) → AreListed rows → AreListed (below b rows)
  unfolding below
  below-AreListed b [] h = record { descending = tt; positive = tt }
  below-AreListed b (row ∷ rows) h =
      let rest =
        below-AreListed b rows (record { descending = h.descending.1; positive = h.positive.1 }) in
      if-both AreListed (ltb row.version b)
        (record {
          descending = (AllBelow-below row.version b rows h.descending.0, rest.descending);
          positive = (h.positive.0, rest.positive);
        })
        rest

  pub page_rows-AreListed :
      (key : String) (before : Option ℕ) (rows : List (RuleSetVersionRecord N))
      → HasVersions key rows
      → AreListed (version_rows key before rows)
  page_rows-AreListed key none rows h = version_rows-AreListed key rows h
  page_rows-AreListed key (some b) rows h =
      rw (version_rows-below key b rows)
        (below-AreListed b (version_rows key none rows) (version_rows-AreListed key rows h))

  -- the rows for the page after the one that ends with version v
  pub page_rows-next :
      (n v : ℕ) (key : String) (before : Option ℕ) (rows : List (RuleSetVersionRecord N))
      → last_row (take (suc n) (version_rows key before rows)) ≡ some v
      → version_rows key (some v) rows ≡ below v (version_rows key before rows)
  page_rows-next n v key none rows e = version_rows-below key v rows
  page_rows-next n v key (some b) rows e =
      let all = version_rows key none rows in
      let at : version_rows key (some b) rows ≡ below b all = version_rows-below key b rows in
      let lt = last_row-lt n v b (below b all) (below-bounded b all) (rw at at e) in
      version_rows-below key v rows
      ∙ sym (below-below v b all (omega arith))
      ∙ ap (below v) (sym at)
