-- ===== src/Api/RuleSets/Below.antt =====
-- The rows of a key's versions, newest first, and those of them that are older than one (app/database.py).
use fraud_detection.Prelude.{
  ℕ, zero, suc, ◌≤◌, ◌<◌, ◌≡◌, ◌≢◌, refl, sym, ap, ◌∙◌, subst, String, false, Option, none, some,
  List, [], ◌∷◌, ltb, ltb→lt, lt→ltb, if◌then◌else◌, if-true, if-false, if-both, Bool-cases, inl,
  inr, length, take, drop, arith,
}
use fraud_detection.Rules.Numbers.{Numbers}
use fraud_detection.Api.RuleSets.{older}
use fraud_detection.Database.RuleSets.{RuleSetVersionRecord, insert_version_row, version_rows}

pub not_ltb : (a b : ℕ) → b ≤ a → ltb a b ≡ false
not_ltb a b h = ground arith

pub not_lt : (a b : ℕ) → ltb a b ≡ false → b ≤ a
not_lt a b h = ground arith

pub older-none : (w : ℕ) → older (some w) ≡ none → w ≤ 1
older-none w e = ground arith

pub older-some : (w v : ℕ) → older (some w) ≡ some v → (w ≡ v) × (1 < v)
older-some w v e = ground arith

pub none-some : (v : ℕ) → ◌≡◌ {A = Option ℕ} none (some v) → ⊥
none-some v e = cc

pub drop-short : {A : Type 0} (n : ℕ) (xs : List A) → length (take n xs) ≢ n → drop n xs ≡ []
drop-short zero xs h = absurd (h refl)
drop-short (suc n) [] h = refl
drop-short (suc n) (x ∷ xs) h = drop-short n xs (λ e. h (ap suc e))

module _ {N : Numbers} where
  -- the rows older than a version
  unfoldable pub below : ℕ → List (RuleSetVersionRecord N) → List (RuleSetVersionRecord N)
  below bound [] = []
  below bound (row ∷ rows) =
      let rest = below bound rows in if ltb row.version bound then row ∷ rest else rest

  abbrev pub AllBelow : ℕ → List (RuleSetVersionRecord N) → Type 0
  AllBelow bound [] = Unit
  AllBelow bound (row ∷ rows) = (row.version < bound) × AllBelow bound rows

  -- strictly newest first
  abbrev pub AreDescending : List (RuleSetVersionRecord N) → Type 0
  AreDescending [] = Unit
  AreDescending (row ∷ rows) = AllBelow row.version rows × AreDescending rows

  abbrev pub IsNotIn : ℕ → List (RuleSetVersionRecord N) → Type 0
  IsNotIn version [] = Unit
  IsNotIn version (row ∷ rows) = (row.version ≢ version) × IsNotIn version rows

  pub AllBelow-insert :
      (bound : ℕ) (row : RuleSetVersionRecord N) (rows : List (RuleSetVersionRecord N))
      → row.version < bound
      → AllBelow bound rows
      → AllBelow bound (insert_version_row row rows)
  unfolding insert_version_row
  AllBelow-insert bound row [] h hs = (h, tt)
  AllBelow-insert bound row (other ∷ rows) h (k, ks) =
      if-both (AllBelow bound) (ltb other.version row.version) (h, (k, ks))
        (k, AllBelow-insert bound row rows h ks)

  pub AllBelow-trans :
      (a b : ℕ) (rows : List (RuleSetVersionRecord N)) → a ≤ b → AllBelow a rows → AllBelow b rows
  AllBelow-trans a b [] h hs = tt
  AllBelow-trans a b (row ∷ rows) h (k, ks) = (omega arith, AllBelow-trans a b rows h ks)

  pub insert-AreDescending :
      (row : RuleSetVersionRecord N) (rows : List (RuleSetVersionRecord N))
      → IsNotIn row.version rows
      → AreDescending rows
      → AreDescending (insert_version_row row rows)
  unfolding insert_version_row
  insert-AreDescending row [] fresh h = (tt, tt)
  insert-AreDescending row (other ∷ rows) (ne, fresh) (all, h) =
      elim (Bool-cases (ltb other.version row.version)) [
        | inl newer ↦
            subst AreDescending
              (sym (if-true (row ∷ other ∷ rows) (other ∷ insert_version_row row rows) newer))
              (
                (
                  ltb→lt other.version row.version newer,
                  AllBelow-trans other.version row.version rows
                      (le (ltb→lt other.version row.version newer)) all,
                ),
                (all, h),
              )
        | inr older ↦
            subst AreDescending
              (sym (if-false (row ∷ other ∷ rows) (other ∷ insert_version_row row rows) older))
              (
                AllBelow-insert other.version row rows (above older) all,
                insert-AreDescending row rows fresh h,
              )
      ]
    where
      le : {a b : ℕ} → a < b → a ≤ b
      le h = omega arith

      above : ltb other.version row.version ≡ false → row.version < other.version
      above e = omega (arith, not_lt other.version row.version e, ne)

  pub below-insert :
      (bound : ℕ) (row : RuleSetVersionRecord N) (rows : List (RuleSetVersionRecord N))
      → below bound (insert_version_row row rows) ≡ (
          if ltb row.version bound
          then insert_version_row row (below bound rows)
          else below bound rows)
  unfolding below insert_version_row
  below-insert bound row [] = refl
  below-insert bound row (other ∷ rows) = let ih = below-insert bound row rows in ground (arith, ih)

  pub below-all :
      (bound : ℕ) (rows : List (RuleSetVersionRecord N))
      → AllBelow bound rows
      → below bound rows ≡ rows
  unfolding below
  below-all bound [] h = refl
  below-all bound (row ∷ rows) (h, hs) =
      if-true (row ∷ below bound rows) (below bound rows) (lt→ltb row.version bound h)
      ∙ ap (λ r. row ∷ r) (below-all bound rows hs)

  pub below-below :
      (a b : ℕ) (rows : List (RuleSetVersionRecord N))
      → a ≤ b
      → below a (below b rows) ≡ below a rows
  unfolding below
  below-below a b [] h = refl
  below-below a b (row ∷ rows) h = let ih = below-below a b rows h in ground (arith, ih)

  pub version_rows-below :
      (key : String) (bound : ℕ) (rows : List (RuleSetVersionRecord N))
      → version_rows key (some bound) rows ≡ below bound (version_rows key none rows)
  unfolding version_rows below
  version_rows-below key bound [] = refl
  version_rows-below key bound (row ∷ rows) =
      let ih = version_rows-below key bound rows in
      let inserted = below-insert bound row (version_rows key none rows) in
      ground (arith, ih, inserted)
