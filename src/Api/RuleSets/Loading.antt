-- ===== src/Api/RuleSets/Loading.antt =====
-- Rows of versions that load one by one (app/database.py), and their parts.
use fraud_detection.Prelude.{
  ℕ, zero, suc, ◌≡◌, refl, ap, subst, some, List, [], ◌∷◌, length, take, drop,
}
use fraud_detection.Prelude.Result.{Result, ok, err, >>=-eq-ok}
use fraud_detection.Rules.Numbers.{Numbers}
use fraud_detection.Rules.RuleSet.{
  RuleSetCodec, RuleSetDefinition, LoadError, load_stored_definition,
}
use fraud_detection.Api.RuleSets.{last_version}
use fraud_detection.Database.RuleSets.{
  RuleSetVersionRecord, RuleSet, RuleSetError, loaded, rule_set_from_record, load_all,
}
use fraud_detection.Api.RuleSets.Listed.{last_row}

module _ {N : Numbers} (codec : RuleSetCodec N) where
  -- the rows, loaded one by one
  abbrev pub Loads : List (RuleSetVersionRecord N) → List (RuleSet N) → Type 0
  Loads [] [] = Unit
  Loads (row ∷ rows) (rule_set ∷ sets) =
      (rule_set_from_record codec row ≡ ok rule_set) × Loads rows sets
  Loads [] (rule_set ∷ sets) = ⊥
  Loads (row ∷ rows) [] = ⊥

  pub load_all-Loads :
      (rows : List (RuleSetVersionRecord N)) (sets : List (RuleSet N))
      → load_all codec rows ≡ ok sets
      → Loads rows sets
  unfolding load_all
  load_all-Loads [] [] e = tt
  load_all-Loads [] (rule_set ∷ sets) e = absurd (cc)
  load_all-Loads (row ∷ rows) sets e =
      let (first, e1, e2) = >>=-eq-ok (rule_set_from_record codec row) _ e in
      let (rest, e3, e4) = >>=-eq-ok (load_all codec rows) _ e2 in
      let same : first ∷ rest ≡ sets = cc in
      subst (Loads (row ∷ rows)) same (e1, load_all-Loads rows rest e3)

  pub Loads-load_all :
      (rows : List (RuleSetVersionRecord N)) (sets : List (RuleSet N))
      → Loads rows sets
      → load_all codec rows ≡ ok sets
  unfolding load_all
  Loads-load_all [] [] h = refl
  Loads-load_all (row ∷ rows) (rule_set ∷ sets) (h, hs) = rw (h, Loads-load_all rows sets hs) refl
  Loads-load_all [] (rule_set ∷ sets) h = absurd h
  Loads-load_all (row ∷ rows) [] h = absurd h

  pub Loads-take :
      (n : ℕ) (rows : List (RuleSetVersionRecord N)) (sets : List (RuleSet N))
      → Loads rows sets
      → Loads (take n rows) (take n sets) × Loads (drop n rows) (drop n sets)
  Loads-take zero [] [] h = (tt, tt)
  Loads-take zero (row ∷ rows) (rule_set ∷ sets) h = (tt, h)
  Loads-take (suc n) [] [] h = (tt, tt)
  Loads-take (suc n) (row ∷ rows) (rule_set ∷ sets) (h, hs) =
      let (t, d) = Loads-take n rows sets hs in ((h, t), d)
  Loads-take n [] (rule_set ∷ sets) h = absurd h
  Loads-take n (row ∷ rows) [] h = absurd h

  pub Loads-length :
      (rows : List (RuleSetVersionRecord N)) (sets : List (RuleSet N))
      → Loads rows sets
      → length rows ≡ length sets
  Loads-length [] [] h = refl
  Loads-length (row ∷ rows) (rule_set ∷ sets) (h, hs) = ap suc (Loads-length rows sets hs)
  Loads-length [] (rule_set ∷ sets) h = absurd h
  Loads-length (row ∷ rows) [] h = absurd h

  pub from_record-version :
      (row : RuleSetVersionRecord N) (rule_set : RuleSet N)
      → rule_set_from_record codec row ≡ ok rule_set
      → row.version ≡ rule_set.version
  unfolding rule_set_from_record
  from_record-version row rule_set e =
      of_result (load_stored_definition codec row.definition row.content_hash) e
    where
      version_of : Result RuleSetError (RuleSet N) → ℕ
      version_of r = elim r [ ok s ↦ s.version | err e ↦ row.version ]

      of_result :
          (r : Result LoadError (RuleSetDefinition N))
          → loaded codec row r ≡ ok rule_set
          → row.version ≡ rule_set.version
      of_result (ok definition) k = ap version_of k
      of_result (err e) k = absurd (cc)

  pub Loads-last :
      (rows : List (RuleSetVersionRecord N)) (sets : List (RuleSet N))
      → Loads rows sets
      → last_row rows ≡ last_version sets
  unfolding last_row last_version
  Loads-last [] [] h = refl
  Loads-last (row ∷ []) (rule_set ∷ []) (h, hs) = ap some (from_record-version row rule_set h)
  Loads-last (row ∷ other ∷ rows) (rule_set ∷ next ∷ sets) (h, hs) =
      Loads-last (other ∷ rows) (next ∷ sets) hs
  Loads-last (row ∷ []) (rule_set ∷ next ∷ sets) (h, hs) = absurd hs
  Loads-last (row ∷ other ∷ rows) (rule_set ∷ []) (h, hs) = absurd hs
  Loads-last [] (rule_set ∷ sets) h = absurd h
  Loads-last (row ∷ rows) [] h = absurd h
