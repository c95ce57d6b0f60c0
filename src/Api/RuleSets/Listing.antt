-- ===== src/Api/RuleSets/Listing.antt =====
-- Following `next_before_version` of app/api.py from page to page.
use fraud_detection.Prelude.{
  ℕ, zero, suc, ◌+◌, ◌<◌, ◌≡◌, ◌≢◌, refl, sym, ap, ◌∙◌, String, true, Option, none, some, List, [],
  ◌∷◌, ◌++◌, ◌==◌, ==_iff, if◌then◌else◌, if-true, if-false, and-intro, take-append-drop,
  length-drop, Bool-cases, inl, inr, length, take, drop, arith,
}
use mathlib.Core.Bool.{true≢false}
use fraud_detection.Prelude.Result.{Result, ok, err, ◌>>=◌}
use fraud_detection.Rules.Numbers.{Numbers}
use fraud_detection.Rules.RuleSet.{RuleSetCodec}
use fraud_detection.Cache.{Stores}
use fraud_detection.Api.Responses.{RouteError, request_validation_error}
use fraud_detection.Api.RuleSets.{
  lifted, asked, before_ok, last_version, older, next_before, version_page, list_versions,
}
use fraud_detection.Database.Paging.{page_size_ok}
use fraud_detection.Database.RuleSets.{
  RuleSet, RuleSetError, bad_limit, bad_before_version, before_version_ok, version_rows, load_all,
  list_rule_set_versions,
}
use fraud_detection.Api.RuleSets.Below.{older-none, older-some, none-some, drop-short, below}
use fraud_detection.Api.RuleSets.Listed.{
  HasVersions, last_row, below-nothing, below-drop, page_rows-AreListed, page_rows-next,
}
use fraud_detection.Api.RuleSets.Loading.{
  load_all-Loads, Loads-load_all, Loads-take, Loads-length, Loads-last,
}

module _ {N : Numbers} (codec : RuleSetCodec N) where
  -- A client that follows `next_before_version`: the pages' versions, one page after the other. `pages` bounds
  -- the number of requests.
  unfoldable pub walk_versions :
      (pages : ℕ) → String → ℕ → Option ℕ → Stores N → Result RouteError (List (RuleSet N))
  unfolding list_versions
  walk_versions zero key limit before stores = ok []
  walk_versions (suc pages) key limit before stores = do
    page ← list_versions codec key limit before stores
    rest ← elim page.1 [
      | none ↦ ok []
      | some older_than ↦ walk_versions pages key limit (some older_than) stores
    ]
    ok (page.0 ++ rest)

  next_none_or_some :
      (o : Option ℕ) (page rest : List (RuleSet N))
      (follow : ℕ → Result RouteError (List (RuleSet N)))
      → (o ≡ none → rest ≡ [])
      → ((v : ℕ) → o ≡ some v → follow v ≡ ok rest)
      → ((elim o [ none ↦ ok [] | some v ↦ follow v ]) >>= λ more. ok (page ++ more))
        ≡ ok (page ++ rest)
  next_none_or_some none page rest follow h k = ap (λ r. ok (page ++ r)) (sym (h refl))
  next_none_or_some (some v) page rest follow h k =
      ap (λ r. r >>= λ more. ok (page ++ more)) (k v refl)

  last_version-some :
      (rule_set : RuleSet N) (sets : List (RuleSet N))
      → (v : ℕ) × (last_version (rule_set ∷ sets) ≡ some v)
  unfolding last_version
  last_version-some rule_set [] = (rule_set.version, refl)
  last_version-some rule_set (next ∷ sets) = last_version-some next sets

  -- the rest of a walk, after a page
  abbrev walk_page_from :
      (ℕ → Result RouteError (List (RuleSet N)))
      → Result RouteError (List (RuleSet N) × Option ℕ)
      → Result RouteError (List (RuleSet N))
  walk_page_from follow result = result >>= λ page.
      elim page.1 [ none ↦ ok [] | some v ↦ follow v ] >>= λ rest. ok (page.0 ++ rest)

  module _ (key : String) (stores : Stores N) (ok_table : HasVersions key stores.rows)
      (up : stores.database_up ≡ true) (n : ℕ) (size : page_size_ok (suc n) ≡ true) where
    list_versions-eq :
        (before : Option ℕ) (sets : List (RuleSet N))
        → before_ok before ≡ true
        → load_all codec (version_rows key before stores.rows) ≡ ok sets
        → list_versions codec key (suc n) before stores
          ≡ version_page (suc n) before (take (suc n) sets)
    unfolding list_versions list_rule_set_versions
    list_versions-eq before sets fits loads =
        let page = load_all codec (take (suc n) (version_rows key before stores.rows)) in
        if-true
          (asked stores.database_up (list_rule_set_versions codec key (suc n) before stores.rows)
            >>= version_page (suc n) before)
          (err request_validation_error) (and-intro size fits)
        ∙ ap
            (λ b.
              asked b (list_rule_set_versions codec key (suc n) before stores.rows)
              >>= version_page (suc n) before)
            up
        ∙ ap (λ r. lifted r >>= version_page (suc n) before)
            (if-true (if before_version_ok before then page else err bad_before_version)
                (err bad_limit) size
              ∙ if-true page (err bad_before_version) (before_fits before fits)
              ∙ Loads-load_all codec (take (suc n) (version_rows key before stores.rows))
                  (take (suc n) sets)
                  (Loads-take codec (suc n) (version_rows key before stores.rows) sets
                    (load_all-Loads codec (version_rows key before stores.rows) sets loads)).0)
      where
        before_fits : (b : Option ℕ) → before_ok b ≡ true → before_version_ok b ≡ true
        before_fits none e = refl
        before_fits (some v) e = ground arith

    full-drop :
        (before : Option ℕ) (rule_set : RuleSet N) (sets : List (RuleSet N)) (v : ℕ)
        → load_all codec (version_rows key before stores.rows) ≡ ok (rule_set ∷ sets)
        → length (rule_set ∷ take n sets) ≡ suc n
        → last_version (rule_set ∷ take n sets) ≡ some v
        → (last_row (take (suc n) (version_rows key before stores.rows)) ≡ some v)
          × (load_all codec (below v (version_rows key before stores.rows)) ≡ ok (drop n sets))
    full-drop before rule_set sets v loads full last =
        let rows = version_rows key before stores.rows in
        let (t, d) =
          Loads-take codec (suc n) rows (rule_set ∷ sets)
            (load_all-Loads codec rows (rule_set ∷ sets) loads) in
        let at : last_row (take (suc n) rows) ≡ some v =
          Loads-last codec (take (suc n) rows) (rule_set ∷ take n sets) t ∙ last in
        (
          at,
          ap (load_all codec) (
                below-drop n v rows (page_rows-AreListed key before stores.rows ok_table).descending
                  (Loads-length codec (take (suc n) rows) (rule_set ∷ take n sets) t ∙ full) at)
              ∙ Loads-load_all codec (drop (suc n) rows) (drop n sets) d,
        )

    page_last :
        (before : Option ℕ) (rule_set : RuleSet N) (sets : List (RuleSet N))
        → load_all codec (version_rows key before stores.rows) ≡ ok (rule_set ∷ sets)
        → next_before (suc n) (rule_set ∷ take n sets) ≡ none
        → drop n sets ≡ []
    unfolding next_before load_all
    page_last before rule_set sets loads e =
        elim (Bool-cases (length (rule_set ∷ take n sets) == suc n)) [
          | inl full ↦
              let (v, last) = last_version-some rule_set (take n sets) in
              let small = older-none v (
                sym (
                  if-true (older (last_version (rule_set ∷ take n sets))) none full ∙ ap older last)
                ∙ e) in
              let rest =
                full-drop before rule_set sets v loads
                  ((==_iff (length (rule_set ∷ take n sets)) (suc n)).0 full) last in
              let none_left : below v (version_rows key before stores.rows) ≡ [] =
                below-nothing v (version_rows key before stores.rows) small
                  (page_rows-AreListed key before stores.rows ok_table).positive in
              sym (ok-inj (sym (ap (load_all codec) none_left) ∙ rest.1))
          | inr short ↦ drop-short n sets (λ k.
              true≢false (sym ((==_iff (suc (length (take n sets))) (suc n)).1 (ap suc k)) ∙ short))
        ]
      where
        ok-inj :
            {a b : List (RuleSet N)}
            → ◌≡◌ {A = Result RuleSetError (List (RuleSet N))} (ok a) (ok b)
            → a ≡ b
        ok-inj k = cc

    page_more :
        (before : Option ℕ) (rule_set : RuleSet N) (sets : List (RuleSet N)) (v : ℕ)
        → load_all codec (version_rows key before stores.rows) ≡ ok (rule_set ∷ sets)
        → next_before (suc n) (rule_set ∷ take n sets) ≡ some v
        → (1 < v) × (load_all codec (version_rows key (some v) stores.rows) ≡ ok (drop n sets))
    unfolding next_before
    page_more before rule_set sets v loads e =
        elim (Bool-cases (length (rule_set ∷ take n sets) == suc n)) [
          | inl full ↦
              let (w, last) = last_version-some rule_set (take n sets) in
              let (same, above) = older-some w v (
                sym (
                  if-true (older (last_version (rule_set ∷ take n sets))) none full ∙ ap older last)
                ∙ e) in
              let (at, rest) =
                full-drop before rule_set sets v loads
                  ((==_iff (length (rule_set ∷ take n sets)) (suc n)).0 full)
                  (last ∙ ap some same) in
              (above, ap (load_all codec) (page_rows-next n v key before stores.rows at) ∙ rest)
          | inr short ↦ absurd (
              none-some v
                (sym (if-false (older (last_version (rule_set ∷ take n sets))) none short) ∙ e))
        ]

    two_up : (v : ℕ) → 1 < v → before_ok (some v) ≡ true
    two_up v h = ground arith

    walk_versions-rest :
        (pages : ℕ) (before : Option ℕ) (sets : List (RuleSet N))
        → before_ok before ≡ true
        → (before ≡ none → sets ≢ [])
        → load_all codec (version_rows key before stores.rows) ≡ ok sets
        → length sets < pages
        → walk_versions pages key (suc n) before stores ≡ ok sets
    unfolding walk_versions
    walk_versions-rest zero before sets fits some_set loads enough = absurd (omega arith)
    walk_versions-rest (suc pages) none [] fits some_set loads enough = absurd (some_set refl refl)
    walk_versions-rest (suc pages) (some b) [] fits some_set loads enough =
        ap (walk_page_from (λ v. walk_versions pages key (suc n) (some v) stores))
          (list_versions-eq (some b) [] fits loads)
    walk_versions-rest (suc pages) before (rule_set ∷ sets) fits some_set loads enough =
        ap (walk_page_from (λ v. walk_versions pages key (suc n) (some v) stores))
          (list_versions-eq before (rule_set ∷ sets) fits loads)
        ∙ next_none_or_some (next_before (suc n) (rule_set ∷ take n sets)) (rule_set ∷ take n sets)
            (drop n sets) (λ v. walk_versions pages key (suc n) (some v) stores)
            (λ e. page_last before rule_set sets loads e)
            (λ v e.
              let (above, next) = page_more before rule_set sets v loads e in
              walk_versions-rest pages (some v) (drop n sets) (two_up v above) (λ k. absurd (cc))
                next (omega (arith, length-drop n sets)))
        ∙ ap (λ r. ok (rule_set ∷ r)) (take-append-drop n sets)

  -- Nothing is missed from page to page: a client that follows `next_before_version` gets every version of
  -- the key, newest first and each once, although the pages stop at version 1 without asking. It holds with
  -- one request more than there are versions, for a key that has one, with versions that are distinct and at
  -- least 1, as publishing makes them, and which all load.
  pub walk_versions-load_all :
      (key : String) (stores : Stores N) (n : ℕ) (sets : List (RuleSet N))
      → HasVersions key stores.rows
      → stores.database_up ≡ true
      → page_size_ok (suc n) ≡ true
      → load_all codec (version_rows key none stores.rows) ≡ ok sets
      → sets ≢ []
      → walk_versions (length sets + 1) key (suc n) none stores ≡ ok sets
  walk_versions-load_all key stores n sets table up size loads some_set =
      walk_versions-rest key stores table up n size (length sets + 1) none sets refl (λ _. some_set)
        loads (omega arith)
