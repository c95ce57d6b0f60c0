-- ===== src/Rules/Limits.antt =====
-- The limits of app/rules.py on the size of a condition, against a count of its nodes and levels.
use fraud_detection.Prelude.{
  ℕ, suc, ◌+◌, ◌≤◌, ◌≡◌, subst, Bool, true, false, [], ◌∷◌, Option, none, some, List, ltb,
  if◌then◌else◌, arith,
}
use fraud_detection.Prelude.Result.{Result, ok, err, ◌>>=◌, >>=-eq-ok}
use fraud_detection.Rules.Numbers.{Numbers}
use fraud_detection.Rules.Json.{
  Json, Items, Fields, null, boolean, int, float, decimal, text, array, object, nil, cons, end,
  field, item_count,
}
use fraud_detection.Rules.Syntax.{
  Operator, eager, all_of, any_of, branch, variable, operator_named, ValueType, InvalidRule,
  needs_default,
}
use fraud_detection.Rules.Validate.{
  max_expression_depth, max_expression_nodes, enter, finite_literal, typed, operation_type,
  list_type, variable_of, check_operation, check_bare, check_default, Visited, visit, visit_items,
  visit_fields, visit_variable, validate_expression,
}

abbrev larger : ℕ → ℕ → ℕ
larger a b = if ltb a b then b else a

larger-le : (d a b k : ℕ) → d + a ≤ k → d + b ≤ k → d + larger a b ≤ k
larger-le d a b k h h' = ground arith

-- the name of a variable is no node: of `var`, only the default counts
abbrev of_operation : Option Operator → ℕ → ℕ → ℕ
of_operation (some variable) default arguments = default
of_operation _ default arguments = arguments

module _ {N : Numbers} where
  unfoldable mutual
    -- the nodes of a condition
    pub nodes : Json N → ℕ
    nodes (array items) = suc (nodes_items items)
    nodes (object fields) = suc (nodes_fields fields)
    nodes _ = 1

    nodes_items : Items N → ℕ
    nodes_items nil = 0
    nodes_items (cons node items) = nodes node + nodes_items items

    nodes_fields : Fields N → ℕ
    nodes_fields (field name (array args) end) =
        of_operation (operator_named name) (nodes_default args) (nodes_items args)
    nodes_fields (field name arg end) = of_operation (operator_named name) 0 (nodes arg)
    nodes_fields _ = 0

    nodes_default : Items N → ℕ
    nodes_default (cons name (cons default rest)) = nodes default
    nodes_default _ = 0

  unfoldable mutual
    -- the levels of a condition
    pub levels : Json N → ℕ
    levels (array items) = suc (levels_items items)
    levels (object fields) = suc (levels_fields fields)
    levels _ = 1

    levels_items : Items N → ℕ
    levels_items nil = 0
    levels_items (cons node items) = larger (levels node) (levels_items items)

    levels_fields : Fields N → ℕ
    levels_fields (field name (array args) end) =
        of_operation (operator_named name) (levels_default args) (levels_items args)
    levels_fields (field name arg end) = of_operation (operator_named name) 0 (levels arg)
    levels_fields _ = 0

    levels_default : Items N → ℕ
    levels_default (cons name (cons default rest)) = levels default
    levels_default _ = 0

-- a visit at a depth that took the count from `n` to `m`
record Within (depth n size height m : ℕ) : Type 0 where
  counts : m ≡ n + size
  few : n ≤ max_expression_nodes → m ≤ max_expression_nodes
  shallow : depth ≤ suc max_expression_depth → depth + height ≤ suc max_expression_depth

enter-le :
    (depth n m : ℕ)
    → enter depth n ≡ ok m
    → (m ≡ n + 1) × (m ≤ max_expression_nodes) × (depth ≤ max_expression_depth)
unfolding enter
enter-le depth n m e = ground (arith, e)

nothing-Within : (depth n : ℕ) → Within depth n 0 0 n
nothing-Within depth n = record {
  counts = omega arith;
  few = λ h. h;
  shallow = λ h. omega (arith, h);
}

node-Within :
    (depth n m k size height : ℕ)
    → enter depth n ≡ ok m
    → Within (suc depth) m size height k
    → Within depth n (suc size) (suc height) k
node-Within depth n m k size height e w =
    let (one_more, few, shallow) = enter-le depth n m e in
    let inside = w.counts in
    let low = w.shallow (omega (arith, shallow)) in
    record { counts = omega arith; few = λ _. w.few few; shallow = λ _. omega (arith, low) }

leaf-Within : (depth n m k : ℕ) → enter depth n ≡ ok m → k ≡ m → Within depth n 1 1 k
leaf-Within depth n m k e same =
    let (one_more, few, shallow) = enter-le depth n m e in
    record {
      counts = omega (arith, one_more, same);
      few = λ _. omega (arith, few, same);
      shallow = λ _. omega (arith, shallow);
    }

more-Within :
    (depth n m k size height sizes heights : ℕ)
    → Within depth n size height m
    → Within depth m sizes heights k
    → Within depth n (size + sizes) (larger height heights) k
more-Within depth n m k size height sizes heights first rest = record {
  counts = let a = first.counts in let b = rest.counts in omega arith;
  few = λ h. rest.few (first.few h);
  shallow = λ h.
      larger-le depth height heights (suc max_expression_depth) (first.shallow h) (rest.shallow h);
}

same-Within :
    {depth n m k size height : ℕ}
    → m ≡ k
    → Within depth n size height m
    → Within depth n size height k
same-Within {depth} {n} {m} {k} {size} {height} same w = subst (Within depth n size height) same w

typed-counts :
    (op : Operator) (args : Result InvalidRule (List ValueType × ℕ)) (r : ValueType × ℕ)
    → typed op args ≡ ok r
    → (q : List ValueType × ℕ) × (args ≡ ok q) × (q.1 ≡ r.1)
unfolding typed
typed-counts op args r e =
    let (q, e1, e2) = >>=-eq-ok args _ e in
    let (t, e3, e4) = >>=-eq-ok (operation_type op q.0) _ e2 in (q, e1, cc)

operation-Within :
    (o : Option Operator) (count : ℕ) (as_variable : Visited)
    (as_arguments : Result InvalidRule (List ValueType × ℕ)) (r : ValueType × ℕ)
    (depth n size height sizes heights : ℕ)
    → (as_variable ≡ ok r → Within depth n size height r.1)
    → ((q : List ValueType × ℕ) → as_arguments ≡ ok q → Within depth n sizes heights q.1)
    → check_operation o count as_variable as_arguments ≡ ok r
    → Within depth n (of_operation o size sizes) (of_operation o height heights) r.1
unfolding check_operation
operation-Within none count va args r depth n size height sizes heights hv ha e = cc
operation-Within (some variable) count va args r depth n size height sizes heights hv ha e =
    hv (ground arith)
operation-Within (some all_of) count va args r depth n size height sizes heights hv ha e =
    let (q, e1, same) = typed-counts all_of args r (ground arith) in same-Within same (ha q e1)
operation-Within (some any_of) count va args r depth n size height sizes heights hv ha e =
    let (q, e1, same) = typed-counts any_of args r (ground arith) in same-Within same (ha q e1)
operation-Within (some branch) count va args r depth n size height sizes heights hv ha e =
    let (q, e1, same) = typed-counts branch args r (ground arith) in same-Within same (ha q e1)
operation-Within (some (eager op)) count va args r depth n size height sizes heights hv ha e =
    let (q, e1, same) = typed-counts (eager op) args r (ground arith) in same-Within same (ha q e1)

required-count :
    (b : Bool) (t : ValueType) (n : ℕ) (r : ValueType × ℕ)
    → ◌≡◌ {A = Visited} (if b then ok (t, n) else err needs_default) (ok r)
    → n ≡ r.1
required-count true t n r e = cc
required-count false t n r e = cc

finite-count : (b : Bool) (n : ℕ) (r : ValueType × ℕ) → finite_literal b n ≡ ok r → r.1 ≡ n
unfolding finite_literal
finite-count true n r e = cc
finite-count false n r e = cc

module _ {N : Numbers} where
  bare-Within :
      (name : Json N) (depth n : ℕ) (r : ValueType × ℕ)
      → check_bare name n ≡ ok r
      → Within depth n 0 0 r.1
  unfolding check_bare
  bare-Within name depth n r e =
      let (v, e1, e2) = >>=-eq-ok (variable_of name) _ e in
      let same = required-count v.required v.type n r e2 in
      same-Within same (nothing-Within depth n)

  default-count :
      (name : Json N) (visited : Visited) (r : ValueType × ℕ)
      → check_default name visited ≡ ok r
      → (q : ValueType × ℕ) × (visited ≡ ok q) × (q.1 ≡ r.1)
  unfolding check_default
  default-count name visited r e =
      let (v, e1, e2) = >>=-eq-ok (variable_of name) _ e in
      let (q, e3, e4) = >>=-eq-ok visited _ e2 in (q, e3, ground arith)

  mutual
    unfolding visit nodes levels

    visit-Within :
        (node : Json N) (d n : ℕ) (r : ValueType × ℕ)
        → visit node d n ≡ ok r
        → Within d n (nodes node) (levels node) r.1
    visit-Within null d n r e =
        let (m, e1, e2) = >>=-eq-ok (enter d n) _ e in leaf-Within d n m r.1 e1 (cc)
    visit-Within (boolean b) d n r e =
        let (m, e1, e2) = >>=-eq-ok (enter d n) _ e in leaf-Within d n m r.1 e1 (cc)
    visit-Within (int z) d n r e =
        let (m, e1, e2) = >>=-eq-ok (enter d n) _ e in leaf-Within d n m r.1 e1 (cc)
    visit-Within (text s) d n r e =
        let (m, e1, e2) = >>=-eq-ok (enter d n) _ e in leaf-Within d n m r.1 e1 (cc)
    visit-Within (float x) d n r e =
        let (m, e1, e2) = >>=-eq-ok (enter d n) _ e in
        leaf-Within d n m r.1 e1 (finite-count (N.is_finite (N.of_float x)) m r e2)
    visit-Within (decimal x) d n r e =
        let (m, e1, e2) = >>=-eq-ok (enter d n) _ e in
        leaf-Within d n m r.1 e1 (finite-count (N.is_finite x) m r e2)
    visit-Within (array items) d n r e =
        let (m, e1, e2) = >>=-eq-ok (enter d n) _ e in
        let (q, e3, e4) = >>=-eq-ok (visit_items items (suc d) m) _ e2 in
        let (t, e5, e6) = >>=-eq-ok (list_type q.0) _ e4 in
        let same : q.1 ≡ r.1 = cc in
        node-Within d n m r.1 (nodes_items items) (levels_items items) e1
          (same-Within same (items-Within items (suc d) m q e3))
    visit-Within (object fields) d n r e =
        let (m, e1, e2) = >>=-eq-ok (enter d n) _ e in
        node-Within d n m r.1 (nodes_fields fields) (levels_fields fields) e1
          (fields-Within fields d m r e2)

    items-Within :
        (items : Items N) (d n : ℕ) (r : List ValueType × ℕ)
        → visit_items items d n ≡ ok r
        → Within d n (nodes_items items) (levels_items items) r.1
    items-Within nil d n r e = let same : n ≡ r.1 = cc in same-Within same (nothing-Within d n)
    items-Within (cons node items) d n r e =
        let (h, e1, e2) = >>=-eq-ok (visit node d n) _ e in
        let (rest, e3, e4) = >>=-eq-ok (visit_items items d h.1) _ e2 in
        let same : rest.1 ≡ r.1 = cc in
        more-Within d n h.1 r.1 (nodes node) (levels node) (nodes_items items) (levels_items items)
          (visit-Within node d n h e1) (same-Within same (items-Within items d h.1 rest e3))

    fields-Within :
        (fields : Fields N) (d n : ℕ) (r : ValueType × ℕ)
        → visit_fields fields d n ≡ ok r
        → Within (suc d) n (nodes_fields fields) (levels_fields fields) r.1
    fields-Within (field name (array args) end) d n r e =
        operation-Within (operator_named name) (item_count args) (visit_variable args d n)
          (visit_items args (suc d) n) r (suc d) n (nodes_default args) (levels_default args)
          (nodes_items args) (levels_items args) (variable-Within args d n r)
          (items-Within args (suc d) n) e
    fields-Within (field name arg end) d n r e =
        operation-Within (operator_named name) 1 (check_bare arg n)
          (visit arg (suc d) n >>= λ q. ok (q.0 ∷ [], q.1)) r (suc d) n 0 0 (nodes arg) (levels arg)
          (bare-Within arg (suc d) n r)
          (λ q f.
            let (p, e1, e2) = >>=-eq-ok (visit arg (suc d) n) _ f in
            let same : p.1 ≡ q.1 = cc in same-Within same (visit-Within arg (suc d) n p e1))
          e
    fields-Within _ d n r e = cc

    variable-Within :
        (args : Items N) (d n : ℕ) (r : ValueType × ℕ)
        → visit_variable args d n ≡ ok r
        → Within (suc d) n (nodes_default args) (levels_default args) r.1
    variable-Within nil d n r e = cc
    variable-Within (cons name nil) d n r e = bare-Within name (suc d) n r e
    variable-Within (cons name (cons default rest)) d n r e =
        let (q, e1, same) = default-count name (visit default (suc d) n) r e in
        same-Within same (visit-Within default (suc d) n q e1)

  -- A condition that `validate_expression` accepts has at most 400 nodes, on at most 24 levels,
  -- where the name of a variable is no node.
  pub validate_expression-le :
      (condition : Json N)
      → validate_expression condition ≡ ok tt
      → (nodes condition ≤ max_expression_nodes) × (levels condition ≤ max_expression_depth)
  unfolding validate_expression
  validate_expression-le condition e =
      let (r, e1, e2) = >>=-eq-ok (visit condition 1 0) _ e in
      let w = visit-Within condition 1 0 r e1 in
      let counted = w.counts in
      let few = w.few (omega arith) in
      let shallow = w.shallow (omega arith) in (omega arith, omega arith)
