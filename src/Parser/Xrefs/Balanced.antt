-- ===== src/Parser/Xrefs/Balanced.antt =====
-- resolveNonTypes returns with the stack that it started with, and Resolve returns.
use tools_jvm_autodeps.Base.{
  ℕ, ◌+◌, ◌-◌, ◌≡◌, refl, sym, ◌∙◌, subst, inl, inr, Bool, true, false, not, ◌||◌, List, [], ◌∷◌,
  arith, ltb, Bool-cases, length, Eq, nat_eq, text_eq,
}
use tools_jvm_autodeps.GoMap.{get, put}
use tools_jvm_autodeps.PkgLoading.{ok}
use tools_jvm_autodeps.Parser.Ast.{Kind, Ast}
use tools_jvm_autodeps.Parser.Xrefs.{new_table, add_vars}
use tools_jvm_autodeps.Parser.Xrefs.Walk.{IsTree, walk_total}
use tools_jvm_autodeps.Parser.Xrefs.Tables.{Tables, build_symbol_tables}
use tools_jvm_autodeps.Parser.Xrefs.Scopes.{Scope, of_container, of_block, type_in_scope}
use tools_jvm_autodeps.Parser.Xrefs.Resolve.{
  State, opens_block, has_table, bind_field, add_locals, bind_expr, enter, leave, enter_block,
  before_non_types, on_expr, resolve_non_types, resolve,
}
use tools_jvm_autodeps.Parser.Xrefs.Named.{build_symbol_tables-AreNamed}
use tools_jvm_autodeps.Parser.Xrefs.Bound.{AreBound}
use tools_jvm_autodeps.Parser.Xrefs.Sound.{resolve-IsSound}
use tools_jvm_autodeps.Parser.Xrefs.Returns.{
  is_name, is_local, is_empty, implies, length-drop, Fits, or_block, build_symbol_tables_total,
  resolve_types_total,
}

top_grows :
    (b : Bool) (before pushed now : ℕ)
    → implies b (ltb 0 before) ≡ true
    → now ≡ before + pushed
    → implies b (ltb 0 now) ≡ true
top_grows b before pushed now h grown = ground arith

implies-or :
    (a b : Bool) (n : ℕ)
    → implies a (ltb 0 n) ≡ true
    → implies b (ltb 0 n) ≡ true
    → implies (a || b) (ltb 0 n) ≡ true
implies-or a b n h k = ground arith

popped : (before pushed deep now : ℕ) → deep ≡ before + pushed → now ≡ deep → now - pushed ≡ before
popped before pushed deep now p q = omega arith

length-zero : {A : Type 0} (xs : List A) → length xs ≡ 0 → xs ≡ []
length-zero [] h = refl
length-zero (x ∷ xs) h = ground arith

module _ {Node : Type 0} ⦃e : Eq Node⦄ (ast : Ast Node) where
  -- the depth of the stack
  abbrev depth : State Node → ℕ
  depth s = length s.stack

  abbrev HasTop : Bool → State Node → Type 0
  HasTop in_block s = implies in_block (ltb 0 (depth s)) ≡ true

  abbrev SameDepth : State Node → State Node → Type 0
  SameDepth s t = depth t ≡ depth s

  add_locals_total :
      (vars : List Node) (s : State Node)
      → ltb 0 (depth s) ≡ true
      → (done : State Node) × (add_locals ast vars s ≡ ok done) × SameDepth s done
  unfolding add_locals
  add_locals_total vars s top = by_stack s.stack refl
    where
      by_stack :
          (stack : List (Scope Node))
          → s.stack ≡ stack
          → (done : State Node) × (add_locals ast vars s ≡ ok done) × SameDepth s done
      by_stack [] here = ground arith
      by_stack (of_container c ∷ scopes) here = (
        record s { tables = put c (add_vars ast (get new_table c s.tables) vars) s.tables },
        ground arith,
        refl,
      )
      by_stack (of_block st ∷ scopes) here = (
        record s { stack = of_block (add_vars ast st vars) ∷ scopes },
        ground arith,
        ground arith,
      )

  bind_expr_total :
      (ids : List Node) (s : State Node)
      → is_empty ids ≡ false
      → (done : State Node) × (bind_expr ast ids s ≡ ok done) × SameDepth s done
  unfolding bind_expr
  bind_expr_total [] s full = cc
  bind_expr_total (id ∷ ids) s full =
      elim (Bool-cases (ast.is_valid (type_in_scope ast s.tables s.stack (ast.text id)))) [
        | inl valid ↦ rw valid (_, refl, refl)
        | inr unknown ↦ rw unknown (bind_field ast id ids s, refl, ground arith)
      ]

  on_expr_total :
      (k : Kind) (n : Node) (s : State Node) (in_block : Bool)
      → implies (is_name k) (not (is_empty (ast.children_of_type Kind.java_identifier n))) ≡ true
      → implies (is_local k) in_block ≡ true
      → HasTop in_block s
      → (done : State Node) × (on_expr ast k n s ≡ ok done) × SameDepth s done
  on_expr_total Kind.java_local_vars n s in_block named local top =
      add_locals_total (ast.children n) s (ground arith)
  on_expr_total Kind.java_for_init n s in_block named local top =
      add_locals_total (ast.children n) s (ground arith)
  on_expr_total Kind.java_type_or_expr_name n s in_block named local top =
      bind_expr_total (ast.children_of_type Kind.java_identifier n) s (ground arith)
  on_expr_total Kind.java_expr_name n s in_block named local top =
      bind_expr_total (ast.children_of_type Kind.java_identifier n) s (ground arith)
  on_expr_total _ n s in_block named local top = (s, refl, refl)

  -- the stack grows by what is pushed
  depth-enter : (n : Node) (s : State Node) → depth (enter ast n s).0 ≡ depth s + (enter ast n s).1
  unfolding enter
  depth-enter n s = elim (Bool-cases (has_table ast s n)) [
    | inl has ↦ rw has (omega arith)
    | inr lacks ↦ rw lacks (omega arith)
  ]

  depth-enter_block :
      (n : Node) (s : State Node) (pushed before : ℕ)
      → depth s ≡ before + pushed
      → (depth (enter_block ast n (s, pushed)).0 ≡ before + (enter_block ast n (s, pushed)).1)
        × HasTop (opens_block (ast.kind n)) (enter_block ast n (s, pushed)).0
  unfolding enter_block
  depth-enter_block n s pushed before h = elim (Bool-cases (opens_block (ast.kind n))) [
    | inl opens ↦ rw opens (omega arith, ground arith)
    | inr stays ↦ rw stays (h, ground arith)
  ]

  step_total :
      (in_block : Bool) (n : Node) (s : State Node)
      → Fits ast in_block n
      → HasTop in_block s
      → (later : State Node) × (x : ℕ) × (before_non_types ast n s ≡ ok (later, x))
        × HasTop (or_block ast in_block n) later
        × ((done : State Node) → SameDepth later done → SameDepth s (leave ast n x done))
  unfolding before_non_types leave
  step_total in_block n s (declared, named, locals) top =
      let s' = (enter_block ast n (enter ast n s)).0 in
      let x = (enter_block ast n (enter ast n s)).1 in
      let (deeper, opened) =
        depth-enter_block n (enter ast n s).0 (enter ast n s).1 (depth s) (depth-enter n s) in
      let (later, one, same) =
        on_expr_total (ast.kind n) n s' in_block named locals
          (top_grows in_block (depth s) x (depth s') top deeper) in
      (
        later,
        x,
        rw one refl,
        implies-or in_block (opens_block (ast.kind n)) (depth later)
            (subst (λ d. implies in_block (ltb 0 d) ≡ true) (sym same)
              (top_grows in_block (depth s) x (depth s') top deeper))
            (subst (λ d. implies (opens_block (ast.kind n)) (ltb 0 d) ≡ true) (sym same) opened),
        λ done h.
            length-drop x done.stack ∙ popped (depth s) x (depth s') (depth done) deeper (h ∙ same),
      )

  pub resolve_non_types_total :
      (fuel : ℕ) (root : Node) (s : State Node)
      → IsTree ast (Fits ast) (or_block ast) fuel false root
      → (done : State Node) × (resolve_non_types ast fuel root s ≡ ok done) × (done.stack ≡ [])
  unfolding resolve_non_types
  resolve_non_types_total fuel root s tree =
      let (done, ran, same) =
        walk_total ast (before_non_types ast) (leave ast) (Fits ast) (or_block ast) HasTop SameDepth
          (λ t. refl) (λ t u v p q. q ∙ p)
          (λ place t u p q. subst (λ d. implies place (ltb 0 d) ≡ true) (sym q) p) step_total fuel
          false root (record s { stack = [] }) tree refl in
      (done, ran, length-zero done.stack same)

  -- Where each declaration stands in a container, each name has an identifier and each local variable
  -- stands in a block, with fuel for the levels of the tree, the symbol tables are built and Resolve
  -- returns, and each identifier that it binds is the name of the declaration that it is bound to, or
  -- the last name of the import.
  pub resolve-AreBound :
      (fuel : ℕ) (root : Node)
      → ast.is_valid ast.invalid ≡ false
      → IsTree ast (Fits ast) (or_block ast) fuel false root
      → (tables : Tables Node) × (build_symbol_tables ast fuel root ≡ ok tables)
        × ((done : State Node) × (resolve ast fuel root tables ≡ ok done)
            × (done.stack ≡ [])
            × AreBound ast done.bindings)
  unfolding resolve
  resolve-AreBound fuel root inv tree =
      let (tables, built) = build_symbol_tables_total ast fuel root tree in
      let start : State Node = record { tables = tables; stack = []; bindings = [] } in
      let (middle, first) = resolve_types_total ast fuel root start tree in
      let (done, second, empty) = resolve_non_types_total fuel root middle tree in
      let ran : resolve ast fuel root tables ≡ ok done = rw first second in
      let sound =
        resolve-IsSound ast inv fuel root tables done
          (build_symbol_tables-AreNamed ast fuel root tables built) ran in
      (tables, built, (done, ran, empty, sound.bound))
