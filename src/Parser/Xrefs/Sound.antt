-- ===== src/Parser/Xrefs/Sound.antt =====
-- The walks of Resolve keep what holds of the tables, the stack and the bindings, and they end.
use tools_jvm_autodeps.Base.{
  ℕ, zero, suc, ◌≡◌, refl, subst, inl, inr, false, List, [], ◌∷◌, arith, Bool-cases, drop, Eq,
  nat_eq, text_eq,
}
use tools_jvm_autodeps.GoMap.{get, put}
use tools_jvm_autodeps.PkgLoading.{ok, >>=-eq-ok}
use tools_jvm_autodeps.Parser.Ast.{Kind, Ast}
use tools_jvm_autodeps.Parser.Xrefs.{new_table, add_vars}
use tools_jvm_autodeps.Parser.Xrefs.Walk.{walk_keeps}
use tools_jvm_autodeps.Parser.Xrefs.Tables.{Tables}
use tools_jvm_autodeps.Parser.Xrefs.Scopes.{
  Scope, of_container, of_block, type_in_scope, field_in_scope, resolve_type_chain,
}
use tools_jvm_autodeps.Parser.Xrefs.Resolve.{
  State, opens_block, has_table, bind_type, bind_field, add_locals, bind_expr, enter, leave,
  enter_block, before_types, before_non_types, on_type_name, on_expr, resolve_types, resolve,
}
use tools_jvm_autodeps.Parser.Xrefs.Named.{
  AreNamed, new_table-IsNamed, get-IsNamed, put-AreNamed, add_vars-IsNamed,
}
use tools_jvm_autodeps.Parser.Xrefs.Bound.{
  AreBound, put-AreBound, StackIsNamed, type_in_scope-Names, field_in_scope-Names,
  type_chain-AreBound, identifier_chain-AreBound,
}

module _ {Node : Type 0} ⦃e : Eq Node⦄ (ast : Ast Node) where
  pub record IsSound (s : State Node) : Type 0 where
    pub tables_named : AreNamed ast s.tables
    pub stack_named : StackIsNamed ast s.stack
    pub bound : AreBound ast s.bindings

  drop-StackIsNamed :
      (n : ℕ) (stack : List (Scope Node)) → StackIsNamed ast stack → StackIsNamed ast (drop n stack)
  drop-StackIsNamed zero stack h = h
  drop-StackIsNamed (suc n) [] h = tt
  drop-StackIsNamed (suc n) (scope ∷ stack) (one, h) = drop-StackIsNamed n stack h

  leave-IsSound :
      (n : Node) (pushed : ℕ) (s : State Node) → IsSound s → IsSound (leave ast n pushed s)
  unfolding leave
  leave-IsSound n pushed s h = record {
    tables_named = h.tables_named;
    stack_named = drop-StackIsNamed pushed s.stack h.stack_named;
    bound = h.bound;
  }

  enter-IsSound : (n : Node) (s : State Node) → IsSound s → IsSound (enter ast n s).0
  unfolding enter
  enter-IsSound n s h = elim (Bool-cases (has_table ast s n)) [
    | inl has ↦ rw has (record {
      tables_named = h.tables_named;
      stack_named = (tt, h.stack_named);
      bound = h.bound;
    })
    | inr lacks ↦ rw lacks h
  ]

  enter_block-IsSound :
      (n : Node) (s : State Node) (pushed : ℕ)
      → IsSound s
      → IsSound (enter_block ast n (s, pushed)).0
  unfolding enter_block
  enter_block-IsSound n s pushed h = elim (Bool-cases (opens_block (ast.kind n))) [
    | inl opens ↦ rw opens (record {
      tables_named = h.tables_named;
      stack_named = (new_table-IsNamed ast, h.stack_named);
      bound = h.bound;
    })
    | inr stays ↦ rw stays h
  ]

  add_locals-IsSound :
      (vars : List Node) (s done : State Node)
      → IsSound s
      → add_locals ast vars s ≡ ok done
      → IsSound done
  unfolding add_locals
  add_locals-IsSound vars s done h ran = by_stack s.stack refl
    where
      by_stack : (stack : List (Scope Node)) → s.stack ≡ stack → IsSound done
      by_stack [] top = ground arith
      by_stack (of_container c ∷ scopes) top =
          let st = add_vars ast (get new_table c s.tables) vars in
          let next : State Node = record s { tables = put c st s.tables } in
          let same : next ≡ done = ground arith in
          subst IsSound same (record {
            tables_named =
                put-AreNamed ast c st s.tables
                  (add_vars-IsNamed ast vars (get new_table c s.tables)
                    (get-IsNamed ast c s.tables h.tables_named))
                  h.tables_named;
            stack_named = h.stack_named;
            bound = h.bound;
          })
      by_stack (of_block st ∷ scopes) top =
          let (one, rest) = subst (StackIsNamed ast) top h.stack_named in
          let next : State Node = record s { stack = of_block (add_vars ast st vars) ∷ scopes } in
          let same : next ≡ done = ground arith in
          subst IsSound same (record {
            tables_named = h.tables_named;
            stack_named = (add_vars-IsNamed ast vars st one, rest);
            bound = h.bound;
          })

  module _ (inv : ast.is_valid ast.invalid ≡ false) where
    bind_type-IsSound :
        (ids : List Node) (s done : State Node)
        → IsSound s
        → bind_type ast ids s ≡ ok done
        → IsSound done
    unfolding bind_type
    bind_type-IsSound [] s done h ran = cc
    bind_type-IsSound (id ∷ ids) s done h ran =
        let typ = type_in_scope ast s.tables s.stack (ast.text id) in
        elim (Bool-cases (ast.is_valid typ)) [
          | inl valid ↦
              let named =
                type_in_scope-Names ast s.tables h.tables_named s.stack (ast.text id) h.stack_named
                  valid inv in
              let later = put-AreBound ast id typ s.bindings named h.bound in
              subst IsSound (ground arith) (record {
                tables_named = h.tables_named;
                stack_named = h.stack_named;
                bound =
                    type_chain-AreBound ast s.tables h.tables_named 0 typ ids
                      (put id typ s.bindings) later;
              })
          | inr unknown ↦ subst IsSound (ground arith) h
        ]

    bind_field-IsSound :
        (id : Node) (ids : List Node) (s : State Node)
        → IsSound s
        → IsSound (bind_field ast id ids s)
    bind_field-IsSound id ids s h =
        let field = field_in_scope ast s.tables s.stack (ast.text id) in
        elim (Bool-cases (ast.is_valid field)) [
          | inl valid ↦
              let named =
                field_in_scope-Names ast s.tables h.tables_named s.stack (ast.text id) h.stack_named
                  valid inv in
              rw valid (record {
                tables_named = h.tables_named;
                stack_named = h.stack_named;
                bound =
                    identifier_chain-AreBound ast s.tables h.tables_named field ids
                      (put id field s.bindings)
                      (put-AreBound ast id field s.bindings named h.bound);
              })
          | inr unknown ↦ rw unknown h
        ]

    bind_expr-IsSound :
        (ids : List Node) (s done : State Node)
        → IsSound s
        → bind_expr ast ids s ≡ ok done
        → IsSound done
    unfolding bind_expr
    bind_expr-IsSound [] s done h ran = cc
    bind_expr-IsSound (id ∷ ids) s done h ran =
        let typ = type_in_scope ast s.tables s.stack (ast.text id) in
        let chain = resolve_type_chain ast s.tables 0 typ ids (put id typ s.bindings) in
        elim (Bool-cases (ast.is_valid typ)) [
          | inl valid ↦
              let named =
                type_in_scope-Names ast s.tables h.tables_named s.stack (ast.text id) h.stack_named
                  valid inv in
              let later = put-AreBound ast id typ s.bindings named h.bound in
              subst IsSound (ground arith) (record {
                tables_named = h.tables_named;
                stack_named = h.stack_named;
                bound =
                    identifier_chain-AreBound ast s.tables h.tables_named chain.1 (drop chain.0 ids)
                      chain.2
                      (type_chain-AreBound ast s.tables h.tables_named 0 typ ids
                        (put id typ s.bindings) later);
              })
          | inr unknown ↦ subst IsSound (ground arith) (bind_field-IsSound id ids s h)
        ]

    on_type_name-IsSound :
        (k : Kind) (n : Node) (s done : State Node)
        → IsSound s
        → on_type_name ast k n s ≡ ok done
        → IsSound done
    on_type_name-IsSound Kind.java_type_name n s done h ran =
        bind_type-IsSound (ast.children_of_type Kind.java_identifier n) s done h ran
    on_type_name-IsSound _ n s done h ran = subst IsSound (cc) h

    on_expr-IsSound :
        (k : Kind) (n : Node) (s done : State Node)
        → IsSound s
        → on_expr ast k n s ≡ ok done
        → IsSound done
    on_expr-IsSound Kind.java_local_vars n s done h ran =
        add_locals-IsSound (ast.children n) s done h ran
    on_expr-IsSound Kind.java_for_init n s done h ran =
        add_locals-IsSound (ast.children n) s done h ran
    on_expr-IsSound Kind.java_type_or_expr_name n s done h ran =
        bind_expr-IsSound (ast.children_of_type Kind.java_identifier n) s done h ran
    on_expr-IsSound Kind.java_expr_name n s done h ran =
        bind_expr-IsSound (ast.children_of_type Kind.java_identifier n) s done h ran
    on_expr-IsSound _ n s done h ran = subst IsSound (cc) h

    before_types-IsSound :
        (n : Node) (s later : State Node) (x : ℕ)
        → IsSound s
        → before_types ast n s ≡ ok (later, x)
        → IsSound later
    unfolding before_types
    before_types-IsSound n s later x h ran =
        let s' = (enter ast n s).0 in
        let (done, same, one) = >>=-eq-ok (on_type_name ast (ast.kind n) n s') _ ran in
        subst IsSound (cc) (on_type_name-IsSound (ast.kind n) n s' done (enter-IsSound n s h) one)

    before_non_types-IsSound :
        (n : Node) (s later : State Node) (x : ℕ)
        → IsSound s
        → before_non_types ast n s ≡ ok (later, x)
        → IsSound later
    unfolding before_non_types
    before_non_types-IsSound n s later x h ran =
        let (s1, pushed) = enter ast n s in
        let s' = (enter_block ast n (enter ast n s)).0 in
        let (done, same, one) = >>=-eq-ok (on_expr ast (ast.kind n) n s') _ ran in
        subst IsSound (cc) (
          on_expr-IsSound (ast.kind n) n s' done
            (enter_block-IsSound n (enter ast n s).0 (enter ast n s).1 (enter-IsSound n s h)) one)

    pub resolve-IsSound :
        (fuel : ℕ) (root : Node) (tables : Tables Node) (done : State Node)
        → AreNamed ast tables
        → resolve ast fuel root tables ≡ ok done
        → IsSound done
    unfolding resolve
    resolve-IsSound fuel root tables done named ran =
        let start : State Node = record { tables = tables; stack = []; bindings = [] } in
        let (middle, rest, first) = >>=-eq-ok (resolve_types ast fuel root start) _ ran in
        let h =
          walk_keeps ast (before_types ast) (leave ast) IsSound before_types-IsSound leave-IsSound
            fuel root start middle
            (record { tables_named = named; stack_named = tt; bound = λ id d there. cc }) first in
        walk_keeps ast (before_non_types ast) (leave ast) IsSound before_non_types-IsSound
          leave-IsSound fuel root (record middle { stack = [] }) done
          (record { tables_named = h.tables_named; stack_named = tt; bound = h.bound }) rest
