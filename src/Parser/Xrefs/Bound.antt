-- ===== src/Parser/Xrefs/Bound.antt =====
-- Resolve binds each identifier to a declaration of its name.
use tools_jvm_autodeps.Base.{
  ℕ, suc, ◌≡◌, sym, ap, ◌∙◌, subst, subst₂, inl, inr, true, false, ◌&&◌, some, List, [], ◌∷◌, arith,
  if◌then◌else◌, Bool-cases, Option-cases, Eq, ◌==◌, Text, nat_eq, text_eq,
}
use tools_jvm_autodeps.GoMap.{contains, lookup, get, put, lookup-put}
use tools_jvm_autodeps.Parser.Ast.{Ast, is_class_type, is_some_type}
use tools_jvm_autodeps.Parser.Xrefs.Tables.{Tables}
use tools_jvm_autodeps.Parser.Xrefs.Scopes.{
  Scope, of_container, of_block, Bindings, table_of, type_in_scope, first_field, field_in_scope,
  type_named, resolve_type_chain, bound_type, type_binding, first_typed, members_named,
  resolve_identifier_chain,
}
use tools_jvm_autodeps.Parser.Xrefs.Named.{Names, IsNamed, AreNamed, get-IsNamed}

module _ {Node : Type 0} ⦃e : Eq Node⦄ (ast : Ast Node) where
  -- Each bound identifier has the name of its declaration.
  abbrev pub AreBound : Bindings Node → Type 0
  AreBound bindings = (id d : Node) → lookup id bindings ≡ some d → Names ast d (ast.text id)

  pub put-AreBound :
      (id d : Node) (bindings : Bindings Node)
      → Names ast d (ast.text id)
      → AreBound bindings
      → AreBound (put id d bindings)
  put-AreBound id d bindings named h = λ j found there.
      let at_j = lookup-put id j d bindings in
      elim (Bool-cases (id == j)) [
        | inl same ↦
            subst₂ (λ n i. Names ast n (ast.text i)) (ground arith) ((e.beq_iff id j).0 same) named
        | inr other ↦ h j found (ground arith)
      ]

  -- the tables of the blocks on the stack
  abbrev pub ScopeIsNamed : Scope Node → Type 0
  ScopeIsNamed (of_container c) = Unit
  ScopeIsNamed (of_block st) = IsNamed ast st

  abbrev pub StackIsNamed : List (Scope Node) → Type 0
  StackIsNamed [] = Unit
  StackIsNamed (scope ∷ stack) = ScopeIsNamed scope × StackIsNamed stack

  module _ (tables : Tables Node) (named : AreNamed ast tables) where
    table_of-IsNamed :
        (scope : Scope Node) → ScopeIsNamed scope → IsNamed ast (table_of ast tables scope)
    table_of-IsNamed (of_container c) h = get-IsNamed ast c tables named
    table_of-IsNamed (of_block st) h = h

    pub type_in_scope-Names :
        (stack : List (Scope Node)) (id : Text)
        → StackIsNamed stack
        → ast.is_valid (type_in_scope ast tables stack id) ≡ true
        → ast.is_valid ast.invalid ≡ false
        → Names ast (type_in_scope ast tables stack id) id
    unfolding type_in_scope
    type_in_scope-Names [] id h valid inv = cc
    type_in_scope-Names (scope ∷ stack) id (one, h) valid inv =
        elim (Option-cases (lookup id (table_of ast tables scope).types)) [
          | inr (n, there) ↦
              let step : type_in_scope ast tables (scope ∷ stack) id ≡ n = ground arith in
              subst (λ d. Names ast d id) (sym step) ((table_of-IsNamed scope one).typed id n there)
          | inl absent ↦
              let step : type_in_scope ast tables (scope ∷ stack) id
                  ≡ type_in_scope ast tables stack id =
                ground arith in
              subst (λ d. Names ast d id) (sym step)
                (type_in_scope-Names stack id h (ap ast.is_valid (sym step) ∙ valid) inv)
        ]

    first_field_member :
        (members : List Node) (n : Node)
        → first_field ast tables members ≡ some n
        → contains n members ≡ true
    unfolding first_field
    first_field_member [] n h = cc
    first_field_member (m ∷ members) n h =
        ground (arith, first_field_member members n, e.beq_iff m n)

    pub field_in_scope-Names :
        (stack : List (Scope Node)) (id : Text)
        → StackIsNamed stack
        → ast.is_valid (field_in_scope ast tables stack id) ≡ true
        → ast.is_valid ast.invalid ≡ false
        → Names ast (field_in_scope ast tables stack id) id
    unfolding field_in_scope
    field_in_scope-Names [] id h valid inv = cc
    field_in_scope-Names (scope ∷ stack) id (one, h) valid inv =
        let members = get [] id (table_of ast tables scope).members in
        elim (Option-cases (first_field ast tables members)) [
          | inr (n, there) ↦
              let step : field_in_scope ast tables (scope ∷ stack) id ≡ n = ground arith in
              subst (λ d. Names ast d id) (sym step)
                ((table_of-IsNamed scope one).membered id n (first_field_member members n there))
          | inl absent ↦
              let step : field_in_scope ast tables (scope ∷ stack) id
                  ≡ field_in_scope ast tables stack id =
                ground arith in
              subst (λ d. Names ast d id) (sym step)
                (field_in_scope-Names stack id h (ap ast.is_valid (sym step) ∙ valid) inv)
        ]

    type_named-Names :
        (id : Text) (c n : Node)
        → type_named ast tables id (lookup c tables) ≡ some n
        → Names ast n id
    type_named-Names id c n h = elim (Option-cases (lookup c tables)) [
      | inl absent ↦ ground arith
      | inr (st, there) ↦ (named c st there).typed id n (ground arith)
    ]

    pub type_chain-AreBound :
        (i : ℕ) (curr : Node) (ids : List Node) (bindings : Bindings Node)
        → AreBound bindings
        → AreBound (resolve_type_chain ast tables i curr ids bindings).2
    unfolding resolve_type_chain
    type_chain-AreBound i curr [] bindings h = h
    type_chain-AreBound i curr (id ∷ ids) bindings h =
        let chain = resolve_type_chain ast tables in
        elim (Option-cases (type_named ast tables (ast.text id) (lookup curr tables))) [
          | inl absent ↦
              let step : chain i curr (id ∷ ids) bindings ≡ (i, curr, bindings) = ground arith in
              subst (λ r. AreBound r.2) (sym step) h
          | inr (n, there) ↦
              let step : chain i curr (id ∷ ids) bindings
                  ≡ chain (suc i) n ids (put id n bindings) =
                ground arith in
              subst (λ r. AreBound r.2) (sym step)
                (type_chain-AreBound (suc i) n ids (put id n bindings)
                  (put-AreBound id n bindings (type_named-Names (ast.text id) curr n there) h))
        ]

    first_typed_member :
        (members : List Node) (n : Node)
        → first_typed ast tables members ≡ some n
        → contains n members ≡ true
    unfolding first_typed
    first_typed_member [] n h = cc
    first_typed_member (m ∷ members) n h =
        ground (arith, first_typed_member members n, e.beq_iff m n)

    members_named-Names :
        (id : Text) (c n : Node)
        → contains n (members_named ast tables id (lookup c tables)) ≡ true
        → Names ast n id
    members_named-Names id c n h = elim (Option-cases (lookup c tables)) [
      | inl absent ↦ ground arith
      | inr (st, there) ↦ (named c st there).membered id n (ground arith)
    ]

    pub identifier_chain-AreBound :
        (curr : Node) (ids : List Node) (bindings : Bindings Node)
        → AreBound bindings
        → AreBound (resolve_identifier_chain ast tables curr ids bindings)
    unfolding resolve_identifier_chain
    identifier_chain-AreBound curr [] bindings h = h
    identifier_chain-AreBound curr (id ∷ ids) bindings h =
        let c = type_binding ast tables curr bindings in
        let members = members_named ast tables (ast.text id) (lookup c tables) in
        elim (Option-cases (first_typed ast tables members)) [
          | inl absent ↦
              let step : resolve_identifier_chain ast tables curr (id ∷ ids) bindings ≡ bindings =
                ground arith in
              subst AreBound (sym step) h
          | inr (m, there) ↦
              let later = put id m bindings in
              let decl = bound_type ast tables later (ast.prev is_class_type m) in
              let goes_on =
                is_class_type (ast.kind (ast.prev is_some_type m)) && ast.is_valid decl in
              let found =
                put-AreBound id m bindings
                  (members_named-Names (ast.text id) c m (first_typed_member members m there)) h in
              let step : resolve_identifier_chain ast tables curr (id ∷ ids) bindings ≡ (
                  if goes_on then resolve_identifier_chain ast tables decl ids later else later) =
                ground arith in
              subst AreBound (sym step) (elim (Bool-cases goes_on) [
                | inl on ↦ rw on (identifier_chain-AreBound decl ids later found)
                | inr off ↦ rw off found
              ])
        ]
