-- ===== src/Parser/Xrefs/Lexical.antt =====
-- resolveTypes against lexical scoping: the scopes are passed down, and no stack is kept.
use tools_jvm_autodeps.Base.{
  ℕ, zero, suc, ◌≡◌, refl, ap, subst, ◌∙◌, inl, inr, Option, none, some, List, [], ◌∷◌, arith,
  if◌then◌else◌, drop, Bool-cases, Option-cases, Eq, Text, nat_eq, text_eq,
}
use tools_jvm_autodeps.GoMap.{lookup, put, get-some}
use tools_jvm_autodeps.PkgLoading.{Result, ok, err, ◌>>=◌, Result-cases}
use tools_jvm_autodeps.Parser.Ast.{Kind, Ast}
use tools_jvm_autodeps.Parser.Xrefs.{
  Stop, panics, out_of_fuel, SymbolTable, new_table, walk_all, walk,
}
use tools_jvm_autodeps.Parser.Xrefs.Tables.{Tables, is_container}
use tools_jvm_autodeps.Parser.Xrefs.Scopes.{
  Scope, of_container, Bindings, type_in_scope, resolve_type_chain,
}
use tools_jvm_autodeps.Parser.Xrefs.Resolve.{
  State, has_table, push_scope, enter, leave, bind_type, on_type_name, before_types, resolve_types,
}

-- what a type name stands for at a place
abbrev pub Env : Type 0 → Type 0
Env Node = Text → Node

module _ {Node : Type 0} ⦃e : Eq Node⦄ (ast : Ast Node) (tables : Tables Node) where
  -- the types of a container hide those around it
  abbrev hides : Option (SymbolTable Node) → Env Node → Env Node
  hides none env id = env id
  hides (some st) env id = elim (lookup id st.types) [ some n ↦ n | none ↦ env id ]

  abbrev pub inside_of : Node → Env Node → Env Node
  inside_of n env = if is_container (ast.kind n) then hides (lookup n tables) env else env

  abbrev pub bind_ids : Env Node → List Node → Bindings Node → Result Stop (Bindings Node)
  bind_ids env [] bindings = err panics
  bind_ids env (id ∷ ids) bindings =
      let typ = env (ast.text id) in
      if ast.is_valid typ
      then ok (resolve_type_chain ast tables 0 typ ids (put id typ bindings)).2
      else ok bindings

  abbrev pub bind_name : Kind → Env Node → Node → Bindings Node → Result Stop (Bindings Node)
  bind_name Kind.java_type_name env n bindings =
      bind_ids env (ast.children_of_type Kind.java_identifier n) bindings
  bind_name _ env n bindings = ok bindings

  abbrev pub lexical_all :
      (Node → Bindings Node → Result Stop (Bindings Node))
      → List Node
      → Bindings Node
      → Result Stop (Bindings Node)
  lexical_all go [] bindings = ok bindings
  lexical_all go (n ∷ nodes) bindings = go n bindings >>= lexical_all go nodes

  -- the bindings of the type names below a node, in the scope that the node stands in
  abbrev pub lexical : ℕ → Env Node → Node → Bindings Node → Result Stop (Bindings Node)
  lexical zero env n bindings = err out_of_fuel
  lexical (suc fuel) env n bindings =
      bind_name (ast.kind n) (inside_of n env) n bindings
      >>= lexical_all (lexical fuel (inside_of n env)) (ast.children n)

module _ {Node : Type 0} ⦃e : Eq Node⦄ (ast : Ast Node) where
  -- the stack holds the scopes
  abbrev Holds : Env Node → State Node → Type 0
  Holds env s = (id : Text) → env id ≡ type_in_scope ast s.tables s.stack id

  -- the bindings in a state
  abbrev pub into : State Node → Result Stop (Bindings Node) → Result Stop (State Node)
  into s r = r >>= λ b. ok (record s { bindings = b })

  bind_ids-into :
      (env : Env Node) (ids : List Node) (s : State Node)
      → Holds env s
      → bind_type ast ids s ≡ into s (bind_ids ast s.tables env ids s.bindings)
  unfolding bind_type
  bind_ids-into env [] s h = refl
  bind_ids-into env (id ∷ ids) s h =
      elim (Bool-cases (ast.is_valid (type_in_scope ast s.tables s.stack (ast.text id)))) [
        | inl valid ↦ rw (h (ast.text id), valid) refl
        | inr unknown ↦ rw (h (ast.text id), unknown) refl
      ]

  on_type_name-into :
      (k : Kind) (env : Env Node) (n : Node) (s : State Node)
      → Holds env s
      → on_type_name ast k n s ≡ into s (bind_name ast s.tables k env n s.bindings)
  on_type_name-into Kind.java_type_name env n s h =
      bind_ids-into env (ast.children_of_type Kind.java_identifier n) s h
  on_type_name-into _ env n s h = refl

  enter-Holds :
      (env : Env Node) (n : Node) (s : State Node)
      → Holds env s
      → Holds (inside_of ast s.tables n env) (enter ast n s).0
  unfolding enter type_in_scope
  enter-Holds env n s h id = elim (Bool-cases (is_container (ast.kind n))) [
    | inr other ↦ rw other (h id)
    | inl container ↦ elim (Option-cases (lookup n s.tables)) [
      | inl absent ↦ rw (container, absent) (h id)
      | inr (st, there) ↦ elim (Option-cases (lookup id st.types)) [
        | inl outer ↦
            let past : type_in_scope ast s.tables (of_container n ∷ s.stack) id
                ≡ type_in_scope ast s.tables s.stack id =
              ground (arith, get-some new_table n st s.tables there) in
            rw (container, there, past) (ground (arith, h id))
        | inr (d, inner) ↦
            let hit : type_in_scope ast s.tables (of_container n ∷ s.stack) id ≡ d =
              ground (arith, get-some new_table n st s.tables there) in
            rw (container, there, hit) (ground arith)
      ]
    ]
  ]

  walk_all-into :
      (go : Node → State Node → Result Stop (State Node))
      (lex : Node → Bindings Node → Result Stop (Bindings Node)) (s : State Node)
      → ((n : Node) (b : Bindings Node) → go n (record s { bindings = b }) ≡ into s (lex n b))
      → (nodes : List Node) (b : Bindings Node)
      → walk_all ast (before_types ast) (leave ast) go nodes (record s { bindings = b })
        ≡ into s (lexical_all ast s.tables lex nodes b)
  unfolding walk_all
  walk_all-into go lex s same [] b = refl
  walk_all-into go lex s same (n ∷ nodes) b = elim (Result-cases (lex n b)) [
    | inl (c, e') ↦
        let one : go n (record s { bindings = b }) ≡ ok (record s { bindings = c }) =
          same n b ∙ ap (into s) e' in
        rw (one, e') (walk_all-into go lex s same nodes c)
    | inr (x, e') ↦
        let one : go n (record s { bindings = b }) ≡ err x = same n b ∙ ap (into s) e' in
        rw (one, e') refl
  ]

  -- one node, whose scopes are pushed and popped
  node-into :
      (fuel : ℕ) (env : Env Node) (n : Node) (s : State Node) (scopes : List (Scope Node)) (x : ℕ)
      → enter ast n s ≡ (record s { stack = scopes }, x)
      → drop x scopes ≡ s.stack
      → Holds env (record s { stack = scopes })
      → ((m : Node) (t : State Node)
          → Holds env t
          → walk ast (before_types ast) (leave ast) fuel m t
            ≡ into t (lexical ast t.tables fuel env m t.bindings))
      → walk ast (before_types ast) (leave ast) (suc fuel) n s
        ≡ into s (
            bind_name ast s.tables (ast.kind n) env n s.bindings
            >>= lexical_all ast s.tables (lexical ast s.tables fuel env) (ast.children n))
  unfolding walk before_types leave
  node-into fuel env n s scopes x entered back h below =
      let inner : State Node = record s { stack = scopes } in
      let named = on_type_name-into (ast.kind n) env n inner h in
      let go = walk ast (before_types ast) (leave ast) fuel in
      let lex = lexical ast s.tables fuel env in
      elim (Result-cases (bind_name ast s.tables (ast.kind n) env n s.bindings)) [
        | inr (stop, e') ↦
            let one : on_type_name ast (ast.kind n) n inner ≡ err stop =
              named ∙ ap (into inner) e' in
            rw (entered, one, e') refl
        | inl (b, e') ↦
            let one : on_type_name ast (ast.kind n) n inner ≡ ok (record inner { bindings = b }) =
              named ∙ ap (into inner) e' in
            let all =
              walk_all-into go lex inner (λ m c. below m (record inner { bindings = c }) h)
                (ast.children n) b in
            elim (Result-cases (lexical_all ast s.tables lex (ast.children n) b)) [
              | inr (stop, f) ↦ rw (entered, one, e', f, all ∙ ap (into inner) f) refl
              | inl (c, f) ↦
                  rw (entered, one, e', f, all ∙ ap (into inner) f)
                    (ap (λ k. ok (record s { stack = k; bindings = c })) back)
            ]
      ]

  walk-into :
      (fuel : ℕ) (env : Env Node) (n : Node) (s : State Node)
      → Holds env s
      → walk ast (before_types ast) (leave ast) fuel n s
        ≡ into s (lexical ast s.tables fuel env n s.bindings)
  unfolding enter
  walk-into zero env n s h = unfold walk in refl
  walk-into (suc fuel) env n s h =
      let held = enter-Holds env n s h in
      let below = walk-into fuel (inside_of ast s.tables n env) in
      elim (Bool-cases (has_table ast s n)) [
        | inl has ↦
            let entered : enter ast n s ≡ (push_scope ast (of_container n) s, 1) = rw has refl in
            node-into fuel (inside_of ast s.tables n env) n s (of_container n ∷ s.stack) 1 entered
              refl (subst (λ r. Holds (inside_of ast s.tables n env) r.0) entered held) below
        | inr lacks ↦
            let entered : enter ast n s ≡ (s, 0) = rw lacks refl in
            node-into fuel (inside_of ast s.tables n env) n s s.stack 0 entered refl
              (subst (λ r. Holds (inside_of ast s.tables n env) r.0) entered held) below
      ]

  -- resolveTypes is lexical scoping: the first identifier of each type name is looked up in the
  -- containers around the name, the closest first, and the others follow by resolveTypeChain. It fails
  -- exactly where that fails, and leaves no scope behind.
  pub resolve_types-eq-lexical :
      (fuel : ℕ) (root : Node) (tables : Tables Node)
      → resolve_types ast fuel root (record { tables = tables; stack = []; bindings = [] }) ≡ (
          lexical ast tables fuel (λ id. ast.invalid) root [] >>= λ bindings.
          ok (record { tables = tables; stack = []; bindings = bindings }))
  unfolding resolve_types type_in_scope
  resolve_types-eq-lexical fuel root tables =
      walk-into fuel (λ id. ast.invalid) root
        (record { tables = tables; stack = []; bindings = [] }) (λ id. refl)
