-- ===== src/FsResolver/Provided.antt =====
-- What a file is resolved to: the rules that provide it, and those that export or group them.
use tools_jvm_autodeps.Base.{
  ◌≤◌, ◌≡◌, refl, sym, ap, ◌∙◌, Bool, false, ◌↔◌, true, Option, none, some, List, [], ◌∷◌, ◌++◌,
  if◌then◌else◌, append-nil, append_assoc, Text, text_beq_iff, nat_eq, text_eq,
}
use tools_jvm_autodeps.GoMap.{GoMap, contains, lookup, get, put, get-put}
use tools_jvm_autodeps.Graphs.Post.{Reach, here, edge, occurrences}
use tools_jvm_autodeps.Graphs.Ends.{dfs_visits}
use tools_jvm_autodeps.Bazel.{Rule, Package}
use tools_jvm_autodeps.Filter.{java_dependency_rule_kinds}
use tools_jvm_autodeps.Jadeplib.{ClassName}
use tools_jvm_autodeps.FsResolver.{append_rule, add_rules, add_nodes, add_package}
use tools_jvm_autodeps.FsResolver.Edges.{provides, has_edge-add_rules}

module _ {Ref : Type 0} (deref : Ref → Rule) where
  -- the sources that a chain of rules leads to, from the file
  pub data Provided (rules : GoMap Text Ref) (file : Text) : Text → Text → Type 0 where
    start : {u : Text} → Provided rules file u u
    through :
        {u v w : Text}
        → provides deref rules file rules u v ≡ true
        → Provided rules file v w
        → Provided rules file u w

  -- the rules of Java kinds that the nodes name
  abbrev java_rule : Option Ref → List Ref
  java_rule none = []
  java_rule (some r) = if contains (deref r).schema java_dependency_rule_kinds then r ∷ [] else []

  abbrev pub java_rules : GoMap Text Ref → List Text → List Ref
  java_rules rules [] = []
  java_rules rules (node ∷ nodes) = java_rule (lookup node rules) ++ java_rules rules nodes

  get-append_if :
      (kept : Bool) (cls : ClassName) (r : Ref) (result : GoMap ClassName (List Ref))
      → get [] cls (if kept then put cls (get [] cls result ++ r ∷ []) result else result)
        ≡ get [] cls result ++ (if kept then r ∷ [] else [])
  get-append_if false cls r result = sym (append-nil (get [] cls result))
  get-append_if true cls r result =
      get-put [] cls cls (get [] cls result ++ r ∷ []) result
      ∙ ap (λ b. if b then get [] cls result ++ r ∷ [] else get [] cls result)
          ((text_beq_iff cls cls).1 refl)

  get-append_rule :
      (cls : ClassName) (r : Option Ref) (result : GoMap ClassName (List Ref))
      → get [] cls (append_rule deref cls r result) ≡ get [] cls result ++ java_rule r
  get-append_rule cls none result = sym (append-nil (get [] cls result))
  get-append_rule cls (some r) result =
      get-append_if (contains (deref r).schema java_dependency_rule_kinds) cls r result

  get-add_nodes :
      (rules : GoMap Text Ref) (cls : ClassName) (result : GoMap ClassName (List Ref))
      → (nodes : List Text)
      → get [] cls (add_nodes deref rules cls result nodes)
        ≡ get [] cls result ++ java_rules rules nodes
  unfolding add_nodes
  get-add_nodes rules cls result [] = sym (append-nil (get [] cls result))
  get-add_nodes rules cls result (node ∷ nodes) =
      let kept = java_rule (lookup node rules) in
      get-add_nodes rules cls (append_rule deref cls (lookup node rules) result) nodes
      ∙ ap (λ l. l ++ java_rules rules nodes) (get-append_rule cls (lookup node rules) result)
      ∙ append_assoc (get [] cls result) kept (java_rules rules nodes)

  Provided-of_Reach :
      (rules : GoMap Text Ref) (file : Text) {u w : Text}
      → Reach (add_rules deref rules file [] rules) u w
      → Provided rules file u w
  Provided-of_Reach rules file here = start
  Provided-of_Reach rules file (edge {u} {v} h path) =
      through (sym (has_edge-add_rules deref rules file [] rules u v) ∙ h)
        (Provided-of_Reach rules file path)

  Reach-of_Provided :
      (rules : GoMap Text Ref) (file : Text) {u w : Text}
      → Provided rules file u w
      → Reach (add_rules deref rules file [] rules) u w
  Reach-of_Provided rules file start = here
  Reach-of_Provided rules file (through {u} {v} h path) =
      edge (has_edge-add_rules deref rules file [] rules u v ∙ h)
        (Reach-of_Provided rules file path)

  -- Where the graph of a package is searched for a file, the search ends. The class gets, behind the
  -- rules that it had, exactly the rules of Java kinds whose names a chain leads to from the file:
  -- each link is a rule of the package that has the file or a file group among its sources, or
  -- exports the link before. Each name is taken once.
  pub add_package-Provided :
      (pkg : Package Ref) (file : Text) (cls : ClassName) (result : GoMap ClassName (List Ref))
      → (later : GoMap ClassName (List Ref)) × (nodes : List Text) × (add_package deref pkg file cls
            result
          ≡ some later)
        × (get [] cls later ≡ get [] cls result ++ java_rules pkg.rules nodes)
        × ((x : Text) → (contains x nodes ≡ true) ↔ Provided pkg.rules file file x)
        × ((x : Text) → occurrences x nodes ≤ 1)
  unfolding add_package
  add_package-Provided pkg file cls result =
      let (nodes, ends, reached, once) =
        dfs_visits (add_rules deref pkg.rules file [] pkg.rules) file in
      (
        add_nodes deref pkg.rules cls result nodes,
        nodes,
        ap
            (λ answer. elim answer [
              | none ↦ none
              | some l ↦ some (add_nodes deref pkg.rules cls result l)
            ])
            ends,
        get-add_nodes pkg.rules cls result nodes,
        λ x. (
          λ h. Provided-of_Reach pkg.rules file ((reached x).0 h),
          λ p. (reached x).1 (Reach-of_Provided pkg.rules file p),
        ),
        once,
      )
