-- ===== src/Jadeplib.antt =====
-- resolveAll of jadeplib/jadeplib.go, and what the parts of the package share.
--
-- A rule is a reference, as in the packages. A resolver returns what it resolved and perhaps an
-- error; resolveAll uses what it resolved also where there is an error.
pub mod Partition
pub mod Missing
pub mod Selection
pub mod Names
pub mod Files
pub mod Tests
use tools_jvm_autodeps.Base.{ℕ, suc, Option, none, some, List, [], ◌∷◌, ◌++◌, Text, nat_eq, text_eq}
use tools_jvm_autodeps.GoMap.{GoMap, add, get, put, remove}
use tools_jvm_autodeps.Sorting.{sort_by, text_less}
use tools_jvm_autodeps.Bazel.{Label}

abbrev pub ClassName : Type 0
ClassName = Text

-- the map from each rule that is to be fixed to the set of its dependencies
abbrev pub DepsOfRules : Type 0
DepsOfRules = GoMap Label (List Label)

abbrev pub Resolver : Type 0 → Type 0 → Type 0
Resolver E Ref = List ClassName → DepsOfRules → GoMap ClassName (List Ref) × Option E

-- `resultResolved`, `resultUnresolved` and `resultErrors`, where a resolver is known by its place
pub record Resolving (E Ref : Type 0) : Type 0 where
  pub resolved : GoMap ClassName (List Ref)
  pub unresolved : List ClassName
  pub errors : GoMap ℕ E

module _ {E : Type 0} where
  abbrev pub add_resolver_error : ℕ → Option E → GoMap ℕ E → GoMap ℕ E
  add_resolver_error i none errors = errors
  add_resolver_error i (some error) errors = put i error errors

-- `for _, c := range classNames { resultUnresolved[c] = true }`
pub all_names : List ClassName → List ClassName → List ClassName
all_names unresolved [] = unresolved
all_names unresolved (c ∷ class_names) = all_names (add c unresolved) class_names

module _ {Ref : Type 0} where
  -- `for _, r := range rules { resultResolved[cls] = append(resultResolved[cls], r) }`
  pub append_rules : ClassName → List Ref → GoMap ClassName (List Ref) → GoMap ClassName (List Ref)
  append_rules cls [] resolved = resolved
  append_rules cls (r ∷ rules) resolved =
      append_rules cls rules (put cls (get [] cls resolved ++ r ∷ []) resolved)

module _ {E Ref : Type 0} where
  -- `for cls, rules := range resolved`
  pub take_answers : Resolving E Ref → GoMap ClassName (List Ref) → Resolving E Ref
  take_answers s [] = s
  take_answers s ((cls, rules) ∷ answers) =
      take_answers
        (record s {
          resolved = append_rules cls rules s.resolved;
          unresolved = remove cls s.unresolved;
        })
        answers

  -- one turn of the loop over the resolvers
  pub stage : DepsOfRules → ℕ → Resolver E Ref → Resolving E Ref → Resolving E Ref
  unfolding take_answers append_rules
  stage deps i resolver s =
      let (answers, error) = resolver s.unresolved deps in
      take_answers (record s { errors = add_resolver_error i error s.errors }) answers

  pub resolve_loop : DepsOfRules → ℕ → List (Resolver E Ref) → Resolving E Ref → Resolving E Ref
  resolve_loop deps i [] s = s
  resolve_loop deps i (resolver ∷ resolvers) s = elim s.unresolved [
    | [] ↦ s
    | _ ∷ _ ↦ resolve_loop deps (suc i) resolvers (stage deps i resolver s)
  ]

  -- resolveAll
  pub resolve_all : List (Resolver E Ref) → List ClassName → DepsOfRules → Resolving E Ref
  resolve_all resolvers class_names deps =
      let s =
        resolve_loop deps 0 resolvers
          (record { resolved = []; unresolved = all_names [] class_names; errors = [] }) in
      record s { unresolved = sort_by text_less s.unresolved }
