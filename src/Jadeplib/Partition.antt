-- ===== src/Jadeplib/Partition.antt =====
-- resolveAll parts the class names into the resolved and the unresolved ones.
use tools_jvm_autodeps.Base.{
  ℕ, suc, ◌≡◌, refl, sym, subst, ◌⊎◌, inl, inr, Bool, true, false, not, ◌&&◌, ◌||◌, none, List, [],
  ◌∷◌, ◌++◌, arith, is_some, List-cases, Bool-cases, ◌==◌, text_beq_iff, nat_eq, text_eq,
}
use tools_jvm_autodeps.GoMap.{
  GoMap, contains, add, lookup, get, put, lookup-put, contains-remove, contains-add, remove,
}
use tools_jvm_autodeps.Sorting.{text_less, contains-sort_by}
use tools_jvm_autodeps.Jadeplib.{
  ClassName, DepsOfRules, Resolver, Resolving, append_rules, take_answers, stage, resolve_loop,
  all_names, resolve_all, add_resolver_error,
}

abbrev is_empty {ℓ} : {A : Type ℓ} → List A → Bool
is_empty [] = true
is_empty (x ∷ xs) = false

-- An answer is for a class that was asked for.
abbrev pub IsAnswer : {Ref : Type 0} → List ClassName → GoMap ClassName (List Ref) → Type 0
IsAnswer names [] = Unit
IsAnswer names ((cls, rules) ∷ answers) = (contains cls names ≡ true) × IsAnswer names answers

-- whether a class is answered with no rule
abbrev pub has_empty : {Ref : Type 0} → ClassName → GoMap ClassName (List Ref) → Bool
has_empty c [] = false
has_empty c ((cls, rules) ∷ answers) = cls == c && is_empty rules || has_empty c answers

module _ {E Ref : Type 0} where
  abbrev pub Answers : List (Resolver E Ref) → Type 0
  Answers [] = Unit
  Answers (resolver ∷ resolvers) =
      ((names : List ClassName) (deps : DepsOfRules) → IsAnswer names (resolver names deps).0)
      × Answers resolvers

  -- One of the resolvers, asked for some classes, answers the class with no rule.
  pub data Silenced (deps : DepsOfRules) (c : ClassName) : List (Resolver E Ref) → Type 0 where
    by :
        {resolver : Resolver E Ref} {resolvers : List (Resolver E Ref)} (names : List ClassName)
        → has_empty c (resolver names deps).0 ≡ true
        → Silenced deps c (resolver ∷ resolvers)
    later :
        {resolver : Resolver E Ref} {resolvers : List (Resolver E Ref)}
        → Silenced deps c resolvers
        → Silenced deps c (resolver ∷ resolvers)

  -- The classes of the result are those that are asked for, and none is in both parts. One that is in
  -- neither is silenced.
  pub record Parted (class_names : List ClassName) (silenced : ClassName → Type 0)
      (s : Resolving E Ref) : Type 0 where
    pub inside :
        (c : ClassName)
        → (contains c s.unresolved || is_some (lookup c s.resolved)) ≡ true
        → contains c class_names ≡ true
    pub apart : (c : ClassName) → (contains c s.unresolved && is_some (lookup c s.resolved)) ≡ false
    pub covers :
        (c : ClassName)
        → contains c class_names ≡ true
        → ((contains c s.unresolved || is_some (lookup c s.resolved)) ≡ true) ⊎ silenced c

module _ {Ref : Type 0} where
  is_some-append_rules :
      (cls c : ClassName) (rules : List Ref) (resolved : GoMap ClassName (List Ref))
      → is_some (lookup c (append_rules cls rules resolved))
        ≡ (is_some (lookup c resolved) || cls == c && not (is_empty rules))
  unfolding append_rules
  is_some-append_rules cls c [] resolved = ground arith
  is_some-append_rules cls c (r ∷ rules) resolved =
      let more = get [] cls resolved ++ r ∷ [] in
      ground (
        arith,
        is_some-append_rules cls c rules (put cls more resolved),
        lookup-put cls c more resolved,
      )

module _ {E Ref : Type 0} where
  take_answers-Parted :
      (class_names names : List ClassName) (silenced : ClassName → Type 0) (s : Resolving E Ref)
      (answers : GoMap ClassName (List Ref))
      → ((c : ClassName) → contains c names ≡ true → contains c class_names ≡ true)
      → IsAnswer names answers
      → ((c : ClassName) → has_empty c answers ≡ true → silenced c)
      → Parted class_names silenced s
      → Parted class_names silenced (take_answers s answers)
  unfolding take_answers
  take_answers-Parted class_names names silenced s [] inside a quiet p = p
  take_answers-Parted class_names names silenced s ((cls, rules) ∷ answers) inside (k, a) quiet p =
      let known = λ (c : ClassName). is_some-append_rules cls c rules s.resolved in
      let left = λ (c : ClassName). contains-remove cls c s.unresolved in
      take_answers-Parted class_names names silenced
        (record s {
          resolved = append_rules cls rules s.resolved;
          unresolved = remove cls s.unresolved;
        })
        answers inside a (λ c h. quiet c (ground arith))
        (record {
          inside =
              λ c h. ground (arith, known c, left c, p.inside c, inside cls k, text_beq_iff cls c);
          apart = λ c. ground (arith, known c, left c, p.apart c);
          covers = λ c h. elim (Bool-cases (cls == c && is_empty rules)) [
            | inl empty ↦ inr (quiet c (ground arith))
            | inr full ↦ elim (p.covers c h) [
              | inl there ↦ inl (ground (arith, known c, left c))
              | inr quiet' ↦ inr quiet'
            ]
          ];
        })

  stage-Parted :
      (class_names : List ClassName) (silenced : ClassName → Type 0) (deps : DepsOfRules) (i : ℕ)
      (resolver : Resolver E Ref) (s : Resolving E Ref)
      → ((names : List ClassName) (deps : DepsOfRules) → IsAnswer names (resolver names deps).0)
      → ((c : ClassName) (names : List ClassName)
          → has_empty c (resolver names deps).0 ≡ true
          → silenced c)
      → Parted class_names silenced s
      → Parted class_names silenced (stage deps i resolver s)
  unfolding stage
  stage-Parted class_names silenced deps i resolver s a quiet p =
      take_answers-Parted class_names s.unresolved silenced
        (record s { errors = add_resolver_error i (resolver s.unresolved deps).1 s.errors })
        (resolver s.unresolved deps).0 (λ c h. p.inside c (ground arith)) (a s.unresolved deps)
        (λ c h. quiet c s.unresolved h)
        (record { inside = p.inside; apart = p.apart; covers = p.covers })

  resolve_loop-eq :
      (deps : DepsOfRules) (i : ℕ) (resolver : Resolver E Ref) (resolvers : List (Resolver E Ref))
      (s : Resolving E Ref)
      → (resolve_loop deps i (resolver ∷ resolvers) s ≡ s)
        ⊎ (resolve_loop deps i (resolver ∷ resolvers) s
            ≡ resolve_loop deps (suc i) resolvers (stage deps i resolver s))
  unfolding resolve_loop
  resolve_loop-eq deps i resolver resolvers s = elim (List-cases s.unresolved) [
    | inl e ↦ inl (rw e refl)
    | inr (x, xs, e) ↦ inr (rw e refl)
  ]

  resolve_loop-Parted :
      (class_names : List ClassName) (silenced : ClassName → Type 0) (deps : DepsOfRules) (i : ℕ)
      (resolvers : List (Resolver E Ref)) (s : Resolving E Ref)
      → Answers resolvers
      → ((c : ClassName) → Silenced deps c resolvers → silenced c)
      → Parted class_names silenced s
      → Parted class_names silenced (resolve_loop deps i resolvers s)
  resolve_loop-Parted class_names silenced deps i [] s a quiet p = unfold resolve_loop in p
  resolve_loop-Parted class_names silenced deps i (resolver ∷ resolvers) s (a, as_) quiet p =
      elim (resolve_loop-eq deps i resolver resolvers s) [
        | inl e ↦ subst (λ t. Parted class_names silenced t) (sym e) p
        | inr e ↦
            subst (λ t. Parted class_names silenced t) (sym e)
              (resolve_loop-Parted class_names silenced deps (suc i) resolvers
                (stage deps i resolver s) as_ (λ c h. quiet c (later h))
                (stage-Parted class_names silenced deps i resolver s a
                  (λ c names h. quiet c (by names h)) p))
      ]

contains-all_names :
    (unresolved class_names : List ClassName) (c : ClassName)
    → contains c (all_names unresolved class_names)
      ≡ (contains c unresolved || contains c class_names)
unfolding all_names
contains-all_names unresolved [] c = ground arith
contains-all_names unresolved (n ∷ class_names) c =
    ground (arith, contains-all_names (add n unresolved) class_names c, contains-add n c unresolved)

module _ {E Ref : Type 0} where
  -- Where the resolvers answer only what they are asked, the classes in the result of resolveAll are
  -- asked ones, and none is both resolved and unresolved. An asked class is one of the two, unless
  -- a resolver, asked for some classes, answers it with no rule.
  pub resolve_all-Parted :
      (resolvers : List (Resolver E Ref)) (class_names : List ClassName) (deps : DepsOfRules)
      → Answers resolvers
      → Parted class_names (λ c. Silenced deps c resolvers) (resolve_all resolvers class_names deps)
  unfolding resolve_all
  resolve_all-Parted resolvers class_names deps a =
      let s : Resolving E Ref = record {
        resolved = [];
        unresolved = all_names [] class_names;
        errors = [];
      } in
      let t = resolve_loop deps 0 resolvers s in
      let p : Parted class_names (λ c. Silenced deps c resolvers) t =
        resolve_loop-Parted class_names (λ c. Silenced deps c resolvers) deps 0 resolvers s a
          (λ c h. h)
          (record {
            inside = λ c h. ground (arith, contains-all_names [] class_names c);
            apart = λ c. ground arith;
            covers = λ c h. inl (ground (arith, contains-all_names [] class_names c));
          }) in
      let sorted = λ (c : ClassName). contains-sort_by text_less t.unresolved c in
      record {
        inside = λ c h. p.inside c (ground (arith, sorted c));
        apart = λ c. ground (arith, p.apart c, sorted c);
        covers = λ c h. elim (p.covers c h) [
          | inl there ↦ inl (ground (arith, sorted c))
          | inr quiet ↦ inr quiet
        ];
      }

  -- A class for which the only resolver answers that no rule has it is in neither result: it is
  -- not resolved, and it is not reported as unresolved.
  pub resolve_all_drops :
      (resolver : Resolver E Ref) (cls : ClassName) (deps : DepsOfRules)
      → (resolver (cls ∷ []) deps).0 ≡ (cls, []) ∷ []
      → (lookup cls (resolve_all (resolver ∷ []) (cls ∷ []) deps).resolved ≡ none)
        × (contains cls (resolve_all (resolver ∷ []) (cls ∷ []) deps).unresolved ≡ false)
  unfolding resolve_all resolve_loop stage take_answers append_rules all_names
  resolve_all_drops resolver cls deps h = (
    rw h refl,
    rw h (
        ground
          (arith, contains-sort_by text_less (remove cls (cls ∷ [])) cls, text_beq_iff cls cls)),
  )
