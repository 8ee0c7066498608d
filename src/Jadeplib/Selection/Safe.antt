-- ===== src/Jadeplib/Selection/Safe.antt =====
-- SelectDepsToAdd reads no index out of range, and adds only what was offered.
use tools_jvm_autodeps.Base.{
  ℕ, zero, suc, ◌≤◌, ◌<◌, ◌≡◌, refl, ◌∙◌, ◌≢◌, inl, inr, true, ◌||◌, Option, none, some, List, [],
  ◌∷◌, ◌++◌, arith, Bool-cases, length, get_elem?, Eq, text_beq_iff, nat_eq, text_eq, negsuc, pos,
}
use tools_jvm_autodeps.GoMap.{GoMap, contains, contains-concat, contains-append}
use tools_jvm_autodeps.Bazel.{Label}
use tools_jvm_autodeps.PkgLoading.{Result, ok, err, Result-cases}
use tools_jvm_autodeps.Jadeplib.Selection.{
  Read, eof, scan_error, word, Failure, panicked, ask_loop, ask, Choosing, answered, offer_options,
  select_classes, dep_already_satisfied, select_loop, select_deps_to_add, put_chosen, turn,
}
use tools_jvm_autodeps.Jadeplib.{ClassName}
use tools_jvm_autodeps.Jadeplib.Missing.{Missing}

ask_loop_le : (n k : ℕ) (input : List Read) → 1 ≤ n → (ask_loop n input).0 ≡ some k → k ≤ n
unfolding ask_loop
ask_loop_le n k [] p h = cc
ask_loop_le n k (eof ∷ input) p h = cc
ask_loop_le n k (scan_error ∷ input) p h = ground arith
ask_loop_le n k (word none ∷ input) p h = ask_loop_le n k input p h
ask_loop_le n k (word (some (negsuc j)) ∷ input) p h = ask_loop_le n k input p h
ask_loop_le n k (word (some (pos j)) ∷ input) p h = ground (arith, ask_loop_le n k input p)

-- ask returns an index of an option, counted from 1, or 0.
ask_le : (n k : ℕ) (input : List Read) → 1 ≤ n → (ask input n).0 ≡ some k → k ≤ n
unfolding ask
ask_le n k input p h = ground (arith, ask_loop_le n k input p)

get_elem?_total :
    (rules : List Label) (i : ℕ)
    → i < length rules
    → (d : Label) × (get_elem? rules i ≡ some d) × (contains d rules ≡ true)
get_elem?_total [] i h = ground arith
get_elem?_total (r ∷ rules) zero h = (r, refl, ground (arith, text_beq_iff r r))
get_elem?_total (r ∷ rules) (suc i) h =
    let (d, e, m) = get_elem?_total rules i (omega (arith, h)) in (d, e, ground arith)

-- What a turn of the loop over the classes may do: add one of the options, or nothing.
record Offered (rules : List Label) (s : Choosing) (result : Result Failure Choosing) : Type 0 where
  pub safe : result ≢ err panicked
  pub from_options :
      (t : Choosing) (d : Label)
      → result ≡ ok t
      → contains d t.deps_to_add ≡ true
      → (contains d s.deps_to_add || contains d rules) ≡ true

answered-Offered :
    (rules : List Label) (s : Choosing) (reply : Option ℕ × List Read)
    → ((k : ℕ) → reply.0 ≡ some k → k ≤ length rules)
    → Offered rules s (answered rules s reply)
answered-Offered rules s (none, input) h = record { safe = λ e. cc; from_options = λ t d e m. cc }
answered-Offered rules s (some zero, input) h = record {
  safe = λ e. cc;
  from_options = λ t d e m. ground arith;
}
answered-Offered rules s (some (suc i), input) h =
    let (d, e, m) = get_elem?_total rules i (omega (arith, h (suc i) refl)) in
    rw e (record {
      safe = λ e. cc;
      from_options = λ t x e k. ground (arith, contains-concat x d s.deps_to_add, text_beq_iff d x);
    })

offer_options-Offered :
    (rules : List Label) (s : Choosing) → rules ≢ [] → Offered rules s (offer_options rules s)
unfolding offer_options
offer_options-Offered [] s n = ground arith
offer_options-Offered (r ∷ rules) s n =
    answered-Offered (r ∷ rules) s (ask s.input (length (r ∷ rules)))
      (λ k h. ask_le (length (r ∷ rules)) k s.input (omega arith) h)

-- Every class has an option.
abbrev pub HasOptions : GoMap ClassName (List Label) → Type 0
HasOptions [] = Unit
HasOptions ((cls, rules) ∷ m) = (rules ≢ []) × HasOptions m

-- the options of all classes of a rule
abbrev pub options : GoMap ClassName (List Label) → List Label
options [] = []
options ((cls, rules) ∷ m) = rules ++ options m

turn-Offered : (rules : List Label) (s : Choosing) → rules ≢ [] → Offered rules s (turn rules s)
unfolding turn
turn-Offered rules s n = elim (Bool-cases (dep_already_satisfied s.added_deps rules)) [
  | inl has ↦ rw has (record { safe = λ e. cc; from_options = λ t d e m. ground arith })
  | inr lacks ↦ rw lacks (offer_options-Offered rules s n)
]

select_classes-Offered :
    (m : GoMap ClassName (List Label)) (s : Choosing)
    → HasOptions m
    → Offered (options m) s (select_classes m s)
unfolding select_classes
select_classes-Offered [] s h = record { safe = λ e. cc; from_options = λ t d e k. ground arith }
select_classes-Offered ((cls, rules) ∷ m) s (n, h) = elim (Result-cases (turn rules s)) [
  | inl (t, e) ↦
      let first = turn-Offered rules s n in
      let rest = select_classes-Offered m t h in
      rw e (record {
        safe = rest.safe;
        from_options = λ u d f k. ground (
          arith,
          rest.from_options u d f k,
          first.from_options t d e,
          contains-append d rules (options m),
        );
      })
  | inr (x, e) ↦
      let first = turn-Offered rules s n in
      rw e (record { safe = λ f. first.safe (e ∙ f); from_options = λ u d f k. cc })
]

module _ {Ref : Type 0} ⦃e : Eq Ref⦄ where
  abbrev pub AllOptions : Missing Ref → Type 0
  AllOptions [] = Unit
  AllOptions ((r, m) ∷ missing) = HasOptions m × AllOptions missing

  select_loop_safe :
      (deps_to_add : GoMap Ref (List Label)) (input : List Read) (missing : Missing Ref)
      → AllOptions missing
      → select_loop deps_to_add input missing ≢ err panicked
  unfolding select_loop
  select_loop_safe deps_to_add input [] h = λ e. cc
  select_loop_safe deps_to_add input ((r, m) ∷ missing) (n, h) =
      let s : Choosing = record { added_deps = []; deps_to_add = []; input = input } in
      elim (Result-cases (select_classes m s)) [
        | inl (t, e) ↦
            rw e (select_loop_safe (put_chosen r t.deps_to_add deps_to_add) t.input missing h)
        | inr (x, e) ↦ rw e (λ f. (select_classes-Offered m s n).safe (e ∙ stopped x f))
      ]
    where
      stopped :
          (x : Failure)
          → ◌≡◌ {A = Result Failure (GoMap Ref (List Label))} (err x) (err panicked)
          → ◌≡◌ {A = Result Failure Choosing} (err x) (err panicked)
      stopped x f = ground arith

  -- Where every missing class has an option, SelectDepsToAdd reads no option out of range, whatever
  -- the user types: neither its suggestion nor what the user chooses.
  pub select_deps_to_add_safe :
      (input : List Read) (missing : Missing Ref)
      → AllOptions missing
      → select_deps_to_add input missing ≢ err panicked
  unfolding select_deps_to_add
  select_deps_to_add_safe input missing h = select_loop_safe [] input missing h

-- For one rule, what SelectDepsToAdd adds is among the options of the missing classes.
pub select_classes_from :
    (m : GoMap ClassName (List Label)) (input : List Read) (t : Choosing) (d : Label)
    → HasOptions m
    → select_classes m (record { added_deps = []; deps_to_add = []; input = input }) ≡ ok t
    → contains d t.deps_to_add ≡ true
    → contains d (options m) ≡ true
select_classes_from m input t d h e k =
    (select_classes-Offered m (record { added_deps = []; deps_to_add = []; input = input })
        h).from_options
      t d e k
