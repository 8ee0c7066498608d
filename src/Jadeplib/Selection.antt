-- ===== src/Jadeplib/Selection.antt =====
-- jadeplib/UserInteractionHandler.go: the user chooses the dependencies to add.
--
-- The input is the sequence of the lines that are read. Of a line the code sees that the input has
-- ended, that the line cannot be scanned, as an empty one, or what strconv.Atoi makes of it.
-- An index out of range is `panicked`.
pub mod Safe
pub mod Tests
use tools_jvm_autodeps.Base.{
  ℕ, zero, suc, Bool, false, ◌||◌, Option, none, some, List, [], ◌∷◌, ◌++◌, leb, if◌then◌else◌,
  length, get_elem?, ℤ, Eq, ◌==◌, nat_eq, text_eq, negsuc, pos,
}
use tools_jvm_autodeps.GoMap.{GoMap, contains, add, put}
use tools_jvm_autodeps.Bazel.{Label}
use tools_jvm_autodeps.PkgLoading.{Result, ok, err, ◌>>=◌}
use tools_jvm_autodeps.Jadeplib.{ClassName}
use tools_jvm_autodeps.Jadeplib.Missing.{Missing}

pub data Read : Type 0 where
  eof : Read
  scan_error : Read
  word : Option ℤ → Read

pub data Failure : Type 0 where
  read_failed : Failure
  panicked : Failure

-- the loop of ask, over `n` options; `none` is the error
pub ask_loop : ℕ → List Read → Option ℕ × List Read
ask_loop n [] = (none, [])
ask_loop n (eof ∷ input) = (none, input)
ask_loop n (scan_error ∷ input) = (some 1, input)
ask_loop n (word none ∷ input) = ask_loop n input
ask_loop n (word (some (negsuc k)) ∷ input) = ask_loop n input
ask_loop n (word (some (pos k)) ∷ input) =
    let again = ask_loop n input in if leb k n then (some k, input) else again

-- ask
pub ask : List Read → ℕ → Option ℕ × List Read
unfolding ask_loop
ask input n = if n == 1 then (some 1, input) else ask_loop n input

-- depAlreadySatisfied
pub dep_already_satisfied : List Label → List Label → Bool
dep_already_satisfied added [] = false
dep_already_satisfied added (rule ∷ rules) =
    contains rule added || dep_already_satisfied added rules

-- `addedDeps`, `depsToAdd[rule]` and the rest of the input
pub record Choosing : Type 0 where
  pub added_deps : List Label
  pub deps_to_add : List Label
  pub input : List Read

abbrev pub chosen : List Read → Choosing → Option Label → Result Failure Choosing
chosen input s none = err panicked
chosen input s (some d) = ok (record {
  added_deps = add d s.added_deps;
  deps_to_add = s.deps_to_add ++ d ∷ [];
  input = input;
})

-- what follows the answer of ask
abbrev pub answered : List Label → Choosing → Option ℕ × List Read → Result Failure Choosing
answered rules s (none, input) = err read_failed
answered rules s (some zero, input) = ok (record s { input = input })
answered rules s (some (suc i), input) = chosen input s (get_elem? rules i)

-- The suggestion is `rules[0]`.
pub offer_options : List Label → Choosing → Result Failure Choosing
offer_options [] s = err panicked
offer_options (r ∷ rules) s = answered (r ∷ rules) s (ask s.input (length (r ∷ rules)))

-- one turn of the loop over the classes
pub turn : List Label → Choosing → Result Failure Choosing
turn rules s = if dep_already_satisfied s.added_deps rules then ok s else offer_options rules s

-- the loop over the classes of one rule
pub select_classes : GoMap ClassName (List Label) → Choosing → Result Failure Choosing
select_classes [] s = ok s
select_classes ((cls, rules) ∷ class_to_rules) s = do
  t ← turn rules s
  select_classes class_to_rules t

module _ {Ref : Type 0} ⦃e : Eq Ref⦄ where
  -- A rule for which nothing is chosen has no entry.
  abbrev pub put_chosen : Ref → List Label → GoMap Ref (List Label) → GoMap Ref (List Label)
  put_chosen r [] deps_to_add = deps_to_add
  put_chosen r (d ∷ ds) deps_to_add = put r (d ∷ ds) deps_to_add

  pub select_loop :
      GoMap Ref (List Label) → List Read → Missing Ref → Result Failure (GoMap Ref (List Label))
  select_loop deps_to_add input [] = ok deps_to_add
  select_loop deps_to_add input ((r, class_to_rules) ∷ missing) = do
    s ← select_classes class_to_rules (record { added_deps = []; deps_to_add = []; input = input })
    select_loop (put_chosen r s.deps_to_add deps_to_add) s.input missing

  -- SelectDepsToAdd
  pub select_deps_to_add : List Read → Missing Ref → Result Failure (GoMap Ref (List Label))
  unfolding select_loop select_classes
  select_deps_to_add = select_loop []
