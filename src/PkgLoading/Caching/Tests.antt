-- ===== src/PkgLoading/Caching/Tests.antt =====
-- Two calls of Load for the same package, interleaved.
use mathlib.Core.WellFounded.{Acc}
use tools_jvm_autodeps.Base.{ℕ, ◌≤◌, refl, List, [], ◌∷◌, Text, nat_eq, text_eq, ◌⊎◌, ◌≡◌, true}
use tools_jvm_autodeps.PkgLoading.{err, Loader}
use tools_jvm_autodeps.PkgLoading.Caching.{
  calling, loading, filling, System, Step, step, Reachable, begin, next, init, pending, reserve,
  advance,
}
use tools_jvm_autodeps.PkgLoading.Caching.Entries.{count_log}
use tools_jvm_autodeps.PkgLoading.Caching.Ends.{Later, all_returned, load_returns}
use tools_jvm_autodeps.PkgLoading.Caching.Once.{requested_once}

abbrev foo : Text
foo = 102 ∷ []

abbrev requests : List (List Text)
requests = (foo ∷ []) ∷ (foo ∷ []) ∷ []

abbrev failing : Loader ℕ ℕ
failing ps = err 7

abbrev s1 : System ℕ ℕ
s1 = record {
  cache = (foo, pending) ∷ [];
  log = [];
  calls = loading (foo ∷ []) (foo ∷ []) ∷ calling (foo ∷ []) ∷ [];
}

abbrev s2 : System ℕ ℕ
s2 = record {
  cache = (foo, pending) ∷ [];
  log = [];
  calls = loading (foo ∷ []) (foo ∷ []) ∷ loading [] (foo ∷ []) ∷ [];
}

abbrev s3 : System ℕ ℕ
s3 = record {
  cache = (foo, pending) ∷ [];
  log = (foo ∷ []) ∷ [];
  calls = filling (foo ∷ []) (err 7) (foo ∷ []) ∷ loading [] (foo ∷ []) ∷ [];
}

step1 : Step (init requests) s1
unfolding reserve advance
step1 =
    step failing [] (calling (foo ∷ []) ∷ []) (calling (foo ∷ [])) (loading (foo ∷ []) (foo ∷ []))
      refl refl refl

step2 : Step s1 s2
unfolding reserve advance
step2 =
    step failing (loading (foo ∷ []) (foo ∷ []) ∷ []) [] (calling (foo ∷ []))
      (loading [] (foo ∷ [])) refl refl refl

step3 : Step s2 s3
unfolding reserve advance
step3 =
    step failing [] (loading [] (foo ∷ []) ∷ []) (loading (foo ∷ []) (foo ∷ []))
      (filling (foo ∷ []) (err 7) (foo ∷ [])) refl refl refl

s3-Reachable : Reachable requests s3
s3-Reachable = next (next (next begin step1) step2) step3

requested_once_example : count_log foo s3.log ≤ 1
requested_once_example = requested_once requests s3 s3-Reachable foo

load_returns_example :
    Acc Later s3 × (((t : System ℕ ℕ) × Step s3 t) ⊎ (all_returned s3.calls ≡ true))
load_returns_example = load_returns requests s3 s3-Reachable
