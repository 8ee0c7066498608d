-- ===== src/PkgLoading/Caching.antt =====
-- CachingLoader of pkgloading/pkgloading.go.
--
-- An entry is made once and never taken out of the cache, so a pointer to an entry is the name of its
-- package. `load` is one call with no other beside it; `advance` is the same call cut at the points
-- where other calls can come between, and `Step` interleaves any number of calls.
pub mod Entries
pub mod Once
pub mod Progress
pub mod Ends
pub mod Tests
use mathlib.Core.Option
use tools_jvm_autodeps.Base.{
  ◌≡◌, Option, none, some, List, [], ◌∷◌, ◌++◌, map, if◌then◌else◌, is_some, Text, nat_eq, text_eq,
}
use tools_jvm_autodeps.GoMap.{GoMap, lookup, put}
use tools_jvm_autodeps.Bazel.{Package}
use tools_jvm_autodeps.PkgLoading.{Result, ok, err, Loader, Packages}

module _ (E Ref : Type 0) where
  -- result
  pub record Res : Type 0 where
    pub value : Option (Package Ref)
    pub error : Option E

  -- entry: `ready` is closed or not
  pub data Entry : Type 0 where
    pending : Entry
    ready : Res → Entry

  abbrev pub Cache : Type 0
  Cache = GoMap Text Entry

  -- The places of a call where another one may come between: before the lock, with the lock
  -- released, filling the entries that it made, waiting for those that it asked for, and done.
  pub data Phase : Type 0 where
    calling : List Text → Phase
    loading : List Text → List Text → Phase
    filling : List Text → Result E (Packages Ref) → List Text → Phase
    waiting : List Text → Packages Ref → List E → Phase
    returned : Packages Ref → List E → Phase

  -- `log` holds the requests that were made of the underlying loader, the oldest first.
  pub record System : Type 0 where
    pub cache : Cache
    pub log : List (List Text)
    pub calls : List Phase

-- one turn of the loop over `all`, behind `<-e.ready`
module _ {Ref : Type 0} where
  abbrev pub add_value : Text → Option (Package Ref) → Packages Ref → Packages Ref
  add_value p none result = result
  add_value p (some pkg) result = put p pkg result

module _ {E : Type 0} where
  abbrev pub add_error : Option E → List E → List E
  add_error none errors = errors
  add_error (some e) errors = errors ++ e ∷ []

module _ {E Ref : Type 0} where
  -- the loop under the lock: the entries that this call makes are its `work`
  pub reserve : Cache E Ref → List Text → Cache E Ref × List Text
  reserve c [] = (c, [])
  reserve c (p ∷ ps) =
      let made = reserve (put p pending c) ps in
      let found = reserve c ps in if is_some (lookup p c) then found else (made.0, p ∷ made.1)

  -- `e.res.value = result[e.pkgName]; e.res.err = err`
  abbrev pub res_of : Result E (Packages Ref) → Text → Res E Ref
  res_of (ok pkgs) p = record { value = lookup p pkgs; error = none }
  res_of (err e) p = record { value = none; error = some e }

  -- one turn of the loop over `work`, which ends with `close(e.ready)`
  abbrev pub fill : Result E (Packages Ref) → Text → Cache E Ref → Cache E Ref
  fill r p c = put p (ready (res_of r p)) c

  -- a blocked receive is `none`
  abbrev pub receive : Option (Entry E Ref) → Option (Res E Ref)
  receive (some (ready r)) = some r
  receive _ = none

  -- the next piece of a call, where the underlying loader answers `answer`; `none` where it is
  -- blocked or done
  pub advance :
      Loader E Ref
      → Cache E Ref
      → List (List Text)
      → Phase E Ref
      → Option (Cache E Ref × List (List Text) × Phase E Ref)
  advance answer c log (calling ps) = some ((reserve c ps).0, log, loading (reserve c ps).1 ps)
  advance answer c log (loading [] all) = some (c, log, waiting all [] [])
  advance answer c log (loading (p ∷ work) all) =
      some (c, log ++ (p ∷ work) ∷ [], filling (p ∷ work) (answer (p ∷ work)) all)
  advance answer c log (filling [] r all) = some (c, log, waiting all [] [])
  advance answer c log (filling (p ∷ work) r all) = some (fill r p c, log, filling work r all)
  advance answer c log (waiting [] result errors) = some (c, log, returned result errors)
  advance answer c log (waiting (p ∷ all) result errors) = elim (receive (lookup p c)) [
    | some r ↦ some (c, log, waiting all (add_value p r.value result) (add_error r.error errors))
    | none ↦ none
  ]
  advance answer c log (returned result errors) = none

  -- One call goes on by one piece, the others stay. The underlying loader may answer the same
  -- request differently each time.
  pub data Step (s t : System E Ref) : Type 0 where
    step :
        (answer : Loader E Ref) (before after : List (Phase E Ref)) (ph ph' : Phase E Ref)
        → s.calls ≡ before ++ ph ∷ after
        → advance answer s.cache s.log ph ≡ some (t.cache, t.log, ph')
        → t.calls ≡ before ++ ph' ∷ after
        → Step s t

  -- any number of calls of Load on a new loader
  abbrev pub init : List (List Text) → System E Ref
  init requests = record { cache = []; log = []; calls = map calling requests }

  pub data Reachable (requests : List (List Text)) : System E Ref → Type 0 where
    begin : Reachable requests (init requests)
    next : {s t : System E Ref} → Reachable requests s → Step s t → Reachable requests t

  -- one call alone
  pub fill_all : Result E (Packages Ref) → List Text → Cache E Ref → Cache E Ref
  fill_all r [] c = c
  fill_all r (p ∷ work) c = fill_all r work (fill r p c)

  -- `none` is a call that waits for ever
  pub gather : Cache E Ref → List Text → Packages Ref → List E → Option (Packages Ref × List E)
  gather c [] result errors = some (result, errors)
  gather c (p ∷ all) result errors = elim (receive (lookup p c)) [
    | some r ↦ gather c all (add_value p r.value result) (add_error r.error errors)
    | none ↦ none
  ]

  abbrev pub finish : Packages Ref → List E → Result (List E) (Packages Ref)
  finish result [] = ok result
  finish result (e ∷ errors) = err (e ∷ errors)

  abbrev pub fill_work : Loader E Ref → List Text → Cache E Ref → Cache E Ref
  fill_work load [] c = c
  fill_work load (p ∷ work) c = fill_all (load (p ∷ work)) (p ∷ work) c

  -- Load, with the cache that it leaves
  pub cached_load :
      Loader E Ref → Cache E Ref → List Text → Cache E Ref × Option (Result (List E) (Packages Ref))
  cached_load load c packages =
      let (c', work) = reserve c packages in
      let c'' = fill_work load work c' in
      (c'', Option.map (λ (result, errors). finish result errors) (gather c'' packages [] []))
