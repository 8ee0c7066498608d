-- ===== src/Parser/Xrefs/Walk.antt =====
-- What holds of every walk.
use tools_jvm_autodeps.Base.{
  ℕ, zero, suc, ◌≡◌, refl, subst, Bool, true, false, List, [], ◌∷◌, arith, nat_eq, text_eq,
}
use tools_jvm_autodeps.PkgLoading.{Result, ok, >>=-eq-ok}
use tools_jvm_autodeps.Parser.Ast.{Ast}
use tools_jvm_autodeps.Parser.Xrefs.{Stop, walk_all, walk}

module _ {Node S : Type 0} (ast : Ast Node) (before : Node → S → Result Stop (S × ℕ))
    (after : Node → ℕ → S → S) where
  walk_all_keeps :
      (P : S → Type 0) (go : Node → S → Result Stop S)
      → ((n : Node) (s done : S) → P s → go n s ≡ ok done → P done)
      → (siblings : List Node) (s done : S) → P s
      → walk_all ast before after go siblings s ≡ ok done
      → P done
  unfolding walk_all
  walk_all_keeps P go keeps [] s done p h = subst P (cc) p
  walk_all_keeps P go keeps (child ∷ siblings) s done p h =
      let (later, rest, one) = >>=-eq-ok (go child s) _ h in
      walk_all_keeps P go keeps siblings later done (keeps child s later p one) rest

  -- What `before` and `after` keep, a walk keeps.
  pub walk_keeps :
      (P : S → Type 0)
      → ((n : Node) (s later : S) (x : ℕ) → P s → before n s ≡ ok (later, x) → P later)
      → ((n : Node) (x : ℕ) (s : S) → P s → P (after n x s))
      → (fuel : ℕ) (n : Node) (s done : S) → P s
      → walk ast before after fuel n s ≡ ok done
      → P done
  unfolding walk
  walk_keeps P first last zero n s done p h = cc
  walk_keeps P first last (suc fuel) n s done p h =
      let ((later, x), rest, one) = >>=-eq-ok (before n s) _ h in
      let (end, same, all) =
        >>=-eq-ok (walk_all ast before after (walk ast before after fuel) (ast.children n) later) _
          rest in
      let inside =
        walk_all_keeps P (walk ast before after fuel) (walk_keeps P first last fuel)
          (ast.children n) later end (first n s later x p one) all in
      subst P (cc) (last n x end inside)

abbrev pub AllWithin : {Node : Type 0} → (Node → Type 0) → List Node → Type 0
AllWithin P [] = Unit
AllWithin P (n ∷ nodes) = P n × AllWithin P nodes

-- The tree below a node has at most so many levels, and each node is as its place demands. A place
-- is a Boolean that `inside` passes down.
abbrev pub IsTree :
    {Node : Type 0}
    → Ast Node
    → (Bool → Node → Type 0)
    → (Bool → Node → Bool)
    → ℕ
    → Bool
    → Node
    → Type 0
IsTree ast Fits inside zero place n = ◌≡◌ {A = Bool} true false
IsTree ast Fits inside (suc levels) place n =
    Fits place n × AllWithin (IsTree ast Fits inside levels (inside place n)) (ast.children n)

-- `P` is what holds of the state at a place, and `Q` relates the states around a node.
module _ {Node S : Type 0} (ast : Ast Node) (before : Node → S → Result Stop (S × ℕ))
    (after : Node → ℕ → S → S) (Fits : Bool → Node → Type 0) (inside : Bool → Node → Bool)
    (P : Bool → S → Type 0) (Q : S → S → Type 0) (Q_refl : (s : S) → Q s s)
    (Q_trans : (s t u : S) → Q s t → Q t u → Q s u)
    (Q_keeps : (place : Bool) (s t : S) → P place s → Q s t → P place t)
    (goes : (place : Bool) (n : Node) (s : S)
      → Fits place n
      → P place s
      → (later : S) × (x : ℕ) × (before n s ≡ ok (later, x))
        × P (inside place n) later
        × ((done : S) → Q later done → Q s (after n x done))) where
  walk_all_total :
      (go : Node → S → Result Stop S) (T : Node → Type 0) (place : Bool)
      → ((n : Node) (s : S) → T n → P place s → (done : S) × (go n s ≡ ok done) × Q s done)
      → (siblings : List Node) (s : S) → AllWithin T siblings
      → P place s
      → (done : S) × (walk_all ast before after go siblings s ≡ ok done) × Q s done
  unfolding walk_all
  walk_all_total go T place total [] s all p = (s, refl, Q_refl s)
  walk_all_total go T place total (child ∷ siblings) s (one, all) p =
      let (later, ran, q) = total child s one p in
      let (done, rest, r) =
        walk_all_total go T place total siblings later all (Q_keeps place s later p q) in
      (done, ground arith, Q_trans s later done q r)

  -- A walk with as much fuel as the tree has levels returns.
  pub walk_total :
      (fuel : ℕ) (place : Bool) (n : Node) (s : S)
      → IsTree ast Fits inside fuel place n
      → P place s
      → (done : S) × (walk ast before after fuel n s ≡ ok done) × Q s done
  unfolding walk
  walk_total zero place n s tree p = cc
  walk_total (suc fuel) place n s (fits, all) p =
      let (later, x, ran, q, back) = goes place n s fits p in
      let go = walk ast before after fuel in
      let (done, rest, r) =
        walk_all_total go (IsTree ast Fits inside fuel (inside place n)) (inside place n)
          (walk_total fuel (inside place n)) (ast.children n) later all q in
      (after n x done, ground arith, back done r)
