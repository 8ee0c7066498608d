-- ===== src/GrpcLoader/Dial/Ends.antt =====
-- The loop of attemptDial ends.
use tools_jvm_autodeps.Base.{
  ℕ, zero, suc, ◌+◌, ◌-◌, ◌≤◌, ◌<◌, ◌≡◌, refl, ap, ◌≢◌, ◌⊎◌, inl, inr, arith, ltb, Bool-cases, Text,
  nat_eq, text_eq,
}
use tools_jvm_autodeps.PkgLoading.{err}
use tools_jvm_autodeps.GrpcLoader.Dial.{
  DialAnswer, connected, deadline_exceeded, refused, Env, dialed, Run, out_of_fuel, did,
  attempt_dial,
}

module _ {W Conn Proc : Type 0} (env : Env W Conn Proc) where
  -- grpc.Dial with the options WithBlock and WithTimeout: a dial that exceeds its deadline takes
  -- time.
  abbrev pub DeadlineTakesTime : Type 0
  DeadlineTakesTime =
      (addr : Text) (w w' : W)
      → env.dial addr w ≡ (deadline_exceeded, w')
      → env.clock w < env.clock w'

  pub DialAnswer-cases :
      (a : DialAnswer Conn)
      → ((c : Conn) × (a ≡ connected c)) ⊎ ((a ≡ refused) ⊎ (a ≡ deadline_exceeded))
  DialAnswer-cases (connected c) = inl (c, refl)
  DialAnswer-cases refused = inr (inl refl)
  DialAnswer-cases deadline_exceeded = inr (inr refl)

  attempt_dial_fuel :
      DeadlineTakesTime
      → (fuel : ℕ) (addr : Text) (begun timeout : ℕ) (s : Run W) → begun ≤ env.clock s.world
      → timeout < fuel + (env.clock s.world - begun)
      → 0 < fuel
      → (attempt_dial env fuel addr begun timeout s).0 ≢ err out_of_fuel
  unfolding attempt_dial
  attempt_dial_fuel slow zero addr begun timeout s b h p = ground arith
  attempt_dial_fuel slow (suc fuel) addr begun timeout s b h p =
      elim (Bool-cases (ltb (env.clock s.world - begun) timeout)) [
        | inr over ↦ λ e. ground arith
        | inl within ↦ elim (DialAnswer-cases (env.dial addr s.world).0) [
          | inl (c, a) ↦ λ e. ground arith
          | inr (inl a) ↦ λ e. ground arith
          | inr (inr a) ↦ λ e.
              let w = (env.dial addr s.world).1 in
              let later : env.clock s.world < env.clock w =
                slow addr s.world w (ap (λ a. (a, w)) a) in
              let left : timeout < fuel + (env.clock w - begun) = ground arith in
              let in_time : env.clock s.world - begun < timeout = ground arith in
              attempt_dial_fuel slow fuel addr begun timeout (did env (dialed addr) w s)
                (omega (arith, b, later)) left (omega (arith, h, in_time)) (ground arith)
        ]
      ]

  -- Where a dial that exceeds its deadline takes time, attemptDial ends: it dials at most once more
  -- than there are units of time in the timeout.
  pub attempt_dial_ends :
      DeadlineTakesTime
      → (addr : Text) (timeout : ℕ) (s : Run W)
      → (attempt_dial env (suc timeout) addr (env.clock s.world) timeout s).0 ≢ err out_of_fuel
  attempt_dial_ends slow addr timeout s =
      attempt_dial_fuel slow (suc timeout) addr (env.clock s.world) timeout s (omega arith)
        (omega arith) (omega arith)
