-- ===== src/GrpcLoader/Dial/Fresh.antt =====
-- What dialAndStart connects to.
use tools_jvm_autodeps.Base.{
  ℕ, ◌≡◌, refl, sym, ap, ◌∙◌, subst, subst₂, ◌≢◌, ◌⊎◌, inl, inr, Bool, true, false, Option, none,
  some, [], ◌∷◌, ◌++◌, arith, Bool-cases, Option-cases, ◌==◌, Text, text_beq_iff, nat_eq, text_eq,
}
use tools_jvm_autodeps.PkgLoading.{Result, ok, err}
use tools_jvm_autodeps.GrpcLoader.Dial.{
  Kind, uds, localhost, unknown, DialAnswer, connected, deadline_exceeded, refused, VersionAnswer,
  rpc_failed, no_field, version, Env, dialed, started, asked_version, Run, DialFailure, Failure,
  did, attempt_dial, dial_addr, decimal, connected_to, start_server, shut, kill_server_if_old,
  with_proc, restart_if_killed, dialed_first, dial_and_start,
}

VersionAnswer-cases :
    (a : VersionAnswer) → ((v : Text) × (a ≡ version v)) ⊎ ((a ≡ rpc_failed) ⊎ (a ≡ no_field))
VersionAnswer-cases (version v) = inl (v, refl)
VersionAnswer-cases rpc_failed = inr (inl refl)
VersionAnswer-cases no_field = inr (inr refl)

module _ {W Conn Proc : Type 0} (env : Env W Conn Proc) where
  -- The server at `conn` has said that its version is the modification time of the executable.
  pub record UpToDate (executable : Text) (conn : Conn) : Type 0 where
    pub before : W
    pub after : W
    pub mtime : ℕ
    pub executable_time : env.mod_time executable before ≡ some mtime
    pub said : env.ask_version conn before ≡ (version (decimal mtime), after)

  -- The process was started for the parameter, with the modification time of the executable.
  pub record Started (executable bind : Text) (proc : Proc) : Type 0 where
    pub before : W
    pub after : W
    pub mtime : ℕ
    pub executable_time : env.mod_time executable before ≡ some mtime
    pub ran : env.start executable bind mtime before ≡ (some proc, after)

  -- what the process that dialAndStart returns says of the connection
  abbrev pub IsFresh : Text → Text → Kind → Conn → Option Proc → Type 0
  IsFresh executable bind kind conn none = (kind ≡ unknown) ⊎ UpToDate executable conn
  IsFresh executable bind kind conn (some p) = (kind ≢ unknown) × Started executable bind p

  start_server-Started :
      (fuel : ℕ) (executable bind addr : Text) (timeout : ℕ) (s : Run W) (conn : Conn) (p : Proc)
      → (start_server env fuel executable bind addr timeout s).0 ≡ ok (conn, p)
      → Started executable bind p
  unfolding start_server
  start_server-Started fuel executable bind addr timeout s conn p e =
      elim (Option-cases (env.mod_time executable s.world)) [
        | inl n ↦ ground arith
        | inr (mtime, m) ↦ elim (Option-cases (env.start executable bind mtime s.world).0) [
          | inl n ↦ ground arith
          | inr (q, r) ↦
              let w = (env.start executable bind mtime s.world).1 in
              let same : q ≡ p =
                same_proc q
                  (attempt_dial env fuel addr (env.clock w) timeout
                    (did env (started bind mtime) w s))
                  (ground arith) in
              record {
                before = s.world;
                after = w;
                mtime = mtime;
                executable_time = m;
                ran = ap (λ x. (x, w)) (r ∙ ap some same);
              }
        ]
      ]
    where
      same_proc :
          (q : Proc) (d : Result DialFailure Conn × Run W)
          → (connected_to env q d).0 ≡ ok (conn, p)
          → q ≡ p
      same_proc q (ok c, t) h = ground arith
      same_proc q (err x, t) h = cc

  kill_server_if_old-UpToDate :
      (executable : Text) (conn : Conn) (s : Run W)
      → (kill_server_if_old env executable conn s).0 ≡ ok false
      → UpToDate executable conn
  unfolding kill_server_if_old
  kill_server_if_old-UpToDate executable conn s e =
      elim (Option-cases (env.mod_time executable s.world)) [
        | inl n ↦ ground arith
        | inr (mtime, m) ↦ elim (VersionAnswer-cases (env.ask_version conn s.world).0) [
          | inr (inl a) ↦ ground arith
          | inr (inr a) ↦ ground arith
          | inl (v, a) ↦ elim (Bool-cases (v == decimal mtime)) [
            | inl same ↦ record {
              before = s.world;
              after = (env.ask_version conn s.world).1;
              mtime = mtime;
              executable_time = m;
              said =
                  ap (λ x. (x, (env.ask_version conn s.world).1))
                    (a ∙ ap version ((text_beq_iff v (decimal mtime)).0 same));
            }
            | inr other ↦
                elim (shut_not_false (env.shut_down conn (env.ask_version conn s.world).1)
                  (did env asked_version (env.ask_version conn s.world).1 s) (ground arith)) [ ]
          ]
        ]
      ]
    where
      shut_not_false : (r : Bool × W) (t : Run W) → (shut env r t).0 ≢ ok false
      shut_not_false (true, w) t = λ h. cc
      shut_not_false (false, w) t = λ h. cc

  -- A server that was started is one for a local address.
  with_proc-IsFresh :
      (fuel : ℕ) (executable bind addr : Text) (timeout : ℕ) (kind : Kind) (s : Run W) (conn : Conn)
      (proc : Option Proc)
      → kind ≢ unknown
      → (with_proc env (start_server env fuel executable bind addr timeout s)).0 ≡ ok (conn, proc)
      → IsFresh executable bind kind conn proc
  with_proc-IsFresh fuel executable bind addr timeout kind s conn proc local e =
      let (p, q, r) = inverted (start_server env fuel executable bind addr timeout s) e in
      subst (λ x. IsFresh executable bind kind conn x) (sym q)
        (local, start_server-Started fuel executable bind addr timeout s conn p r)
    where
      inverted :
          (r : Result Failure (Conn × Proc) × Run W)
          → (with_proc env r).0 ≡ ok (conn, proc)
          → (p : Proc) × (proc ≡ some p) × (r.0 ≡ ok (conn, p))
      inverted (ok (c, p), t) h = (p, ground arith, ground arith)
      inverted (err x, t) h = cc

  restarted-IsFresh :
      (fuel : ℕ) (executable bind addr : Text) (timeout : ℕ) (kind : Kind) (first : Conn)
      (s : Run W) (conn : Conn) (proc : Option Proc)
      → kind ≢ unknown
      → (restart_if_killed env fuel executable bind addr timeout first
          (kill_server_if_old env executable first s)).0
        ≡ ok (conn, proc)
      → IsFresh executable bind kind conn proc
  restarted-IsFresh fuel executable bind addr timeout kind first s conn proc local e =
      cases (kill_server_if_old env executable first s)
        (kill_server_if_old-UpToDate executable first s) e
    where
      cases :
          (k : Result Failure Bool × Run W)
          → (k.0 ≡ ok false → UpToDate executable first)
          → (restart_if_killed env fuel executable bind addr timeout first k).0 ≡ ok (conn, proc)
          → IsFresh executable bind kind conn proc
      cases (ok true, t) fresh h =
          with_proc-IsFresh fuel executable bind addr timeout kind t conn proc local h
      cases (ok false, t) fresh h =
          let same : first ≡ conn = ground arith in
          let without : none ≡ proc = ground arith in
          subst₂ (λ c p. IsFresh executable bind kind c p) same without (inr (fresh refl))
      cases (err x, t) fresh h = cc

  dialed_first-IsFresh :
      (fuel : ℕ) (executable bind addr : Text) (timeout : ℕ) (kind : Kind)
      (answer : DialAnswer Conn) (s : Run W) (conn : Conn) (proc : Option Proc)
      → (dialed_first env fuel executable bind addr timeout kind answer s).0 ≡ ok (conn, proc)
      → IsFresh executable bind kind conn proc
  dialed_first-IsFresh fuel executable bind addr timeout unknown deadline_exceeded s conn proc e =
      cc
  dialed_first-IsFresh fuel executable bind addr timeout uds deadline_exceeded s conn proc e =
      with_proc-IsFresh fuel executable bind addr timeout uds s conn proc (λ h. cc) e
  dialed_first-IsFresh fuel executable bind addr timeout localhost deadline_exceeded s conn proc e =
      with_proc-IsFresh fuel executable bind addr timeout localhost s conn proc (λ h. cc) e
  dialed_first-IsFresh fuel executable bind addr timeout unknown refused s conn proc e = cc
  dialed_first-IsFresh fuel executable bind addr timeout uds refused s conn proc e = cc
  dialed_first-IsFresh fuel executable bind addr timeout localhost refused s conn proc e = cc
  dialed_first-IsFresh fuel executable bind addr timeout unknown (connected c) s conn proc e =
      let without : none ≡ proc = ground arith in
      subst (λ p. IsFresh executable bind unknown conn p) without (inl refl)
  dialed_first-IsFresh fuel executable bind addr timeout uds (connected c) s conn proc e =
      restarted-IsFresh fuel executable bind addr timeout uds c s conn proc (λ h. cc) e
  dialed_first-IsFresh fuel executable bind addr timeout localhost (connected c) s conn proc e =
      restarted-IsFresh fuel executable bind addr timeout localhost c s conn proc (λ h. cc) e

  -- Where dialAndStart returns a connection: with no process, the address is that of a remote
  -- service, or the service has said that its version is the modification time of the executable;
  -- with a process, the address is local and the process was started for the parameter of the
  -- address and the modification time of the executable.
  pub dial_and_start-IsFresh :
      (fuel : ℕ) (executable location : Text) (timeout : ℕ) (s : Run W) (conn : Conn)
      (proc : Option Proc)
      → (dial_and_start env fuel executable location timeout s).0 ≡ ok (conn, proc)
      → IsFresh executable (dial_addr location).1 (dial_addr location).2 conn proc
  unfolding dial_and_start
  dial_and_start-IsFresh fuel executable location timeout s conn proc e =
      let (addr, bind, kind) = dial_addr location in
      let (answer, w) = env.dial addr s.world in
      dialed_first-IsFresh fuel executable bind addr timeout kind answer (did env (dialed addr) w s)
        conn proc e

  -- For a remote address, dialAndStart dials once and does nothing else: it starts no server and
  -- shuts none down.
  pub remote_untouched :
      (fuel : ℕ) (executable location : Text) (timeout : ℕ) (s : Run W)
      → (dial_addr location).2 ≡ unknown
      → (dial_and_start env fuel executable location timeout s).1.log
        ≡ s.log ++ dialed (dial_addr location).0 ∷ []
  unfolding dial_and_start
  remote_untouched fuel executable location timeout s remote =
      let (addr, bind, kind) = dial_addr location in
      rw remote (once (env.dial addr s.world).0 (did env (dialed addr) (env.dial addr s.world).1 s))
    where
      once :
          (answer : DialAnswer Conn) (t : Run W)
          → (dialed_first env fuel executable
              (dial_addr location).1
              (dial_addr location).0
              timeout
              unknown
              answer
              t).1.log
            ≡ t.log
      once deadline_exceeded t = refl
      once refused t = refl
      once (connected c) t = refl
