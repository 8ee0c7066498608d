-- ===== src/GrpcLoader/Dial.antt =====
-- Connect: dialing the service, starting it, and restarting it when it is stale.
--
-- What is outside the program is `Env`: grpc.Dial, the clock, the file system, starting a process, and
-- the two calls of the VersionManagement service, over a world `W` that they change. `log` holds what
-- the program has done to the world, the oldest first.
pub mod Address
pub mod Ends
pub mod Fresh
pub mod Tests
use Prim.Native.Nat.{◌/◌, ◌%◌}
use tools_jvm_autodeps.Base.{
  ℕ, zero, suc, ◌+◌, ◌-◌, Bool, true, false, Option, none, some, List, [], ◌∷◌, ◌++◌, ltb,
  if◌then◌else◌, drop, ◌==◌, Text, nat_eq, text_eq,
}
use tools_jvm_autodeps.Strings.{codes, has_prefix}
use tools_jvm_autodeps.PkgLoading.{Result, ok, err}

pub data Kind : Type 0 where
  uds : Kind
  localhost : Kind
  unknown : Kind

pub data DialAnswer (Conn : Type 0) : Type 0 where
  connected : Conn → DialAnswer Conn
  deadline_exceeded : DialAnswer Conn
  refused : DialAnswer Conn

pub data VersionAnswer : Type 0 where
  rpc_failed : VersionAnswer
  no_field : VersionAnswer
  version : Text → VersionAnswer

pub record Env (W Conn Proc : Type 0) : Type 0 where
  pub dial : Text → W → DialAnswer Conn × W
  pub clock : W → ℕ
  pub mod_time : Text → W → Option ℕ
  pub start : Text → Text → ℕ → W → Option Proc × W
  pub ask_version : Conn → W → VersionAnswer × W
  pub shut_down : Conn → W → Bool × W

pub data Event : Type 0 where
  dialed : Text → Event
  started : Text → ℕ → Event
  asked_version : Event
  sent_shutdown : Event

pub record Run (W : Type 0) : Type 0 where
  pub world : W
  pub log : List Event

pub data DialFailure : Type 0 where
  dial_error : DialFailure
  timed_out : DialFailure
  out_of_fuel : DialFailure

pub data Failure : Type 0 where
  no_mod_time : Failure
  not_started : Failure
  cannot_connect : DialFailure → Failure
  connecting : Failure
  no_version : Failure
  panicked : Failure
  shutdown_failed : Failure

-- dialAddr
pub dial_addr : Text → Text × Text × Kind
dial_addr bind_location =
    if has_prefix bind_location (codes "unix://")
    then (drop 7 bind_location, bind_location, uds)
    else if has_prefix bind_location (codes "localhost:")
    then (bind_location, drop 10 bind_location, localhost)
    else (bind_location, bind_location, unknown)

-- strconv.FormatInt in base 10, with fuel for the digits
pub digits : ℕ → ℕ → Text → Text
digits zero n rest = rest
digits (suc fuel) n rest =
    let more = digits fuel (n / 10) ((b'0' + n % 10) ∷ rest) in
    if ltb n 10 then (b'0' + n) ∷ rest else more

pub decimal : ℕ → Text
unfolding digits
decimal n = digits (suc n) n []

module _ {W Conn Proc : Type 0} (env : Env W Conn Proc) where
  abbrev pub did : Event → W → Run W → Run W
  did event w s = record { world = w; log = s.log ++ event ∷ [] }

  -- attemptDial, with fuel for its loop
  pub attempt_dial : ℕ → Text → ℕ → ℕ → Run W → Result DialFailure Conn × Run W
  attempt_dial zero addr begun timeout s = (err out_of_fuel, s)
  attempt_dial (suc fuel) addr begun timeout s = elim (ltb (env.clock s.world - begun) timeout) [
    | false ↦ (err timed_out, s)
    | true ↦
        let (answer, w) = env.dial addr s.world in
        elim answer [
          | connected conn ↦ (ok conn, did (dialed addr) w s)
          | refused ↦ (err dial_error, did (dialed addr) w s)
          | deadline_exceeded ↦ attempt_dial fuel addr begun timeout (did (dialed addr) w s)
        ]
  ]

  abbrev pub connected_to :
      Proc → Result DialFailure Conn × Run W → Result Failure (Conn × Proc) × Run W
  connected_to proc (ok conn, s) = (ok (conn, proc), s)
  connected_to proc (err e, s) = (err (cannot_connect e), s)

  -- startServer
  pub start_server : ℕ → Text → Text → Text → ℕ → Run W → Result Failure (Conn × Proc) × Run W
  start_server fuel executable bind addr timeout s = elim (env.mod_time executable s.world) [
    | none ↦ (err no_mod_time, s)
    | some mtime ↦
        let (proc, w) = env.start executable bind mtime s.world in
        elim proc [
          | none ↦ (err not_started, record s { world = w })
          | some p ↦
              connected_to p
                (attempt_dial fuel addr (env.clock w) timeout (did (started bind mtime) w s))
        ]
  ]

  -- the answer to the shutdown call, where true is the code Unavailable
  abbrev pub shut : Bool × W → Run W → Result Failure Bool × Run W
  shut (true, w) s = (ok true, did sent_shutdown w s)
  shut (false, w) s = (err shutdown_failed, did sent_shutdown w s)

  -- killServerIfOld
  pub kill_server_if_old : Text → Conn → Run W → Result Failure Bool × Run W
  kill_server_if_old executable conn s = elim (env.mod_time executable s.world) [
    | none ↦ (err no_mod_time, s)
    | some mtime ↦
        let (answer, w) = env.ask_version conn s.world in
        let t = did asked_version w s in
        elim answer [
          | rpc_failed ↦ (err no_version, t)
          | no_field ↦ (err panicked, t)
          | version v ↦ if v == decimal mtime then (ok false, t) else shut (env.shut_down conn w) t
        ]
  ]

  abbrev pub with_proc :
      Result Failure (Conn × Proc) × Run W → Result Failure (Conn × Option Proc) × Run W
  with_proc (ok (conn, proc), s) = (ok (conn, some proc), s)
  with_proc (err e, s) = (err e, s)

  -- behind the first successful connection to a local service
  abbrev pub restart_if_killed :
      ℕ
      → Text
      → Text
      → Text
      → ℕ
      → Conn
      → Result Failure Bool × Run W
      → Result Failure (Conn × Option Proc) × Run W
  restart_if_killed fuel executable bind addr timeout conn (ok true, s) =
      with_proc (start_server fuel executable bind addr timeout s)
  restart_if_killed fuel executable bind addr timeout conn (ok false, s) = (ok (conn, none), s)
  restart_if_killed fuel executable bind addr timeout conn (err e, s) = (err e, s)

  -- what follows the first dial
  abbrev pub dialed_first :
      ℕ
      → Text
      → Text
      → Text
      → ℕ
      → Kind
      → DialAnswer Conn
      → Run W
      → Result Failure (Conn × Option Proc) × Run W
  dialed_first fuel executable bind addr timeout unknown deadline_exceeded s = (err connecting, s)
  dialed_first fuel executable bind addr timeout kind deadline_exceeded s =
      with_proc (start_server fuel executable bind addr timeout s)
  dialed_first fuel executable bind addr timeout kind refused s = (err connecting, s)
  dialed_first fuel executable bind addr timeout unknown (connected conn) s = (ok (conn, none), s)
  dialed_first fuel executable bind addr timeout kind (connected conn) s =
      restart_if_killed fuel executable bind addr timeout conn
        (kill_server_if_old executable conn s)

  -- dialAndStart
  pub dial_and_start : ℕ → Text → Text → ℕ → Run W → Result Failure (Conn × Option Proc) × Run W
  unfolding dial_addr
  dial_and_start fuel executable bind_location timeout s =
      let (addr, bind, kind) = dial_addr bind_location in
      let (answer, w) = env.dial addr s.world in
      dialed_first fuel executable bind addr timeout kind answer (did (dialed addr) w s)
