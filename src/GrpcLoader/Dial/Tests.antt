-- ===== src/GrpcLoader/Dial/Tests.antt =====
-- A server that is too slow, and one that is stale.
use tools_jvm_autodeps.Base.{
  ℕ, ◌+◌, ◌≡◌, refl, ap, ◌≢◌, true, some, [], ◌∷◌, ◌++◌, arith, ltb, if◌then◌else◌, Text, nat_eq,
  text_eq,
}
use tools_jvm_autodeps.Strings.{codes, has_prefix}
use tools_jvm_autodeps.PkgLoading.{ok, err}
use tools_jvm_autodeps.GrpcLoader.Dial.{
  connected, deadline_exceeded, version, Env, dialed, started, asked_version, sent_shutdown, Run,
  out_of_fuel, attempt_dial, dial_addr, digits, decimal, start_server, kill_server_if_old,
  dial_and_start,
}
use tools_jvm_autodeps.GrpcLoader.Dial.Address.{IsAddress, dial_addr-IsAddress}
use tools_jvm_autodeps.GrpcLoader.Dial.Ends.{attempt_dial_ends}
use tools_jvm_autodeps.GrpcLoader.Dial.Fresh.{IsFresh, dial_and_start-IsFresh, remote_untouched}

-- The world is the clock; the old server answers before 10 is over, the new one from 13 on.
abbrev env : Env ℕ ℕ ℕ
env = record {
  dial = λ addr w.
      if ltb w 10
      then (connected 1, w + 1)
      else if ltb w 13
      then (deadline_exceeded, w + 1)
      else (connected 2, w + 1);
  clock = λ w. w;
  mod_time = λ executable w. some 77;
  start = λ executable bind mtime w. (some 5, w + 1);
  ask_version = λ conn w. (version (codes "76"), w + 1);
  shut_down = λ conn w. (true, 10);
}

abbrev begun : Run ℕ
begun = record { world = 0; log = [] }

abbrev location : Text
location = codes "localhost:80"

restart_runs : dial_and_start env 5 (codes "server") location 5 begun ≡ (
  ok (2, some 5),
  record {
    world = 14;
    log =
        dialed location
        ∷ asked_version
        ∷ sent_shutdown
        ∷ started (codes "80") 77
        ∷ dialed location
        ∷ dialed location
        ∷ dialed location
        ∷ [];
  },
)
unfolding dial_and_start dial_addr start_server kill_server_if_old attempt_dial has_prefix decimal
    digits
restart_runs = refl

decimal_runs : decimal 1507 ≡ codes "1507"
unfolding decimal digits
decimal_runs = refl

dial_and_start-IsFresh_example :
    IsFresh env (codes "server") (dial_addr location).1 (dial_addr location).2 2 (some 5)
dial_and_start-IsFresh_example =
    dial_and_start-IsFresh env 5 (codes "server") location 5 begun 2 (some 5)
      (ap (λ r. r.0) restart_runs)

remote_untouched_example :
    (dial_and_start env 5 (codes "server") (codes "host") 5 begun).1.log
    ≡ [] ++ dialed (dial_addr (codes "host")).0 ∷ []
unfolding dial_addr has_prefix
remote_untouched_example = remote_untouched env 5 (codes "server") (codes "host") 5 begun refl

-- a server that never answers
abbrev silent : Env ℕ ℕ ℕ
silent = record env { dial = λ addr w. (deadline_exceeded, w + 1) }

attempt_dial_ends_example : (attempt_dial silent 6 location 0 5 begun).0 ≢ err out_of_fuel
attempt_dial_ends_example = attempt_dial_ends silent (λ addr w w' e. ground arith) location 5 begun

dial_addr-IsAddress_example :
    IsAddress location (dial_addr location).0 (dial_addr location).1 (dial_addr location).2
dial_addr-IsAddress_example = dial_addr-IsAddress location
