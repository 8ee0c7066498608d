-- ===== src/GrpcLoader/Tests.antt =====
-- Packages on their way, and a buffer that is closed.
use tools_jvm_autodeps.Base.{
  ◌≡◌, refl, true, false, ◌&&◌, is_some, none, some, List, [], ◌∷◌, ◌++◌, Text, nat_eq, text_eq,
  pos,
}
use tools_jvm_autodeps.GoMap.{GoMap}
use tools_jvm_autodeps.Strings.{codes}
use tools_jvm_autodeps.Bazel.{int32, strs, Rule, Package, int_attr}
use tools_jvm_autodeps.GrpcLoader.Proto.{deserialize_proto}
use tools_jvm_autodeps.GrpcLoader.Proto.Ints.{int_attr-deserialize_proto}
use tools_jvm_autodeps.GrpcLoader.Proto.RoundTrip.{
  serialize_pkgs, AreServed, deserialize_proto-serialize,
}
use tools_jvm_autodeps.GrpcLoader.Buffer.{
  Event, begin_write, end_write, close, Shared, step, run, new_buffer, written, closes, pending,
  run-new_buffer,
}

-- the last Write comes behind the close
abbrev events : List Event
events =
    begin_write (codes "a")
    ∷ end_write
    ∷ begin_write (codes "b")
    ∷ end_write
    ∷ close
    ∷ begin_write (codes "c")
    ∷ []

abbrev closed : Shared
closed = record { buffer = record { buf = codes "ab"; disabled = true }; writing = none }

runs : run new_buffer events ≡ some closed
unfolding run step
runs = refl

-- close waits for the end of a Write
waits : run new_buffer (begin_write (codes "a") ∷ close ∷ []) ≡ none
unfolding run step
waits = refl

run-new_buffer_example :
    (closed.buffer.buf ++ pending closed.writing ≡ written events)
    × (closed.buffer.disabled ≡ closes events)
    × ((closes events && is_some closed.writing) ≡ false)
run-new_buffer_example = run-new_buffer events closed runs

abbrev rule : Rule
rule = record {
  schema = codes "java_test";
  pkg_name = codes "foo";
  attrs = (codes "shard_count", int32 (pos 3)) ∷ (codes "srcs", strs (codes "A.java" ∷ [])) ∷ [];
}

abbrev pkg : Package Rule
pkg = record {
  path = codes "/w/foo";
  default_visibility = [];
  files = [];
  rules = (codes "bar", rule) ∷ [];
  package_groups = (codes "g", record { specs = codes "//..." ∷ []; includes = [] }) ∷ [];
}

abbrev pkgs : GoMap Text (Package Rule)
pkgs = (codes "foo", pkg) ∷ []

pkgs-AreServed : AreServed pkgs
pkgs-AreServed = ((refl, tt), ((refl, ((refl, (refl, tt)), (tt, tt))), ((refl, tt), tt)))

deserialize_proto-serialize_example : deserialize_proto (serialize_pkgs pkgs) ≡ some pkgs
deserialize_proto-serialize_example = deserialize_proto-serialize pkgs (refl, tt) pkgs-AreServed

int_attr-deserialize_proto_example : int_attr rule (codes "shard_count") (pos 1) ≡ pos 1
int_attr-deserialize_proto_example =
    int_attr-deserialize_proto (serialize_pkgs pkgs) pkgs (codes "foo") pkg (codes "bar") rule
      deserialize_proto-serialize_example refl refl (codes "shard_count") (pos 1)
