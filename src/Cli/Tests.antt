-- ===== src/Cli/Tests.antt =====
-- A source with a stray colon, and the search for the workspace.
use tools_jvm_autodeps.Base.{
  ◌≡◌, refl, Bool, true, some, [], ◌∷◌, length, ◌==◌, Text, nat_eq, text_eq,
}
use tools_jvm_autodeps.GoMap.{contains}
use tools_jvm_autodeps.Strings.{
  has_prefix, count_slash_slash, index, codes, split_byte, join_byte, last_index_byte,
}
use tools_jvm_autodeps.Paths.{elements, push_all, clean, path_join, dir, rel}
use tools_jvm_autodeps.PkgLoading.{ok}
use tools_jvm_autodeps.Bazel.{LabelError, parse_relative_label}
use tools_jvm_autodeps.Cli.{source_files, has_workspace, find_workspace, workspace}
use tools_jvm_autodeps.Cli.Sources.{source_files_bad_label}

source_files_bad_label_example :
    (contains [] (source_files (codes "foo") (codes "A.java" ∷ codes "a:B.java" ∷ [])) ≡ true)
    × (length (source_files (codes "foo") (codes "A.java" ∷ codes "a:B.java" ∷ [])) ≡ 2)
unfolding parse_relative_label has_prefix count_slash_slash index
source_files_bad_label_example =
    source_files_bad_label (codes "foo") (codes "A.java" ∷ []) (codes "a:B.java") []
      LabelError.stray_colon refl

abbrev file_exists : Text → Bool
file_exists f = f == codes "/home/ws/WORKSPACE"

finds :
    workspace file_exists 5 (some (codes "/home/ws/java/com")) []
    ≡ ok (codes "/home/ws", codes "java/com")
unfolding workspace find_workspace has_workspace path_join dir rel clean elements push_all
    split_byte join_byte last_index_byte
finds = refl
