-- ===== src/Tools/Paths.antt =====
-- src/tools/support/workspace-path.ts
pub mod Laws
use Prim.Native.Char.{code}
use Prim.Native.String
use autonomous_agent.Common.{
  ℕ, ◌≡◌, refl, String, Bool, true, false, ◌||◌, ◌==◌, ◌===◌, ◌<>◌, Option, none, some, List, [],
  ◌∷◌, ◌++◌, join, if◌then◌else◌,
}
use autonomous_agent.Common.Scan.{after_prefix, split_on, starts_with}
use autonomous_agent.Models.Contracts.{ParseResult, parse_ok, parse_fail}

-- `segments.pop()`
abbrev pub pop : List String → List String
pop [] = []
pop (s ∷ []) = []
pop (s ∷ t ∷ ts) = s ∷ pop (t ∷ ts)

-- the body of the loop of `normalisePosix`
abbrev pub step : List String → String → List String
step segments segment =
    if (segment === "") || (segment === ".")
    then segments
    else if segment === ".."
    then pop segments
    else segments ++ segment ∷ []

unfoldable pub collapse : List String → List String → List String
collapse segments [] = segments
collapse segments (s ∷ rest) = collapse (step segments s) rest

-- a path of segments, from the root
abbrev pub path_of : List String → String
path_of segments = "/" <> join "/" segments

unfoldable pub normalise_posix : String → String
normalise_posix path = path_of (collapse [] (split_on 47 path))

unfoldable pub has_nul : String → Bool
has_nul String.[] = false
has_nul (String.◌∷◌ c s) = code c == 0 || has_nul s

-- the tests of `resolveWorkspacePath` on the normalised paths
unfoldable pub admit : String → String → String → ParseResult String
admit root candidate input =
    if (candidate === root) || starts_with candidate (root <> "/")
    then parse_ok candidate
    else parse_fail (("path must stay inside the workspace " <> root <> ": " <> input) ∷ [])

abbrev pub candidate_of : String → String → String
candidate_of root input =
    if starts_with input "/" then normalise_posix input else normalise_posix (root <> "/" <> input)

unfoldable pub resolve_workspace_path : String → String → ParseResult String
resolve_workspace_path workspace_root input =
    if input === ""
    then parse_fail ("path must be a non-empty string" ∷ [])
    else if has_nul input
    then parse_fail ("path must not contain NUL" ∷ [])
    else admit (normalise_posix workspace_root)
        (candidate_of (normalise_posix workspace_root) input) input

resolve_test : resolve_workspace_path "/workspace" "a/../b/./c" ≡ parse_ok "/workspace/b/c"
unfolding resolve_workspace_path normalise_posix has_nul admit collapse split_on after_prefix
resolve_test = refl
