-- ===== src/Examples/Outputs.antt =====
-- An output of the command line client.
use delta_forge_benchmarks.Common.{◌≡◌, refl, Option, some, List, [], ◌∷◌, nat_eq, list_eq}
use delta_forge_benchmarks.Common.Lines.{splitlines}
use delta_forge_benchmarks.Common.Text.{Text, codes}
use delta_forge_benchmarks.Engines.Output.{join_lines, try_parse_cli_json}
use delta_forge_benchmarks.Engines.Output.Payload.{
  Balanced, empty, char, braces, try_parse_cli_json-IsObject,
}
use delta_forge_benchmarks.Purge.{lstrip}

abbrev stdout : Text
stdout = codes "Node: x\n{\nr: {}\n}\ndone\n"

abbrev infos : List Text
infos = codes "Node: x" ∷ []

abbrev payload : List Text
payload = codes "{" ∷ codes "r: {}" ∷ codes "}" ∷ []

abbrev rest : List Text
rest = codes "done" ∷ []

abbrev body : Text
body = codes "\nr: {}\n"

body-Balanced : Balanced body
unfolding nat_eq
body-Balanced = char 10 (codes "r: {}\n") refl refl (
    char 114 (codes ": {}\n") refl refl (
      char 58 (codes " {}\n") refl refl (
        char 32 (codes "{}\n") refl refl (braces [] (10 ∷ []) empty (char 10 [] refl refl empty)))))

-- The decoder of this example keeps the text.
abbrev keep_text : Text → Option Text
keep_text s = some s

try_parse_cli_json-IsObject_example :
    try_parse_cli_json keep_text stdout ≡ keep_text (join_lines payload)
unfolding splitlines lstrip nat_eq
try_parse_cli_json-IsObject_example =
    try_parse_cli_json-IsObject keep_text stdout infos payload rest refl refl refl
      (body, body-Balanced, refl)
