-- ===== src/EnvFile/Tests.antt =====
-- One text with a comment, a quoted value and a line that is no assignment.
use pyinc.Prelude.{◌≡◌, refl, true, false, Option, none, some, [], ◌∷◌, ◌++◌, if◌then◌else◌, ◌==◌}
use pyinc.Document.Lines.{Text}
use pyinc.Document.Encoding.{split_lines}
use pyinc.EnvFile.{LineTools, invalid_line, value_of, parse_env_lines}
use pyinc.EnvFile.Reading.{entries_on, invalid_on, value_of-quoted, parse_env_lines-line}

-- The part before `=` and the part after it
abbrev at_equals : Text → Option (Text × Text)
at_equals [] = none
at_equals (c ∷ s) =
    if c == 61
    then some ([], s)
    else elim (at_equals s) [ none ↦ none | some (key, value) ↦ some (c ∷ key, value) ]

abbrev tools : LineTools
tools = record {
  splitlines = split_lines;
  strip = λ s. s;
  lstrip = λ s. s;
  rstrip = λ s. s;
  sub_export = λ s. s;
  match_line = at_equals;
  has_interpolation = λ s. false;
}

-- `#c`, `A="b c"#` and `?`
abbrev sample : Text
sample = 35 ∷ 99 ∷ 10 ∷ 65 ∷ 61 ∷ 34 ∷ 98 ∷ 32 ∷ 99 ∷ 34 ∷ 35 ∷ 10 ∷ 63 ∷ []

parse_env_lines-sample : parse_env_lines tools sample ≡ (
  record {
    key = 65 ∷ [];
    value = 98 ∷ 32 ∷ 99 ∷ [];
    quoted = true;
    line = 1;
    start_character = 0;
    end_character = 8;
  }
      ∷ [],
  invalid_line 3 ∷ [],
)
unfolding parse_env_lines split_lines
parse_env_lines-sample = refl

-- `it's` between double quotes and ` #"` between single quotes: ` #` begins a comment only outside quotes
value_of-quoted_example :
    (value_of tools (34 ∷ (105 ∷ 116 ∷ 39 ∷ 115 ∷ []) ++ (34 ∷ 35 ∷ []))
      ≡ (105 ∷ 116 ∷ 39 ∷ 115 ∷ [], true))
    × (value_of tools (39 ∷ (32 ∷ 35 ∷ 34 ∷ []) ++ (39 ∷ 35 ∷ [])) ≡ (32 ∷ 35 ∷ 34 ∷ [], true))
value_of-quoted_example =
    value_of-quoted tools (105 ∷ 116 ∷ 39 ∷ 115 ∷ []) (32 ∷ 35 ∷ 34 ∷ []) (35 ∷ [])
      (refl, (refl, (refl, (refl, tt)))) (refl, (refl, (refl, tt)))

-- The second line of the sample
parse_env_lines-line_example :
    (entries_on 1 (parse_env_lines tools sample).0 ≡ (65 ∷ [], 98 ∷ 32 ∷ 99 ∷ []) ∷ [])
    × (invalid_on 2 (parse_env_lines tools sample).1 ≡ 0)
unfolding split_lines value_of pyinc.EnvFile.is_skipped
parse_env_lines-line_example =
    parse_env_lines-line tools sample ((35 ∷ 99 ∷ []) ∷ []) ((63 ∷ []) ∷ [])
      (65 ∷ 61 ∷ 34 ∷ 98 ∷ 32 ∷ 99 ∷ 34 ∷ 35 ∷ []) refl
