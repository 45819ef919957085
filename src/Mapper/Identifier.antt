-- ===== src/Mapper/Identifier.antt =====
-- The identifiers of items: `identifierRegex`, `maxIdentifierLength` and
-- `executeIdentifierTemplate` of internal/mapper/mapper.go.
pub mod Laws
use Prim.Native.String.{len}
use ibdm.Base.{
  ℕ, ◌+◌, String, Bool, true, false, not, ◌&&◌, ◌||◌, Option, none, some, Err, message, wrap,
  Result, ok, err, leb, ltb, eqb, codes, if◌then◌else◌,
}
use ibdm.Regex.{Regex, chars, seq, star, optional, is_match}
use ibdm.Mapper.Template.{Rendered, Template, Action}

-- [a-z0-9]
abbrev pub is_alnum : ℕ → Bool
is_alnum c = (leb b'a' c && leb c b'z') || (leb b'0' c && leb c b'9')

-- [a-z0-9.-]
abbrev pub is_inner : ℕ → Bool
is_inner c = is_alnum c || (eqb c b'.' || eqb c b'-')

-- ^[a-z0-9]([a-z0-9.-]*[a-z0-9])?$
abbrev pub identifier_regex : Regex
identifier_regex = seq (chars is_alnum) (optional (seq (star (chars is_inner)) (chars is_alnum)))

abbrev pub max_identifier_length : ℕ
max_identifier_length = 253

abbrev pub invalid_identifier : String → String → Err
invalid_identifier name generated = wrap name (message generated)

-- The message keeps the template's name and the rejected text. Beside an error the code also hands
-- back the text that was written; no caller reads it.
unfoldable pub execute_identifier_template : {S : Type 0} → Template S → String → Action S String
execute_identifier_template tmpl name s =
    let r = tmpl s in
    if not (is_match identifier_regex (codes r.output)) || ltb max_identifier_length (len r.output)
    then (err (invalid_identifier name r.output), r.after)
    else (elim r.failure [ none ↦ ok r.output | some e ↦ err e ], r.after)
