-- ===== src/Mapper/Compile.antt =====
-- `New` of internal/mapper/mapper.go: the templates of a mapping, compiled. `parse` is the parser of
-- text/template (a name and a text) and `marshal` is yaml.Marshal. The template set is never
-- executed before it is cloned, so `Clone` has no error to give.
pub mod Laws
mod Tests
use Prim.Native.Char.{code}
use Prim.Native.String
use ibdm.Base.{
  ℕ, String, ◌≤◌, Bool, true, false, not, ◌&&◌, ◌||◌, Option, none, some, List, [], ◌∷◌, ◌++◌, Err,
  message, wrap, join, Result, ok, err, ◌>>=◌, ◌==◌, leb, eqb, codes, contains, is_empty,
  if◌then◌else◌,
}
use ibdm.Value.{Value, Fields, end, field, get_field, as_text, text_or_empty}
use ibdm.Config.{required_extra_fields}
use ibdm.Mapper.Template.{Template}
use ibdm.Mapper.Apply.{ExtraMapping, InternalMapper}

abbrev infix_text : String → String → String
infix_text a b = String.◌++◌ a b

-- key + ": " + value + "\n" for each entry, after "---\n"
unfoldable pub document_lines : List (String × String) → String
document_lines [] = ""
document_lines ((key, value) ∷ rest) =
    infix_text key (infix_text ": " (infix_text value (infix_text "\n" (document_lines rest))))

unfoldable pub template_document : List (String × String) → String
unfolding document_lines
template_document templates = infix_text "---\n" (document_lines templates)

-- unicode.IsSpace
abbrev pub is_space : ℕ → Bool
is_space c =
    (leb 9 c && leb c 13)
    || eqb c 32
    || eqb c 0x85
    || eqb c 0xA0
    || eqb c 0x1680
    || (leb 0x2000 c && leb c 0x200a)
    || eqb c 0x2028
    || eqb c 0x2029
    || eqb c 0x202f
    || eqb c 0x205f
    || eqb c 0x3000

-- strings.TrimSpace(s) == ""
abbrev pub all_space : List ℕ → Bool
all_space [] = true
all_space (c ∷ cs) = is_space c && all_space cs

-- The keys that are not part of the body of an extra item.
unfoldable pub is_reserved : String → Bool
is_reserved k = contains required_extra_fields k || k == "createIf"

unfoldable pub body_map : Fields → Fields
body_map end = end
body_map (field k v m) = let rest = body_map m in if is_reserved k then rest else field k v rest

-- errors.Join(*parsingErrs, err)
abbrev pub add_error : Option Err → Err → Option Err
add_error none e = some e
add_error (some errs) e = some (join errs e)

-- What is kept of a parse: the template if there is one, and the errors so far.
abbrev pub kept {ℓ} : {A : Type ℓ} → Result A → Option Err → Option A × Option Err
kept (ok t) errs = (some t, errs)
kept (err e) errs = (none, add_error errs e)

-- The pointers that the code puts together once there is no error; a nil one cannot occur then.
abbrev pub assemble :
    {S : Type 0}
    → Option (Template S)
    → Option (Template S)
    → Option (Template S)
    → List (ExtraMapping S)
    → Result (InternalMapper S)
assemble (some id) (some metadata) (some spec) extras = ok (record {
  id_template = id;
  metadata_template = metadata;
  spec_template = spec;
  extra_mappings = extras;
})
assemble _ _ _ extras = err (message "nil template")

module _ {S : Type 0} (parse : String → String → Result (Template S))
    (marshal : Fields → Result String) where
  unfoldable pub compile_metadata_templates :
      List (String × String) → Option Err → Option (Template S) × Option Err
  compile_metadata_templates templates errs =
      kept (parse "metadata" (template_document templates)) errs

  unfoldable pub compile_spec_templates :
      List (String × String) → Option Err → Option (Template S) × Option Err
  compile_spec_templates templates errs = kept (parse "spec" (template_document templates)) errs

  -- `createIf` counts only if it is a text that is not blank.
  unfoldable pub compile_create_if : Option String → Result (Option (Template S))
  compile_create_if none = ok none
  compile_create_if (some create_if) =
      if all_space (codes create_if)
      then ok none
      else (do t ← parse "extra-createIf" create_if; ok (some t))

  -- One round of `compileExtraMappings`; an error ends the round and nothing is appended.
  unfoldable pub compile_extra : Fields → Result (ExtraMapping S)
  unfolding compile_create_if
  compile_extra extra = do
    create_if_tmpl ← compile_create_if (as_text (get_field "createIf" extra))
    id_tmpl ← parse "extra-id" (text_or_empty (get_field "identifier" extra))
    body ← marshal (body_map extra)
    body_tmpl ← parse "extra-body" body
    ok (record {
      api_version = text_or_empty (get_field "apiVersion" extra);
      item_family = text_or_empty (get_field "itemFamily" extra);
      delete_policy = text_or_empty (get_field "deletePolicy" extra);
      create_if_template = create_if_tmpl;
      id_template = id_tmpl;
      body_template = body_tmpl;
    })

  unfoldable pub compile_extra_mappings :
      List Fields → Option Err → List (ExtraMapping S) × Option Err
  compile_extra_mappings [] errs = ([], errs)
  compile_extra_mappings (extra ∷ more) errs =
      let (mapping, errs') = kept (compile_extra extra) errs in
      let (mappings, final) = compile_extra_mappings more errs' in
      (elim mapping [ none ↦ mappings | some m ↦ m ∷ mappings ], final)

  unfoldable pub new_mapper :
      String
      → List (String × String)
      → List (String × String)
      → List Fields
      → Result (InternalMapper S)
  unfolding compile_metadata_templates compile_spec_templates compile_extra_mappings
  new_mapper identifier_template metadata_templates spec_templates extra_templates =
      let (id, errs₁) = kept (parse "identifier" identifier_template) none in
      let (metadata, errs₂) = compile_metadata_templates metadata_templates errs₁ in
      let (spec, errs₃) = compile_spec_templates spec_templates errs₂ in
      let (extras, errs) = compile_extra_mappings extra_templates errs₃ in
      elim errs [
        | some e ↦ err (wrap "mapper template parsing error" e)
        | none ↦ assemble id metadata spec extras
      ]
