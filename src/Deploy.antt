-- ===== src/Deploy.antt =====
-- `render_task_definition` of scripts/deploy/render_task_definition.py, on decoded JSON. A dict that is
-- changed in place is given back changed.
mod Rendered
mod Tests
use myaqi_iot_platform.Prelude.{
  length, String, str_eq, Bool, true, false, ◌||◌, not, Option, none, some, List, [], ◌∷◌, ◌==◌,
  if◌then◌else◌,
}
use myaqi_iot_platform.Prelude.Result.{Result, ok, err, raise_if, ◌>>=◌, ◌>>◌}
use myaqi_iot_platform.Python.Text.{Text, codes, text_eq}
use myaqi_iot_platform.Python.Json.{
  Json, null, bool, int, float, str, arr, obj, Items, nil, cons, Fields, end, field, get, find,
}

-- The ValueErrors of the function
pub data RenderError : Type 0 where
  no_task_definition no_containers not_one_container bad_environment bad_labels : RenderError

-- READ_ONLY_TASK_FIELDS
abbrev pub read_only_task_fields : List String
read_only_task_fields =
    "compatibilities" ∷ "deregisteredAt" ∷ "registeredAt" ∷ "registeredBy" ∷ "requiresAttributes"
    ∷ "revision" ∷ "status" ∷ "taskDefinitionArn" ∷ []

-- `value[key] = v`
unfoldable pub put : String → Json → Fields → Fields
put key v end = field key v end
put key v (field k w rest) =
    let after = put key v rest in if str_eq k key then field k v rest else field k w after

-- `value.pop(key, None)`
unfoldable pub pop : String → Fields → Fields
pop key end = end
pop key (field k v rest) =
    let after = pop key rest in if str_eq k key then after else field k v after

abbrev pub pop_all : List String → Fields → Fields
pop_all [] f = f
pop_all (key ∷ keys) f = pop_all keys (pop key f)

-- `value.get("name") == name`, for a text
abbrev pub is_text : Text → Json → Bool
is_text name (str t) = text_eq t name
is_text name _ = false

abbrev pub is_named : Text → Json → Bool
is_named name (obj f) = is_text name (get "name" f)
is_named name _ = false

-- `matches`
abbrev pub matches : Text → Items → List Json
matches name nil = []
matches name (cons v rest) =
    let others = matches name rest in if is_named name v then v ∷ others else others

abbrev pub is_revision_entry : Json → Bool
is_revision_entry v = is_named (codes "APP_REVISION") v

-- The environment without an APP_REVISION, and the new one at its end
unfoldable pub set_revision : Text → Items → Items
set_revision revision nil =
    cons (obj (field "name" (str (codes "APP_REVISION")) (field "value" (str revision) end))) nil
set_revision revision (cons v rest) =
    let after = set_revision revision rest in if is_revision_entry v then after else cons v after

-- `container.setdefault("environment", [])`, which must be a list
abbrev pub list_or_empty : RenderError → Option Json → Result RenderError Items
list_or_empty e none = ok nil
list_or_empty e (some (arr items)) = ok items
list_or_empty e (some _) = err e

abbrev pub object_or_empty : RenderError → Option Json → Result RenderError Fields
object_or_empty e none = ok end
object_or_empty e (some (obj fields)) = ok fields
object_or_empty e (some _) = err e

unfoldable pub update_container : Text → Text → Fields → Result RenderError Fields
unfolding put set_revision
update_container image revision c = do
  let imaged = put "image" (str image) c
  environment ← list_or_empty bad_environment (find "environment" imaged)
  let revised = put "environment" (arr (set_revision revision environment)) imaged
  labels ← object_or_empty bad_labels (find "dockerLabels" revised)
  ok (
      put "dockerLabels" (obj (put "org.opencontainers.image.revision" (str revision) labels))
        revised)

abbrev pub update_if_named : Text → Text → Text → Bool → Json → Result RenderError Json
update_if_named name image revision true (obj c) = do
  updated ← update_container image revision c
  ok (obj updated)
update_if_named name image revision _ v = ok v

-- The containers, of which those of the name are updated
unfoldable pub update_containers : Text → Text → Text → Items → Result RenderError Items
unfolding update_container
update_containers name image revision nil = ok nil
update_containers name image revision (cons v rest) = do
  updated ← update_if_named name image revision (is_named name v) v
  after ← update_containers name image revision rest
  ok (cons updated after)

-- `document.get("taskDefinition", document)`, which must be a dict
abbrev pub source_of : Fields → Result RenderError Fields
source_of document = elim (find "taskDefinition" document) [
  | none ↦ ok document
  | some v ↦ object_or_empty no_task_definition (some v)
]

abbrev pub containers_of : Option Json → Result RenderError Items
containers_of (some (arr items)) = ok items
containers_of _ = err no_containers

unfoldable pub render_task_definition : Text → Text → Text → Fields → Result RenderError Fields
unfolding update_containers pop put
render_task_definition name image revision document = do
  source ← source_of document
  let rendered = pop_all read_only_task_fields source
  definitions ← containers_of (find "containerDefinitions" rendered)
  raise_if (not (length (matches name definitions) == 1)) not_one_container
  updated ← update_containers name image revision definitions
  ok (put "containerDefinitions" (arr updated) rendered)
