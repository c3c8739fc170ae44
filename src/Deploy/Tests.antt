-- ===== src/Deploy/Tests.antt =====
-- A task definition with two containers.
use myaqi_iot_platform.Prelude.{◌≡◌, refl, String, some, none, length, All}
use myaqi_iot_platform.Prelude.Int.{pos}
use myaqi_iot_platform.Prelude.Result.{ok}
use myaqi_iot_platform.Python.Text.{Text, codes, text_eq}
use myaqi_iot_platform.Python.Json.{
  Json, int, str, arr, obj, Items, nil, cons, Fields, end, field, get, find,
}
use myaqi_iot_platform.Deploy.{
  read_only_task_fields, put, pop, set_revision, matches, update_container, update_containers,
  render_task_definition,
}
use myaqi_iot_platform.Deploy.Rendered.{IsRevisedItem, render_task_definition-IsRevised}

abbrev entry : Text → Text → Json
entry name value = obj (field "name" (str name) (field "value" (str value) end))

abbrev sidecar : Json
sidecar = obj (field "name" (str (codes "logs")) end)

abbrev api : String → Items → Json
api label environment = obj (
    field "name" (str (codes "api")) (
      field "image" (str (codes label)) (
        field "environment" (arr environment) (
          field "dockerLabels"
            (obj (field "org.opencontainers.image.revision" (str (codes label)) end)) end))))

abbrev document : Fields
document =
    field "taskDefinition"
      (obj (
        field "revision" (int (pos 4)) (
          field "containerDefinitions"
            (arr (
              cons sidecar (
                cons
                  (api "r1" (
                    cons (entry (codes "APP_REVISION") (codes "r1"))
                      (cons (entry (codes "LOG_LEVEL") (codes "INFO")) nil)))
                  nil)))
            end)))
      end

abbrev rendered : Fields
rendered =
    field "containerDefinitions"
      (arr (
        cons sidecar (
          cons
            (api "r2" (
              cons (entry (codes "LOG_LEVEL") (codes "INFO"))
                (cons (entry (codes "APP_REVISION") (codes "r2")) nil)))
            nil)))
      end

renders : render_task_definition (codes "api") (codes "r2") (codes "r2") document ≡ ok rendered
unfolding render_task_definition update_containers update_container put pop set_revision get find
    text_eq
renders = refl

render_task_definition-IsRevised_example :
    All (λ key. find key rendered ≡ none) read_only_task_fields
    × ((items : Items) × (find "containerDefinitions" rendered ≡ some (arr items))
        × All (IsRevisedItem (codes "r2") (codes "r2")) (matches (codes "api") items)
        × (length (matches (codes "api") items) ≡ 1))
render_task_definition-IsRevised_example =
    render_task_definition-IsRevised (codes "api") (codes "r2") (codes "r2") document rendered
      renders
