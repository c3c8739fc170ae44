-- ===== src/Backend/Settings/Tests.antt =====
-- An environment with all four components, and one that lacks the password.
use myaqi_iot_platform.Prelude.{◌≡◌, refl, Option, none, some, [], ◌∷◌, str_eq, if◌then◌else◌}
use myaqi_iot_platform.Prelude.Int.{ℤ, pos}
use myaqi_iot_platform.Prelude.Result.{ok, err}
use myaqi_iot_platform.Python.Text.{Text, codes}
use myaqi_iot_platform.Backend.Settings.{
  Environment, DatabaseUrl, incomplete, database_url_from_env,
}

abbrev some_port : Text → Option ℤ
some_port t = some (pos 5432)

abbrev host_of : DatabaseUrl → Text
host_of u = elim u.host [ none ↦ [] | some host ↦ host ]

abbrev all_set : Environment
all_set name = if str_eq name "DATABASE_URL" then none else some (codes "db")

abbrev no_password : Environment
no_password name = if str_eq name "DB_HOST" then some (codes "db") else none

refused :
    database_url_from_env some_port host_of no_password
    ≡ err (incomplete ("name" ∷ "user" ∷ "password" ∷ []))
unfolding database_url_from_env
refused = refl

rendered : database_url_from_env some_port host_of all_set ≡ ok (codes "db")
unfolding database_url_from_env
rendered = refl
