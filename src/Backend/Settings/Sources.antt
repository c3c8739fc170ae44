-- ===== src/Backend/Settings/Sources.antt =====
-- Which database the service connects to.
use myaqi_iot_platform.Prelude.{
  ◌≡◌, refl, sym, String, inl, inr, ◌⊎◌, Bool, true, false, ◌&&◌, Option, List, [], ◌∷◌, Bool-cases,
}
use myaqi_iot_platform.Prelude.Int.{ℤ}
use myaqi_iot_platform.Prelude.Result.{ok, ok-injective}
use myaqi_iot_platform.Python.Text.{Text}
use myaqi_iot_platform.Backend.Settings.{
  Environment, DatabaseUrl, is_set, getenv, name_if, missing_components, any_component, default_url,
  component_url, database_url_from_env,
}

abbrev pub all_components : Environment → Bool
all_components env =
    is_set (env "DB_HOST")
    && is_set (env "DB_NAME")
    && is_set (env "DB_USER")
    && is_set (env "DB_PASSWORD")

name_if-nil :
    (a b c d : Bool) (w x y z : String)
    → name_if a w (name_if b x (name_if c y (name_if d z []))) ≡ []
    → (a && b && c && d) ≡ true
name_if-nil true true true true w x y z h = refl
name_if-nil false b c d w x y z h = absurd (cc)
name_if-nil true false c d w x y z h = absurd (cc)
name_if-nil true true false d w x y z h = absurd (cc)
name_if-nil true true true false w x y z h = absurd (cc)

complete-component_url :
    (parse_int : Text → Option ℤ) (render : DatabaseUrl → Text) (env : Environment)
    (missing : List String) (url : Text)
    → component_url parse_int render env missing ≡ ok url
    → missing ≡ []
complete-component_url parse_int render env [] url h = refl
complete-component_url parse_int render env (name ∷ names) url h = absurd (cc)

-- The service never connects with half of its credentials: a URL is that of DATABASE_URL, or one of
-- a host, a name, a user and a password that are all set, or the development database's, when none
-- of them is set.
pub database_url_from_env_complete :
    (parse_int : Text → Option ℤ) (render : DatabaseUrl → Text) (env : Environment) (url : Text)
    → database_url_from_env parse_int render env ≡ ok url
    → ((is_set (env "DATABASE_URL") ≡ true) × (url ≡ getenv env "DATABASE_URL" []))
      ⊎ ((all_components env ≡ true) ⊎ ((any_component env ≡ false) × (url ≡ default_url)))
unfolding database_url_from_env
database_url_from_env_complete parse_int render env url h =
    elim (Bool-cases (is_set (env "DATABASE_URL"))) [
      | inl p ↦ inl (p, sym (ok-injective (rw p at h)))
      | inr p ↦ elim (Bool-cases (any_component env)) [
        | inr q ↦ inr (inr (q, sym (ok-injective (rw (p, q) at h))))
        | inl q ↦ inr (
            inl (
              name_if-nil (is_set (env "DB_HOST")) (is_set (env "DB_NAME")) (is_set (env "DB_USER"))
                (is_set (env "DB_PASSWORD")) "host" "name" "user" "password"
                (complete-component_url parse_int render env (missing_components env) url
                  (rw (p, q) at h))))
      ]
    ]
