-- ===== src/Deploy/Rendered.antt =====
-- What a rendered task definition says.
use myaqi_iot_platform.Prelude.{
  suc, length, ◌≡◌, refl, sym, ap, ◌∙◌, inl, inr, String, str_eq, eq_iff, true, false, not, none,
  some, List, [], ◌∷◌, ◌==◌, if◌then◌else◌, arith, All, All-imp, All-and, Bool-cases,
}
use mathlib.Core.Path.{subst}
use myaqi_iot_platform.Prelude.Result.{ok, raise_if, raise_if-ok, >>=-eq-ok, ok-injective}
use myaqi_iot_platform.Python.Text.{Text, codes, text_eq}
use myaqi_iot_platform.Python.Json.{
  Json, null, bool, int, float, str, arr, obj, Items, nil, cons, Fields, end, field, get, find,
}
use myaqi_iot_platform.Deploy.{
  not_one_container, bad_environment, bad_labels, read_only_task_fields, put, pop, pop_all,
  is_named, matches, is_text, update_if_named, is_revision_entry, set_revision, list_or_empty,
  object_or_empty, update_container, update_containers, source_of, containers_of,
  render_task_definition,
}

find-put_self : (key : String) (v : Json) (f : Fields) → find key (put key v f) ≡ some v
unfolding find put
find-put_self key v end = ground (arith, eq_iff key key)
find-put_self key v (field k w rest) = ground (arith, find-put_self key v rest)

find-put_ne :
    (key other : String) (v : Json) (f : Fields)
    → str_eq key other ≡ false
    → (find other (put key v f) ≡ find other f) × (get other (put key v f) ≡ get other f)
unfolding find get put
find-put_ne key other v end h = (ground arith, ground arith)
find-put_ne key other v (field k w rest) h =
    let ih = find-put_ne key other v rest h in
    elim (Bool-cases (str_eq k key)) [
      | inl p ↦
          let same : k ≡ key = (ground (arith, eq_iff k key)) in
          let differs : str_eq k other ≡ false = rw same h in rw (p, differs) (refl, refl)
      | inr p ↦ rw p (ground (arith, ih.0), ground (arith, ih.1))
    ]

find-pop_self : (key : String) (f : Fields) → find key (pop key f) ≡ none
unfolding find pop
find-pop_self key end = refl
find-pop_self key (field k v rest) = ground (arith, find-pop_self key rest)

find-pop-none :
    (key other : String) (f : Fields) → find other f ≡ none → find other (pop key f) ≡ none
unfolding find pop
find-pop-none key other end h = refl
find-pop-none key other (field k v rest) h = ground (arith, find-pop-none key other rest)

find-pop_all-none :
    (keys : List String) (other : String) (f : Fields)
    → find other f ≡ none
    → find other (pop_all keys f) ≡ none
find-pop_all-none [] other f h = h
find-pop_all-none (key ∷ keys) other f h =
    find-pop_all-none keys other (pop key f) (find-pop-none key other f h)

find-pop_all :
    (keys : List String) (f : Fields) → All (λ key. find key (pop_all keys f) ≡ none) keys
find-pop_all [] f = tt
find-pop_all (key ∷ keys) f =
    (find-pop_all-none keys key (pop key f) (find-pop_self key f), find-pop_all keys (pop key f))

-- The APP_REVISION entries of an environment
abbrev pub revisions : Items → List Json
revisions nil = []
revisions (cons v rest) =
    let others = revisions rest in if is_revision_entry v then v ∷ others else others

abbrev pub revision_entry : Text → Json
revision_entry revision =
    obj (field "name" (str (codes "APP_REVISION")) (field "value" (str revision) end))

revisions-set_revision :
    (revision : Text) (items : Items)
    → revisions (set_revision revision items) ≡ revision_entry revision ∷ []
unfolding set_revision get text_eq
revisions-set_revision revision nil = refl
revisions-set_revision revision (cons v rest) = elim (Bool-cases (is_revision_entry v)) [
  | inl p ↦ rw p (revisions-set_revision revision rest)
  | inr p ↦ rw p (rw p (revisions-set_revision revision rest))
]

-- The container has this image, this revision as its only APP_REVISION, and this revision as label.
abbrev pub IsRevised : Text → Text → Fields → Type 0
IsRevised image revision c =
    (find "image" c ≡ some (str image))
    × ((items : Items) × (find "environment" c ≡ some (arr items))
        × (revisions items ≡ revision_entry revision ∷ []))
    × ((labels : Fields) × (find "dockerLabels" c ≡ some (obj labels))
        × (find "org.opencontainers.image.revision" labels ≡ some (str revision)))

update_container-IsRevised :
    (image revision : Text) (c d : Fields)
    → update_container image revision c ≡ ok d
    → IsRevised image revision d × (get "name" d ≡ get "name" c)
unfolding update_container
update_container-IsRevised image revision c d h =
    let imaged = put "image" (str image) c in
    let (environment, _, h1) =
      >>=-eq-ok (list_or_empty bad_environment (find "environment" imaged)) _ h in
    let items = set_revision revision environment in
    let revised = put "environment" (arr items) imaged in
    let (labels, _, h2) =
      >>=-eq-ok (object_or_empty bad_labels (find "dockerLabels" revised)) _ h1 in
    let marked = put "org.opencontainers.image.revision" (str revision) labels in
    let last = put "dockerLabels" (obj marked) revised in
    let same : last ≡ d = ok-injective h2 in
    let image_kept = find-put_ne "environment" "image" (arr items) imaged refl in
    let image_there = find-put_ne "dockerLabels" "image" (obj marked) revised refl in
    let environment_there = find-put_ne "dockerLabels" "environment" (obj marked) revised refl in
    let named =
      (find-put_ne "dockerLabels" "name" (obj marked) revised refl).1
      ∙ ((find-put_ne "environment" "name" (arr items) imaged refl).1
          ∙ (find-put_ne "image" "name" (str image) c refl).1) in
    subst (λ f. IsRevised image revision f × (get "name" f ≡ get "name" c)) same
      (
        (
          image_there.0 ∙ (image_kept.0 ∙ find-put_self "image" (str image) c),
          (
            items,
            environment_there.0 ∙ find-put_self "environment" (arr items) imaged,
            revisions-set_revision revision environment,
          ),
          (
            marked,
            find-put_self "dockerLabels" (obj marked) revised,
            find-put_self "org.opencontainers.image.revision" (str revision) labels,
          ),
        ),
        named,
      )

abbrev pub IsRevisedItem : Text → Text → Json → Type 0
IsRevisedItem image revision v = (c : Fields) × (v ≡ obj c) × IsRevised image revision c

is_named-obj : (name : Text) (v : Json) → is_named name v ≡ true → (c : Fields) × (v ≡ obj c)
is_named-obj name (obj c) h = (c, refl)
is_named-obj name null h = absurd (cc)
is_named-obj name (bool b) h = absurd (cc)
is_named-obj name (int n) h = absurd (cc)
is_named-obj name (float x) h = absurd (cc)
is_named-obj name (str t) h = absurd (cc)
is_named-obj name (arr items) h = absurd (cc)

module _ (name image revision : Text) where
  -- A container of the name is revised, and keeps its name.
  update_named :
      (v u : Json)
      → is_named name v ≡ true
      → update_if_named name image revision true v ≡ ok u
      → (is_named name u ≡ true) × IsRevisedItem image revision u
  update_named v u named h =
      let (c, shape) = is_named-obj name v named in
      let (d, done, same) =
        >>=-eq-ok (update_container image revision c) _
          (ap (update_if_named name image revision true) (sym shape) ∙ h) in
      let (revised, kept) = update_container-IsRevised image revision c d done in
      let there : is_named name (obj d) ≡ true =
        ap (is_text name) kept ∙ (ap (is_named name) (sym shape) ∙ named) in
      subst (λ w. (is_named name w ≡ true) × IsRevisedItem image revision w) (ok-injective same)
        (there, (d, refl, revised))

  matches-update_containers :
      (items after : Items)
      → update_containers name image revision items ≡ ok after
      → All (IsRevisedItem image revision) (matches name after)
        × (length (matches name after) ≡ length (matches name items))
  unfolding update_containers
  matches-update_containers nil after h =
      subst
        (λ v. All (IsRevisedItem image revision) (matches name v) × (length (matches name v) ≡ 0))
        (ok-injective h) (tt, refl)
  matches-update_containers (cons v rest) after h =
      let (u, h0, h1) = >>=-eq-ok (update_if_named name image revision (is_named name v) v) _ h in
      let (later, h2, h3) = >>=-eq-ok (update_containers name image revision rest) _ h1 in
      let (revised, counted) = matches-update_containers rest later h2 in
      subst
        (λ w.
          All (IsRevisedItem image revision) (matches name w)
          × (length (matches name w) ≡ length (matches name (cons v rest))))
        (ok-injective h3)
        (elim (Bool-cases (is_named name v)) [
          | inl p ↦
              let (there, item) =
                update_named v u p
                  (ap (λ b. update_if_named name image revision b v) (sym p) ∙ h0) in
              rw (there, p) ((item, revised), ap (λ n. suc n) counted)
          | inr p ↦
              let same : v ≡ u =
                ok-injective (ap (λ b. update_if_named name image revision b v) (sym p) ∙ h0) in
              rw (← same) (rw p (revised, counted))
        ])

-- A definition that renders has none of the fields that AWS sets itself, and one container of the
-- name, which has the image, the revision as its only APP_REVISION, and the revision as its label.
pub render_task_definition-IsRevised :
    (name image revision : Text) (document out : Fields)
    → render_task_definition name image revision document ≡ ok out
    → All (λ key. find key out ≡ none) read_only_task_fields
      × ((items : Items) × (find "containerDefinitions" out ≡ some (arr items))
          × All (IsRevisedItem image revision) (matches name items)
          × (length (matches name items) ≡ 1))
unfolding render_task_definition
render_task_definition-IsRevised name image revision document out h =
    let (source, _, h1) = >>=-eq-ok (source_of document) _ h in
    let rendered = pop_all read_only_task_fields source in
    let (definitions, _, h2) =
      >>=-eq-ok (containers_of (find "containerDefinitions" rendered)) _ h1 in
    let (u, one, h3) =
      >>=-eq-ok (raise_if (not (length (matches name definitions) == 1)) not_one_container) _ h2 in
    let (updated, done, h4) = >>=-eq-ok (update_containers name image revision definitions) _ h3 in
    let (revised, counted) =
      matches-update_containers name image revision definitions updated done in
    let single =
      raise_if-ok (not (length (matches name definitions) == 1)) not_one_container {u = u} one in
    let kept : (key : String)
        → str_eq "containerDefinitions" key ≡ false
        → find key rendered ≡ none
        → find key (put "containerDefinitions" (arr updated) rendered) ≡ none =
      λ key other gone.
        (find-put_ne "containerDefinitions" key (arr updated) rendered other).0 ∙ gone in
    let gone = find-pop_all read_only_task_fields source in
    subst
      (λ f.
        All (λ key. find key f ≡ none) read_only_task_fields
        × ((items : Items) × (find "containerDefinitions" f ≡ some (arr items))
            × All (IsRevisedItem image revision) (matches name items)
            × (length (matches name items) ≡ 1)))
      (ok-injective h4)
      (
        All-imp (λ key. (str_eq "containerDefinitions" key ≡ false) × (find key rendered ≡ none)) _
            read_only_task_fields (λ key p. kept key p.0 p.1)
            (All-and (λ key. str_eq "containerDefinitions" key ≡ false)
              (λ key. find key rendered ≡ none) read_only_task_fields
              (refl, (refl, (refl, (refl, (refl, (refl, (refl, (refl, tt)))))))) gone),
        (
          updated,
          find-put_self "containerDefinitions" (arr updated) rendered,
          revised,
          ground (arith, counted, single),
        ),
      )
