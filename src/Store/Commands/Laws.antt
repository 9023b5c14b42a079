-- ===== src/Store/Commands/Laws.antt =====
-- Which searches by commands are accepted, and what they ask for.
use nestjs_microservice_boil.Base.{
  any, map, false, Text, List, [], ◌∷◌, ◌≡◌, ◌≢◌, ◌↔◌, inl, inr, refl, arith, some, ◌===◌, length,
  filter, Bool-cases, sym, ◌∙◌, ap, ===_refl,
}
use mathlib.Core.Path.{subst}
use nestjs_microservice_boil.Exception.{ok, bind-eq-ok}
use nestjs_microservice_boil.Collection.{group_by, group_from, is_inherited}
use nestjs_microservice_boil.Collection.Laws.{group_at, group_by_lem}
use nestjs_microservice_boil.Value.{Value, null, Fields, get, set}
use nestjs_microservice_boil.Value.Paths.{get-set}
use nestjs_microservice_boil.Store.Filter.{deleted_at}
use nestjs_microservice_boil.Store.Commands.{
  OperationCommand, is_like, is_equal, validate_group, validate_groups,
  validate_find_by_commands_filter, build_command_filter, add_commands, end,
}
use nestjs_microservice_boil.Collection.Keys.{
  DistinctKeys, group_at-here, group_by-DistinctKeys, group_at-Fresh, group_at-there,
}

-- Neither kind of command occurs exactly twice.
abbrev Allowed : List OperationCommand → Type 0
Allowed group = (length (filter is_like group) ≢ 2) × (length (filter is_equal group) ≢ 2)

abbrev AllAllowed : List (Text × List OperationCommand) → Type 0
AllAllowed [] = Unit
AllAllowed ((key, group) ∷ groups) = Allowed group × AllAllowed groups

validate_group_iff :
    (key : Text) (group : List OperationCommand)
    → (validate_group key group ≡ ok tt) ↔ Allowed group
unfolding validate_group
validate_group_iff key group = (λ h. ground arith, λ h. ground arith)

validate_groups_iff :
    (groups : List (Text × List OperationCommand))
    → (validate_groups groups ≡ ok tt) ↔ AllAllowed groups
unfolding validate_groups
validate_groups_iff [] = (λ h. tt, λ h. refl)
validate_groups_iff ((key, group) ∷ groups) =
    let (one, two) = validate_group_iff key group in
    let (three, four) = validate_groups_iff groups in
    (
      λ h.
          let (u, q, r) = bind-eq-ok (validate_group key group) (λ _. validate_groups groups) h in
          (one q, three r),
      λ h. rw (two h.0) (four h.1),
    )

nothing-Allowed : Allowed []
nothing-Allowed = (λ e. absurd (omega arith), λ e. absurd (omega arith))

AllAllowed-group_at :
    (k : Text) (groups : List (Text × List OperationCommand))
    → AllAllowed groups
    → Allowed (group_at k groups)
AllAllowed-group_at k [] h = nothing-Allowed
AllAllowed-group_at k ((i, group) ∷ groups) h = elim (Bool-cases (i === k)) [
  | inl e ↦ rw e h.0
  | inr e ↦ rw e (AllAllowed-group_at k groups h.1)
]

-- A filter that was built asks for documents without a date of deletion.
pub build_command_filter-dated :
    (to_string : Value → Text) (filter_list : List OperationCommand) (out : Fields)
    → build_command_filter to_string filter_list ≡ ok out
    → get deleted_at out ≡ some null
unfolding build_command_filter ◌===◌
build_command_filter-dated to_string filter_list out h =
    let search_list = add_commands to_string filter_list end in
    let (u, q, r) =
      bind-eq-ok (validate_find_by_commands_filter filter_list)
        (λ _. ok (set deleted_at null search_list)) h in
    let same : set deleted_at null search_list ≡ out = ground (arith, r) in
    ap (get deleted_at) (sym same) ∙ get-set deleted_at deleted_at null search_list

group_at-AllAllowed :
    (groups : List (Text × List OperationCommand))
    → DistinctKeys groups
    → ((k : Text) → Allowed (group_at k groups))
    → AllAllowed groups
group_at-AllAllowed [] d h = tt
group_at-AllAllowed ((i, group) ∷ groups) d h = (
  subst Allowed (group_at-here i i group groups (===_refl i)) (h i),
  group_at-AllAllowed groups d.1 λ k. elim (Bool-cases (i === k)) [
    | inl e ↦ subst Allowed (sym (group_at-Fresh k i groups e d.0)) nothing-Allowed
    | inr e ↦ subst Allowed (group_at-there k i group groups e) (h k)
  ],
)

-- A search by commands is accepted exactly if no property has the name of a member that every object
-- inherits, and no property has exactly two commands of the one kind (that it contains or does not
-- contain) or exactly two of the other kind (that it equals or does not equal).
pub validate_find_by_commands_filter_iff :
    (filter_list : List OperationCommand)
    → (validate_find_by_commands_filter filter_list ≡ ok tt) ↔ (
        (any is_inherited (map (λ c. c.property) filter_list) ≡ false)
        × ((property : Text)
            → (length (filter is_like (filter (λ c. c.property === property) filter_list)) ≢ 2)
              × (length (filter is_equal (filter (λ c. c.property === property) filter_list)) ≢ 2)))
unfolding validate_find_by_commands_filter group_by
validate_find_by_commands_filter_iff filter_list =
    let key_of = λ (c : OperationCommand). c.property in
    let groups = group_from key_of [] filter_list in
    let (one, two) = validate_groups_iff groups in
    elim (Bool-cases (any is_inherited (map key_of filter_list))) [
      | inl e ↦ (λ h. absurd (ground (arith, e, h)), λ h. absurd (ground (arith, e, h.0)))
      | inr e ↦ (
        λ h. (
          e,
          λ property.
              subst Allowed (group_by_lem filter_list key_of property)
                (AllAllowed-group_at property groups (one (ground (arith, e, h)))),
        ),
        λ h.
            let passed = two (
              group_at-AllAllowed groups (group_by-DistinctKeys filter_list key_of) λ property.
                subst Allowed (sym (group_by_lem filter_list key_of property)) (h.1 property)) in
            ground (arith, e, passed),
      )
    ]
