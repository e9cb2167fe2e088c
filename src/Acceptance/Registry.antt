-- ===== src/Acceptance/Registry.antt =====
-- acceptance/check_registry.py: the table of checks and the views of it.
pub mod Table
use mathlib.Core.Option
use Prim.Native.Nat.{Ordering}
use Prim.Native.String.{compare as compare_texts}
use blender_design.Common.{
  ℕ, ◌≡◌, refl, Bool, true, false, ◌||◌, String, str_eq, List, [], ◌∷◌, map, Option, none, some,
  ltb, ◌==◌, set_eq, filter, sort_by, not, if◌then◌else◌,
}

pub data Stage : Type 0 where
  r0 r1 r2 r3 r4 r5 : Stage

-- `kind` of a check; a contract's artifact kind is one of the last two.
pub data Kind : Type 0 where
  every interchange blend_native : Kind

pub record CheckSpec : Type 0 where
  pub id : String
  pub stage : Stage
  pub order : ℕ
  pub impl : ℕ
  pub kind : Kind
  pub writer : String
  pub warning_codes : List String

abbrev check : String → Stage → ℕ → ℕ → Kind → String → List String → CheckSpec
check id stage order impl kind writer codes = record {
  id = id;
  stage = stage;
  order = order;
  impl = impl;
  kind = kind;
  writer = writer;
  warning_codes = codes;
}

-- The table as written.
unfoldable pub table : List CheckSpec
table =
    check "r0.contract.schema_closed" r0 10 1 every "coordinator" ([])
    ∷ check "r0.contract.tools_locked" r0 20 1 every "coordinator" ([])
    ∷ check "r0.contract.na_set_declared" r0 30 1 every "coordinator" ([])
    ∷ check "r1.input.digest_recorded" r1 10 1 every "coordinator" ([])
    ∷ check "r1.input.no_link_or_device" r1 20 1 every "coordinator" ([])
    ∷ check "r1.input.size_within_limit" r1 30 1 every "coordinator" ([])
    ∷ check "r2.inventory.coverage_complete" r2 10 1 every "inspector"
        ("unsupported_datablock_type" ∷ "unsupported_modifier_type" ∷ [])
    ∷ check "r2.inventory.no_nan_inf" r2 20 1 every "inspector" ([])
    ∷ check "r2.inventory.no_reserved_props" r2 25 1 every "inspector" ([])
    ∷ check "r2.geometry.validate_clean" r2 30 1 every "inspector" ([])
    ∷ check "r2.geometry.manifest_written" r2 40 1 every "inspector" ([])
    ∷ check "r2.material.slots_resolved" r2 50 1 every "inspector" ("empty_material_slot" ∷ [])
    ∷ check "r2.dependency.all_present" r2 60 1 every "inspector" ("packed_dependency" ∷ [])
    ∷ check "r2.source.digest_stable" r2 70 1 every "inspector" ([])
    ∷ check "r3.export.file_nonempty" r3 10 1 interchange "export_glb" ([])
    ∷ check "r3.export.source_unchanged" r3 20 1 interchange "export_glb" ([])
    ∷ check "r3.validator.no_error" r3 30 1 interchange "coordinator" ([])
    ∷ check "r3.validator.resources_read" r3 40 1 interchange "coordinator" ([])
    ∷ check "r3.validator.report_complete" r3 50 1 interchange "coordinator" ([])
    ∷ check "r3.extension.none_forbidden" r3 60 1 interchange "coordinator" ([])
    ∷ check "r3.budget.within_limits" r3 70 1 interchange "glb_budget"
        ("budget_near_limit" ∷ "non_triangle_primitive" ∷ [])
    ∷ check "r4.reopen.offline_ok" r4 10 1 blend_native "reopen_probe" ([])
    ∷ check "r4.reopen.dependencies_resolved" r4 20 1 blend_native "reopen_probe" ([])
    ∷ check "r4.reopen.manifest_matches_source" r4 25 1 blend_native "reopen_probe" ([])
    ∷ check "r4.import.manifest_written" r4 30 1 interchange "reimport_probe" ([])
    ∷ check "r4.projection.preserved_fields_match" r4 40 1 interchange "coordinator" ([])
    ∷ check "r4.projection.transformed_within_tolerance" r4 45 1 interchange "coordinator" ([])
    ∷ check "r4.projection.undeclared_loss" r4 50 1 interchange "coordinator" ([])
    ∷ check "r4.projection.ambiguous_object_names" r4 55 1 interchange "coordinator" ([])
    ∷ check "r4.visual.scene_not_empty" r4 60 1 every "render_views(src)" ([])
    ∷ check "r4.visual.all_views_rendered" r4 70 1 every "coordinator" ([])
    ∷ check "r4.visual.self_determinism" r4 80 1 every "render_views(src)" ([])
    ∷ check "r4.visual.platform_key_known" r4 90 1 every "render_views(src)" ([])
    ∷ check "r4.visual.source_import_match" r4 100 1 interchange "coordinator" ([])
    ∷ check "r5.evidence.manifest_closed" r5 10 1 every "coordinator" ([])
    ∷ check "r5.evidence.hashes_match" r5 20 1 every "coordinator" ([])
    ∷ check "r5.contract.digest_stable" r5 30 1 every "coordinator" ([])
    ∷ []

unfoldable pub v2_impl : List (String × ℕ)
v2_impl =
    ("r0.contract.schema_closed", 2)
    ∷ ("r0.contract.tools_locked", 2)
    ∷ ("r0.contract.na_set_declared", 1)
    ∷ ("r1.input.digest_recorded", 2)
    ∷ ("r1.input.no_link_or_device", 2)
    ∷ ("r1.input.size_within_limit", 2)
    ∷ ("r2.inventory.coverage_complete", 2)
    ∷ ("r2.inventory.no_nan_inf", 1)
    ∷ ("r2.inventory.no_reserved_props", 1)
    ∷ ("r2.geometry.validate_clean", 2)
    ∷ ("r2.geometry.manifest_written", 2)
    ∷ ("r2.material.slots_resolved", 2)
    ∷ ("r2.dependency.all_present", 2)
    ∷ ("r2.source.digest_stable", 2)
    ∷ ("r3.export.file_nonempty", 1)
    ∷ ("r3.export.source_unchanged", 1)
    ∷ ("r3.validator.no_error", 1)
    ∷ ("r3.validator.resources_read", 1)
    ∷ ("r3.validator.report_complete", 1)
    ∷ ("r3.extension.none_forbidden", 1)
    ∷ ("r3.budget.within_limits", 2)
    ∷ ("r4.reopen.offline_ok", 2)
    ∷ ("r4.reopen.dependencies_resolved", 2)
    ∷ ("r4.reopen.manifest_matches_source", 2)
    ∷ ("r4.import.manifest_written", 2)
    ∷ ("r4.projection.preserved_fields_match", 2)
    ∷ ("r4.projection.transformed_within_tolerance", 2)
    ∷ ("r4.projection.undeclared_loss", 2)
    ∷ ("r4.projection.ambiguous_object_names", 2)
    ∷ ("r4.visual.scene_not_empty", 2)
    ∷ ("r4.visual.all_views_rendered", 2)
    ∷ ("r4.visual.self_determinism", 2)
    ∷ ("r4.visual.platform_key_known", 2)
    ∷ ("r4.visual.source_import_match", 2)
    ∷ ("r5.evidence.manifest_closed", 2)
    ∷ ("r5.evidence.hashes_match", 2)
    ∷ ("r5.contract.digest_stable", 2)
    ∷ []

abbrev lookup : String → List (String × ℕ) → ℕ → ℕ
lookup k [] d = d
lookup k ((j, v) ∷ rest) d = if str_eq j k then v else lookup k rest d

-- The table with the implementation numbers of version 2. The module refuses to load where the two
-- tables differ in their ids, so the number kept for a missing id is not reached.
unfoldable pub checks : List CheckSpec
unfolding table v2_impl
checks = map (λ (c : CheckSpec). record c { impl = lookup c.id v2_impl c.impl }) table

unfoldable pub stage_index : Stage → ℕ
stage_index r0 = 0
stage_index r1 = 1
stage_index r2 = 2
stage_index r3 = 3
stage_index r4 = 4
stage_index r5 = 5

abbrev pub SortKey : Type 0
SortKey = ℕ × ℕ × String

unfoldable pub sort_key : CheckSpec → SortKey
unfolding stage_index
sort_key spec = (stage_index spec.stage, spec.order, spec.id)

-- `<` on texts, by code points.
unfoldable pub text_lt : String → String → Bool
text_lt s t = elim (compare_texts s t) [ Ordering.lt ↦ true | _ ↦ false ]

-- `<` on the keys, as on tuples.
unfoldable pub key_lt : SortKey → SortKey → Bool
unfolding text_lt
key_lt (a, b, c) (x, y, z) =
    if ltb a x
    then true
    else if a == x
    then (if ltb b y then true else if b == y then text_lt c z else false)
    else false

abbrev pub applies_kind : Kind → Kind → Bool
applies_kind kind every = true
applies_kind interchange interchange = true
applies_kind blend_native blend_native = true
applies_kind _ _ = false

-- `c.kind in ("all", kind)`
abbrev pub applies : Kind → CheckSpec → Bool
applies kind c = applies_kind kind c.kind

abbrev pub ids : List CheckSpec → List String
ids = map (λ c. c.id)

unfoldable pub checks_for_kind : Kind → List CheckSpec
unfolding checks filter
checks_for_kind kind = filter (applies kind) checks

unfoldable pub na_check_ids : Kind → List String
unfolding checks filter sort_by text_lt
na_check_ids kind = sort_by text_lt (ids (filter (λ c. not (applies kind c)) checks))

abbrev pub find_spec : String → List CheckSpec → Option CheckSpec
find_spec k [] = none
find_spec k (c ∷ cs) = if str_eq c.id k then some c else find_spec k cs

-- `_SPEC`, a dict over the table (of acceptance/decide.py)
unfoldable pub spec_of : String → Option CheckSpec
unfolding checks
spec_of k = find_spec k checks

-- The test under which the module raises at import.
v2_impl_exact : set_eq (map (λ (p : String × ℕ). p.0) v2_impl) (ids table) ≡ true
unfolding v2_impl table set_eq
v2_impl_exact = refl

checks_sample : Option.map (λ (c : CheckSpec). c.impl) (spec_of "r3.budget.within_limits") ≡ some 2
unfolding spec_of
checks_sample = refl
