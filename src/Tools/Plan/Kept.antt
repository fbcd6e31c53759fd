-- ===== src/Tools/Plan/Kept.antt =====
-- The functions of tools/apply-mram-fram-plan.py that are to put the layout header and the guard into src/subsystem.rs and
-- src/env.rs.
use radsat_linux.Base.{
  ◌≡◌, refl, sym, ◌∙◌, ◌&&◌, ◌||◌, some, Bytes, codes, Bool-cases, Option-cases, inl, inr,
}
use radsat_linux.Base.Maybe.{some_inj}
use radsat_linux.Tools.Text.{occurs_in, replace_first, must_replace}
use radsat_linux.Tools.Text.Replace.{replace_cases}
use radsat_linux.Tools.Text.Insert.{replace_first-absent}
use radsat_linux.Tools.Generate.Agrees.{must_replace_inv}
use radsat_linux.Tools.Plan.{
  Services, patch_fram_layout, patch_fram_model, patch_fram_schema_mirror_default,
  patch_fram_subsystem_header, patch_fram_env_guard, has_mount, mount_call, use_model, with_env,
  with_subsystem, main,
}

replace_first-same : (old t : Bytes) → replace_first old old t ≡ t
replace_first-same old t = elim (replace_cases old old t) [
  | inl (pre, post, split, found, replaced, first) ↦ replaced ∙ sym split
  | inr (absent, never) ↦ replace_first-absent old old t absent
]

must_replace-same : (old t u : Bytes) → must_replace t old old ≡ some u → u ≡ t
must_replace-same old t u h = sym (must_replace_inv t old old u h) ∙ replace_first-same old t

header_kept : (t u : Bytes) → patch_fram_subsystem_header t ≡ some u → u ≡ t
unfolding patch_fram_subsystem_header
header_kept t u h = elim (Bool-cases (occurs_in (codes "ensure_layout_header") t)) [
  | inl there ↦ sym (some_inj (rw there at h))
  | inr absent ↦ elim (Bool-cases (has_mount t)) [
    | inl mounts ↦ sym (some_inj (rw (absent, mounts) at h))
    | inr looser ↦ elim (Bool-cases (occurs_in (codes "FramStorage::mount") t)) [
      | inl called ↦ must_replace-same mount_call t u (rw (absent, looser, called) at h)
      | inr never ↦ sym (some_inj (rw (absent, looser, never) at h))
    ]
  ]
]

guard_kept : (t u : Bytes) → patch_fram_env_guard t ≡ some u → u ≡ t
unfolding patch_fram_env_guard
guard_kept t u h = elim (Bool-cases (occurs_in (codes "is_forbidden_boot_env_name") t)) [
  | inl there ↦ sym (some_inj (rw there at h))
  | inr absent ↦
      elim (Bool-cases (occurs_in (codes "fw_setenv") t || occurs_in (codes "set_env") t)) [
        | inr other ↦ sym (some_inj (rw (absent, other) at h))
        | inl writes ↦
            elim (Bool-cases (occurs_in use_model t && occurs_in (codes "MissionKey") t)) [
              | inl uses ↦ must_replace-same use_model t u (rw (absent, writes, uses) at h)
              | inr none_used ↦ sym (some_inj (rw (absent, writes, none_used) at h))
            ]
      ]
]

abbrev Kept : Services → Services → Type 0
Kept s s2 = (s2.subsystem_rs ≡ s.subsystem_rs) × (s2.env_rs ≡ s.env_rs)

with_env-Kept : (s : Services) → Kept s (with_env s (patch_fram_env_guard s.env_rs)).0
with_env-Kept s = elim (Option-cases (patch_fram_env_guard s.env_rs)) [
  | inl stops ↦ rw stops (refl, refl)
  | inr (t, edited) ↦ rw edited (refl, guard_kept s.env_rs t edited)
]

with_subsystem-Kept :
    (s : Services) → Kept s (with_subsystem s (patch_fram_subsystem_header s.subsystem_rs)).0
with_subsystem-Kept s = elim (Option-cases (patch_fram_subsystem_header s.subsystem_rs)) [
  | inl stops ↦ rw stops (refl, refl)
  | inr (t, edited) ↦
      let (same, guarded) = with_env-Kept (record s { subsystem_rs = t }) in
      rw edited (same ∙ header_kept s.subsystem_rs t edited, guarded)
]

-- Wherever a run of apply-mram-fram-plan.py ends, and whatever the files hold, it leaves src/subsystem.rs and src/env.rs of
-- fram-service as they were: neither the layout header nor the guard of the environment is put in.
pub main-Kept :
    (s : Services) → ((main s).0.subsystem_rs ≡ s.subsystem_rs) × ((main s).0.env_rs ≡ s.env_rs)
unfolding main
main-Kept s = elim (Option-cases (patch_fram_layout s.layout_rs)) [
  | inl stops ↦ rw stops (refl, refl)
  | inr (layout, edited) ↦ elim (Option-cases (patch_fram_model s.model_rs)) [
    | inl stops ↦ rw (edited, stops) (refl, refl)
    | inr (model, edited2) ↦
        rw (edited, edited2)
          (with_subsystem-Kept (record s {
            layout_rs = layout;
            model_rs = model;
            schema_rs = patch_fram_schema_mirror_default s.schema_rs;
          }))
  ]
]
