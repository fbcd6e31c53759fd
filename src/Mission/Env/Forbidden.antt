-- ===== src/Mission/Env/Forbidden.antt =====
-- The forbidden names through any run of writes.
use radsat_linux.Base.{
  ◌≡◌, ◌≢◌, refl, sym, ap, ◌∙◌, true, List, [], ◌∷◌, Option, Bytes, Bool-cases, inl, inr,
}
use radsat_linux.Mission.Key.{MissionKey, is_forbidden_boot_env_name, env_name}
use radsat_linux.Mission.Key.Names.{env_name-not_forbidden}
use radsat_linux.Mission.Env.{Writer, write}

module _ {S : Type 0} (inner : Writer S) (lookup : S → Bytes → Option Bytes) where
  -- the calls of a service, whatever each of them answers
  unfoldable pub write_all : List (Bytes × Option Bytes) → S → S
  write_all [] s = s
  write_all ((name, value) ∷ writes) s = write_all writes (write inner s name value).1

  module _
      (one_name : (s : S) (name x : Bytes) (value : Option Bytes)
        → name ≢ x
        → lookup (inner s name value).1 x ≡ lookup s x) where
    write-forbidden :
        (s : S) (name x : Bytes) (value : Option Bytes)
        → is_forbidden_boot_env_name x ≡ true
        → lookup (write inner s name value).1 x ≡ lookup s x
    unfolding write
    write-forbidden s name x value h = elim (Bool-cases (is_forbidden_boot_env_name name)) [
      | inl refused ↦ rw (refused, write) refl
      | inr passed ↦
          rw (passed, write)
            (one_name s name x value (λ e. cc (sym (ap is_forbidden_boot_env_name e ∙ h) ∙ passed)))
    ]

    untouched :
        (writes : List (Bytes × Option Bytes)) (s : S) (x : Bytes)
        → is_forbidden_boot_env_name x ≡ true
        → lookup (write_all writes s) x ≡ lookup s x
    unfolding write_all
    untouched [] s x h = refl
    untouched ((name, value) ∷ writes) s x h =
        untouched writes (write inner s name value).1 x h ∙ write-forbidden s name x value h

    passes :
        (s : S) (k : MissionKey) (value : Option Bytes)
        → write inner s (env_name k) value ≡ inner s (env_name k) value
    unfolding write
    passes s k value = rw (env_name-not_forbidden k, write) refl

    -- Behind the guard no run of writes, whatever names and values it has, changes a variable whose name
    -- is forbidden, while the write of a mission key's own variable is always passed on. The condition is that a writer
    -- changes no variable but the one that it is called for.
    pub write_all-forbidden :
        (writes : List (Bytes × Option Bytes)) (s : S) (x : Bytes)
        → is_forbidden_boot_env_name x ≡ true
        → (lookup (write_all writes s) x ≡ lookup s x)
          × ((t : S) (k : MissionKey) (value : Option Bytes)
              → write inner t (env_name k) value ≡ inner t (env_name k) value)
    write_all-forbidden writes s x h = (untouched writes s x h, passes)
