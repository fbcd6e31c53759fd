-- ===== src/Mission/State/Refines.antt =====
-- A run of `set` against a table from ids to values.
use radsat_linux.Base.{ℕ, ◌≡◌, refl, ap, ◌∙◌, Bool, List, [], ◌∷◌, arith, ◌==◌, if◌then◌else◌}
use radsat_linux.Base.Int.{ℤ}
use radsat_linux.Mission.Key.{
  MissionKey, remove_before_flight, ValueType, u64, boolean, id, declared_value_type,
}
use radsat_linux.Mission.State
use radsat_linux.Mission.State.{MissionValue, bool, other_value, MissionState, as_i64, set}

-- what a field holds
pub data Shown : Type 0 where
  number : ℤ → Shown
  flag : Bool → Shown

abbrev pub Table : Type 0
Table = List (ℕ × Shown)

-- the value under an id that is in the table
unfoldable pub put : ℕ → Shown → Table → Table
put n x [] = []
put n x ((m, y) ∷ t) = if n == m then (m, x) ∷ t else (m, y) ∷ put n x t

-- a value changes the table if its kind is the one that its key declares
abbrev pub assign : ValueType → {O : Type 0} → MissionKey → MissionValue O → Table → Table
assign u64 k (State.u64 v) t = put (id k) (number (as_i64 v)) t
assign boolean k (bool v) t = put (id k) (flag v) t
assign declared k v t = t

unfoldable pub assign_all : {O : Type 0} → List (MissionKey × MissionValue O) → Table → Table
assign_all [] t = t
assign_all ((k, v) ∷ updates) t = assign_all updates (assign (declared_value_type k) k v t)

abbrev pub fields : {R : Type 0} → MissionState R → Table
fields s =
    (7, number s.boot_checksum)
    ∷ (8, number s.total_boot_fails)
    ∷ (9, flag s.emmc_recovery_needed)
    ∷ (10, number s.emmc_recovery_attempts)
    ∷ (11, number s.sd_restore_slot)
    ∷ (12, flag s.last_emmc_probe_ok)
    ∷ (13, number s.boot_media)
    ∷ (14, number s.boot_image_id)
    ∷ (18, flag s.adcs_commissioning_logged)
    ∷ (40, number s.emmc_restore_offset)
    ∷ []

module _ {R O : Type 0}
    (other : MissionState R → MissionKey → MissionValue O → MissionState R) where
  unfoldable pub set_all : List (MissionKey × MissionValue O) → MissionState R → MissionState R
  set_all [] s = s
  set_all ((k, v) ∷ updates) s = set_all updates (set other s k v)

  module _
      (keeps : (s : MissionState R) (k : MissionKey) (v : MissionValue O)
        → fields (other s k v) ≡ fields s) where
    set-u64 :
        (s : MissionState R) (k : MissionKey) (n : ℕ)
        → fields (set other s k (State.u64 n))
          ≡ assign (declared_value_type k) {O = O} k (State.u64 n) (fields s)
    unfolding set put id declared_value_type
    set-u64 s remove_before_flight n = keeps s _ (State.u64 n)
    set-u64 s _ n = grind (arith, keeps)

    set-bool :
        (s : MissionState R) (k : MissionKey) (b : Bool)
        → fields (set other s k (bool b))
          ≡ assign (declared_value_type k) {O = O} k (bool b) (fields s)
    unfolding set put id declared_value_type
    set-bool s remove_before_flight b = keeps s _ (bool b)
    set-bool s _ b = grind (arith, keeps)

    set-other :
        (s : MissionState R) (k : MissionKey) (o : O)
        → fields (set other s k (other_value o))
          ≡ assign (declared_value_type k) {O = O} k (other_value o) (fields s)
    unfolding set put id declared_value_type
    set-other s remove_before_flight o = keeps s _ (other_value o)
    set-other s _ o = grind (arith, keeps)

    set-fields :
        (s : MissionState R) (k : MissionKey) (v : MissionValue O)
        → fields (set other s k v) ≡ assign (declared_value_type k) k v (fields s)
    set-fields s k (State.u64 n) = set-u64 s k n
    set-fields s k (bool b) = set-bool s k b
    set-fields s k (other_value o) = set-other s k o

    -- A run of `set` changes the ten shown fields as a table from ids to values is changed by the same
    -- updates: an update whose value is of the kind that its key declares, a u64 read as an i64, takes the place of the
    -- value under the key's id, and every other update changes none of them. The condition is that the arms that the
    -- scripts do not show leave the shown fields alone.
    pub set_all-refines :
        (updates : List (MissionKey × MissionValue O)) (s : MissionState R)
        → fields (set_all updates s) ≡ assign_all updates (fields s)
    unfolding set_all assign_all
    set_all-refines [] s = refl
    set_all-refines ((k, v) ∷ updates) s =
        set_all-refines updates (set other s k v) ∙ ap (assign_all updates) (set-fields s k v)
