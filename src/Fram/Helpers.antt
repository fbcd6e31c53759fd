-- ===== src/Fram/Helpers.antt =====
-- The script fram-set, which tools/apply-mram-fram-plan2.py writes for the command line: the request that it posts to
-- fram-service. curl and the variable FRAM_URL are left out.
pub mod Json
pub mod Request
use radsat_linux.Base.{
  Bool, ◌||◌, List, [], ◌∷◌, ◌++◌, Option, none, some, Bytes, codes, bytes_eq, if◌then◌else◌,
}

-- the pattern of the first branch of `case "$VALUE"`
unfoldable pub is_boolean_word : Bytes → Bool
is_boolean_word value =
    bytes_eq value (codes "true")
    || bytes_eq value (codes "TRUE")
    || bytes_eq value (codes "True")
    || bytes_eq value (codes "false")
    || bytes_eq value (codes "FALSE")
    || bytes_eq value (codes "False")

-- the name of the argument that carries the value
abbrev pub value_argument : Bytes → Bytes
value_argument value = if is_boolean_word value then codes "boolValue" else codes "intValue"

-- BODY, with the shell's quotes taken off
unfoldable pub request_body : Bytes → Bytes → Bytes → Bytes
request_body name value mirror =
    codes "{\"query\":\"mutation { setFlag(name:\\\""
    ++ (name
        ++ (codes "\\\", "
            ++ (value_argument value
                ++ (codes ":"
                    ++ (value
                        ++ (codes ", mirrorToEnv:"
                            ++ (mirror
                                ++ codes
                                    ") { success errors flag { present boolValue intValue } } }\"}")))))))

-- `${3:-false}`
abbrev pub mirror_or_false : Bytes → Bytes
mirror_or_false [] = codes "false"
mirror_or_false (c ∷ mirror) = c ∷ mirror

-- `${1:?...}` and `${2:?...}` leave on an argument that is missing or empty: none
unfoldable pub fram_set : List Bytes → Option Bytes
fram_set ((n ∷ name) ∷ (v ∷ value) ∷ []) =
    some (request_body (n ∷ name) (v ∷ value) (codes "false"))
fram_set ((n ∷ name) ∷ (v ∷ value) ∷ mirror ∷ more) =
    some (request_body (n ∷ name) (v ∷ value) (mirror_or_false mirror))
fram_set _ = none
