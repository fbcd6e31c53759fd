-- ===== src/Fram/Helpers/Request.antt =====
-- What fram-service reads out of the request.
use radsat_linux.Base.{
  ℕ, true, false, ◌≡◌, refl, ap, sym, ◌∙◌, [], ◌∷◌, ◌++◌, some, Bytes, codes, append_assoc,
  if◌then◌else◌, Bool-cases, inl, inr, ◌⊎◌, ◌≢◌, bytes_eq, bytes_eq→≡,
}
use radsat_linux.Tools.Text.{starts_with}
use radsat_linux.Fram.Helpers.{
  request_body, value_argument, mirror_or_false, fram_set, is_boolean_word,
}
use radsat_linux.Fram.Helpers.Json.{
  query_of, is_plain, json_escape, no_control, no_control-append, no_control-plain,
  json_chars-escape, json_escape-append, json_escape-plain,
}

-- the mutation that fram-set asks for, with the value in an argument of this name
unfoldable pub mutation : Bytes → Bytes → Bytes → Bytes → Bytes
mutation argument name value mirror =
    codes "mutation { setFlag(name:\""
    ++ (name
        ++ (codes "\", "
            ++ (argument
                ++ (codes ":"
                    ++ (value
                        ++ (codes ", mirrorToEnv:"
                            ++ (mirror
                                ++ codes
                                    ") { success errors flag { present boolValue intValue } } }")))))))

value_argument-plain : (value : Bytes) → is_plain (value_argument value) ≡ true
unfolding is_plain
value_argument-plain value = elim (Bool-cases (is_boolean_word value)) [
  | inl word ↦ rw word refl
  | inr number ↦ rw number refl
]

json_escape-put :
    (s t rest : Bytes)
    → is_plain s ≡ true
    → json_escape (s ++ t) ++ rest ≡ s ++ (json_escape t ++ rest)
json_escape-put s t rest h =
    ap (λ u. u ++ rest)
      (json_escape-append s t ∙ ap (λ u. u ++ json_escape t) (json_escape-plain s h))
    ∙ append_assoc s (json_escape t) rest

abbrev selection : Bytes
selection = codes ") { success errors flag { present boolValue intValue } } }"

abbrev closing : Bytes
closing = codes "\"}"

escape-mirror :
    (mirror : Bytes)
    → is_plain mirror ≡ true
    → json_escape (codes ", mirrorToEnv:" ++ (mirror ++ selection)) ++ closing
      ≡ codes ", mirrorToEnv:" ++ (mirror ++ (selection ++ closing))
unfolding json_escape
escape-mirror mirror h =
    ap (λ u. codes ", mirrorToEnv:" ++ u) (json_escape-put mirror selection closing h)

escape-value :
    (value mirror : Bytes)
    → is_plain value ≡ true
    → is_plain mirror ≡ true
    → json_escape (codes ":" ++ (value ++ (codes ", mirrorToEnv:" ++ (mirror ++ selection))))
        ++ closing
      ≡ codes ":" ++ (value ++ (codes ", mirrorToEnv:" ++ (mirror ++ (selection ++ closing))))
unfolding json_escape
escape-value value mirror hv hm =
    ap (λ u. codes ":" ++ u)
      (json_escape-put value (codes ", mirrorToEnv:" ++ (mirror ++ selection)) closing hv
        ∙ ap (λ u. value ++ u) (escape-mirror mirror hm))

escape-argument :
    (value mirror : Bytes)
    → is_plain value ≡ true
    → is_plain mirror ≡ true
    → json_escape (
          codes "\", "
          ++ (value_argument value
              ++ (codes ":" ++ (value ++ (codes ", mirrorToEnv:" ++ (mirror ++ selection))))))
        ++ closing
      ≡ codes "\\\", "
        ++ (value_argument value
            ++ (codes ":"
                ++ (value ++ (codes ", mirrorToEnv:" ++ (mirror ++ (selection ++ closing))))))
unfolding json_escape
escape-argument value mirror hv hm =
    ap (λ u. codes "\\\", " ++ u)
      (json_escape-put (value_argument value)
          (codes ":" ++ (value ++ (codes ", mirrorToEnv:" ++ (mirror ++ selection)))) closing
          (value_argument-plain value)
        ∙ ap (λ u. value_argument value ++ u) (escape-value value mirror hv hm))

request_body-escape :
    (name value mirror : Bytes)
    → is_plain name ≡ true
    → is_plain value ≡ true
    → is_plain mirror ≡ true
    → codes "{\"query\":\""
        ++ (json_escape (mutation (value_argument value) name value mirror) ++ closing)
      ≡ request_body name value mirror
unfolding request_body mutation json_escape
request_body-escape name value mirror hn hv hm =
    ap (λ u. codes "{\"query\":\"mutation { setFlag(name:\\\"" ++ u)
      (json_escape-put name
          (codes "\", "
            ++ (value_argument value
                ++ (codes ":" ++ (value ++ (codes ", mirrorToEnv:" ++ (mirror ++ selection))))))
          closing hn
        ∙ ap (λ u. name ++ u) (escape-argument value mirror hv hm))

query_of-escape :
    (s : Bytes)
    → no_control s ≡ true
    → query_of (codes "{\"query\":\"" ++ (json_escape s ++ codes "\"}")) ≡ some s
unfolding query_of starts_with
query_of-escape s h = rw (json_chars-escape s (codes "}") h) refl

mutation_printable :
    (argument name value mirror : Bytes)
    → is_plain argument ≡ true
    → is_plain name ≡ true
    → is_plain value ≡ true
    → is_plain mirror ≡ true
    → no_control (mutation argument name value mirror) ≡ true
unfolding mutation no_control
mutation_printable argument name value mirror ha hn hv hm =
    let tail = no_control-append mirror selection (no_control-plain mirror hm) refl in
    let valued =
      no_control-append value (codes ", mirrorToEnv:" ++ (mirror ++ selection))
        (no_control-plain value hv) tail in
    let argued =
      no_control-append argument
        (codes ":" ++ (value ++ (codes ", mirrorToEnv:" ++ (mirror ++ selection))))
        (no_control-plain argument ha) valued in
    no_control-append name
      (codes "\", "
        ++ (argument
            ++ (codes ":" ++ (value ++ (codes ", mirrorToEnv:" ++ (mirror ++ selection))))))
      (no_control-plain name hn) argued

false_plain : is_plain (codes "false") ≡ true
unfolding is_plain
false_plain = refl

mirror_or_false-plain : (m : Bytes) → is_plain m ≡ true → is_plain (mirror_or_false m) ≡ true
unfolding is_plain
mirror_or_false-plain [] h = refl
mirror_or_false-plain (c ∷ m) h = h

-- the Boolean words of the usage
abbrev pub IsWord : Bytes → Type 0
IsWord v =
    (v ≡ codes "true")
    ⊎ (v ≡ codes "TRUE")
    ⊎ (v ≡ codes "True")
    ⊎ (v ≡ codes "false")
    ⊎ (v ≡ codes "FALSE")
    ⊎ (v ≡ codes "False")

abbrev pub IsOther : Bytes → Type 0
IsOther v =
    (v ≢ codes "true")
    × (v ≢ codes "TRUE")
    × (v ≢ codes "True")
    × (v ≢ codes "false")
    × (v ≢ codes "FALSE")
    × (v ≢ codes "False")

-- the argument that is to carry a value
abbrev pub Carries : Bytes → Bytes → Type 0
Carries argument v =
    ((argument ≡ codes "boolValue") × IsWord v) ⊎ ((argument ≡ codes "intValue") × IsOther v)

differs : (v word : Bytes) → v ≢ word → bytes_eq v word ≡ false
differs v word ne = elim (Bool-cases (bytes_eq v word)) [
  | inl same ↦ absurd (ne (bytes_eq→≡ v word same))
  | inr other ↦ other
]

word_is_boolean : (v : Bytes) → IsWord v → is_boolean_word v ≡ true
unfolding is_boolean_word
word_is_boolean v (inl e) = rw e refl
word_is_boolean v (inr (inl e)) = rw e refl
word_is_boolean v (inr (inr (inl e))) = rw e refl
word_is_boolean v (inr (inr (inr (inl e)))) = rw e refl
word_is_boolean v (inr (inr (inr (inr (inl e))))) = rw e refl
word_is_boolean v (inr (inr (inr (inr (inr e))))) = rw e refl

other_is_not : (v : Bytes) → IsOther v → is_boolean_word v ≡ false
unfolding is_boolean_word
other_is_not v (h1, h2, h3, h4, h5, h6) =
    rw
      (
        differs v _ h1,
        differs v _ h2,
        differs v _ h3,
        differs v _ h4,
        differs v _ h5,
        differs v _ h6,
      )
      refl

carried : (argument v : Bytes) → Carries argument v → value_argument v ≡ argument
carried argument v (inl (named, word)) = rw (word_is_boolean v word) (sym named)
carried argument v (inr (named, other)) = rw (other_is_not v other) (sym named)

default_mirror : (m : Bytes) → mirror_or_false m ≡ (if bytes_eq m [] then codes "false" else m)
default_mirror [] = refl
default_mirror (c ∷ m) = refl

-- If name and value are not empty, and they and the mirror flag have no quotes, backslashes and control characters, then
-- the JSON text that fram-set posts has as its query exactly the mutation setFlag for that name, with the value as
-- `boolValue` if it is one of the six Boolean words and as `intValue` if it is none of them; without a third argument, or
-- with an empty one, the mirror flag is `false`.
pub fram_set-query :
    (n v : ℕ) (argument name value mirror : Bytes)
    → Carries argument (v ∷ value)
    → is_plain (n ∷ name) ≡ true
    → is_plain (v ∷ value) ≡ true
    → is_plain mirror ≡ true
    → ((body : Bytes) × (fram_set ((n ∷ name) ∷ (v ∷ value) ∷ []) ≡ some body)
        × (query_of body ≡ some (mutation argument (n ∷ name) (v ∷ value) (codes "false"))))
      × ((body : Bytes) × (fram_set ((n ∷ name) ∷ (v ∷ value) ∷ mirror ∷ []) ≡ some body)
          × (query_of body
              ≡ some (
                  mutation argument
                    (n ∷ name)
                    (v ∷ value)
                    (if bytes_eq mirror [] then codes "false" else mirror))))
unfolding fram_set
fram_set-query n v argument name value mirror carries hn hv hm =
    let asked = λ (m : Bytes) (plain : is_plain m ≡ true).
      ap query_of (sym (request_body-escape (n ∷ name) (v ∷ value) m hn hv plain))
      ∙ query_of-escape (mutation (value_argument (v ∷ value)) (n ∷ name) (v ∷ value) m) (
          mutation_printable (value_argument (v ∷ value)) (n ∷ name) (v ∷ value) m
            (value_argument-plain (v ∷ value)) hn hv plain)
      ∙ ap (λ a. some (mutation a (n ∷ name) (v ∷ value) m))
          (carried argument (v ∷ value) carries) in
    (
      (_, refl, asked (codes "false") false_plain),
      (
        _,
        refl,
        asked (mirror_or_false mirror) (mirror_or_false-plain mirror hm)
            ∙ ap (λ m. some (mutation argument (n ∷ name) (v ∷ value) m)) (default_mirror mirror),
      ),
    )
