-- ===== src/Fram/Helpers/Json.antt =====
-- A reader of the JSON text that fram-set posts: the member "query".
use radsat_linux.Base.{
  ℕ, Bool, true, false, not, ◌&&◌, ◌≡◌, refl, ap, ◌∙◌, [], ◌∷◌, ◌++◌, Option, none, some, Bytes,
  codes, if◌then◌else◌, ◌==◌, arith, ◌||◌, Bool-cases, inl, inr, drop, ltb, leb,
}
use radsat_linux.Tools.Text.{starts_with}

abbrev pub prepend : ℕ → Option (Bytes × Bytes) → Option (Bytes × Bytes)
prepend c none = none
prepend c (some (s, rest)) = some (c ∷ s, rest)

-- The characters of a JSON string up to its closing quote, and the text behind it; a control character is not
-- allowed there, and of the escapes it takes the quote and the backslash, the others being none.
unfoldable pub json_chars : Bytes → Option (Bytes × Bytes)
json_chars [] = none
json_chars (c ∷ []) = if c == b'"' then some ([], []) else none
json_chars (c ∷ d ∷ s) =
    let escaped = json_chars s in
    let plain = json_chars (d ∷ s) in
    if c == b'"'
    then some ([], d ∷ s)
    else if ltb c 32
    then none
    else if c == b'\\'
    then (if d == b'"' then prepend d escaped else if d == b'\\' then prepend d escaped else none)
    else prepend c plain

-- the text of the member "query" of a JSON object with that member alone
unfoldable pub query_of : Bytes → Option Bytes
query_of body =
    if starts_with (codes "{\"query\":\"") body then closed (json_chars (drop 10 body)) else none
  where
    closed : Option (Bytes × Bytes) → Option Bytes
    closed none = none
    closed (some (s, [])) = none
    closed (some (s, c ∷ [])) = if c == b'}' then some s else none
    closed (some (s, c ∷ d ∷ rest)) = none

-- no character that a JSON string escapes: a quote, a backslash or a control character
unfoldable pub is_plain : Bytes → Bool
is_plain [] = true
is_plain (c ∷ s) = not (c == b'"') && not (c == b'\\') && leb 32 c && is_plain s

-- a text as the inside of a JSON string
unfoldable pub json_escape : Bytes → Bytes
json_escape [] = []
json_escape (c ∷ s) =
    let rest = json_escape s in if c == b'"' || c == b'\\' then b'\\' ∷ c ∷ rest else c ∷ rest

json_chars-plain :
    (c : ℕ) (s : Bytes)
    → (c == b'"') ≡ false
    → (c == b'\\') ≡ false
    → ltb c 32 ≡ false
    → json_chars (c ∷ s) ≡ prepend c (json_chars s)
unfolding json_chars
json_chars-plain c [] quote slash printable = rw quote refl
json_chars-plain c (d ∷ s) quote slash printable = rw (quote, printable, slash) refl

json_chars-end : (rest : Bytes) → json_chars (b'"' ∷ rest) ≡ some ([], rest)
unfolding json_chars
json_chars-end [] = refl
json_chars-end (d ∷ s) = refl

json_chars-quote : (s : Bytes) → json_chars (b'\\' ∷ b'"' ∷ s) ≡ prepend b'"' (json_chars s)
unfolding json_chars
json_chars-quote s = refl

json_chars-slash : (s : Bytes) → json_chars (b'\\' ∷ b'\\' ∷ s) ≡ prepend b'\\' (json_chars s)
unfolding json_chars
json_chars-slash s = refl

unfoldable pub no_control : Bytes → Bool
no_control [] = true
no_control (c ∷ s) = leb 32 c && no_control s

pub no_control-append :
    (s t : Bytes) → no_control s ≡ true → no_control t ≡ true → no_control (s ++ t) ≡ true
unfolding no_control
no_control-append [] t h k = k
no_control-append (c ∷ s) t h k = let ih = no_control-append s t in ground (arith, ih)

pub no_control-plain : (s : Bytes) → is_plain s ≡ true → no_control s ≡ true
unfolding no_control is_plain
no_control-plain [] h = refl
no_control-plain (c ∷ s) h = let ih = no_control-plain s in ground (arith, ih)

-- What was escaped is read back, up to the closing quote.
pub json_chars-escape :
    (s rest : Bytes)
    → no_control s ≡ true
    → json_chars (json_escape s ++ b'"' ∷ rest) ≡ some (s, rest)
unfolding json_escape no_control
json_chars-escape [] rest h = json_chars-end rest
json_chars-escape (c ∷ s) rest h =
    let ih = json_chars-escape s rest (ground arith) in
    elim (Bool-cases (c == b'"')) [
      | inl quote ↦
          let e : c ≡ b'"' = ground arith in rw e (json_chars-quote _ ∙ ap (prepend b'"') ih)
      | inr other ↦ elim (Bool-cases (c == b'\\')) [
        | inl slash ↦
            let e : c ≡ b'\\' = ground arith in rw e (json_chars-slash _ ∙ ap (prepend b'\\') ih)
        | inr plain ↦
            rw (other, plain, json_escape)
              (json_chars-plain c (json_escape s ++ b'"' ∷ rest) other plain (ground arith)
                ∙ ap (prepend c) ih)
      ]
    ]

pub json_escape-append : (s t : Bytes) → json_escape (s ++ t) ≡ json_escape s ++ json_escape t
unfolding json_escape
json_escape-append [] t = refl
json_escape-append (c ∷ s) t = let ih = json_escape-append s t in ground (arith, ih)

pub json_escape-plain : (s : Bytes) → is_plain s ≡ true → json_escape s ≡ s
unfolding json_escape is_plain
json_escape-plain [] h = refl
json_escape-plain (c ∷ s) h = let ih = json_escape-plain s (ground arith) in ground (arith, ih)
