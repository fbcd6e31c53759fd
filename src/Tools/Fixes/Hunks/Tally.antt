-- ===== src/Tools/Fixes/Hunks/Tally.antt =====
-- The lines of a patch, counted as `@@ -a,old +b,new @@` counts them.
use radsat_linux.Base.{
  ℕ, suc, ◌+◌, ◌≡◌, refl, sym, ap, ◌∙◌, Bool, ◌&&◌, ◌||◌, List, [], ◌∷◌, ◌++◌, some, Bytes, arith,
  ◌==◌, if◌then◌else◌, inl, inr, Bool-cases,
}
use radsat_linux.Base.Maybe.{some_inj}
use radsat_linux.Tools.Text.{replace_first, must_replace}
use radsat_linux.Tools.Text.Replace.{replace_cases}

abbrev pub old_side : ℕ → Bool
old_side c = c == b' ' || c == b'-'

abbrev pub new_side : ℕ → Bool
new_side c = c == b' ' || c == b'+'

-- the number of lines whose first character is on a side; `start` says whether a line begins here
unfoldable pub tally : (ℕ → Bool) → Bool → Bytes → ℕ
tally side start [] = 0
tally side start (c ∷ s) =
    let rest = tally side (c == b'\n') s in if start && side c then suc rest else rest

-- whether a line begins behind a text
unfoldable pub ended : Bool → Bytes → Bool
ended start [] = start
ended start (c ∷ s) = ended (c == b'\n') s

tally-append :
    (side : ℕ → Bool) (start : Bool) (s t : Bytes)
    → tally side start (s ++ t) ≡ tally side start s + tally side (ended start s) t
unfolding tally ended
tally-append side start [] t = omega arith
tally-append side start (c ∷ s) t =
    let ih = tally-append side (c == b'\n') s t in
    elim (Bool-cases (start && side c)) [
      | inl counted ↦ rw (counted, tally) (omega arith)
      | inr skipped ↦ rw (skipped, tally) (omega arith)
    ]

ended-append : (start : Bool) (s t : Bytes) → ended start (s ++ t) ≡ ended (ended start s) t
unfolding ended
ended-append start [] t = refl
ended-append start (c ∷ s) t = ended-append (c == b'\n') s t

tally_parts :
    (side : ℕ → Bool) (start : Bool) (pre s post : Bytes)
    → tally side start (pre ++ s ++ post)
      ≡ tally side start pre
        + tally side (ended start pre) s
        + tally side (ended (ended start pre) s) post
tally_parts side start pre s post =
    let outer = tally-append side start (pre ++ s) post in
    let inner = tally-append side start pre s in
    let behind = ap (λ b. tally side b post) (ended-append start pre s) in omega arith

-- `new` has `n` lines of a side where `old` has `m`, wherever the line they stand in begins
abbrev pub Shift : (ℕ → Bool) → Bytes → Bytes → ℕ → ℕ → Type 0
Shift side old new m n =
    (start : Bool)
    → (tally side start new + m ≡ tally side start old + n) × (ended start new ≡ ended start old)

Shift-parts :
    (side : ℕ → Bool) (old new pre post : Bytes) (m n : ℕ) (start : Bool)
    → Shift side old new m n
    → tally side start (pre ++ new ++ post) + m ≡ tally side start (pre ++ old ++ post) + n
Shift-parts side old new pre post m n start shift =
    let (counts, ends) = shift (ended start pre) in
    let with_new = tally_parts side start pre new post in
    let with_old = tally_parts side start pre old post in
    let behind = ap (λ b. tally side b post) ends in omega arith

pub must_replace-tally :
    (side : ℕ → Bool) (old new t r : Bytes) (m n : ℕ) (start : Bool)
    → Shift side old new m n
    → must_replace t old new ≡ some r
    → tally side start r + m ≡ tally side start t + n
unfolding must_replace
must_replace-tally side old new t r m n start shift e = elim (replace_cases old new t) [
  | inr (absent, never) ↦ absurd (cc (rw (absent, must_replace) at e))
  | inl (pre, post, split, found, replaced, first) ↦
      let same : replace_first old new t ≡ r = some_inj (rw (found, must_replace) at e) in
      let parts = Shift-parts side old new pre post m n start shift in
      let of_r = ap (tally side start) (sym same ∙ replaced) in
      let of_t = ap (tally side start) split in omega arith
]

-- a line more in the first hunk
abbrev more : List ℕ → List ℕ
more [] = []
more (n ∷ ns) = suc n ∷ ns

-- the lines of a side between one line that begins with `@` and the next, in front of the counts for what follows
unfoldable pub hunk_tallies : (ℕ → Bool) → Bool → Bytes → List ℕ → List ℕ
hunk_tallies side start [] rest = rest
hunk_tallies side start (c ∷ s) rest =
    let later = hunk_tallies side (c == b'\n') s rest in
    if start && c == b'@' then 0 ∷ later else if start && side c then more later else later

hunk_tallies-append :
    (side : ℕ → Bool) (start : Bool) (s t : Bytes) (rest : List ℕ)
    → hunk_tallies side start (s ++ t) rest
      ≡ hunk_tallies side start s (hunk_tallies side (ended start s) t rest)
unfolding hunk_tallies ended
hunk_tallies-append side start [] t rest = refl
hunk_tallies-append side start (c ∷ s) t rest =
    rw (hunk_tallies-append side (c == b'\n') s t rest) refl

-- `new` has the lines of a side, and those that begin with `@`, where `old` has them
abbrev pub Even : (ℕ → Bool) → Bytes → Bytes → Type 0
Even side old new =
    (start : Bool) (rest : List ℕ)
    → (hunk_tallies side start new rest ≡ hunk_tallies side start old rest)
      × (ended start new ≡ ended start old)

hunk_parts :
    (side : ℕ → Bool) (pre s post : Bytes) (start : Bool) (rest : List ℕ)
    → hunk_tallies side start (pre ++ s ++ post) rest
      ≡ hunk_tallies side start pre (
          hunk_tallies side
            (ended start pre)
            s
            (hunk_tallies side (ended (ended start pre) s) post rest))
hunk_parts side pre s post start rest =
    hunk_tallies-append side start (pre ++ s) post rest
    ∙ hunk_tallies-append side start pre s (hunk_tallies side (ended start (pre ++ s)) post rest)
    ∙ ap
        (λ b.
          hunk_tallies side start pre
            (hunk_tallies side (ended start pre) s (hunk_tallies side b post rest)))
        (ended-append start pre s)

pub must_replace-hunks :
    (side : ℕ → Bool) (old new t r : Bytes) (start : Bool) (rest : List ℕ)
    → Even side old new
    → must_replace t old new ≡ some r
    → hunk_tallies side start r rest ≡ hunk_tallies side start t rest
unfolding must_replace
must_replace-hunks side old new t r start rest even e = elim (replace_cases old new t) [
  | inr (absent, never) ↦ absurd (cc (rw (absent, must_replace) at e))
  | inl (pre, post, split, found, replaced, first) ↦
      let same : replace_first old new t ≡ r = some_inj (rw (found, must_replace) at e) in
      let (lines, ends) =
        even (ended start pre) (hunk_tallies side (ended (ended start pre) new) post rest) in
      ap (λ u. hunk_tallies side start u rest) (sym same ∙ replaced)
      ∙ hunk_parts side pre new post start rest
      ∙ ap (hunk_tallies side start pre) lines
      ∙ ap
          (λ b.
            hunk_tallies side start pre
              (hunk_tallies side (ended start pre) old (hunk_tallies side b post rest)))
          ends
      ∙ sym (hunk_parts side pre old post start rest)
      ∙ ap (λ u. hunk_tallies side start u rest) (sym split)
]
