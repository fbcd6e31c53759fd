-- ===== src/Tools/Diff/NewFile.antt =====
-- The diff of a new file, read line by line, gives the file.
use native.Mathlib.Nat.{pow-suc}
use radsat_linux.Base.{
  ℕ, zero, suc, ◌^◌, ◌<◌, ◌≡◌, refl, sym, ap, ◌∙◌, Bool, true, false, not, ◌&&◌, ◌||◌, List, [],
  ◌∷◌, ◌++◌, Bytes, codes, ◌==◌, arith, length, take, drop, map, All, append-nil, Bool-cases, inl,
  inr,
}
use radsat_linux.Fram.Record.{decimal_digits}
use radsat_linux.Fram.Record.Decimal.{IsDigit, decimal_digits_lem}
use radsat_linux.Tools.Text.{starts_with, is_line_break, push, splitlines}
use radsat_linux.Tools.Diff.{
  str, concat, ends_line, end_line, end_last, newfile_lines, newfile_diff,
}

-- no character ends a line
unfoldable pub no_breaks : Bytes → Bool
no_breaks [] = true
no_breaks (c ∷ s) = not (is_line_break c) && no_breaks s

-- lines end at newlines only
unfoldable pub only_newlines : Bytes → Bool
only_newlines [] = true
only_newlines (c ∷ s) = (not (is_line_break c) || c == b'\n') && only_newlines s

-- one line, with its end
unfoldable pub is_line : Bytes → Bool
is_line [] = false
is_line (c ∷ []) = c == b'\n'
is_line (c ∷ d ∷ s) = not (is_line_break c) && is_line (d ∷ s)

abbrev pub IsLine : Bytes → Type 0
IsLine s = is_line s ≡ true

splitlines-line : (x rest : Bytes) → IsLine x → splitlines (x ++ rest) ≡ x ∷ splitlines rest
unfolding is_line splitlines
splitlines-line [] rest h = cc
splitlines-line (c ∷ []) rest h = ground arith
splitlines-line (c ∷ d ∷ s) rest h =
    let ih = splitlines-line (d ∷ s) rest (ground arith) in ground (arith, ih)

pub splitlines-concat : (lines : List Bytes) → All IsLine lines → splitlines (concat lines) ≡ lines
unfolding concat splitlines
splitlines-concat [] h = refl
splitlines-concat (line ∷ lines) (h, t) =
    splitlines-line line (concat lines) h ∙ ap (λ ls. line ∷ ls) (splitlines-concat lines t)

pub IsLine-append : (x s : Bytes) → no_breaks x ≡ true → IsLine s → IsLine (x ++ s)
unfolding is_line no_breaks
IsLine-append [] s hx hs = hs
IsLine-append (c ∷ []) [] hx hs = cc
IsLine-append (c ∷ []) (d ∷ s) hx hs = ground arith
IsLine-append (c ∷ d ∷ x) s hx hs = ground (arith, IsLine-append (d ∷ x) s)

no_breaks-digits : (s : Bytes) → All IsDigit s → no_breaks s ≡ true
unfolding no_breaks
no_breaks-digits [] d = refl
no_breaks-digits (c ∷ s) (h, t) = ground (arith, no_breaks-digits s t)

lt_pow : (n : ℕ) → n < 10 ^ n
lt_pow zero = omega arith
lt_pow (suc n) = omega (arith, pow-suc 10 n, lt_pow n)

no_breaks-str : (n : ℕ) → no_breaks (str n) ≡ true
unfolding str
no_breaks-str n =
    no_breaks-digits (decimal_digits (suc n) n [])
      (decimal_digits_lem n n [] (omega (arith, pow-suc 10 n, lt_pow n)) tt).1

end_line-IsLine :
    (c : ℕ) (line : Bytes)
    → is_line_break c ≡ false
    → IsLine (end_line line)
    → IsLine (end_line (c ∷ line))
unfolding is_line ends_line
end_line-IsLine c [] plain h = ground arith
end_line-IsLine c (d ∷ s) plain h = elim (Bool-cases (ends_line (d ∷ s))) [
  | inl ended ↦ rw (ended, ends_line) (rw (plain, is_line) (rw (ended, ends_line) at h))
  | inr open_end ↦ rw (open_end, ends_line) (rw (plain, is_line) (rw (open_end, ends_line) at h))
]

push-IsLine :
    (c : ℕ) (lines : List Bytes)
    → is_line_break c ≡ false
    → All IsLine (end_last lines)
    → All IsLine (end_last (push c lines))
unfolding end_last is_line ends_line
push-IsLine c [] plain h = (end_line-IsLine c [] plain refl, tt)
push-IsLine c (line ∷ []) plain (h, _) = (end_line-IsLine c line plain h, tt)
push-IsLine c ([] ∷ next ∷ lines) plain (h, t) = absurd (cc)
push-IsLine c ((d ∷ line) ∷ next ∷ lines) plain (h, t) = (rw (plain, is_line) h, t)

newline-IsLine :
    (lines : List Bytes)
    → All IsLine (end_last lines)
    → All IsLine (end_last ((b'\n' ∷ []) ∷ lines))
unfolding end_last is_line ends_line
newline-IsLine [] h = (refl, tt)
newline-IsLine (next ∷ lines) h = (refl, h)

splitlines-newline :
    (c : ℕ) (text : Bytes) → c ≡ b'\n' → splitlines (c ∷ text) ≡ (b'\n' ∷ []) ∷ splitlines text
unfolding splitlines
splitlines-newline c text h = rw h refl

splitlines-plain :
    (c : ℕ) (text : Bytes)
    → is_line_break c ≡ false
    → splitlines (c ∷ text) ≡ push c (splitlines text)
unfolding splitlines
splitlines-plain c text h = rw (h, splitlines) refl

-- the lines of the body
body-IsLine :
    (content : Bytes) → only_newlines content ≡ true → All IsLine (end_last (splitlines content))
unfolding only_newlines splitlines end_last
body-IsLine [] h = tt
body-IsLine (c ∷ text) h = elim (Bool-cases (is_line_break c)) [
  | inl breaks ↦
      rw (splitlines-newline c text (ground arith))
        (newline-IsLine (splitlines text) (body-IsLine text (ground arith)))
  | inr plain ↦
      rw (splitlines-plain c text plain)
        (push-IsLine c (splitlines text) plain (body-IsLine text (ground arith)))
]

-- the content with a newline at its end
unfoldable pub end_text : Bytes → Bytes
end_text [] = []
end_text (c ∷ s) = end_line (c ∷ s)

end_line-next : (c d : ℕ) (s : Bytes) → end_line (c ∷ d ∷ s) ≡ c ∷ end_line (d ∷ s)
unfolding ends_line
end_line-next c d s = elim (Bool-cases (ends_line (d ∷ s))) [
  | inl ended ↦ rw (ended, ends_line) refl
  | inr open_end ↦ rw (open_end, ends_line) refl
]

end_text-append : (l : Bytes) (d : ℕ) (s : Bytes) → end_text (l ++ d ∷ s) ≡ l ++ end_text (d ∷ s)
unfolding end_text
end_text-append [] d s = refl
end_text-append (c ∷ []) d s = end_line-next c d s
end_text-append (c ∷ e ∷ l) d s =
    end_line-next c e (l ++ d ∷ s) ∙ ap (λ r. c ∷ r) (end_text-append (e ∷ l) d s)

end_text-behind :
    (l s : Bytes) (d : ℕ) (t : Bytes) → s ≡ d ∷ t → l ++ end_text s ≡ end_text (l ++ s)
end_text-behind l s d t e = rw e (sym (end_text-append l d t))

abbrev NonEmpty : Bytes → Type 0
NonEmpty s = (c : ℕ) × (rest : Bytes) × (s ≡ c ∷ rest)

push-NonEmpty : (c : ℕ) (lines : List Bytes) → All NonEmpty lines → All NonEmpty (push c lines)
push-NonEmpty c [] h = ((c, [], refl), tt)
push-NonEmpty c (line ∷ lines) (h, t) = ((c, line, refl), t)

concat-push : (c : ℕ) (lines : List Bytes) → concat (push c lines) ≡ c ∷ concat lines
unfolding concat
concat-push c [] = refl
concat-push c (line ∷ lines) = refl

-- the lines of a text are not empty, and are the text
splitlines_lem : (text : Bytes) → All NonEmpty (splitlines text) × (concat (splitlines text) ≡ text)
unfolding splitlines concat
splitlines_lem [] = (tt, refl)
splitlines_lem (c ∷ text) =
    let (filled, same) = splitlines_lem text in
    elim (Bool-cases (is_line_break c && not (c == 13 && starts_with (b'\n' ∷ []) text))) [
      | inl ends ↦ rw (ends, splitlines) (((c, [], refl), filled), ap (λ s. c ∷ s) same)
      | inr goes_on ↦
          rw (goes_on, splitlines)
            (
              push-NonEmpty c (splitlines text) filled,
              concat-push c (splitlines text) ∙ ap (λ s. c ∷ s) same,
            )
    ]

concat-end_last :
    (lines : List Bytes) → All NonEmpty lines → concat (end_last lines) ≡ end_text (concat lines)
unfolding concat end_last end_text
concat-end_last [] h = refl
concat-end_last (line ∷ []) ((c, rest, e), _) =
    rw e (append-nil (end_line (c ∷ rest)) ∙ ap end_line (sym (append-nil (c ∷ rest))))
concat-end_last (line ∷ next ∷ lines) (h, ((c, rest, e), t)) =
    ap (λ s. line ++ s) (concat-end_last (next ∷ lines) ((c, rest, e), t))
    ∙ end_text-behind line (next ++ concat lines) c (rest ++ concat lines)
        (ap (λ s. s ++ concat lines) e)

concat_tails :
    (body : List Bytes) → concat (map (drop 1) (map (λ line. b'+' ∷ line) body)) ≡ concat body
unfolding concat
concat_tails [] = refl
concat_tails (line ∷ body) = ap (λ s. line ++ s) (concat_tails body)

plus_lines : (body : List Bytes) → All IsLine body → All IsLine (map (λ line. b'+' ∷ line) body)
unfolding is_line
plus_lines [] h = tt
plus_lines ([] ∷ body) (h, t) = absurd (cc)
plus_lines ((c ∷ line) ∷ body) (h, t) = (h, plus_lines body t)

length-plus : (body : List Bytes) → length body ≡ length (map (λ line. b'+' ∷ line) body)
length-plus [] = refl
length-plus (line ∷ body) = ap suc (length-plus body)

header_lines :
    (rel : Bytes) (body : List Bytes)
    → no_breaks rel ≡ true
    → All IsLine body
    → All IsLine (newfile_lines rel body)
unfolding newfile_lines is_line no_breaks
header_lines rel body hr hb = (
  IsLine-append (codes "diff --git a/") (rel ++ (codes " b/" ++ (rel ++ codes "\n"))) refl (
      IsLine-append rel (codes " b/" ++ (rel ++ codes "\n")) hr
        (IsLine-append (codes " b/") (rel ++ codes "\n") refl to_end)),
  (
    refl,
    (
      refl,
      (
        IsLine-append (codes "+++ b/") (rel ++ codes "\n") refl to_end,
        (
          IsLine-append (codes "@@ -0,0 +1,") (str (length body) ++ codes " @@\n") refl (
              IsLine-append (str (length body)) (codes " @@\n") (no_breaks-str (length body)) refl),
          plus_lines body hb,
        ),
      ),
    ),
  ),
)
  where
    to_end : IsLine (rel ++ codes "\n")
    to_end = IsLine-append rel (codes "\n") hr refl

-- A newline at the end of the content added if it is missing: for a path without line breaks and a content whose lines
-- end at newlines only, the diff has, behind its four lines of head, a hunk line that counts the lines behind
-- it, and these lines without their first characters are the content.
pub newfile_diff_lem :
    (rel content : Bytes)
    → no_breaks rel ≡ true
    → only_newlines content ≡ true
    → let lines = splitlines (newfile_diff rel content) in
      (take 1 (drop 4 lines)
        ≡ (codes "@@ -0,0 +1," ++ (str (length (drop 5 lines)) ++ codes " @@\n")) ∷ [])
      × (concat (map (drop 1) (drop 5 lines)) ≡ end_text content)
unfolding newfile_diff newfile_lines
newfile_diff_lem rel content hr hc =
    let body = end_last (splitlines content) in
    let (filled, same) = splitlines_lem content in
    rw
      (splitlines-concat (newfile_lines rel body)
        (header_lines rel body hr (body-IsLine content hc)))
      (
        ap (λ n. (codes "@@ -0,0 +1," ++ (str n ++ codes " @@\n")) ∷ []) (length-plus body),
        concat_tails body ∙ concat-end_last (splitlines content) filled ∙ ap end_text same,
      )
