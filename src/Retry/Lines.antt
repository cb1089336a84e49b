-- ===== src/Retry/Lines.antt =====
-- Texts as lines, `split("\n")` and `join`, for the notes of tasks.
use Prim.Native.Char.{Char, code}
use Prim.Native.String.{[] as blank_text, ◌∷◌ as text_cons, ◌++◌ as then_text}
use package.text.Mathlib.TextLemmas.{nil-append, cons-append}
use open_tiger.Prelude.{
  ◌==◌, if◌then◌else◌, Bool-cases, if_both, is_empty, String, ◌≡◌, refl, sym, ap, ◌∙◌, inl, inr,
  Bool, false, List, [], ◌∷◌, ◌++◌,
}

-- `parts.join(separator)`
abbrev pub join : String → List String → String
join separator [] = ""
join separator (s ∷ ss) =
    let rest = join separator ss in
    if is_empty ss then s else then_text s (then_text separator rest)

abbrev prepend : Char → List String → List String
prepend c [] = text_cons c "" ∷ []
prepend c (x ∷ xs) = text_cons c x ∷ xs

abbrev is_break : Char → Bool
is_break c = code c == 10

-- `split("\n")`
abbrev pub split_lines : String → List String
split_lines blank_text = "" ∷ []
split_lines (text_cons c s) =
    let rest = split_lines s in if is_break c then "" ∷ rest else prepend c rest

prepend-append :
    (c : Char) (xs ys : List String)
    → is_empty xs ≡ false
    → prepend c (xs ++ ys) ≡ prepend c xs ++ ys
prepend-append c [] ys h = cc
prepend-append c (x ∷ xs) ys h = refl

prepend-full : (c : Char) (xs : List String) → is_empty (prepend c xs) ≡ false
prepend-full c [] = refl
prepend-full c (x ∷ xs) = refl

split_lines-full : (s : String) → is_empty (split_lines s) ≡ false
split_lines-full blank_text = refl
split_lines-full (text_cons c s) =
    if_both (λ xs. is_empty xs ≡ false) (is_break c) _ _ (λ h. refl)
      (λ h. prepend-full c (split_lines s))

-- Splitting at a line break.
split_lines-break :
    (s r : String) → split_lines (then_text s (then_text "\n" r)) ≡ split_lines s ++ split_lines r
split_lines-break blank_text r =
    ap split_lines (nil-append (then_text "\n" r) ∙ cons-append _ "" r)
    ∙ ap (λ u. "" ∷ split_lines u) (nil-append r)
split_lines-break (text_cons c s) r =
    ap split_lines (cons-append c s (then_text "\n" r)) ∙ (elim (Bool-cases (is_break c)) [
      | inl e ↦ rw e (ap (◌∷◌ "") (split_lines-break s r))
      | inr e ↦ rw e (
          ap (prepend c) (split_lines-break s r)
          ∙ prepend-append c (split_lines s) (split_lines r) (split_lines-full s))
    ])

-- The lines of several texts.
abbrev pub lines_of : List String → List String
lines_of [] = []
lines_of (s ∷ ss) = split_lines s ++ lines_of ss

append-end : (xs : List String) → xs ++ [] ≡ xs
append-end [] = refl
append-end (x ∷ xs) = ap (◌∷◌ x) (append-end xs)

pub split_lines-join :
    (parts : List String) → is_empty parts ≡ false → split_lines (join "\n" parts) ≡ lines_of parts
split_lines-join [] h = cc
split_lines-join (s ∷ []) h = sym (append-end (split_lines s))
split_lines-join (s ∷ p ∷ ps) h =
    split_lines-break s (join "\n" (p ∷ ps))
    ∙ ap (λ ls. split_lines s ++ ls) (split_lines-join (p ∷ ps) refl)
