-- ===== src/Contracts/Verdict/Stdout.antt =====
-- Which line of the output `from_stdout` of crates/satunera-contracts/src/verdict.rs takes for the verdict.
use satunera.Prelude.{
  Bool, true, false, not, ◌≡◌, refl, ap, ◌∙◌, List, [], ◌∷◌, ◌++◌, map, some, Text, find?, All,
}
use mathlib.Core.List.{reverse}
use satunera.Prelude.Split.{split_on, join_with, trim, lines}
use satunera.Prelude.Split.Laws.{Avoids, split_on-join_with}
use satunera.Prelude.Split.Trims.{last_kept, find?-reverse, last_kept-ended, last_kept-append}
use satunera.Contracts.Json.{Json}
use satunera.Contracts.Verdict.Output.{is_blank, from_line, from_stdout}

-- A piece of the output that is not blank.
abbrev pub speaks : Text → Bool
speaks l = not (is_blank l)

-- The search of `from_stdout` is that of the last piece between newlines that is not blank.
search-last_kept :
    (stdout : Text)
    → find? speaks (map trim (reverse (lines stdout))) ≡ last_kept speaks (split_on 0xa stdout)
unfolding lines trim
search-last_kept stdout =
    find?-reverse speaks (lines stdout) ∙ last_kept-ended speaks refl (split_on 0xa stdout)

split_on-join_around :
    (earlier later : List Text) (line : Text)
    → All (Avoids 0xa) (earlier ++ line ∷ later)
    → split_on 0xa (join_with 0xa (earlier ++ line ∷ later)) ≡ earlier ++ line ∷ later
split_on-join_around [] later line h = split_on-join_with 0xa line later h
split_on-join_around (w ∷ earlier) later line h =
    split_on-join_with 0xa w (earlier ++ line ∷ later) h

silent :
    (later : List Text)
    → All (λ w. is_blank (trim w) ≡ true) later
    → All (λ w. speaks (trim w) ≡ false) later
silent [] h = tt
silent (w ∷ later) (here, h) = (ap not here, silent later h)

module _ {Value Object : Type 0} (json : Json Value Object) where
  -- Of an output made of lines, the last that is not blank is parsed as the verdict, without the space
  -- around it: neither what stands before it nor the blank lines after it matter.
  pub from_stdout-join_with :
      (earlier later : List Text) (line : Text)
      → All (Avoids 0xa) (earlier ++ line ∷ later)
      → is_blank (trim line) ≡ false
      → All (λ w. is_blank (trim w) ≡ true) later
      → from_stdout json (join_with 0xa (earlier ++ line ∷ later)) ≡ from_line json (trim line)
  unfolding from_stdout
  from_stdout-join_with earlier later line pieces speaking blank =
      let found : find? speaks
            (map trim (reverse (lines (join_with 0xa (earlier ++ line ∷ later)))))
          ≡ some (trim line) =
        search-last_kept (join_with 0xa (earlier ++ line ∷ later))
        ∙ ap (last_kept speaks) (split_on-join_around earlier later line pieces)
        ∙ last_kept-append speaks earlier later line (ap not speaking) (silent later blank) in
      rw found refl
