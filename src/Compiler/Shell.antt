-- ===== src/Compiler/Shell.antt =====
-- How a POSIX shell with `$'...'` reads the words of a line, independent of how they were printed:
-- the reference that the quoting of src/spock-compiler.C is compared with. A line with other special
-- characters, or with an escape that is not one of those below, is not read.
use rmc_spock.Base.{
  ℕ, Bool, ◌&&◌, ◌||◌, List, [], ◌∷◌, ◌++◌, ◌+◌, ◌-◌, ◌*◌, Option, none, some, Text, leb, ◌==◌,
  if◌then◌else◌, ◌≡◌, refl, ap, ◌∙◌, Option-cases, inl, inr,
}

-- Between words, in a word, behind a dollar sign, in single quotes, in dollar quotes, behind a
-- backslash there, and behind one or two octal digits.
pub data Mode : Type 0 where
  blank bare dollar single ansi escape : Mode
  octal_one octal_two : ℕ → Mode

pub record Shell : Type 0 where
  pub mode : Mode
  pub word : Text
  pub words : List Text

-- Letters, digits, and + , - . / : @ _.
unfoldable pub is_plain : ℕ → Bool
is_plain c = leb 43 c && leb c 58 || leb 64 c && leb c 90 || c == 95 || leb 97 c && leb c 122

in_word : ℕ → Shell → Option Shell
unfolding is_plain
in_word c sh =
    if c == 39
    then some (record sh { mode = single })
    else (if c == 36
        then some (record sh { mode = dollar })
        else (if is_plain c
            then some (record sh { mode = bare; word = sh.word ++ c ∷ [] })
            else none))

is_octal : ℕ → Bool
is_octal c = leb 48 c && leb c 55

-- The byte that a letter behind the backslash stands for.
escaped : ℕ → Option ℕ
escaped c =
    if c == 97
    then some 7
    else (if c == 98
        then some 8
        else (if c == 116
            then some 9
            else (if c == 110
                then some 10
                else (if c == 118
                    then some 11
                    else (if c == 102
                        then some 12
                        else (if c == 114
                            then some 13
                            else (if c == 92 || c == 39 || c == 34 then some c else none)))))))

add : ℕ → Shell → Shell
add c sh = record sh { mode = ansi; word = sh.word ++ c ∷ [] }

in_mode : Mode → ℕ → Shell → Option Shell
unfolding in_word is_octal escaped add
in_mode blank c sh = if c == 32 then some sh else in_word c sh
in_mode bare c sh =
    if c == 32
    then some (record sh { mode = blank; word = []; words = sh.words ++ sh.word ∷ [] })
    else in_word c sh
in_mode dollar c sh = if c == 39 then some (record sh { mode = ansi }) else none
in_mode single c sh =
    if c == 39
    then some (record sh { mode = bare })
    else some (record sh { word = sh.word ++ c ∷ [] })
in_mode ansi c sh =
    if c == 39
    then some (record sh { mode = bare })
    else (if c == 92 then some (record sh { mode = escape }) else some (add c sh))
in_mode escape c sh =
    if is_octal c
    then some (record sh { mode = octal_one (c - 48) })
    else elim (escaped c) [ some b ↦ some (add b sh) | none ↦ none ]
in_mode (octal_one n) c sh =
    if is_octal c then some (record sh { mode = octal_two (n * 8 + (c - 48)) }) else none
in_mode (octal_two n) c sh = if is_octal c then some (add (n * 8 + (c - 48)) sh) else none

unfoldable pub step : ℕ → Shell → Option Shell
unfolding in_mode
step c sh = in_mode sh.mode c sh

abbrev pub and_then {ℓ κ} : {A : Type ℓ} {B : Type κ} → Option A → (A → Option B) → Option B
and_then none f = none
and_then (some a) f = f a

unfoldable pub read : Text → Shell → Option Shell
unfolding step
read [] sh = some sh
read (c ∷ s) sh = and_then (step c sh) (read s)

at_end : Mode → Shell → Option (List Text)
at_end blank sh = some sh.words
at_end bare sh = some (sh.words ++ sh.word ∷ [])
at_end m sh = none

unfoldable pub finish : Shell → Option (List Text)
unfolding at_end
finish sh = at_end sh.mode sh

-- The words of a line.
unfoldable pub shell_words : Text → Option (List Text)
unfolding read finish
shell_words line = and_then (read line (record { mode = blank; word = []; words = [] })) finish

pub read-append : (s t : Text) (sh : Shell) → read (s ++ t) sh ≡ and_then (read s sh) (read t)
unfolding read
read-append [] t sh = refl
read-append (c ∷ s) t sh = elim (Option-cases (step c sh)) [
  | inl e ↦ rw e refl
  | inr (sh', e) ↦ rw e (read-append s t sh')
]

-- What is read from a text whose first part was read.
pub read-then : (s t : Text) (sh sh' : Shell) → read s sh ≡ some sh' → read (s ++ t) sh ≡ read t sh'
read-then s t sh sh' e = read-append s t sh ∙ ap (λ o. and_then o (read t)) e

pub read-step :
    (c : ℕ) (s : Text) (sh sh' : Shell) → step c sh ≡ some sh' → read (c ∷ s) sh ≡ read s sh'
unfolding read
read-step c s sh sh' e = ap (λ o. and_then o (read s)) e

pub read-nil : (sh : Shell) → read [] sh ≡ some sh
unfolding read
read-nil sh = refl
