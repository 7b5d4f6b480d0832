-- ===== src/Compiler/RoundTrip.antt =====
-- What the shell reads from a command that src/spock-compiler.C printed.
use rmc_spock.Base.{
  ℕ, Bool, true, false, List, [], ◌∷◌, ◌++◌, ◌+◌, ◌*◌, ◌<◌, some, Text, ◌==◌, if◌then◌else◌,
  if_cases, ◌≡◌, ◌≢◌, ◌⊎◌, inl, inr, refl, ap, ◌∙◌, append-nil, append_assoc, arith, All, ◌≤◌,
  length,
}
use Prim.Native.Nat.{◌/◌, ◌%◌}
use rmc_spock.Compiler.Quote.{
  octal, c_escape_char, c_escape, double_backslashes, wants_c_quotes, wants_quotes, any_byte,
  quoted, bourne_escape, print_more, print_command,
}
use rmc_spock.Compiler.Shell.{
  Shell, Mode, blank, bare, dollar, single, ansi, escape, octal_one, octal_two, and_then, step,
  read, shell_words, finish, read-then, read-step, read-nil,
}

-- The state of the reader.
abbrev at : Mode → Text → List Text → Shell
at m w ws = record { mode = m; word = w; words = ws }

-- A word begins, or goes on.
data Outside : Mode → Type 0 where
  is_blank : Outside blank
  is_bare : Outside bare

step-plain :
    (c : ℕ) (w : Text) (ws : List Text)
    → wants_quotes c ≡ false
    → wants_c_quotes c ≡ false
    → (step c (at blank w ws) ≡ some (at bare (w ++ c ∷ []) ws))
      × (step c (at bare w ws) ≡ some (at bare (w ++ c ∷ []) ws))
unfolding step wants_quotes wants_c_quotes
step-plain c w ws h k = (ground arith, ground arith)

read-plain :
    (s w : Text) (ws : List Text)
    → any_byte wants_quotes s ≡ false
    → any_byte wants_c_quotes s ≡ false
    → read s (at bare w ws) ≡ some (at bare (w ++ s) ws)
unfolding any_byte read
read-plain [] w ws h k = rw (append-nil w) refl
read-plain (c ∷ s) w ws h k =
    let first = (step-plain c w ws (ground arith) (ground arith)).1 in
    rw first
      (read-plain s (w ++ c ∷ []) ws (ground arith) (ground arith) ∙ rw (append_assoc w (c ∷ []) s))

step-single :
    (c : ℕ) (w : Text) (ws : List Text)
    → c ≢ 39
    → step c (at single w ws) ≡ some (at single (w ++ c ∷ []) ws)
unfolding step
step-single c w ws h = ground arith

-- Within single quotes a text without a quote is read as it stands.
read-single :
    (s w : Text) (ws : List Text)
    → All (λ c. c ≢ 39) s
    → read s (at single w ws) ≡ some (at single (w ++ s) ws)
unfolding read
read-single [] w ws h = rw (append-nil w) refl
read-single (c ∷ s) w ws h =
    rw (step-single c w ws h.0)
      (read-single s (w ++ c ∷ []) ws h.1 ∙ rw (append_assoc w (c ∷ []) s))

step-dollar : (ws : List Text) → step 36 (at blank [] ws) ≡ some (at dollar [] ws)
unfolding step
step-dollar ws = refl

step-open : (ws : List Text) → step 39 (at dollar [] ws) ≡ some (at ansi [] ws)
unfolding step
step-open ws = refl

step-quote : (ws : List Text) → step 39 (at blank [] ws) ≡ some (at single [] ws)
unfolding step
step-quote ws = refl

step-close :
    (w : Text) (ws : List Text)
    → (step 39 (at ansi w ws) ≡ some (at bare w ws))
      × (step 39 (at single w ws) ≡ some (at bare w ws))
unfolding step
step-close w ws = (refl, refl)

step-space :
    (w : Text) (ws : List Text) → step 32 (at bare w ws) ≡ some (at blank [] (ws ++ w ∷ []))
unfolding step
step-space w ws = refl

step-backslash : (w : Text) (ws : List Text) → step 92 (at ansi w ws) ≡ some (at escape w ws)
unfolding step
step-backslash w ws = refl

-- The three octal digits.
step-digits :
    (d n : ℕ) (w : Text) (ws : List Text)
    → d < 8
    → (step (48 + d) (at escape w ws) ≡ some (at (octal_one d) w ws))
      × (step (48 + d) (at (octal_one n) w ws) ≡ some (at (octal_two (n * 8 + d)) w ws))
      × (step (48 + d) (at (octal_two n) w ws) ≡ some (at ansi (w ++ (n * 8 + d) ∷ []) ws))
unfolding step
step-digits d n w ws h = (ground arith, ground arith, ground arith)

read-octal :
    (c : ℕ) (w : Text) (ws : List Text)
    → c < 256
    → read (octal c) (at ansi w ws) ≡ some (at ansi (w ++ c ∷ []) ws)
unfolding octal
read-octal c w ws h =
    let a = c / 64 in
    let b = c / 8 % 8 in
    let d = c % 8 in
    let first = (step-digits a 0 w ws (omega arith)).0 in
    let second = (step-digits b a w ws (omega arith)).1 in
    let third = (step-digits d (a * 8 + b) w ws (omega arith)).2 in
    let whole : (a * 8 + b) * 8 + d ≡ c = omega arith in
    read-step 92 ((48 + a) ∷ (48 + b) ∷ (48 + d) ∷ []) _ _ (step-backslash w ws)
    ∙ read-step (48 + a) ((48 + b) ∷ (48 + d) ∷ []) _ _ first
    ∙ read-step (48 + b) ((48 + d) ∷ []) _ _ second
    ∙ read-step (48 + d) [] _ _ third
    ∙ read-nil _
    ∙ ap (λ n. some (at ansi (w ++ n ∷ []) ws)) whole

read-c_escape_char :
    (c : ℕ) (w : Text) (ws : List Text)
    → c < 256
    → read (c_escape_char c 39) (at ansi w ws) ≡ some (at ansi (w ++ c ∷ []) ws)
unfolding c_escape_char read step
read-c_escape_char c w ws h = ground (arith, read-octal c w ws)

read-c_escape :
    (s w : Text) (ws : List Text)
    → All (λ c. c < 256) s
    → read (c_escape s 39) (at ansi w ws) ≡ some (at ansi (w ++ s) ws)
unfolding c_escape
read-c_escape [] w ws h = rw (append-nil w) (read-nil _)
read-c_escape (c ∷ s) w ws h =
    read-then (c_escape_char c 39) (c_escape s 39) (at ansi w ws) (at ansi (w ++ c ∷ []) ws)
      (read-c_escape_char c w ws h.0)
    ∙ read-c_escape s (w ++ c ∷ []) ws h.1
    ∙ rw (append_assoc w (c ∷ []) s) refl

no_c_quotes : (s : Text) → any_byte wants_c_quotes s ≡ false → All (λ c. c ≢ 39) s
unfolding any_byte wants_c_quotes
no_c_quotes [] h = tt
no_c_quotes (c ∷ s) h = (ground arith, no_c_quotes s (ground arith))

-- The words that are printed as they are meant: bytes, and a backslash only where `$'...'` is used.
abbrev pub IsPrinted : Text → Type 0
IsPrinted s =
    All (λ c. c < 256) s × ((any_byte wants_c_quotes s ≡ true) ⊎ (double_backslashes s ≡ s))

read-c_quotes :
    (word : Text) (ws : List Text)
    → All (λ c. c < 256) word
    → read (36 ∷ 39 ∷ (c_escape word 39 ++ (39 ∷ []))) (at blank [] ws) ≡ some (at bare word ws)
read-c_quotes word ws h =
    let text = c_escape word 39 in
    read-step 36 (39 ∷ (text ++ 39 ∷ [])) (at blank [] ws) (at dollar [] ws) (step-dollar ws)
    ∙ read-step 39 (text ++ 39 ∷ []) (at dollar [] ws) (at ansi [] ws) (step-open ws)
    ∙ read-then text (39 ∷ []) (at ansi [] ws) (at ansi word ws) (read-c_escape word [] ws h)
    ∙ read-step 39 [] (at ansi word ws) (at bare word ws) (step-close word ws).0
    ∙ read-nil (at bare word ws)

read-single_quotes :
    (word : Text) (ws : List Text)
    → any_byte wants_c_quotes word ≡ false
    → (any_byte wants_c_quotes word ≡ true) ⊎ (double_backslashes word ≡ word)
    → read (39 ∷ (double_backslashes word ++ (39 ∷ []))) (at blank [] ws) ≡ some (at bare word ws)
read-single_quotes word ws k (inl e) = cc
read-single_quotes word ws k (inr e) = rw e (
    read-step 39 (word ++ 39 ∷ []) (at blank [] ws) (at single [] ws) (step-quote ws)
    ∙ read-then word (39 ∷ []) (at single [] ws) (at single word ws)
        (read-single word [] ws (no_c_quotes word k))
    ∙ read-step 39 [] (at single word ws) (at bare word ws) (step-close word ws).1
    ∙ read-nil (at bare word ws))

not_any : (p : ℕ → Bool) (c : ℕ) (s : Text) → any_byte p (c ∷ s) ≡ false → p c ≡ false
unfolding any_byte
not_any p c s h = ground arith

no_more : (p : ℕ → Bool) (c : ℕ) (s : Text) → any_byte p (c ∷ s) ≡ false → any_byte p s ≡ false
unfolding any_byte
no_more p c s h = ground arith

read-quoted :
    (c : ℕ) (s : Text) (ws : List Text)
    → IsPrinted (c ∷ s)
    → read (quoted (c ∷ s)) (at blank [] ws) ≡ some (at bare (c ∷ s) ws)
unfolding quoted
read-quoted c s ws h =
    let word = c ∷ s in
    let result = λ (line : Text). read line (at blank [] ws) ≡ some (at bare word ws) in
    let plain =
      (if any_byte wants_quotes word then 39 ∷ (double_backslashes word ++ (39 ∷ [])) else word) in
    if_cases result (any_byte wants_c_quotes word) (36 ∷ 39 ∷ (c_escape word 39 ++ (39 ∷ []))) plain
      (λ _. read-c_quotes word ws h.0)
      (λ k.
        if_cases result (any_byte wants_quotes word) (39 ∷ (double_backslashes word ++ (39 ∷ [])))
          word (λ _. read-single_quotes word ws k h.1)
          (λ q.
            read-step c s (at blank [] ws) (at bare (c ∷ []) ws)
              (step-plain c [] ws (not_any wants_quotes c s q) (not_any wants_c_quotes c s k)).0
            ∙ read-plain s (c ∷ []) ws (no_more wants_quotes c s q) (no_more wants_c_quotes c s k)))

read-bourne_escape :
    (word : Text) (ws : List Text)
    → IsPrinted word
    → read (bourne_escape word) (at blank [] ws) ≡ some (at bare word ws)
unfolding bourne_escape
read-bourne_escape [] ws h =
    read-step 39 (39 ∷ []) (at blank [] ws) (at single [] ws) (step-quote ws)
    ∙ read-step 39 [] (at single [] ws) (at bare [] ws) (step-close [] ws).1
    ∙ read-nil (at bare [] ws)
read-bourne_escape (c ∷ s) ws h = read-quoted c s ws h

read-print_more :
    (more : List Text) (w : Text) (ws : List Text)
    → All IsPrinted more
    → and_then (read (print_more more) (at bare w ws)) finish ≡ some (ws ++ w ∷ more)
unfolding print_more finish
read-print_more [] w ws h = ap (λ o. and_then o finish) (read-nil (at bare w ws))
read-print_more (x ∷ more) w ws h =
    ap (λ o. and_then o finish)
      (read-step 32 (bourne_escape x ++ print_more more) (at bare w ws) (at blank [] (ws ++ w ∷ []))
          (step-space w ws)
        ∙ read-then (bourne_escape x) (print_more more) (at blank [] (ws ++ w ∷ []))
            (at bare x (ws ++ w ∷ [])) (read-bourne_escape x (ws ++ w ∷ []) h.0))
    ∙ read-print_more more x (ws ++ w ∷ []) h.1
    ∙ ap some (append_assoc ws (w ∷ []) (x ∷ more))

-- If each word of a command consists of bytes, and has no backslash unless it also has a quote or a byte that is
-- not printed, then the shell reads the printed command as exactly these words.
pub shell_words-print_command :
    (command : List Text)
    → All IsPrinted command
    → shell_words (print_command command) ≡ some command
unfolding shell_words print_command
shell_words-print_command [] h = refl
shell_words-print_command (x ∷ more) h =
    ap (λ o. and_then o finish)
      (read-then (bourne_escape x) (print_more more) (at blank [] []) (at bare x [])
        (read-bourne_escape x [] h.0))
    ∙ read-print_more more x [] h.1

abbrev pub has_backslash : Text → Bool
has_backslash s = any_byte (λ c. c == 92) s

wants_quotes_backslash : (s : Text) → has_backslash s ≡ true → any_byte wants_quotes s ≡ true
unfolding any_byte wants_quotes
wants_quotes_backslash [] h = cc
wants_quotes_backslash (c ∷ s) h = ground (arith, wants_quotes_backslash s)

double_backslashes-length : (s : Text) → length s ≤ length (double_backslashes s)
unfolding double_backslashes
double_backslashes-length [] = omega arith
double_backslashes-length (c ∷ s) = ground (arith, double_backslashes-length s)

double_backslashes-longer :
    (s : Text) → has_backslash s ≡ true → length s < length (double_backslashes s)
unfolding double_backslashes any_byte
double_backslashes-longer [] h = cc
double_backslashes-longer (c ∷ s) h =
    ground (arith, double_backslashes-longer s, double_backslashes-length s)

double_backslashes-no_quotes :
    (s : Text) → All (λ c. c ≢ 39) s → All (λ c. c ≢ 39) (double_backslashes s)
unfolding double_backslashes
double_backslashes-no_quotes [] h = tt
double_backslashes-no_quotes (c ∷ s) h =
    let rest = double_backslashes-no_quotes s h.1 in
    if_cases (All (λ c. c ≢ 39)) (c == 92) (92 ∷ 92 ∷ double_backslashes s)
      (c ∷ double_backslashes s) (λ _. (ground arith, (ground arith, rest))) (λ _. (h.0, rest))

shell_words-doubled :
    (word : Text)
    → any_byte wants_c_quotes word ≡ false
    → any_byte wants_quotes word ≡ true
    → shell_words (bourne_escape word) ≡ some (double_backslashes word ∷ [])
unfolding shell_words bourne_escape quoted
shell_words-doubled [] k q = cc
shell_words-doubled (c ∷ s) k q =
    let word = c ∷ s in
    let text = double_backslashes word in
    let line : quoted word ≡ 39 ∷ (text ++ 39 ∷ []) = rw (quoted, k) (rw q refl) in
    ap shell_words line
    ∙ ap (λ o. and_then o finish)
        (read-step 39 (text ++ 39 ∷ []) (at blank [] []) (at single [] []) (step-quote [])
          ∙ read-then text (39 ∷ []) (at single [] []) (at single text [])
              (read-single text [] [] (double_backslashes-no_quotes word (no_c_quotes word k)))
          ∙ read-step 39 [] (at single text []) (at bare text []) (step-close text []).1
          ∙ read-nil (at bare text []))

-- A word with a backslash, without single quotes, and of printed characters only, is printed so that the shell
-- does not read that word.
pub shell_words-bourne_escape_ne :
    (word : Text)
    → any_byte wants_c_quotes word ≡ false
    → has_backslash word ≡ true
    → shell_words (bourne_escape word) ≢ some (word ∷ [])
shell_words-bourne_escape_ne word k b e =
    let doubled = shell_words-doubled word k (wants_quotes_backslash word b) in
    let same : double_backslashes word ≡ word = cc in
    absurd (omega (arith, double_backslashes-longer word b, ap length same))
