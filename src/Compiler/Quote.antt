-- ===== src/Compiler/Quote.antt =====
-- The quoting of src/spock-compiler.C (lines 259-340), over bytes in the "C" locale.
use rmc_spock.Base.{
  ℕ, Bool, false, not, ◌&&◌, ◌||◌, List, [], ◌∷◌, ◌++◌, ◌+◌, Text, codes, leb, ◌==◌, if◌then◌else◌,
  is_digit,
}
use Prim.Native.Nat.{◌/◌, ◌%◌}

unfoldable pub is_print : ℕ → Bool
is_print c = leb 32 c && leb c 126

unfoldable pub is_alnum : ℕ → Bool
unfolding is_digit
is_alnum c = is_digit c || leb b'A' c && leb c b'Z' || leb b'a' c && leb c b'z'

-- `boost::format("\\%03o")` of a byte.
unfoldable pub octal : ℕ → Text
octal c = b'\\' ∷ (b'0' + c / 64) ∷ (b'0' + c / 8 % 8) ∷ (b'0' + c % 8) ∷ []

-- `cEscape` of one character.
unfoldable pub c_escape_char : ℕ → ℕ → Text
unfolding octal is_print
c_escape_char ch context =
    if ch == 7
    then codes "\\a"
    else (if ch == 8
        then codes "\\b"
        else (if ch == 9
            then codes "\\t"
            else (if ch == 10
                then codes "\\n"
                else (if ch == 11
                    then codes "\\v"
                    else (if ch == 12
                        then codes "\\f"
                        else (if ch == 13
                            then codes "\\r"
                            else (if ch == 34
                                then (if context == 34 then 92 ∷ 34 ∷ [] else ch ∷ [])
                                else (if ch == 39
                                    then (if context == 39 then 92 ∷ 39 ∷ [] else ch ∷ [])
                                    else (if ch == 92
                                        then 92 ∷ 92 ∷ []
                                        else (if is_print ch then ch ∷ [] else octal ch))))))))))

-- `cEscape` of a string.
unfoldable pub c_escape : Text → ℕ → Text
c_escape [] context = []
c_escape (ch ∷ s) context = c_escape_char ch context ++ c_escape s context

-- `boost::replace_all_copy(s, "\\", "\\\\")`: one byte is replaced by two.
unfoldable pub double_backslashes : Text → Text
double_backslashes [] = []
double_backslashes (ch ∷ s) =
    let rest = double_backslashes s in if ch == 92 then 92 ∷ 92 ∷ rest else ch ∷ rest

-- The tests of the two loops of `bourneEscape`, with `strchr("_-+./", ch)`.
unfoldable pub wants_c_quotes : ℕ → Bool
unfolding is_print
wants_c_quotes ch = not (is_print ch) || ch == 39

unfoldable pub wants_quotes : ℕ → Bool
unfolding is_alnum
wants_quotes ch =
    not (is_alnum ch)
    && not (ch == b'_' || ch == b'-' || ch == b'+' || ch == b'.' || ch == b'/' || ch == 0)

unfoldable pub any_byte : (ℕ → Bool) → Text → Bool
any_byte p [] = false
any_byte p (ch ∷ s) = p ch || any_byte p s

unfoldable pub quoted : Text → Text
unfolding any_byte double_backslashes c_escape
quoted s =
    if any_byte wants_c_quotes s
    then 36 ∷ 39 ∷ (c_escape s 39 ++ (39 ∷ []))
    else (if any_byte wants_quotes s then 39 ∷ (double_backslashes s ++ (39 ∷ [])) else s)

unfoldable pub bourne_escape : Text → Text
unfolding quoted
bourne_escape [] = 39 ∷ 39 ∷ []
bourne_escape (ch ∷ s) = quoted (ch ∷ s)

-- The loop of `main` that prints the command (lines 357-358), and the part behind the first word.
unfoldable pub print_more : List Text → Text
unfolding bourne_escape
print_more [] = []
print_more (word ∷ words) = 32 ∷ (bourne_escape word ++ print_more words)

unfoldable pub print_command : List Text → Text
unfolding print_more bourne_escape
print_command [] = []
print_command (word ∷ words) = bourne_escape word ++ print_more words
