-- ===== src/Prelude/Text.antt =====
-- Texts as Rust's `str` uses them: the code points of a text, the tests on them, and the blank test.
use Prim.Native.Nat.{ℕ, ◌+◌, ◌/◌, ◌%◌}
use Prim.Native.Char.{code}
use Prim.Native.String.{String, ◌++◌ as append}
use mathlib.Core.Path.{◌≡◌}
use text.Mathlib.Text.{◌==◌}
use text.Mathlib.TextEquality.{eq_iff}
use mathlib.Core.Bool.{Bool, true, false, ◌&&◌, ◌||◌}
use mathlib.Core.List.{List, [], ◌∷◌, ◌++◌}
use agent_runner_opencode.Prelude.Lists.{length}
use agent_runner_opencode.Prelude.Tests.{ltb, leb, eqb, if◌then◌else◌}

-- The code points of a text: its bytes, if it is ASCII.
abbrev pub codes : String → List ℕ
codes String.[] = []
codes (String.◌∷◌ c s) = code c ∷ codes s

-- The bytes of a text in UTF-8, and `str::len`.
abbrev pub utf8_code : ℕ → List ℕ
utf8_code c =
    if ltb c 0x80
    then c ∷ []
    else if ltb c 0x800
    then (0xc0 + c / 64) ∷ (0x80 + c % 64) ∷ []
    else if ltb c 0x10000
    then (0xe0 + c / 4096) ∷ (0x80 + c / 64 % 64) ∷ (0x80 + c % 64) ∷ []
    else (0xf0 + c / 262144) ∷ (0x80 + c / 4096 % 64) ∷ (0x80 + c / 64 % 64) ∷ (0x80 + c % 64) ∷ []

abbrev pub utf8 : String → List ℕ
utf8 String.[] = []
utf8 (String.◌∷◌ c s) = utf8_code (code c) ++ utf8 s

abbrev pub byte_length : String → ℕ
byte_length s = length (utf8 s)

-- Does the first list begin with the second?
abbrev pub begins : List ℕ → List ℕ → Bool
begins xs [] = true
begins [] (y ∷ ys) = false
begins (x ∷ xs) (y ∷ ys) = eqb x y && begins xs ys

-- `str::contains`.
abbrev pub contains : List ℕ → List ℕ → Bool
contains [] ys = begins [] ys
contains (x ∷ xs) ys = begins (x ∷ xs) ys || contains xs ys

-- `to_ascii_lowercase`, on a code point.
abbrev pub to_ascii_lowercase : ℕ → ℕ
to_ascii_lowercase c = if leb b'A' c && leb c b'Z' then c + 32 else c

-- Unicode's `White_Space`, which `trim` removes.
abbrev pub is_whitespace : ℕ → Bool
is_whitespace c =
    (leb 9 c && leb c 13)
    || eqb c 32
    || eqb c 0x85
    || eqb c 0xa0
    || eqb c 0x1680
    || (leb 0x2000 c && leb c 0x200a)
    || eqb c 0x2028
    || eqb c 0x2029
    || eqb c 0x202f
    || eqb c 0x205f
    || eqb c 0x3000

-- `text.trim().is_empty()`.
abbrev pub is_blank : String → Bool
is_blank String.[] = true
is_blank (String.◌∷◌ c s) = is_whitespace (code c) && is_blank s

-- Texts that pass Rust's `==` are equal.
pub eq_of : (s t : String) → (s == t) ≡ true → s ≡ t
eq_of s t h = (eq_iff s t).0 h

-- Text put together, as `format!` does.
abbrev pub concat : String → String → String
concat s t = append s t

-- Equality of lists of code points.
abbrev pub same_codes : List ℕ → List ℕ → Bool
same_codes [] [] = true
same_codes (x ∷ xs) (y ∷ ys) = eqb x y && same_codes xs ys
same_codes _ _ = false

-- The parts of a list of code points between the separators.
abbrev pub split_codes : ℕ → List ℕ → List ℕ → List (List ℕ)
split_codes separator [] part = part ∷ []
split_codes separator (c ∷ cs) part =
    let ended = part ∷ split_codes separator cs [] in
    let longer = split_codes separator cs (part ++ c ∷ []) in
    if eqb c separator then ended else longer
