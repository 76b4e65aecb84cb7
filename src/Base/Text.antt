-- ===== src/Base/Text.antt =====
-- Python text as the list of its code points, with the methods of `str` that the source uses.
pub mod Separators
pub mod Escaped
pub mod Pieces
use Prim.Native.Char.{code}
use Prim.Native.String.{String}
use mathlib.Core.Path.{◌≡◌, refl}
use Prim.Native.Nat.{ℕ, zero, suc, ◌+◌, ◌-◌}
use mathlib.Core.Bool.{Bool, true, false, ◌&&◌, ◌||◌}
use mathlib.Core.List.{List, [], ◌∷◌, ◌++◌, map, reverse}
use native.Mathlib.Decide.{ℕ_discrete}
use native.Mathlib.Omega.{arith}
use asusrouter.Base.Tests.{leb, ◌==◌, if◌then◌else◌}
use asusrouter.Base.Dict.{Key}
use asusrouter.Base.Lists.{length}

abbrev pub Text : Type 0
Text = List ℕ

-- The code points of a text literal.
abbrev pub codes : String → Text
codes String.[] = []
codes (String.◌∷◌ c s) = code c ∷ codes s

-- Equality of texts, as a Boolean test.
abbrev pub same_text : Text → Text → Bool
same_text [] [] = true
same_text (a ∷ s) (b ∷ t) = (a == b) && same_text s t
same_text _ _ = false

pub same_text→eq : (s t : Text) → same_text s t ≡ true → s ≡ t
same_text→eq [] [] h = refl
same_text→eq (a ∷ s) (b ∷ t) h = ground (arith, same_text→eq s t)
same_text→eq [] (b ∷ t) h = cc
same_text→eq (a ∷ s) [] h = cc

pub same_text_refl : (s : Text) → same_text s s ≡ true
same_text_refl [] = refl
same_text_refl (a ∷ s) = ground (arith, same_text_refl s)

unfoldable pub Text-discrete : Discrete Text
Text-discrete = hlevel ℕ_discrete

instance abbrev pub text_key : Key Text
text_key = record { same = Text-discrete }

-- `s.startswith(p)`
abbrev pub starts_with : Text → Text → Bool
starts_with [] s = true
starts_with (a ∷ p) [] = false
starts_with (a ∷ p) (b ∷ s) = (a == b) && starts_with p s

-- `p in s`, for a text `p`.
abbrev pub has_substring : Text → Text → Bool
has_substring p [] = starts_with p []
has_substring p (b ∷ s) = starts_with p (b ∷ s) || has_substring p s

-- The white space of Python's `str.strip`.
unfoldable pub is_space : ℕ → Bool
is_space c =
    (leb 9 c && leb c 13)
    || (leb 28 c && leb c 32)
    || (c == 133)
    || (c == 160)
    || (c == 5760)
    || (leb 8192 c && leb c 8202)
    || (c == 8232)
    || (c == 8233)
    || (c == 8239)
    || (c == 8287)
    || (c == 12288)

unfoldable pub strip_left : Text → Text
unfolding is_space
strip_left [] = []
strip_left (c ∷ s) = if is_space c then strip_left s else c ∷ s

-- `s.strip()`
unfoldable pub strip : Text → Text
unfolding strip_left
strip s = reverse (strip_left (reverse (strip_left s)))

-- `s.lower()`, on what an ASCII word can come from: the Kelvin sign is the one other letter
-- whose lower case is ASCII.
unfoldable pub lower : Text → Text
lower = map λ c. if leb b'A' c && leb c b'Z' then c + 32 else if c == 8490 then b'k' else c

-- `s.split(d)` at a delimiter of one character: never empty.
abbrev pub push_char : ℕ → List Text → List Text
push_char c [] = (c ∷ []) ∷ []
push_char c (w ∷ ws) = (c ∷ w) ∷ ws

unfoldable pub split : ℕ → Text → List Text
split d [] = [] ∷ []
split d (c ∷ s) = if c == d then [] ∷ split d s else push_char c (split d s)

-- `d.join(ws)`
unfoldable pub join : Text → List Text → Text
join d [] = []
join d (w ∷ []) = w
join d (w ∷ v ∷ ws) = w ++ (d ++ join d (v ∷ ws))

-- `s.split(d)` at a delimiter of several characters; the number is of those still to be skipped.
unfoldable pub split_from : Text → ℕ → Text → List Text
split_from d skip [] = [] ∷ []
split_from d (suc k) (c ∷ s) = split_from d k s
split_from d zero (c ∷ s) =
    let cut = split_from d (length d - 1) s in
    let rest = split_from d zero s in if starts_with d (c ∷ s) then [] ∷ cut else push_char c rest

unfoldable pub split_on : Text → Text → List Text
unfolding split_from
split_on d s = split_from d zero s

-- `s.replace(old, new)`
unfoldable pub replace_from : Text → Text → ℕ → Text → Text
replace_from old new skip [] = []
replace_from old new (suc k) (c ∷ s) = replace_from old new k s
replace_from old new zero (c ∷ s) =
    let cut = replace_from old new (length old - 1) s in
    let rest = replace_from old new zero s in
    if starts_with old (c ∷ s) then new ++ cut else c ∷ rest

unfoldable pub replace : Text → Text → Text → Text
unfolding replace_from
replace old new s = replace_from old new zero s
