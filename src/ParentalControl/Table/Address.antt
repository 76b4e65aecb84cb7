-- ===== src/ParentalControl/Table/Address.antt =====
-- parental_control.py: what `read_row` makes of an address and of the number of a type.
use mathlib.Core.List.{reverse_aux, reverse, reverse-reverse}
use asusrouter.Base.{
  ℕ, ◌≤◌, ◌≡◌, ◌≢◌, ◌⊎◌, inl, inr, refl, ap, ◌∙◌, false, Option, some, [], ◌∷◌, All, arith,
}
use asusrouter.Base.Int.{ℤ, negsuc}
use asusrouter.Base.Text.{Text, codes, is_space, strip_left, strip}
use asusrouter.Base.Text.Separators.{Free}
use asusrouter.Tools.Converters.{text, clean_content, clean_string, safe_int}
use asusrouter.ParentalControl.Rules.{RuleType, unknown, remove, disable, time, block}
use asusrouter.ParentalControl.Table.{type_of_code}

-- A digit, a colon, or a character from `A` to `f`.
abbrev pub IsAddressCode : ℕ → Type 0
IsAddressCode c = ((48 ≤ c) × (c ≤ 58)) ⊎ ((65 ≤ c) × (c ≤ 102))

-- A text of such characters that is not empty.
abbrev pub IsAddress : Text → Type 0
IsAddress s = (s ≢ []) × All IsAddressCode s

not_space : (c : ℕ) → IsAddressCode c → is_space c ≡ false
unfolding is_space
not_space c (inl (h, k)) = ground (arith, h, k)
not_space c (inr (h, k)) = ground (arith, h, k)

strip_left_address : (s : Text) → All IsAddressCode s → strip_left s ≡ s
unfolding strip_left
strip_left_address [] h = refl
strip_left_address (c ∷ s) (h, _) = ground (arith, not_space c h)

All-reverse_aux :
    (s t : Text) → All IsAddressCode s → All IsAddressCode t → All IsAddressCode (reverse_aux s t)
All-reverse_aux [] t h k = k
All-reverse_aux (c ∷ s) t (h, hs) k = All-reverse_aux s (c ∷ t) hs (h, k)

strip_address : (s : Text) → All IsAddressCode s → strip s ≡ s
unfolding strip
strip_address s h =
    ap (λ t. reverse (strip_left (reverse t))) (strip_left_address s h)
    ∙ ap reverse (strip_left_address (reverse s) (All-reverse_aux s [] h tt))
    ∙ reverse-reverse s

clean_content_address : (s : Text) → All IsAddressCode s → clean_content s ≡ s
unfolding clean_content
clean_content_address [] h = refl
clean_content_address (c ∷ s) (inl (h, k), _) = ground (arith, h, k)
clean_content_address (c ∷ s) (inr (h, k), _) = ground (arith, h, k)

pub clean_string_address : (s : Text) → IsAddress s → clean_string s ≡ some s
unfolding clean_string
clean_string_address [] (n, h) = absurd (n refl)
clean_string_address (c ∷ s) (n, h) =
    rw (strip_address (c ∷ s) h) (rw (clean_content_address (c ∷ s) h) refl)

-- An address has no character that begins a code of the router, nor one that it replaces.
pub Free_address : (d : ℕ) (s : Text) → (d ≡ 38) ⊎ (d ≡ 60) → All IsAddressCode s → Free d s
Free_address d [] e h = tt
Free_address d (c ∷ s) (inl e) (h, hs) = (ground (arith, e, h), Free_address d s (inl e) hs)
Free_address d (c ∷ s) (inr e) (h, hs) = (ground (arith, e, h), Free_address d s (inr e) hs)

-- The number of a type, as the router writes it.
abbrev pub digits : RuleType → Text
digits disable = codes "0"
digits time = codes "1"
digits block = codes "2"
digits remove = codes "-1"
digits unknown = codes "-999"

pub type_of_digits :
    (float_int : Text → Option ℤ) (k : RuleType)
    → type_of_code (safe_int float_int (text (digits k)) (some (negsuc 998))) ≡ k
unfolding type_of_code safe_int
type_of_digits float_int disable = refl
type_of_digits float_int time = refl
type_of_digits float_int block = refl
type_of_digits float_int remove = refl
type_of_digits float_int unknown = refl
