-- ===== src/Connection/Body/Within.antt =====
-- connection.py: which bodies `_read_response_content` reads, and what it makes of them.
use asusrouter.Base.{
  ℕ, ◌+◌, ◌≤◌, ◌<◌, ◌≡◌, ◌⊎◌, refl, Bool, true, false, Option, none, some, List, [], ◌∷◌, ◌++◌, map,
  length, arith,
}
use asusrouter.Base.Int.{ℤ, pos}
use asusrouter.Base.Text.{Text, codes}
use asusrouter.Connection.Body.{read_chunks, read_bytes}

abbrev pub concat : List Text → Text
concat [] = []
concat (chunk ∷ chunks) = chunk ++ concat chunks

-- The headers declare a size, as an integer.
abbrev pub Declares : (Text → Option ℤ) → (Text → Option Text) → ℤ → Type 0
Declares read_int header z =
    (s : Text) × ((header (codes "Content-Length") ≡ some s)
      ⊎ ((header (codes "Content-Length") ≡ none) × (header (codes "content-length") ≡ some s)))
    × (read_int s ≡ some z)

-- They declare one that is more than the limit.
abbrev pub DeclaresMore : (Text → Option ℤ) → (Text → Option Text) → ℕ → Type 0
DeclaresMore read_int header limit = (n : ℕ) × Declares read_int header (pos n) × (limit < n)

-- The encoding is the charset if it is known, else UTF-8.
abbrev pub IsEncoding : (Text → Bool) → Option Text → Text → Type 0
IsEncoding is_known charset e =
    ((charset ≡ some e) × (is_known e ≡ true))
    ⊎ ((e ≡ codes "utf-8")
        × ((charset ≡ none) ⊎ ((x : Text) × (charset ≡ some x) × (is_known x ≡ false))))

-- The text of some bytes: they are decoded, with errors ignored only if that fails.
abbrev pub IsDecoded : Option Text → Text → Text → Type 0
IsDecoded strict ignoring t = (strict ≡ some t) ⊎ ((strict ≡ none) × (t ≡ ignoring))

length-append : (s t : Text) → length (s ++ t) ≡ length s + length t
length-append [] t = omega arith
length-append (c ∷ s) t = ground (arith, length-append s t)

-- The loop reads everything, unless this is more than the limit.
abbrev IsRead : ℕ → Text → Option Text → Type 0
IsRead limit all o = ((length all ≤ limit) × (o ≡ some all)) ⊎ ((limit < length all) × (o ≡ none))

abbrev length_of : Option Text → Option ℕ
length_of none = none
length_of (some s) = some (length s)

-- The sizes that the requests use are those of the bytes.
read_chunks-length :
    (limit : ℕ) (body : Text) (chunks : List Text)
    → read_chunks limit (length body) (map length chunks) ≡ length_of (read_bytes limit body chunks)
unfolding read_chunks read_bytes
read_chunks-length limit body [] = refl
read_chunks-length limit body (chunk ∷ chunks) =
    ground (arith, read_chunks-length limit (body ++ chunk) chunks, length-append body chunk)
