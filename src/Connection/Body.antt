-- ===== src/Connection/Body.antt =====
-- connection.py: `_read_response_content`, which reads a response within the size limit and decodes it.
-- The sizes alone are what the requests use; `int`, the look-up of an encoding and the decoding are
-- parameters.
pub mod Within
use asusrouter.Base.{
  ℕ, ◌+◌, Bool, false, Option, none, some, List, [], ◌∷◌, ◌++◌, length, ltb, if◌then◌else◌,
}
use asusrouter.Base.Int.{ℤ, pos, ltb_ℤ}
use asusrouter.Base.Text.{Text, codes}

-- `MAX_RESPONSE_SIZE`
abbrev pub max_response_size : ℕ
max_response_size = 8388608

-- The loop over the chunks; `none` is the size error.
unfoldable pub read_chunks : ℕ → ℕ → List ℕ → Option ℕ
read_chunks limit size [] = some size
read_chunks limit size (n ∷ chunks) =
    let rest = read_chunks limit (size + n) chunks in if ltb limit (size + n) then none else rest

unfoldable pub exceeds : ℕ → Option ℤ → Bool
exceeds limit none = false
exceeds limit (some z) = ltb_ℤ (pos limit) z

-- The size of the body that was read: a declared size is checked first. A header that is no
-- number counts as none.
unfoldable pub read_size : ℕ → Option ℤ → List ℕ → Option ℕ
unfolding exceeds read_chunks
read_size limit declared chunks =
    if exceeds limit declared then none else read_chunks limit 0 chunks

abbrev pub or_else : Option Text → Option Text → Option Text
or_else none other = other
or_else (some s) other = some s

abbrev pub or_text : Option Text → Text → Text
or_text none other = other
or_text (some s) other = s

-- The loop on the bytes themselves, after those that have been read.
unfoldable pub read_bytes : ℕ → Text → List Text → Option Text
read_bytes limit body [] = some body
read_bytes limit body (chunk ∷ chunks) =
    let rest = read_bytes limit (body ++ chunk) chunks in
    if ltb limit (length body + length chunk) then none else rest

-- `headers.get("Content-Length")`, or with the other name.
abbrev pub content_length : (Text → Option Text) → Option Text
content_length header = or_else (header (codes "Content-Length")) (header (codes "content-length"))

abbrev pub number_in : (Text → Option ℤ) → Option Text → Option ℤ
number_in read_int none = none
number_in read_int (some s) = read_int s

-- The name of the encoding, by the `charset` of the response and the look-up.
abbrev pub encoding_of : (Text → Bool) → Option Text → Text
encoding_of is_known none = codes "utf-8"
encoding_of is_known (some e) = if is_known e then e else codes "utf-8"

module _ (read_int : Text → Option ℤ) (is_known : Text → Bool) (decode : Text → Text → Option Text)
    (decode_ignoring : Text → Text → Text) where
  abbrev pub decoded : Text → Text → Text
  decoded encoding body = or_text (decode encoding body) (decode_ignoring encoding body)

  abbrev pub decoded_in : Text → Option Text → Option Text
  decoded_in encoding none = none
  decoded_in encoding (some body) = some (decoded encoding body)

  -- `_read_response_content`, by the headers, the charset and the chunks; `none` is the size error.
  unfoldable pub read_response_content :
      ℕ → (Text → Option Text) → Option Text → List Text → Option Text
  unfolding exceeds read_bytes
  read_response_content limit header charset chunks =
      if exceeds limit (number_in read_int (content_length header))
      then none
      else decoded_in (encoding_of is_known charset) (read_bytes limit [] chunks)
