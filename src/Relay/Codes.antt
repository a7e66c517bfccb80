-- ===== src/Relay/Codes.antt =====
-- Invite codes: the room and the token in one text (workers/session-relay/relay_codes.rs).
use thaum_painter.Base.{
  ℕ, zero, suc, ◌+◌, ◌-◌, ◌%◌, Bool, true, false, not, ◌&&◌, ◌||◌, Option, none, some, List, [],
  ◌∷◌, ◌++◌, map, length, ltb, leb, ◌==◌, if◌then◌else◌,
}
use thaum_painter.Base.Text.{Text, codes}

abbrev pub code_alphabet : Text
code_alphabet = codes "23456789ABCDEFGHJKMNPQRSTUVWXYZ"

abbrev pub room_id_len : ℕ
room_id_len = 6

abbrev pub room_token_len : ℕ
room_token_len = 10

abbrev pub code_separator : ℕ
code_separator = 45

-- White space, as `trim` takes it off.
unfoldable pub is_whitespace : ℕ → Bool
is_whitespace c =
    leb 9 c && leb c 13
    || c == 32
    || c == 133
    || c == 160
    || c == 5760
    || leb 8192 c && leb c 8202
    || c == 8232
    || c == 8233
    || c == 8239
    || c == 8287
    || c == 12288

unfoldable pub trim_start : Text → Text
unfolding is_whitespace
trim_start [] = []
trim_start (c ∷ cs) = let rest = trim_start cs in if is_whitespace c then rest else c ∷ cs

unfoldable pub trim_end : Text → Text
unfolding is_whitespace
trim_end [] = []
trim_end (c ∷ cs) = elim (trim_end cs) [
  | [] ↦ if is_whitespace c then [] else c ∷ []
  | d ∷ ds ↦ c ∷ d ∷ ds
]

unfoldable pub to_ascii_uppercase : ℕ → ℕ
to_ascii_uppercase c = if leb 97 c && leb c 122 then c - 32 else c

-- The text before the first separator and the text after it.
unfoldable pub split_once : ℕ → Text → Option (Text × Text)
split_once separator [] = none
split_once separator (c ∷ cs) =
    let rest = split_once separator cs in
    if c == separator
    then some ([], cs)
    else elim rest [ none ↦ none | some parts ↦ some (c ∷ parts.0, parts.1) ]

-- The length of a text in UTF-8 bytes.
unfoldable pub len_utf8 : Text → ℕ
len_utf8 [] = 0
len_utf8 (c ∷ cs) =
    (if ltb c 128 then 1 else if ltb c 2048 then 2 else if ltb c 65536 then 3 else 4) + len_utf8 cs

unfoldable pub has_glyph : Text → ℕ → Bool
has_glyph [] c = false
has_glyph (d ∷ ds) c = d == c || has_glyph ds c

-- The loop over the bytes: the bytes of a character outside of ASCII are not in the alphabet, and
-- neither is the character.
unfoldable pub all_glyphs : Text → Bool
unfolding has_glyph
all_glyphs [] = true
all_glyphs (c ∷ cs) = has_glyph code_alphabet c && all_glyphs cs

unfoldable pub parse_code : Text → Option (Text × Text)
unfolding trim_start trim_end to_ascii_uppercase split_once len_utf8 all_glyphs
parse_code raw =
    elim (split_once code_separator (map to_ascii_uppercase (trim_end (trim_start raw)))) [
      | none ↦ none
      | some parts ↦
          if not (len_utf8 parts.0 == room_id_len) || not (len_utf8 parts.1 == room_token_len)
          then none
          else if all_glyphs (parts.0 ++ parts.1)
          then some parts
          else none
    ]

unfoldable pub glyph_at : Text → ℕ → ℕ
glyph_at [] i = 0
glyph_at (c ∷ cs) zero = c
glyph_at (c ∷ cs) (suc i) = glyph_at cs i

-- The glyphs for random bytes, which the operating system gives.
unfoldable pub code_part : List ℕ → Text
unfolding glyph_at
code_part bytes = map (λ byte. glyph_at code_alphabet (byte % length code_alphabet)) bytes

-- The room, the token and the code, for the random bytes of each part.
unfoldable pub generate_code : List ℕ → List ℕ → Text × Text × Text
unfolding code_part
generate_code room_bytes token_bytes =
    let room = code_part room_bytes in
    let token = code_part token_bytes in (room, token, room ++ code_separator ∷ token)
