-- ===== src/Prelude/Utf8.antt =====
-- The bytes of a text, as Go walks them: UTF-8.
use Prim.Native.Char.{code}
use cadish.Prelude.{ℕ, ◌+◌, ◌/◌, ◌%◌, List, [], ◌∷◌, ◌++◌, String, ltb, if◌then◌else◌}

-- Six low bits, as a continuation byte.
abbrev pub tail_byte : ℕ → ℕ
tail_byte n = 0x80 + n % 64

unfoldable pub encode : ℕ → List ℕ
encode c =
    if ltb c 0x80
    then c ∷ []
    else if ltb c 0x800
    then (0xc0 + c / 64) ∷ tail_byte c ∷ []
    else if ltb c 0x10000
    then (0xe0 + c / 4096) ∷ tail_byte (c / 64) ∷ tail_byte c ∷ []
    else (0xf0 + c / 262144) ∷ tail_byte (c / 4096) ∷ tail_byte (c / 64) ∷ tail_byte c ∷ []

unfoldable pub bytes : String → List ℕ
unfolding encode
bytes String.[] = []
bytes (String.◌∷◌ c s) = encode (code c) ++ bytes s
