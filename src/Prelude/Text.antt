-- ===== src/Prelude/Text.antt =====
-- String literals of the source as lists of bytes: the files are in UTF-8.
use Prim.Native.Char.{code}
use Prim.Native.Nat.{ℕ, ◌+◌, ◌/◌, ◌%◌}
use Prim.Native.String.{String}
use mathlib.Core.List.{List, [], ◌∷◌}
use curnel.Prelude.Tests.{ltb, if◌then◌else◌}

-- The bytes of a code point below 2 ^ 16, before the bytes `rest`.
abbrev utf8 : ℕ → List ℕ → List ℕ
utf8 c rest =
    if ltb c 128
    then c ∷ rest
    else if ltb c 2048
    then (192 + c / 64) ∷ (128 + c % 64) ∷ rest
    else (224 + c / 4096) ∷ (128 + c / 64 % 64) ∷ (128 + c % 64) ∷ rest

unfoldable pub text : String → List ℕ
text String.[] = []
text (String.◌∷◌ c s) = utf8 (code c) (text s)
