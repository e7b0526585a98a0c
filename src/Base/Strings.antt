-- ===== src/Base/Strings.antt =====
-- C strings: the bytes of a text, without the terminating zero.
use Prim.Native.Nat.{ℕ}
use Prim.Native.Char.{code}
use Prim.Native.String.{String}
use mathlib.Core.List.{List, [], ◌∷◌}

abbrev pub bytes_of : String → List ℕ
bytes_of String.[] = []
bytes_of (String.◌∷◌ ch text) = code ch ∷ bytes_of text
