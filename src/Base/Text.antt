-- ===== src/Base/Text.antt =====
-- strings.TrimSpace of Go's library, on texts as lists of characters.
use Prim.Native.Char.{Char, code}
use Prim.Native.String.{String, [], ◌∷◌}
use mathlib.Core.Bool.{Bool, ◌&&◌, ◌||◌}
use qr_domofon.Base.Tests.{leb, ◌==◌, if◌then◌else◌}

-- unicode.IsSpace.
abbrev is_space : Char → Bool
is_space c =
    let n = code c in
    (leb 9 n && leb n 13)
    || n == 32
    || n == 133
    || n == 160
    || n == 5760
    || (leb 8192 n && leb n 8202)
    || n == 8232
    || n == 8233
    || n == 8239
    || n == 8287
    || n == 12288

trim_left : String → String
trim_left [] = []
trim_left (c ∷ s) = let rest = trim_left s in if is_space c then rest else c ∷ s

-- A space before nothing but spaces.
drop_space : Char → String → String
drop_space c [] = if is_space c then [] else c ∷ []
drop_space c (d ∷ s) = c ∷ d ∷ s

trim_right : String → String
unfolding drop_space
trim_right [] = []
trim_right (c ∷ s) = drop_space c (trim_right s)

unfoldable pub trim_space : String → String
unfolding trim_left trim_right
trim_space s = trim_right (trim_left s)

-- The suffix that strings.TrimRight removes for the cut set "/".
drop_slash : Char → String → String
drop_slash c [] = if code c == b'/' then [] else c ∷ []
drop_slash c (d ∷ s) = c ∷ d ∷ s

unfoldable pub trim_slashes : String → String
unfolding drop_slash
trim_slashes [] = []
trim_slashes (c ∷ s) = drop_slash c (trim_slashes s)
