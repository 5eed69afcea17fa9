-- ===== src/Prelude/Fold.antt =====
-- Go's `strings.EqualFold`.
use Prim.Native.Nat.{ℕ, ◌+◌}
use mathlib.Core.Bool.{Bool, ◌&&◌}
use mathlib.Core.List.{map}
use toko_api.Prelude.Tests.{leb, ◌==◌, if◌then◌else◌}
use toko_api.Prelude.Texts.{Text, text_eq}

-- One representative of the code points that fold with an ASCII letter.
unfoldable pub fold : ℕ → ℕ
fold c =
    if leb b'A' c && leb c b'Z'
    then c + 32
    else if c == 0x212A
    then b'k'
    else if c == 0x17F
    then b's'
    else c

unfoldable pub equal_fold : Text → Text → Bool
unfolding fold text_eq
equal_fold s t = text_eq (map fold s) (map fold t)
