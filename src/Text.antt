-- ===== src/Text.antt =====
-- truncate of internal/core/driver.go: cuts a text of at most n bytes, back to a rune boundary.
pub mod Cut
use go_flywheel.Base.{Bool, [], if◌then◌else◌, leb, length, ltb, not, suc, take, zero, ℕ, ◌&&◌, ◌∷◌}
use go_flywheel.Types.{Bytes}

-- utf8.RuneStart: a byte that continues a rune is 10xxxxxx.
abbrev pub rune_start : ℕ → Bool
rune_start b = not (leb 128 b && ltb b 192)

abbrev pub byte_at : Bytes → ℕ → ℕ
byte_at [] i = 0
byte_at (b ∷ s) zero = b
byte_at (b ∷ s) (suc i) = byte_at s i

-- The loop `for n > 0 && !utf8.RuneStart(s[n]) { n-- }`.
pub cut_at : Bytes → ℕ → ℕ
cut_at s zero = zero
cut_at s (suc n) = let back = cut_at s n in if rune_start (byte_at s (suc n)) then suc n else back

unfoldable pub truncate : Bytes → ℕ → Bytes
unfolding cut_at
truncate s n = if leb (length s) n then s else take (cut_at s n) s
