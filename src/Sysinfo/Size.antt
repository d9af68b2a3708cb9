-- ===== src/Sysinfo/Size.antt =====
-- `FormatSize` of internal/sysinfo/sysinfo.go.
use dockup.Base.{
  ℕ, ◌+◌, ◌*◌, ◌/◌, ◌%◌, ◌^◌, ◌≤◌, ◌≡◌, refl, ◌||◌, ◌&&◌, ◌∷◌, ◌++◌, Str, codes, arith, ltb, ◌==◌,
  if◌then◌else◌,
}
use dockup.Base.Decimal.{decimal}

abbrev pub gib : ℕ
gib = 2 ^ 30

-- `%.1f` of b / 2 ^ 30, in tenths: the nearest one, the even one of two.
unfoldable pub tenths : ℕ → ℕ
tenths b =
    let q = b * 10 / gib in
    let r = b * 10 % gib in if ltb (2 ^ 29) r || ((r == 2 ^ 29) && (q % 2 == 1)) then q + 1 else q

unfoldable pub format_size : ℕ → Str
unfolding tenths decimal
format_size b =
    if ltb b gib
    then decimal (b / 2 ^ 20) ++ codes " MB"
    else decimal (tenths b / 10) ++ (b'.' ∷ (b'0' + tenths b % 10) ∷ codes " GB")

-- The number that `FormatSize` prints from 1 GiB on is within half a tenth of a GiB of the size, and
-- it is at least 1.0: in tenths t, |20 b - 2 t GiB| ≤ GiB and t ≥ 10.
pub tenths-nearest :
    (b : ℕ)
    → gib ≤ b
    → (20 * b ≤ 2 * tenths b * gib + gib) × (2 * tenths b * gib ≤ 20 * b + gib) × (10 ≤ tenths b)
unfolding tenths
tenths-nearest b h = ground arith

sizes : (format_size (452 * 2 ^ 20) ≡ codes "452 MB") × (format_size (3 * 2 ^ 29) ≡ codes "1.5 GB")
unfolding format_size
sizes = (refl, refl)
