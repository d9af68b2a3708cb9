-- ===== src/Sysinfo/Rss.antt =====
-- `DistroRSS` of internal/sysinfo/sysinfo.go, from the output of ps on.
use dockup.Base.{
  ℕ, ◌+◌, ◌*◌, ◌%◌, ◌^◌, ◌≡◌, Option, none, some, List, [], ◌∷◌, Str, codes, arith, split, fields,
  mem_str, parse_uint, if◌then◌else◌,
}

abbrev pub distro_procs : List Str
distro_procs = codes "dockerd" ∷ codes "containerd" ∷ codes "socat" ∷ []

-- The kilobytes that one line adds: none is a `continue`.
line_kb : List Str → Option ℕ
line_kb (kb ∷ comm ∷ []) = if mem_str comm distro_procs then parse_uint kb else none
line_kb _ = none

add_line : ℕ → Option ℕ → ℕ
add_line total none = total
add_line total (some kb) = (total + kb * 1024) % 2 ^ 64

rss_lines : ℕ → List Str → ℕ
rss_lines total [] = total
rss_lines total (line ∷ lines) = rss_lines (add_line total (line_kb (fields line))) lines

unfoldable pub distro_rss : Str → ℕ
unfolding rss_lines add_line line_kb
distro_rss out = rss_lines 0 (split b'\n' out)

-- What the lines add up to, with no bound.
pub sum_kb : List Str → ℕ
sum_kb [] = 0
sum_kb (line ∷ lines) = elim (line_kb (fields line)) [
  | none ↦ sum_kb lines
  | some kb ↦ kb + sum_kb lines
]

rss_lines-sum :
    (total : ℕ) (lines : List Str)
    → rss_lines total lines % 2 ^ 64 ≡ (total + sum_kb lines * 1024) % 2 ^ 64
unfolding rss_lines sum_kb add_line
rss_lines-sum total [] = omega arith
rss_lines-sum total (line ∷ lines) =
    ground (arith, rss_lines-sum (add_line total (line_kb (fields line))) lines)

-- `distroRSS` of a ps listing is the sum of the kilobytes of the lines that count, times 1024, up to
-- the wrap-around of uint64.
pub distro_rss-sum :
    (out : Str) → distro_rss out % 2 ^ 64 ≡ (sum_kb (split b'\n' out) * 1024) % 2 ^ 64
unfolding distro_rss
distro_rss-sum out = omega (arith, rss_lines-sum 0 (split b'\n' out))
