-- ===== src/Sysinfo/Tasklist.antt =====
-- `parseTasklist`, `DockupPIDs` and `DockupWindowsRSS` of internal/sysinfo/sysinfo.go, from the
-- output of tasklist on.
use dockup.Base.{
  ℕ, ◌+◌, ◌*◌, ◌%◌, ◌^◌, ◌≡◌, refl, false, not, Option, none, some, List, [], ◌∷◌, map, Str, codes,
  All, All-cons_some, cons_some, arith, split, trim_space, equal_fold, parse_uint, if◌then◌else◌,
}
use dockup.Base.Int.{ℤ, pos, eq_ℤ, atoi}
use dockup.Sysinfo.Csv.{split_csv, digits_only}

pub record DockupProc : Type 0 where
  pub pid : ℤ
  pub kb : ℕ

with_pid : Str → ℤ → Option ℤ → Option DockupProc
with_pid mem self none = none
with_pid mem self (some pid) = if eq_ℤ pid self then none else elim (parse_uint (digits_only mem)) [
  | none ↦ none
  | some kb ↦ some (record { pid = pid; kb = kb })
]

-- One row: `none` is a `continue`.
row : ℤ → Str → List Str → Option DockupProc
unfolding with_pid
row self image (name ∷ pid ∷ session ∷ number ∷ mem ∷ more) =
    if not (equal_fold name image) then none else with_pid mem self (atoi pid)
row self image _ = none

rows : ℤ → Str → List Str → List DockupProc
rows self image [] = []
rows self image (line ∷ lines) =
    let rest = rows self image lines in
    cons_some (row self image (split_csv (trim_space line))) rest

unfoldable pub parse_tasklist : Str → ℤ → Str → List DockupProc
unfolding rows row
parse_tasklist out self image = rows self image (split b'\n' out)

-- `DockupPIDs` and `DockupWindowsRSS`, of the rows
unfoldable pub dockup_pids : List DockupProc → List ℤ
dockup_pids procs = map (λ p. p.pid) procs

rss_loop : ℕ → List DockupProc → ℕ
rss_loop total [] = total
rss_loop total (p ∷ procs) = rss_loop ((total + p.kb * 1024) % 2 ^ 64) procs

unfoldable pub dockup_windows_rss : List DockupProc → ℕ
unfolding rss_loop
dockup_windows_rss procs = rss_loop 0 procs

row-ne_self :
    (self : ℤ) (image : Str) (f : List Str) {p : DockupProc}
    → row self image f ≡ some p
    → eq_ℤ p.pid self ≡ false
unfolding row
row-ne_self self image (name ∷ pid ∷ session ∷ number ∷ mem ∷ more) h = ground arith
row-ne_self self image _ h = cc

rows-All-ne_self :
    (self : ℤ) (image : Str) (lines : List Str)
    → All (λ p. eq_ℤ p.pid self ≡ false) (rows self image lines)
unfolding rows
rows-All-ne_self self image [] = tt
rows-All-ne_self self image (line ∷ lines) =
    All-cons_some _ (row self image (split_csv (trim_space line))) (rows self image lines)
      (λ p. row-ne_self self image (split_csv (trim_space line)))
      (rows-All-ne_self self image lines)

-- No row is the caller's own process, whatever tasklist printed.
pub parse_tasklist-ne_self :
    (out : Str) (self : ℤ) (image : Str)
    → All (λ p. eq_ℤ p.pid self ≡ false) (parse_tasklist out self image)
unfolding parse_tasklist
parse_tasklist-ne_self out self image = rows-All-ne_self self image (split b'\n' out)

sample :
    parse_tasklist
      (codes "\"Dockup.exe\",\"12\",\"Console\",\"1\",\"12,344 K\"")
      (pos 7)
      (codes "dockup.exe")
    ≡ record { pid = pos 12; kb = 12344 } ∷ []
unfolding parse_tasklist atoi split trim_space split_csv equal_fold parse_uint digits_only
sample = refl
