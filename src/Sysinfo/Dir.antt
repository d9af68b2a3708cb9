-- ===== src/Sysinfo/Dir.antt =====
-- `DirSize` and `DistroSize` of internal/sysinfo/sysinfo.go.
use dockup.Base.{
  ℕ, ◌+◌, ◌%◌, ◌^◌, ◌≡◌, refl, false, not, ◌&&◌, List, [], ◌∷◌, Str, codes, arith, ltb, All, Option,
  if◌then◌else◌,
}
use dockup.Env.{Env, Entry, walk, stat}
use dockup.Io.{M, pure, ◌>>=◌, Result, ok, err, ask, is_some}
use dockup.Io.Keeps.{Keeps, Keeps-bind, SameFiles, same_files_rules}
use dockup.Image.Clear.{file_total}

-- A name that the walk cannot look at ends it with its error.
unfoldable pub walk_total : ℕ → List Entry → Result ℕ
walk_total total [] = ok total
walk_total total (n ∷ ns) =
    if n.failed
    then err (codes "walk")
    else walk_total (if not n.is_dir && ltb 0 n.size then (total + n.size) % 2 ^ 64 else total) ns

module _ (e : Env) where
  unfoldable pub dir_size : Str → M (Result ℕ)
  dir_size dir = do r ← ask e (walk dir); pure (walk_total 0 (e.listing r.out))

  -- The size of the disk file, as `os.Stat` gives it
  stat_size : Str → M (Result ℕ)
  stat_size p w =
      let (r, w') = ask e (stat p) w in
      (if r.ok && is_some (w'.files p) then ok r.num else err (codes "stat"), w')

  or_dir : Str → Result ℕ → M (Result ℕ)
  or_dir dir (ok n) = pure (ok n)
  or_dir dir (err m) = dir_size dir

  -- `DistroSize`
  unfoldable pub distro_size : Str → M (Result ℕ)
  unfolding stat_size or_dir
  distro_size dir = do st ← stat_size (e.join (dir ∷ codes "ext4.vhdx" ∷ [])); or_dir dir st

-- Where the walk can look at every name, `DirSize` of sysinfo and `dirSize` of image give the same.
pub walk_total-file_total :
    (total : ℕ) (ns : List Entry)
    → All (λ n. n.failed ≡ false) ns
    → walk_total total ns ≡ ok (file_total total ns)
unfolding walk_total file_total
walk_total-file_total total [] h = refl
walk_total-file_total total (n ∷ ns) (h, hs) = ground (
  arith,
  h,
  walk_total-file_total total ns hs,
  walk_total-file_total ((total + n.size) % 2 ^ 64) ns hs,
)

pub distro_size-SameFiles :
    (e : Env) (fs : Str → Option Str) (dir : Str) → Keeps (SameFiles fs) (distro_size e dir)
unfolding distro_size or_dir dir_size ask
distro_size-SameFiles e fs dir = Keeps-bind _ _ (record { at = λ w h. h }) or_dir-SameFiles
  where
    or_dir-SameFiles : (st : Result ℕ) → Keeps (SameFiles fs) (or_dir e dir st)
    or_dir-SameFiles (ok n) = search same_files_rules
    or_dir-SameFiles (err m) = search same_files_rules
