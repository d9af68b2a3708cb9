-- ===== src/Image/Clear.antt =====
-- `CacheExists`, `Clear` and `dirSize` of internal/image/image.go.
use dockup.Base.{
  ℕ, ◌+◌, ◌%◌, ◌^◌, ◌<◌, ◌≡◌, refl, Bool, false, not, ◌&&◌, ◌||◌, List, [], ◌∷◌, Str, codes, arith,
  ltb, if◌then◌else◌,
}
use dockup.Env.{Env, Entry, walk}
use dockup.Io.{M, pure, ◌>>=◌, Result, ok, err, ask, remove_tree}
use dockup.Io.Keeps.{Keeps, SameFiles, same_files_rules}
use dockup.Image.Cache.{cache_dir}

-- A name that the walk could not look at is skipped; the first file with content ends it.
unfoldable pub cache_holds : List Entry → Bool
cache_holds [] = false
cache_holds (n ∷ ns) =
    if n.failed then cache_holds ns else ((not n.is_dir && ltb 0 n.size) || cache_holds ns)

-- The bits of `dirSize`, an int64.
unfoldable pub file_total : ℕ → List Entry → ℕ
file_total total [] = total
file_total total (n ∷ ns) =
    file_total
      (if not n.failed && (not n.is_dir && ltb 0 n.size) then (total + n.size) % 2 ^ 64 else total)
      ns

module _ (e : Env) (root : Str) where
  unfoldable pub cache_exists : M Bool
  cache_exists = do r ← ask e (walk (cache_dir e root)); pure (cache_holds (e.listing r.out))

  -- `Clear`, with the bytes that it held
  unfoldable pub clear : M (Result ℕ)
  clear = do
    r ← ask e (walk (cache_dir e root))
    gone ← remove_tree e (cache_dir e root)
    pure (if gone then ok (file_total 0 (e.listing r.out)) else err (codes "remove"))

  pub cache_exists-SameFiles : (fs : Str → _) → Keeps (SameFiles fs) cache_exists
  unfolding cache_exists
  cache_exists-SameFiles fs = search same_files_rules

-- What the files of a walk hold together, with no bound.
unfoldable pub held_bytes : List Entry → ℕ
held_bytes [] = 0
held_bytes (n ∷ ns) = (if not n.failed && not n.is_dir then n.size else 0) + held_bytes ns

file_total-held :
    (total : ℕ) (ns : List Entry)
    → total + held_bytes ns < 2 ^ 63
    → file_total total ns ≡ total + held_bytes ns
unfolding file_total held_bytes
file_total-held total [] h = ground arith
file_total-held total (n ∷ ns) h = ground (
  arith,
  file_total-held total ns,
  file_total-held (total + n.size) ns,
  file_total-held ((total + n.size) % 2 ^ 64) ns,
)

cache_holds-held : (ns : List Entry) → cache_holds ns ≡ ltb 0 (held_bytes ns)
unfolding cache_holds held_bytes
cache_holds-held [] = refl
cache_holds-held (n ∷ ns) = ground (arith, cache_holds-held ns)

-- As long as the files of the cache hold less than 2 ^ 63 bytes, the size that Clear reports is their
-- sum, with no overflow, and CacheExists says yes exactly where it is not 0.
pub file_total-exact :
    (ns : List Entry)
    → held_bytes ns < 2 ^ 63
    → (file_total 0 ns ≡ held_bytes ns) × (cache_holds ns ≡ ltb 0 (file_total 0 ns))
file_total-exact ns h = ground (arith, file_total-held 0 ns, cache_holds-held ns)
