-- ===== src/Download.antt =====
-- `Size`, `Fetch` and `FormatMB` of internal/download/download.go. The answer to `http_get` is that of the
-- whole exchange: `ok` that the client gave a response, `num` its status, `out` the body as far as it
-- was read, `flag` that the body ended with io.EOF. The answer to `size_head` has the length of the content in `num`
-- where the response tells it, which is `flag`. The reports of its progress are in Ui/Progress.
use dockup.Base.{◌/◌, ◌≡◌, Bool, true, not, ◌&&◌, ◌||◌, Str, codes, leb, ltb, if◌then◌else◌}
use dockup.Base.Decimal.{decimal}
use dockup.Base.Int.{ℤ, pos, negsuc}
use dockup.Env.{Call, Reply, Env, http_get, size_head, write_file}
use dockup.Io.{M, pure, ◌>>=◌, ok, err, is_ok, Done, ask, write_path}
use dockup.Io.Keeps.{Keeps, Only, only_rules}

abbrev pub content_length : Reply → ℤ
content_length r = if r.ok && r.flag then pos r.num else negsuc 0

-- `Size`, which is -1 where it is unknown.
abbrev pub size : Env → Str → M ℤ
size e url = ask e (size_head url) >>= λ r. pure (content_length r)

unfoldable pub fetch : Env → Str → Str → M Done
fetch e url dest = do
  r ← ask e (http_get url)
  if not r.ok
      then pure (err (codes "download"))
      else if ltb r.num 200 || leb 300 r.num
      then pure (err (codes "download: HTTP status"))
      else do
        d ← write_path e dest r.out
        if not (is_ok d)
            then pure d
            else if not r.flag
            then pure (err (codes "download body"))
            else pure (ok tt)

-- `FormatMB`
unfoldable pub format_mb : ℤ → Str
format_mb (pos b) = decimal (b / 1048576)
format_mb (negsuc n) = codes "?"

pub fetch-Only :
    (e : Env) (allowed : Call → Bool) (url dest : Str)
    → allowed (http_get url) ≡ true
    → allowed (write_file dest) ≡ true
    → Keeps (Only allowed) (fetch e url dest)
unfolding fetch
fetch-Only e allowed url dest a b = search only_rules depth 10
