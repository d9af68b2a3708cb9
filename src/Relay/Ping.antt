-- ===== src/Relay/Ping.antt =====
-- `ParsePingOK` and `EngineReady` of internal/relay/relay.go.
use dockup.Base.{
  ◌≤◌, ◌≡◌, refl, Bool, true, false, not, ◌&&◌, ◌||◌, [], ◌∷◌, ◌++◌, Str, codes, arith, length,
  length-append, ltb, take, contains, str_eq, has_prefix, ◌==◌, if◌then◌else◌,
}
use dockup.Env.{Env, ping}
use dockup.Io.{M, pure, ◌>>=◌, ask}
use dockup.Config.{default_pipe}

-- `head[i] == '2' && head[i+1] == '0' && head[i+2] == '0'` for some `i` with `i + 3 <= len(head)`
two_hundred : Str → Bool
two_hundred (a ∷ b ∷ c ∷ s) =
    ((a == b'2') && ((b == b'0') && (c == b'0'))) || two_hundred (b ∷ c ∷ s)
two_hundred _ = false

unfoldable pub parse_ping_ok : Str → Bool
unfolding two_hundred
parse_ping_ok head = if ltb (length head) 12 then false else two_hundred head

-- The first 512 bytes of the answer, of which there is at least one.
unfoldable pub engine_ready : Env → Str → M Bool
engine_ready e pipe = do
  r ← ask e (ping (if str_eq pipe [] then default_pipe else pipe))
  let buf = take 512 r.out
  pure (r.ok && (not (str_eq buf []) && parse_ping_ok buf))

two_hundred-contains : (s : Str) → two_hundred s ≡ contains s (codes "200")
unfolding two_hundred contains has_prefix
two_hundred-contains [] = refl
two_hundred-contains (a ∷ []) = ground arith
two_hundred-contains (a ∷ b ∷ []) = ground arith
two_hundred-contains (a ∷ b ∷ c ∷ s) = ground (arith, two_hundred-contains (b ∷ c ∷ s))

-- An answer counts as success exactly when it has twelve bytes or more and 200 stands anywhere in
-- them; the status line is not singled out.
pub parse_ping_ok_iff :
    (head : Str) → parse_ping_ok head ≡ (not (ltb (length head) 12) && contains head (codes "200"))
unfolding parse_ping_ok
parse_ping_ok_iff head = ground (arith, two_hundred-contains head)

contains-later : (s rest : Str) → contains (s ++ (codes "200" ++ rest)) (codes "200") ≡ true
unfolding contains has_prefix
contains-later [] rest = refl
contains-later (c ∷ s) rest = ground (arith, contains-later s rest)

-- Whatever the status line says, an answer whose later headers or body hold the digits 200 counts as
-- success: for every text of twelve bytes or more before the digits and any text after them.
pub parse_ping_ok_later :
    (status rest : Str)
    → 12 ≤ length status
    → parse_ping_ok (status ++ (codes "200" ++ rest)) ≡ true
unfolding parse_ping_ok
parse_ping_ok_later status rest h = ground (
  arith,
  two_hundred-contains (status ++ (codes "200" ++ rest)),
  contains-later status rest,
  length-append status (codes "200" ++ rest),
)
