-- ===== src/Cli/Log.antt =====
-- `daemonLog` of cmd/dockup/main.go. The log grows by other processes, so that what each round reads
-- is given; Ctrl+C ends the loop, after the last of the rounds.
use dockup.Base.{
  All, ℕ, ◌-◌, ◌≤◌, ◌≡◌, refl, Option, none, some, List, [], ◌∷◌, ◌++◌, append-nil, Str, arith,
  length, drop, ltb, has_suffix, if◌then◌else◌,
}
use dockup.Io.{Read, content, not_exist, read_error}

-- Where the log is shown from: `none` is an error of `os.Stat`.
unfoldable pub start_offset : Option ℕ → ℕ
start_offset none = 0
start_offset (some size) = if ltb 8000 size then size - 8000 else size

-- What is printed of a chunk
unfoldable pub shown : Str → Str
shown chunk = if has_suffix chunk (10 ∷ []) then chunk else chunk ++ (10 ∷ [])

-- The chunks that the rounds show, one text for each that shows something.
unfoldable pub follow : ℕ → List Read → List Str
follow offset [] = []
follow offset (not_exist ∷ rounds) = follow offset rounds
follow offset (read_error ∷ rounds) = follow offset rounds
follow offset (content text ∷ rounds) =
    let same = follow offset rounds in
    let rest = follow (length text) rounds in
    if ltb offset (length text) then shown (drop offset text) ∷ rest else same

abbrev pub concat : List Str → Str
concat [] = []
concat (s ∷ ss) = s ++ concat ss

abbrev pub read_all : List Str → List Read
read_all [] = []
read_all (text ∷ texts) = content text ∷ read_all texts

-- After a rotation nothing is shown of the new log until it is longer than the old one was.
pub follow-rotated :
    (offset : ℕ) (texts : List Str)
    → All (λ t. length t ≤ offset) texts
    → follow offset (read_all texts) ≡ []
unfolding follow
follow-rotated offset [] h = refl
follow-rotated offset (text ∷ texts) (h, hs) = ground (arith, follow-rotated offset texts hs)

-- What is shown of the log that is there at the start: its last 8000 bytes if it has more of them, with
-- a newline at the end, and nothing of a shorter one.
pub follow-start_offset :
    (text : Str)
    → concat (follow (start_offset (some (length text))) (content text ∷ []))
      ≡ (if ltb 8000 (length text) then shown (drop (length text - 8000) text) else [])
unfolding follow start_offset
follow-start_offset text = ground (arith, append-nil (shown (drop (length text - 8000) text)))
