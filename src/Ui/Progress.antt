-- ===== src/Ui/Progress.antt =====
-- The loop of `Fetch` in internal/download/download.go with its reports, the callbacks that
-- internal/setup/setup.go and cmd/dockup/main.go give it, and the bar of internal/ui/progress.go that
-- these move.
use dockup.Base.{
  ℕ, ◌≡◌, refl, Bool, true, false, not, ◌&&◌, List, [], ◌∷◌, ◌++◌, Str, codes, str_eq, arith,
  length, append_assoc, ◌∙◌, Bool-cases, inl, inr, if◌then◌else◌,
}
use dockup.Base.Int.{ℤ, pos, sub_ℕ, ◌+ℤ◌, sub_add_ℤ}
use dockup.Io.{ok, err, is_ok, Done}

-- One pass of the loop: the bytes that are read, whether they could be written and what of them a
-- failing write has left in the file, and whether a report is due by the ticker or by the 2 s since the
-- last one.
pub record Pass : Type 0 where
  pub bytes : Str
  pub wrote : Bool
  pub partial : Str
  pub due : Bool

-- The passes up to io.EOF, or up to another error of the read.
pub data Body : Type 0 where
  more : Pass → Body → Body
  eof broken : Pass → Body

-- What is in the file, the reports in their order, and how the loop ends.
pub record Transfer : Type 0 where
  pub file : Str
  pub reports : List ℕ
  pub outcome : Done

abbrev report_if : Bool → ℕ → List ℕ → List ℕ
report_if due n rest = if due then n ∷ rest else rest

abbrev reported : Bool → ℕ → Transfer → Transfer
reported due n t = record t { reports = report_if due n t.reports }

-- Nothing is written where nothing was read.
unfoldable pub unwritten : Pass → Bool
unwritten p = not p.wrote && not (str_eq p.bytes [])

-- The loop, with the bytes written so far.
unfoldable pub stream : Body → Str → Transfer
stream (more p b) file =
    let rest = stream b (file ++ p.bytes) in
    if unwritten p
    then record { file = file ++ p.partial; reports = []; outcome = err (codes "write") }
    else reported p.due (length (file ++ p.bytes)) rest
stream (eof p) file =
    if unwritten p
    then record { file = file ++ p.partial; reports = []; outcome = err (codes "write") }
    else reported p.due (length (file ++ p.bytes)) (record {
      file = file ++ p.bytes;
      reports = length (file ++ p.bytes) ∷ [];
      outcome = ok tt;
    })
stream (broken p) file =
    if unwritten p
    then record { file = file ++ p.partial; reports = []; outcome = err (codes "write") }
    else reported p.due (length (file ++ p.bytes))
        (record { file = file ++ p.bytes; reports = []; outcome = err (codes "download body") })

-- `Progress`: `given` is the sum of what the bar's `Add64` has been called with; what it shows is the
-- library's. A disabled one has no bar.
pub record Progress : Type 0 where
  pub enabled : Bool
  pub given : ℤ

-- `NewProgress`, `on` being `Enabled()`
abbrev pub new_progress : Bool → Progress
new_progress on = record { enabled = on; given = pos 0 }

-- `Add`
unfoldable pub add_bytes : ℤ → Progress → Progress
add_bytes n p = if p.enabled then record p { given = p.given +ℤ n } else p

-- The callback: `pb.Add(done - last); last = done`
unfoldable pub on_progress : ℕ → ℕ × Progress → ℕ × Progress
on_progress now (last, p) = (now, add_bytes (sub_ℕ now last) p)

unfoldable pub on_reports : List ℕ → ℕ × Progress → ℕ × Progress
on_reports [] state = state
on_reports (now ∷ rest) state = on_reports rest (on_progress now state)

-- The whole body.
unfoldable pub bytes_of : Body → Str
bytes_of (more p b) = p.bytes ++ bytes_of b
bytes_of (eof p) = p.bytes
bytes_of (broken p) = p.bytes

-- The last of some reports, or what came before them.
unfoldable pub final : ℕ → List ℕ → ℕ
final last [] = last
final last (now ∷ rest) = final now rest

abbrev at : ℕ → Progress
at n = record { enabled = true; given = pos n }

on_reports-final :
    (reports : List ℕ) (last : ℕ)
    → on_reports reports (last, at last) ≡ (final last reports, at (final last reports))
unfolding on_reports on_progress add_bytes final
on_reports-final [] last = refl
on_reports-final (now ∷ rest) last = rw (sub_add_ℤ now last) (on_reports-final rest now)

due-final :
    (due : Bool) (n last : ℕ) (rest : List ℕ) (size : ℕ)
    → ((before : ℕ) → final before rest ≡ size)
    → final last (report_if due n rest) ≡ size
unfolding final
due-final true n last rest size h = h n
due-final false n last rest size h = h last

-- The last report, whatever came before them all, is of what is in the file.
Reported : Transfer → Type 0
Reported t = (last : ℕ) → final last t.reports ≡ length t.file

stream-Reported :
    (b : Body) (file : Str)
    → is_ok (stream b file).outcome ≡ true
    → Reported (stream b file) × ((stream b file).file ≡ file ++ bytes_of b)
unfolding stream bytes_of Reported final
stream-Reported (broken p) file h = absurd (ground arith)
stream-Reported (eof p) file h = (λ last. ground arith, ground arith)
stream-Reported (more p b) file h = elim (Bool-cases (unwritten p)) [
  | inl e ↦ absurd (ground (arith, e))
  | inr e ↦ rw e (
      let ih : Reported (stream b (file ++ p.bytes))
          × ((stream b (file ++ p.bytes)).file ≡ (file ++ p.bytes) ++ bytes_of b) =
        stream-Reported b (file ++ p.bytes) (ground (arith, e)) in
      (λ last. due-final p.due _ last _ _ ih.0, ih.1 ∙ append_assoc file p.bytes (bytes_of b)))
]

-- Where the loop of Fetch ends without an error, the file holds the whole body, and the numbers that the
-- callback of setup or upgrade has given to the bar add up to exactly its length, whatever reports
-- were due.
pub stream-position :
    (b : Body)
    → is_ok (stream b []).outcome ≡ true
    → ((stream b []).file ≡ bytes_of b)
      × ((on_reports (stream b []).reports (0, new_progress true)).1.given
          ≡ pos (length (bytes_of b)))
unfolding Reported
stream-position b h =
    let done = stream-Reported b [] h in
    (done.1, rw (on_reports-final (stream b []).reports 0, done.0 0, done.1) refl)
