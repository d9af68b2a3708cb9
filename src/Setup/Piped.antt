-- ===== src/Setup/Piped.antt =====
-- The prompts of internal/setup/setup.go and internal/ui/ui.go on a standard input that is not a
-- terminal. Each of them makes a `bufio.Reader` of its own on os.Stdin and reads one line with it:
-- what the reader has read beyond the line is lost with it.
use dockup.Base.{
  ℕ, zero, suc, ◌≡◌, refl, Bool, true, not, ◌&&◌, Option, none, some, List, [], ◌∷◌, ◌++◌, Str,
  arith, str_eq, trim_space, ◌==◌, if◌then◌else◌,
}
use dockup.Records.{Config}
use dockup.Env.{Call, Env, read_line}
use dockup.Io.{World, ask, pure, ◌>>=◌}
use dockup.Userconfig.Paths.{resolve_install_dir}
use dockup.Setup.Install.{ask_install_path, or_default_path}

-- The line at the head of a text, with its newline.
unfoldable pub line_of : Str → Option Str
line_of [] = none
line_of (c ∷ s) =
    let rest = line_of s in
    if c == 10 then some (c ∷ []) else elim rest [ none ↦ none | some line ↦ some (c ∷ line) ]

-- `bufio.NewReader(os.Stdin).ReadString('\n')` on what the reads of os.Stdin give before io.EOF: the
-- line, or all that is left, and the reads that are left.
unfoldable pub prompt_line : List Str → Str × List Str
prompt_line [] = ([], [])
prompt_line (chunk ∷ more) =
    let rest = prompt_line more in
    elim (line_of chunk) [ some line ↦ (line, more) | none ↦ (chunk ++ rest.0, rest.1) ]

-- What is left for the prompt behind some number of others.
unfoldable pub behind : ℕ → List Str → List Str
behind zero chunks = chunks
behind (suc n) chunks = behind n (prompt_line chunks).1

-- How many prompts have been answered.
unfoldable pub answered : List Call → ℕ
answered [] = 0
answered (read_line ∷ t) = suc (answered t)
answered (_ ∷ t) = answered t

-- The prompts read these chunks.
unfoldable pub FromPipe : Env → List Str → Type 0
FromPipe e chunks =
    (t : List Call) → (e.reply t read_line).out ≡ (prompt_line (behind (answered t) chunks)).0

unfoldable pub no_newline : Str → Bool
no_newline [] = true
no_newline (c ∷ s) = not (c == 10) && no_newline s

line_of-newline :
    (first rest : Str)
    → no_newline first ≡ true
    → line_of (first ++ (10 ∷ rest)) ≡ some (first ++ (10 ∷ []))
unfolding line_of no_newline
line_of-newline [] rest h = refl
line_of-newline (c ∷ s) rest h = ground (arith, line_of-newline s rest)

behind-nil : (n : ℕ) → behind n [] ≡ []
unfolding behind prompt_line
behind-nil zero = refl
behind-nil (suc n) = behind-nil n

end_of_input : (prompt_line []).0 ≡ []
unfolding prompt_line
end_of_input = refl

prompt_line-newline :
    (first rest : Str)
    → no_newline first ≡ true
    → prompt_line ((first ++ (10 ∷ rest)) ∷ []) ≡ (first ++ (10 ∷ []), [])
unfolding prompt_line
prompt_line-newline first rest h = ground (arith, line_of-newline first rest h)

nothing_left :
    (first rest : Str) (n : ℕ)
    → no_newline first ≡ true
    → (prompt_line (behind (suc n) ((first ++ (10 ∷ rest)) ∷ []))).0 ≡ []
unfolding behind
nothing_left first rest n h = rw (prompt_line-newline first rest h, behind-nil n) end_of_input

-- Where a line and what follows it come in one read of the standard input, as from a pipe, the prompt
-- for the install path, which stands behind the confirmation, gets none of it: whatever path follows
-- the confirmation, the default is chosen.
pub ask_install_path-piped :
    (e : Env) (first rest : Str) (cfg : Config) (w : World) (n : ℕ)
    → no_newline first ≡ true
    → FromPipe e ((first ++ (10 ∷ rest)) ∷ [])
    → answered w.trace ≡ suc n
    → (ask_install_path e cfg [] w).0 ≡ some (or_default_path e cfg (resolve_install_dir e [] cfg))
unfolding ask_install_path ask pure ◌>>=◌ FromPipe trim_space str_eq
ask_install_path-piped e first rest cfg w n bare pipe asked =
    rw (pipe w.trace, asked, nothing_left first rest n bare) refl
