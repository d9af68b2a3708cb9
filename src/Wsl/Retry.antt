-- ===== src/Wsl/Retry.antt =====
-- `RunRetry`, `Import` and `Tail` of internal/wsl/wsl.go.
use Prim.Native.Nat.{min}
use dockup.Base.{
  ℕ, zero, suc, ◌+◌, ◌-◌, ◌*◌, ◌≤◌, ◌≡◌, ◌⊎◌, ap, inl, inr, Bool-cases, Bool, true, false, not,
  Option, List, [], ◌∷◌, ◌++◌, Str, codes, arith, length, length-drop, take-append-drop, take, drop,
  leb, ltb, if◌then◌else◌,
}
use dockup.Env.{Call, Env, wsl_script, wsl_exec, wsl_import, stat, sleep}
use dockup.Io.{World, M, pure, ◌>>=◌, ◌>>◌, err, is_ok, Done, ask, run, attempt}
use dockup.Io.Keeps.{Keeps, SameFiles, same_files_rules, Only, only_rules}

-- `Tail`
unfoldable pub tail : Str → ℕ → Str
tail b n = if leb (length b) n then b else drop (length b - n) b

tail_all : (b : Str) (n : ℕ) → length b ≤ n → take (length b - n) b ++ b ≡ b
tail_all b n h = let none_left : length b - n ≡ 0 = omega arith in ap (λ k. take k b ++ b) none_left

-- The tail has exactly min(n, length) bytes and is the end of the text.
pub length-tail :
    (b : Str) (n : ℕ)
    → (length (tail b n) ≡ min (length b) n) × (take (length b - n) b ++ tail b n ≡ b)
unfolding tail
length-tail b n = (
  ground (arith, length-drop (length b - n) b),
  elim (Bool-cases (leb (length b) n)) [
    | inl short ↦ rw short (tail_all b n (ground arith))
    | inr long ↦ rw long (take-append-drop (length b - n) b)
  ],
)

module _ (e : Env) where
  -- `ExecScript` and `Exec`, as far as their errors are looked at.
  unfoldable pub exec_script : Str → M Done
  exec_script script = attempt e (wsl_script script) (codes "wsl script")

  unfoldable pub exec : Str → M Done
  exec command = attempt e (wsl_exec command) (codes "wsl")

  unfoldable pub retry_round : ℕ → Str → M Done → M Done
  retry_round i script again = do
    r ← exec_script script
    if is_ok r then pure r else do run e (sleep (i * 5000)); again

  -- The loop of `RunRetry`, try number `i`, with `left` tries to go.
  unfoldable pub retry_from : ℕ → ℕ → Str → M Done
  retry_from zero i script = pure (err (codes "failed after all tries"))
  retry_from (suc left) i script = retry_round i script (retry_from left (i + 1) script)

  unfoldable pub run_retry : ℕ → Str → M Done
  run_retry tries script = retry_from tries 1 script

  -- `Import`: a tar below 10 MB is refused before wsl.exe is called.
  unfoldable pub import_distro : Str → Str → M Done
  import_distro dir tar = do
    st ← ask e (stat tar)
    if not st.ok
        then pure (err (codes "tar not accessible"))
        else if ltb st.num 10485760
        then pure (err (codes "tar suspiciously small"))
        else attempt e (wsl_import dir tar) (codes "wsl --import")

-- How often a script was run in a trace, and how the last runs of it ended is read off the replies.
unfoldable pub script_runs : List Call → ℕ
script_runs [] = 0
script_runs (wsl_script s ∷ t) = suc (script_runs t)
script_runs (_ ∷ t) = script_runs t

module _ (e : Env) where
  retry_from-runs :
      (left i : ℕ) (script : Str) (w : World)
      → script_runs (retry_from e left i script w).1.trace ≤ script_runs w.trace + left
  unfolding retry_from retry_round exec_script attempt run ask pure script_runs ◌>>=◌
  retry_from-runs zero i script w = omega arith
  retry_from-runs (suc left) i script w = ground (
    arith,
    retry_from-runs left (i + 1) script
        (record w { trace = sleep (i * 5000) ∷ wsl_script script ∷ w.trace }),
  )

  retry_from-fails :
      (left i : ℕ) (script : Str) (w : World)
      → is_ok (retry_from e left i script w).0 ≡ false
      → script_runs (retry_from e left i script w).1.trace ≡ script_runs w.trace + left
  unfolding retry_from retry_round exec_script attempt run ask pure script_runs ◌>>=◌
  retry_from-fails zero i script w h = omega arith
  retry_from-fails (suc left) i script w h = ground (
    arith,
    retry_from-fails left (i + 1) script
        (record w { trace = sleep (i * 5000) ∷ wsl_script script ∷ w.trace }),
  )

  -- `RunRetry` runs the script at most `tries` times, and it either succeeds or runs it exactly
  -- `tries` times.
  pub run_retry-runs :
      (tries : ℕ) (script : Str) (w : World)
      → (script_runs (run_retry e tries script w).1.trace ≤ script_runs w.trace + tries)
        × ((is_ok (run_retry e tries script w).0 ≡ true)
            ⊎ (script_runs (run_retry e tries script w).1.trace ≡ script_runs w.trace + tries))
  unfolding run_retry
  run_retry-runs tries script w = (
    retry_from-runs tries 1 script w,
    elim (Bool-cases (is_ok (retry_from e tries 1 script w).0)) [
      | inl good ↦ inl good
      | inr bad ↦ inr (retry_from-fails tries 1 script w bad)
    ],
  )

module _ (e : Env) (fs : Str → Option Str) where
  pub exec_script-SameFiles : (script : Str) → Keeps (SameFiles fs) (exec_script e script)
  unfolding exec_script
  exec_script-SameFiles script = search same_files_rules

  pub exec-SameFiles : (command : Str) → Keeps (SameFiles fs) (exec e command)
  unfolding exec
  exec-SameFiles command = search same_files_rules

module _ (e : Env) (allowed : Call → Bool) where
  pub exec_script-Only :
      (script : Str)
      → allowed (wsl_script script) ≡ true
      → Keeps (Only allowed) (exec_script e script)
  unfolding exec_script
  exec_script-Only script a = search only_rules

  pub exec-Only :
      (command : Str) → allowed (wsl_exec command) ≡ true → Keeps (Only allowed) (exec e command)
  unfolding exec
  exec-Only command a = search only_rules

  module _ (script : Str) (a : allowed (wsl_script script) ≡ true)
      (b : (ms : ℕ) → allowed (sleep ms) ≡ true) where
    retry_round-Only :
        (i : ℕ) (again : M Done)
        → Keeps (Only allowed) again
        → Keeps (Only allowed) (retry_round e i script again)
    unfolding retry_round
    retry_round-Only i again h = search (only_rules, exec_script-Only) depth 8

    retry_from-Only : (left i : ℕ) → Keeps (Only allowed) (retry_from e left i script)
    unfolding retry_from
    retry_from-Only zero i = search only_rules
    retry_from-Only (suc left) i =
        retry_round-Only i (retry_from e left (i + 1) script) (retry_from-Only left (i + 1))

    pub run_retry-Only : (tries : ℕ) → Keeps (Only allowed) (run_retry e tries script)
    unfolding run_retry
    run_retry-Only tries = retry_from-Only tries 1
