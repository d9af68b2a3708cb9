-- ===== src/State/Exclusion.antt =====
-- The lock file of `WithLock` in internal/state/state.go as several processes meet it: the steps that
-- one process takes on it between those of the others, and whether two can hold it at once.
use dockup.Base.{ℕ, ◌≡◌, ◌≢◌, refl, Bool, true, false, arith, ◌==◌, if◌then◌else◌}

-- A process waits, waits and has found the lock older than 30 s, or is past the loop.
pub data Phase : Type 0 where
  waiting saw_stale inside : Phase

-- `old` is meant of the file where there is one.
pub record Processes : Type 0 where
  pub file : Bool
  pub old : Bool
  pub phase : ℕ → Phase

abbrev pub moved : ℕ → Phase → (ℕ → Phase) → ℕ → Phase
moved p new phase q = if q == p then new else phase q

-- What a process does to the lock file in one call; `age` is 30 s passing, where `slow` allows it.
pub data Step (slow : Bool) : Processes → Processes → Type 0 where
  create :
      (s : Processes) (p : ℕ)
      → s.file ≡ false
      → s.phase p ≡ waiting
      → Step slow s (record { file = true; old = false; phase = moved p inside s.phase })
  look :
      (s : Processes) (p : ℕ)
      → s.file ≡ true
      → s.old ≡ true
      → s.phase p ≡ waiting
      → Step slow s (record s { phase = moved p saw_stale s.phase })
  expire :
      (s : Processes) (p : ℕ)
      → s.phase p ≡ saw_stale
      → Step slow s (record { file = false; old = false; phase = moved p waiting s.phase })
  release :
      (s : Processes) (p : ℕ)
      → s.phase p ≡ inside
      → Step slow s (record { file = false; old = false; phase = moved p waiting s.phase })
  age : (s : Processes) → slow ≡ true → Step slow s (record s { old = true })

pub data Reach (slow : Bool) (s : Processes) : Processes → Type 0 where
  here : Reach slow s s
  next : {t u : Processes} → Reach slow s t → Step slow t u → Reach slow s u

abbrev pub unlocked : Processes
unlocked = record { file = false; old = false; phase = λ p. waiting }

-- One process at most is inside, and where one is, the file is there and it is not old.
record Excludes (s : Processes) : Type 0 where
  young : s.old ≡ false
  calm : (p : ℕ) → s.phase p ≢ saw_stale
  held : (p : ℕ) → s.phase p ≡ inside → s.file ≡ true
  one : (p q : ℕ) → s.phase p ≡ inside → s.phase q ≡ inside → p ≡ q

Step-Excludes : {s t : Processes} → Step false s t → Excludes s → Excludes t
Step-Excludes (create s p free w) h = record {
  young = refl;
  calm = λ q. ground (arith, h.calm q);
  held = λ q r. refl;
  one = λ q r hq hr. ground (arith, h.held q, h.held r);
}
Step-Excludes (look s p f o w) h = absurd (ground (arith, h.young))
Step-Excludes (expire s p w) h = absurd (h.calm p w)
Step-Excludes (release s p w) h = record {
  young = refl;
  calm = λ q. ground (arith, h.calm q);
  held = λ q hq. absurd (ground (arith, h.one q p));
  one = λ q r hq hr. ground (arith, h.one q r);
}
Step-Excludes (age s slow) h = cc

Reach-Excludes : {s t : Processes} → Excludes s → Reach false s t → Excludes t
Reach-Excludes h here = h
Reach-Excludes h (next r step) = Step-Excludes step (Reach-Excludes h r)

-- From an unlocked start, where no process keeps the lock for more than 30 s, no two processes are past
-- the loop of `WithLock` at once.
pub exclusive :
    (t : Processes) (p q : ℕ)
    → Reach false unlocked t
    → t.phase p ≡ inside
    → t.phase q ≡ inside
    → p ≡ q
exclusive t p q r =
    (Reach-Excludes
        (record {
          young = refl;
          calm = λ p. cc;
          held = λ p h. absurd cc;
          one = λ p q hp hq. absurd cc;
        })
        r).one
      p q

-- Two waiting processes that both find an old lock may both get past the loop, though neither keeps a
-- lock for long: the later removal takes away the new lock of the other.
pub takeover :
    (s : Processes) (p q : ℕ)
    → s.file ≡ true
    → s.old ≡ true
    → s.phase p ≡ waiting
    → s.phase q ≡ waiting
    → (p == q) ≡ false
    → (t : Processes) × Reach false s t × (t.phase p ≡ inside) × (t.phase q ≡ inside)
takeover s p q file old wp wq ne =
    let s1 : Processes = record s { phase = moved p saw_stale s.phase } in
    let s2 : Processes = record s1 { phase = moved q saw_stale s1.phase } in
    let s3 : Processes = record { file = false; old = false; phase = moved p waiting s2.phase } in
    let s4 : Processes = record { file = true; old = false; phase = moved p inside s3.phase } in
    let s5 : Processes = record { file = false; old = false; phase = moved q waiting s4.phase } in
    let s6 : Processes = record { file = true; old = false; phase = moved q inside s5.phase } in
    let r1 : Reach false s s1 = next here (look s p file old wp) in
    let r2 : Reach false s s2 = next r1 (look s1 q file old (ground (arith, wq, ne))) in
    let r3 : Reach false s s3 = next r2 (expire s2 p (ground (arith, ne))) in
    let r4 : Reach false s s4 = next r3 (create s3 p refl (ground arith)) in
    let r5 : Reach false s s5 = next r4 (expire s4 q (ground (arith, ne))) in
    let r6 : Reach false s s6 = next r5 (create s5 q refl (ground arith)) in
    (s6, r6, ground (arith, ne), ground arith)
