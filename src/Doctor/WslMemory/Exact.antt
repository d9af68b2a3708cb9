-- ===== src/Doctor/WslMemory/Exact.antt =====
-- That a limit which `ParseWslMemory` of internal/doctor/doctor.go finds is the one that is written.
use dockup.Base.{
  ℕ, ◌*◌, ◌^◌, ◌≤◌, ◌≡◌, sym, ◌⊎◌, inl, inr, refl, Bool-cases, subst, Bool, true, false, Option,
  none, some, List, [], ◌∷◌, Str, codes, arith, split, trim_space, equal_fold, cut, parse_uint,
  max_uint64, to_lower,
}
use dockup.Doctor.WslMemory.{
  before_comment, is_header, inner, digits_head, digits_tail, unit, scaled, size_of, value_of,
  setting, first_some, memory_loop, parse_wsl_memory,
}

-- The line sets `memory` to a number with a unit, of which `n` is the product.
pub record Spells (raw : Str) (n : ℕ) : Type 0 where
  pub key : Str
  pub val : Str
  pub num : ℕ
  pub k : ℕ
  pub setting_is : cut b'=' (before_comment (trim_space raw)) ≡ some (key, val)
  pub named : equal_fold (trim_space key) (codes "memory") ≡ true
  pub number_is : parse_uint (digits_head (trim_space val)) ≡ some num
  pub unit_is : unit (to_lower (trim_space (digits_tail (trim_space val)))) ≡ some k
  pub exact : n ≡ num * 2 ^ k

-- One of the lines does.
abbrev pub Spelled : List Str → ℕ → Type 0
Spelled [] n = ⊥
Spelled (raw ∷ lines) n = Spells raw n ⊎ Spelled lines n

unit-cases : (u : Str) {k : ℕ} → unit u ≡ some k → (k ≡ 10) ⊎ (k ≡ 20) ⊎ (k ≡ 30) ⊎ (k ≡ 40)
unfolding unit
unit-cases u h = ground arith

Fits : ℕ → ℕ → ℕ → Type 0
Fits num n k = scaled num k ≡ some n → (n ≡ num * 2 ^ k) × (n ≤ max_uint64)

scaled-Fits : (num k n : ℕ) → (k ≡ 10) ⊎ (k ≡ 20) ⊎ (k ≡ 30) ⊎ (k ≡ 40) → Fits num n k
unfolding scaled Fits
scaled-Fits num k n (inl e) = subst (Fits num n) (sym e) (λ h. ground arith)
scaled-Fits num k n (inr (inl e)) = subst (Fits num n) (sym e) (λ h. ground arith)
scaled-Fits num k n (inr (inr (inl e))) = subst (Fits num n) (sym e) (λ h. ground arith)
scaled-Fits num k n (inr (inr (inr e))) = subst (Fits num n) (sym e) (λ h. ground arith)

-- What `size_of` gives is the product of its two numbers.
record Product (o u : Option ℕ) (n : ℕ) : Type 0 where
  num : ℕ
  k : ℕ
  number_is : o ≡ some num
  unit_is : u ≡ some k
  exact : n ≡ num * 2 ^ k
  fits : n ≤ max_uint64

size_of-Product :
    (o u : Option ℕ)
    → ((k : ℕ) → u ≡ some k → (k ≡ 10) ⊎ (k ≡ 20) ⊎ (k ≡ 30) ⊎ (k ≡ 40))
    → (n : ℕ) → size_of o u ≡ some n
    → Product o u n
unfolding size_of Fits
size_of-Product none u units n h = absurd cc
size_of-Product (some num) none units n h = absurd cc
size_of-Product (some num) (some k) units n h =
    let fits = scaled-Fits num k n (units k refl) h in
    record { num = num; k = k; number_is = refl; unit_is = refl; exact = fits.0; fits = fits.1 }

value_of-Product :
    (val : Str) (n : ℕ)
    → value_of val ≡ some n
    → Product (parse_uint (digits_head val)) (unit (to_lower (trim_space (digits_tail val)))) n
unfolding value_of
value_of-Product val n h =
    size_of-Product _ _ (λ k. unit-cases (to_lower (trim_space (digits_tail val)))) n h

setting-Spells :
    (raw : Str) (o : Option (Str × Str)) (n : ℕ)
    → cut b'=' (before_comment (trim_space raw)) ≡ o
    → setting o ≡ some n
    → Spells raw n × (n ≤ max_uint64)
unfolding setting
setting-Spells raw none n at h = absurd cc
setting-Spells raw (some (key, val)) n at h =
    let p = value_of-Product (trim_space val) n (ground arith) in
    (
      record {
        key = key;
        val = val;
        num = p.num;
        k = p.k;
        setting_is = at;
        named = ground arith;
        number_is = p.number_is;
        unit_is = p.unit_is;
        exact = p.exact;
      },
      p.fits,
    )

first_some-cases :
    (o rest : Option ℕ) (n : ℕ) → first_some o rest ≡ some n → (o ≡ some n) ⊎ (rest ≡ some n)
unfolding first_some
first_some-cases none rest n h = inr h
first_some-cases (some m) rest n h = inl h

later :
    (raw : Str) (lines : List Str) (n : ℕ)
    → Spelled lines n × (n ≤ max_uint64)
    → Spelled (raw ∷ lines) n × (n ≤ max_uint64)
later raw lines n (s, fits) = (inr s, fits)

memory_loop-Spelled :
    (in_wsl2 : Bool) (lines : List Str) (n : ℕ)
    → memory_loop in_wsl2 lines ≡ some n
    → Spelled lines n × (n ≤ max_uint64)
unfolding memory_loop
memory_loop-Spelled in_wsl2 [] n h = absurd cc
memory_loop-Spelled in_wsl2 (raw ∷ lines) n h =
    let line = before_comment (trim_space raw) in
    let enters = equal_fold (trim_space (inner line)) (codes "wsl2") in
    elim (Bool-cases (is_header line)) [
      | inl header ↦ later raw lines n (memory_loop-Spelled enters lines n (ground arith))
      | inr plain ↦ elim (Bool-cases in_wsl2) [
        | inl inside ↦
            elim (first_some-cases (setting (cut b'=' line)) (memory_loop in_wsl2 lines) n
              (ground arith)) [
                | inl here ↦
                    let s = setting-Spells raw (cut b'=' line) n refl here in (inl s.0, s.1)
                | inr rest ↦ later raw lines n (memory_loop-Spelled in_wsl2 lines n rest)
              ]
        | inr outside ↦ later raw lines n (memory_loop-Spelled in_wsl2 lines n (ground arith))
      ]
    ]

-- A limit that is found is the exact product of a number and a unit (KB, MB, GB or TB) that one line of
-- the text gives to memory, and it fits uint64: the product of what is written has not wrapped around.
pub parse_wsl_memory-Spelled :
    (text : Str) (n : ℕ)
    → parse_wsl_memory text ≡ some n
    → Spelled (split b'\n' text) n × (n ≤ max_uint64)
unfolding parse_wsl_memory
parse_wsl_memory-Spelled text = memory_loop-Spelled false (split b'\n' text)
