-- ===== src/Image/Triple.antt =====
-- What a program ensures where it reports no error, and which files it leaves alone.
use dockup.Base.{
  ◌≡◌, ◌∙◌, refl, Bool, true, false, some, Str, codes, ◌++◌, arith, str_eq, str_eq_refl,
  str_eq_comm, if◌then◌else◌,
}
use dockup.Env.{Call, Env}
use dockup.Io.{
  World, M, pure, ◌>>=◌, ◌>>?◌, next_of, Result, ok, err, is_ok, ask, read_path, write_path,
  remove_path, rename_path,
}
use dockup.Records.{Meta}
use dockup.Download.{fetch}
use dockup.Image.Cache.{install_file, write_meta}

pub record Ensures {A : Type 0} (P : World → Type 0) (m : M (Result A)) (Q : A → World → Type 0)
    : Type 0 where
  pub at : (w : World) → P w → (a : A) → (m w).0 ≡ ok a → Q a (m w).1

module _ {A B : Type 0} {Q : A → World → Type 0} {R : B → World → Type 0} where
  next-Ensures :
      (f : A → M (Result B))
      → ((a : A) → Ensures (Q a) (f a) R)
      → (r : Result A) (w : World) → ((a : A) → r ≡ ok a → Q a w)
      → (b : B) → (next_of f r w).0 ≡ ok b
      → R b (next_of f r w).1
  unfolding next_of pure
  next-Ensures f hf (ok a) w q b h = (hf a).at w (q a refl) b h
  next-Ensures f hf (err m) w q b h = cc

pub Ensures-then :
    {A B : Type 0} {P : World → Type 0} {Q : A → World → Type 0} {R : B → World → Type 0}
    (m : M (Result A)) (f : A → M (Result B))
    → Ensures P m Q
    → ((a : A) → Ensures (Q a) (f a) R)
    → Ensures P (m >>? f) R
unfolding ◌>>?◌ ◌>>=◌
Ensures-then m f hm hf = record { at = λ w p. next-Ensures f hf (m w).0 (m w).1 (hm.at w p) }

-- The file at `p` is left as it is.
pub record Untouched {A : Type 0} (p : Str) (m : M A) : Type 0 where
  pub at : (w : World) → (m w).1.files p ≡ w.files p

module _ (p : Str) where
  pub Untouched-pure : {A : Type 0} (a : A) → Untouched p (pure a)
  unfolding pure
  Untouched-pure a = record { at = λ w. refl }

  pub Untouched-bind :
      {A B : Type 0} (m : M A) (f : A → M B)
      → Untouched p m
      → ((a : A) → Untouched p (f a))
      → Untouched p (m >>= f)
  unfolding ◌>>=◌
  Untouched-bind m f hm hf = record { at = λ w. (hf (m w).0).at (m w).1 ∙ hm.at w }

  pub Untouched-if :
      {A : Type 0} (b : Bool) (m k : M A)
      → Untouched p m
      → Untouched p k
      → Untouched p (if b then m else k)
  Untouched-if true m k hm hk = hm
  Untouched-if false m k hm hk = hk

  pub ask-Untouched : (e : Env) (c : Call) → Untouched p (ask e c)
  unfolding ask
  ask-Untouched e c = record { at = λ w. refl }

  pub read_path-Untouched : (e : Env) (q : Str) → Untouched p (read_path e q)
  unfolding read_path
  read_path-Untouched e q = record { at = λ w. refl }

  pub write_path-Untouched :
      (e : Env) (q s : Str) → str_eq p q ≡ false → Untouched p (write_path e q s)
  unfolding write_path ask
  write_path-Untouched e q s ne = record { at = λ w. ground (arith, ne) }

  pub remove_path-Untouched :
      (e : Env) (q : Str) → str_eq p q ≡ false → Untouched p (remove_path e q)
  unfolding remove_path ask
  remove_path-Untouched e q ne = record { at = λ w. ground (arith, ne) }

  pub rename_path-Untouched :
      (e : Env) (q r : Str)
      → str_eq p q ≡ false
      → str_eq p r ≡ false
      → Untouched p (rename_path e q r)
  unfolding rename_path ask
  rename_path-Untouched e q r ne ne' = record { at = λ w. ground (arith, ne, ne') }

  pub fetch-Untouched : (e : Env) (url q : Str) → str_eq p q ≡ false → Untouched p (fetch e url q)
  unfolding fetch write_path ask pure ◌>>=◌
  fetch-Untouched e url q ne = record { at = λ w. ground (arith, ne) }

  pub install_file-Untouched :
      (e : Env) (q r : Str)
      → str_eq p q ≡ false
      → str_eq p r ≡ false
      → Untouched p (install_file e q r)
  unfolding install_file remove_path rename_path ask pure ◌>>=◌
  install_file-Untouched e q r ne ne' = record { at = λ w. ground (arith, ne, ne') }

  pub write_meta-Untouched :
      (e : Env) (q : Str) (m : Meta)
      → str_eq p q ≡ false
      → str_eq p (q ++ codes ".tmp") ≡ false
      → Untouched p (write_meta e q m)
  unfolding write_meta write_path remove_path rename_path ask pure ◌>>=◌
  write_meta-Untouched e q m ne ne' = record { at = λ w. ground (arith, ne, ne') }

-- Where a file is moved without an error, its content is at the new place.
pub install_file-moves :
    (e : Env) (src dst : Str) (w : World) {s : Str}
    → str_eq src dst ≡ false
    → w.files src ≡ some s
    → is_ok (install_file e src dst w).0 ≡ true
    → (install_file e src dst w).1.files dst ≡ some s
unfolding install_file remove_path rename_path ask pure ◌>>=◌
install_file-moves e src dst w ne there h =
    ground (arith, ne, there, h, str_eq_refl dst, str_eq_comm dst src)
