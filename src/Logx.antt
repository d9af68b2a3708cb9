-- ===== src/Logx.antt =====
-- `Append` and `rotate` of internal/logx/logx.go; the other functions print.
use dockup.Base.{
  ℕ, ◌≡◌, refl, true, false, ◌&&◌, ◌==◌, Option, none, [], ◌∷◌, ◌++◌, Str, arith, ltb, str_eq,
  str_eq_refl, str_eq_iff, ap, str_eq_comm, str_eq-append, str_eq-append_self, if◌then◌else◌,
}
use dockup.Env.{Call, Env, mkdir, stat, rename, remove}
use dockup.Io.{World, M, pure, ◌>>=◌, ◌>>◌, ask, run, remove_path, rename_path, append_path}
use dockup.Config.{log_file, max_log_bytes}

abbrev pub numbered : Str → ℕ → Str
numbered path c = path ++ (b'.' ∷ c ∷ [])

module _ (e : Env) where
  unfoldable pub rotate : Str → M Unit
  rotate path = do
    a ← remove_path e (numbered path b'3')
    b ← rename_path e (numbered path b'2') (numbered path b'3')
    c ← rename_path e (numbered path b'1') (numbered path b'2')
    d ← rename_path e path (numbered path b'1')
    pure tt

  -- `Append`
  unfoldable pub append : Str → M Unit
  append msg = do
    run e (mkdir (e.dir (log_file e)))
    st ← ask e (stat (log_file e))
    (if st.ok && ltb max_log_bytes st.num then rotate (log_file e) else pure tt)
    append_path e (log_file e) (msg ++ (10 ∷ []))

-- Every call succeeds.
abbrev pub Works : Env → Type 0
Works e = (t : _) (c : Call) → (e.reply t c).ok ≡ true

same_name : (fs : Str → Option Str) (p q : Str) → str_eq p q ≡ true → fs p ≡ fs q
same_name fs p q h = ap fs ((str_eq_iff p q).0 h)

module _ (e : Env) (works : Works e) where
  -- A rename onto a name that is free, as every name sees it; it may have had nothing to rename.
  rename-free :
      (p q : Str) (w : World)
      → str_eq p q ≡ false
      → w.files q ≡ none
      → (r : Str)
      → (rename_path e p q w).1.files r
        ≡ (if str_eq r p then none else if str_eq r q then w.files p else w.files r)
  unfolding rename_path ask
  rename-free p q w ne free r =
      ground (arith, free, works w.trace (rename p q), same_name w.files r p, same_name w.files r q)

  removed-free :
      (p : Str) (w : World) (r : Str)
      → (remove_path e p w).1.files r ≡ (if str_eq r p then none else w.files r)
  unfolding remove_path ask
  removed-free p w r = ground (arith, works w.trace (remove p), same_name w.files r p)

  -- The names of the log and of its predecessors differ.
  numbered_ne :
      (path : Str) (c d : ℕ) → (c == d) ≡ false → str_eq (numbered path c) (numbered path d) ≡ false
  unfolding str_eq
  numbered_ne path c d h = ground (arith, h, str_eq-append path (b'.' ∷ c ∷ []) (b'.' ∷ d ∷ []))

  path_ne : (path : Str) (c : ℕ) → str_eq path (numbered path c) ≡ false
  path_ne path c =
      ground (arith, str_eq-append_self path b'.' (c ∷ []), str_eq_comm path (numbered path c))

  -- A rotation keeps the log and the two logs before it, each under the next number, and leaves the
  -- name of the log free: only the oldest of the four is lost. It is assumed that every call succeeds.
  pub rotate-shifts :
      (path : Str) (w : World)
      → ((rotate e path w).1.files path ≡ none)
        × ((rotate e path w).1.files (numbered path b'1') ≡ w.files path)
        × ((rotate e path w).1.files (numbered path b'2') ≡ w.files (numbered path b'1'))
        × ((rotate e path w).1.files (numbered path b'3') ≡ w.files (numbered path b'2'))
  unfolding rotate pure ◌>>=◌
  rotate-shifts path w =
      let p1 = numbered path b'1' in
      let p2 = numbered path b'2' in
      let p3 = numbered path b'3' in
      let w1 = (remove_path e p3 w).1 in
      let w2 = (rename_path e p2 p3 w1).1 in
      let w3 = (rename_path e p1 p2 w2).1 in
      let f1 = removed-free p3 w in
      let free3 : w1.files p3 ≡ none = ground (arith, f1 p3, str_eq_refl p3) in
      let f2 = rename-free p2 p3 w1 (numbered_ne path b'2' b'3' refl) free3 in
      let free2 : w2.files p2 ≡ none = ground (arith, f2 p2, str_eq_refl p2) in
      let f3 = rename-free p1 p2 w2 (numbered_ne path b'1' b'2' refl) free2 in
      let free1 : w3.files p1 ≡ none = ground (arith, f3 p1, str_eq_refl p1) in
      let f4 = rename-free path p1 w3 (path_ne path b'1') free1 in
      let n01 = path_ne path b'1' in
      let n02 = path_ne path b'2' in
      let n03 = path_ne path b'3' in
      let n10 : str_eq p1 path ≡ false = ground (arith, n01, str_eq_comm p1 path) in
      let n20 : str_eq p2 path ≡ false = ground (arith, n02, str_eq_comm p2 path) in
      let n30 : str_eq p3 path ≡ false = ground (arith, n03, str_eq_comm p3 path) in
      let n12 = numbered_ne path b'1' b'2' refl in
      let n13 = numbered_ne path b'1' b'3' refl in
      let n23 = numbered_ne path b'2' b'3' refl in
      let n21 = numbered_ne path b'2' b'1' refl in
      let n31 = numbered_ne path b'3' b'1' refl in
      let n32 = numbered_ne path b'3' b'2' refl in
      (
        ground (arith, f4 path, str_eq_refl path),
        ground (arith, f4 p1, n10, str_eq_refl p1, f3 path, n01, n02, f2 path, n03, f1 path),
        ground (arith, f4 p2, n20, n21, f3 p2, str_eq_refl p2, f2 p1, n12, n13, f1 p1),
        ground (arith, f4 p3, n30, n31, f3 p3, n32, f2 p3, str_eq_refl p3, f1 p2, n23),
      )
