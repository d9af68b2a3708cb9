-- ===== src/Image/Trust.antt =====
-- What `EnsureWithKey` guarantees of the files where it reports no error.
use dockup.Base.{
  ◌≡◌, ◌∙◌, refl, sym, ap, subst, Bool, true, false, Option, some, Str, codes, arith, str_eq,
  if◌then◌else◌,
}
use dockup.Env.{Env}
use dockup.Io.{World, M, pure, ◌>>=◌, Result, ok, err, ask, read_path}
use dockup.Image.Verify.{Crypto, verify_signature, verify_checksum, Trusted}
use dockup.Image.Cache.{
  text_of, read_text, install_file, verify_signature_file, verify_checksum_file,
}
use dockup.Image.Triple.{
  Ensures, Ensures-then, Untouched, install_file-Untouched, install_file-moves,
}

-- A predicate on the files, of a world.
abbrev pub On : ((Str → Option Str) → Type 0) → World → Type 0
On P w = P w.files

pub read_text-ok :
    (e : Env) (p : Str) (w : World) (s : Str)
    → (read_text e p w).0 ≡ ok s
    → (w.files p ≡ some s) × ((read_text e p w).1.files ≡ w.files)
unfolding read_text text_of read_path ask pure ◌>>=◌
read_text-ok e p w s h = ground arith

pub read_text-Ensures :
    (P : (Str → Option Str) → Type 0) (e : Env) (p : Str)
    → Ensures (On P) (read_text e p) (λ s. On (λ fs. P fs × (fs p ≡ some s)))
read_text-Ensures P e p = record {
  at = λ w h s r.
      let (there, same) = read_text-ok e p w s r in
      (subst P (sym same) h, ap (λ fs. fs p) same ∙ there);
}

some_inj : (a b : Str) → some a ≡ some b → a ≡ b
some_inj a b h = cc

-- A test at the end of a chain: what it lets through passed it.
pub check-Ensures :
    (P : (Str → Option Str) → Type 0) (b : Bool) (message : Str)
    → Ensures (On P) (pure (if b then ok tt else err message)) (λ _. On (λ fs. P fs × (b ≡ true)))
unfolding pure
check-Ensures P true message = record { at = λ w h a r. (h, refl) }
check-Ensures P false message = record { at = λ w h a r. cc }

module _ (c : Crypto) (key : Str) where
  -- At `b` and `d` stand a checksum file and a signature over it.
  unfoldable pub Signed : Str → Str → (Str → Option Str) → Type 0
  Signed b d fs =
      (m s : Str) × (fs b ≡ some m) × (fs d ≡ some s) × (verify_signature c m s key ≡ true)

  -- At `a`, `b` and `d` stand a tar, its checksum file and a signature over that.
  unfoldable pub InPlace : Str → Str → Str → (Str → Option Str) → Type 0
  InPlace a b d fs =
      (t m s : Str) × (fs a ≡ some t) × (fs b ≡ some m) × (fs d ≡ some s) × Trusted c key t m s

  module _ (e : Env) where
    pub verify_signature_file-Ensures :
        (b d : Str)
        → Ensures (On (λ _. Unit)) (verify_signature_file e c key b d) (λ _. On (Signed b d))
    unfolding verify_signature_file Signed
    verify_signature_file-Ensures b d =
        Ensures-then (read_text e b) _ (read_text-Ensures (λ _. Unit) e b) λ m.
          Ensures-then (read_text e d) _ (read_text-Ensures (λ fs. Unit × (fs b ≡ some m)) e d) λ s.
            record {
              at = λ w h u r.
                  let (parts, good) =
                    (check-Ensures (λ fs. (Unit × (fs b ≡ some m)) × (fs d ≡ some s))
                        (verify_signature c m s key) (codes "signature")).at
                      w h u r in
                  (m, s, parts.0.1, parts.1, good);
            }

    pub verify_checksum_file-Ensures :
        (a b d : Str)
        → Ensures (On (Signed b d)) (verify_checksum_file e c key a b) (λ _. On (InPlace a b d))
    unfolding verify_checksum_file Signed InPlace
    verify_checksum_file-Ensures a b d =
        Ensures-then (read_text e b) _ (read_text-Ensures (Signed b d) e b) λ text.
          Ensures-then (read_text e a) _
            (read_text-Ensures (λ fs. Signed b d fs × (fs b ≡ some text)) e a)
            λ bytes. record {
              at = λ w h u r.
                  let (parts, good) =
                    (check-Ensures
                        (λ fs. (Signed b d fs × (fs b ≡ some text)) × (fs a ≡ some bytes))
                        (verify_checksum c bytes text) (codes "checksum mismatch")).at
                      w h u r in
                  let (m, s, at_b, at_d, signed) = parts.0.0 in
                  let same : m ≡ text = some_inj m text (sym at_b ∙ parts.0.1) in
                  (
                    bytes,
                    text,
                    s,
                    parts.1,
                    parts.0.1,
                    at_d,
                    record {
                      signed = subst (λ t. verify_signature c t s key ≡ true) same signed;
                      hashed = good;
                    },
                  );
            }

    -- What leaves the files at `b` and `d` alone keeps `Signed`.
    pub Signed-frame :
        {A : Type 0} (b d : Str) (m : M (Result A))
        → Untouched b m
        → Untouched d m
        → Ensures (On (Signed b d)) m (λ _. On (Signed b d))
    unfolding Signed
    Signed-frame b d m ub ud = record {
      at = λ w h a r. (h.0, h.1, ub.at w ∙ h.2, ud.at w ∙ h.3, h.4);
    }

    pub InPlace-frame :
        {A : Type 0} (a b d : Str) (m : M A) (w : World)
        → Untouched a m
        → Untouched b m
        → Untouched d m
        → InPlace a b d w.files
        → InPlace a b d (m w).1.files
    unfolding InPlace
    InPlace-frame a b d m w ua ub ud h =
        (h.0, h.1, h.2, ua.at w ∙ h.3, ub.at w ∙ h.4, ud.at w ∙ h.5, h.6)

    -- Moving one of the three files moves its place.
    pub move_tar :
        (a' a b d : Str)
        → str_eq a' a ≡ false
        → str_eq b a' ≡ false
        → str_eq b a ≡ false
        → str_eq d a' ≡ false
        → str_eq d a ≡ false
        → Ensures (On (InPlace a' b d)) (install_file e a' a) (λ _. On (InPlace a b d))
    unfolding InPlace
    move_tar a' a b d na b1 b2 d1 d2 = record {
      at = λ w h u r. (
        h.0,
        h.1,
        h.2,
        install_file-moves e a' a w na h.3 (cc),
        (install_file-Untouched b e a' a b1 b2).at w ∙ h.4,
        (install_file-Untouched d e a' a d1 d2).at w ∙ h.5,
        h.6,
      );
    }

    pub move_checksum :
        (a b' b d : Str)
        → str_eq b' b ≡ false
        → str_eq a b' ≡ false
        → str_eq a b ≡ false
        → str_eq d b' ≡ false
        → str_eq d b ≡ false
        → Ensures (On (InPlace a b' d)) (install_file e b' b) (λ _. On (InPlace a b d))
    unfolding InPlace
    move_checksum a b' b d nb a1 a2 d1 d2 = record {
      at = λ w h u r. (
        h.0,
        h.1,
        h.2,
        (install_file-Untouched a e b' b a1 a2).at w ∙ h.3,
        install_file-moves e b' b w nb h.4 (cc),
        (install_file-Untouched d e b' b d1 d2).at w ∙ h.5,
        h.6,
      );
    }

    pub move_signature :
        (a b d' d : Str)
        → str_eq d' d ≡ false
        → str_eq a d' ≡ false
        → str_eq a d ≡ false
        → str_eq b d' ≡ false
        → str_eq b d ≡ false
        → Ensures (On (InPlace a b d')) (install_file e d' d) (λ _. On (InPlace a b d))
    unfolding InPlace
    move_signature a b d' d nd a1 a2 b1 b2 = record {
      at = λ w h u r. (
        h.0,
        h.1,
        h.2,
        (install_file-Untouched a e d' d a1 a2).at w ∙ h.3,
        (install_file-Untouched b e d' d b1 b2).at w ∙ h.4,
        install_file-moves e d' d w nd h.5 (cc),
        h.6,
      );
    }
