-- ===== src/Examples/Wire.antt =====
-- An encoding of the three records for the examples, in place of encoding/json.
use dockup.Base.{
  ℕ, zero, suc, ◌≡◌, ◌∙◌, refl, ap, Bool, true, false, Option, none, some, List, [], ◌∷◌, ◌++◌, Str,
  length, take, drop,
}
use dockup.Base.Int.{ℤ, pos, negsuc}
use dockup.Records.{State, Config, Meta}
use dockup.Env.{Codec}

abbrev put_bool : Bool → Str → Str
put_bool true r = 1 ∷ r
put_bool false r = 0 ∷ r

abbrev get_bool : Str → Option (Bool × Str)
get_bool [] = none
get_bool (zero ∷ r) = some (false, r)
get_bool (suc n ∷ r) = some (true, r)

abbrev put_int : ℤ → Str → Str
put_int (pos n) r = 0 ∷ n ∷ r
put_int (negsuc n) r = 1 ∷ n ∷ r

abbrev get_int : Str → Option (ℤ × Str)
get_int [] = none
get_int (a ∷ []) = none
get_int (zero ∷ n ∷ r) = some (pos n, r)
get_int (suc a ∷ n ∷ r) = some (negsuc n, r)

abbrev put_str : Str → Str → Str
put_str s r = length s ∷ (s ++ r)

abbrev get_str : Str → Option (Str × Str)
get_str [] = none
get_str (n ∷ r) = some (take n r, drop n r)

-- What is put in front of a rest is got back, with the rest.
pub record Wire (A : Type 0) : Type 0 where
  pub put : A → Str → Str
  pub get : Str → Option (A × Str)
  pub get-put : (a : A) (r : Str) → get (put a r) ≡ some (a, r)

pub get-put_bool : (b : Bool) (r : Str) → get_bool (put_bool b r) ≡ some (b, r)
get-put_bool true r = refl
get-put_bool false r = refl

pub get-put_int : (i : ℤ) (r : Str) → get_int (put_int i r) ≡ some (i, r)
get-put_int (pos n) r = refl
get-put_int (negsuc n) r = refl

take-length : (s r : Str) → take (length s) (s ++ r) ≡ s
take-length [] r = refl
take-length (c ∷ s) r = ap (λ t. c ∷ t) (take-length s r)

drop-length : (s r : Str) → drop (length s) (s ++ r) ≡ r
drop-length [] r = refl
drop-length (c ∷ s) r = drop-length s r

pub get-put_str : (s r : Str) → get_str (put_str s r) ≡ some (s, r)
get-put_str s r = cc (take-length s r, drop-length s r)

abbrev wire_bool : Wire Bool
wire_bool = record { put = put_bool; get = get_bool; get-put = get-put_bool }

abbrev wire_int : Wire ℤ
wire_int = record { put = put_int; get = get_int; get-put = get-put_int }

abbrev wire_str : Wire Str
wire_str = record { put = put_str; get = get_str; get-put = get-put_str }

abbrev got : {A B : Type 0} → (A → Str → Option (B × Str)) → Option (A × Str) → Option (B × Str)
got f none = none
got f (some (a, r)) = f a r

module _ {A B : Type 0} (wa : Wire A) (wb : Wire B) where
  abbrev put_pair : A × B → Str → Str
  put_pair (a, b) r = wa.put a (wb.put b r)

  abbrev get_pair : Str → Option ((A × B) × Str)
  get_pair s = got (λ a r. got (λ b r'. some ((a, b), r')) (wb.get r)) (wa.get s)

  pub get-put_pair : (p : A × B) (r : Str) → get_pair (put_pair p r) ≡ some (p, r)
  get-put_pair (a, b) r = rw (wa.get-put a (wb.put b r), wb.get-put b r)

  abbrev wire_pair : Wire (A × B)
  wire_pair = record { put = put_pair; get = get_pair; get-put = get-put_pair }

abbrev put_list : List Str → Str → Str
put_list [] r = r
put_list (s ∷ ss) r = put_str s (put_list ss r)

abbrev get_list : ℕ → Str → Option (List Str × Str)
get_list zero r = some ([], r)
get_list (suc n) r = got (λ s r'. got (λ ss r''. some (s ∷ ss, r'')) (get_list n r')) (get_str r)

pub get-put_list : (ss : List Str) (r : Str) → get_list (length ss) (put_list ss r) ≡ some (ss, r)
get-put_list [] r = refl
get-put_list (s ∷ ss) r =
    rw (take-length s (put_list ss r), drop-length s (put_list ss r), get-put_list ss r)

abbrev put_strs : List Str → Str → Str
put_strs ss r = length ss ∷ put_list ss r

abbrev get_strs : Str → Option (List Str × Str)
get_strs [] = none
get_strs (n ∷ r) = get_list n r

abbrev wire_strs : Wire (List Str)
wire_strs = record { put = put_strs; get = get_strs; get-put = get-put_list }

abbrev finish : {A B : Type 0} → (A → B) → Option (A × Str) → Option B
finish f none = none
finish f (some (a, r)) = some (f a)

module _ {A B : Type 0} (wire : Wire A) (f : A → B) (g : B → A) (f-g : (b : B) → f (g b) ≡ b) where
  abbrev codec : Codec B
  codec = record {
    encode = λ b. wire.put (g b) [];
    decode = λ s. finish f (wire.get s);
    decode-encode = λ b. ap (finish f) (wire.get-put (g b) []) ∙ ap some (f-g b);
  }

abbrev pub state_codec : Codec State
state_codec =
    codec
      (wire_pair wire_bool (
        wire_pair wire_str (
          wire_pair wire_str (
            wire_pair wire_int
              (wire_pair wire_str (wire_pair wire_bool (wire_pair wire_str wire_strs)))))))
      (λ (i, (a, (s, (p, (d, (m, (t, l))))))). record {
        installed = i;
        arch = a;
        setup_at = s;
        daemon = record { pid = p; started_at = d; mirror = m };
        snapshot = record { at = t; manual = l };
      })
      (λ s. (
        s.installed,
        (
          s.arch,
          (
            s.setup_at,
            (
              s.daemon.pid,
              (s.daemon.started_at, (s.daemon.mirror, (s.snapshot.at, s.snapshot.manual))),
            ),
          ),
        ),
      ))
      (λ s. refl)

abbrev pub config_codec : Codec Config
config_codec =
    codec
      (wire_pair wire_str (
        wire_pair wire_str (
          wire_pair wire_int (
            wire_pair wire_bool
              (wire_pair wire_str (wire_pair wire_bool (wire_pair wire_bool wire_str)))))))
      (λ (d, (c, (p, (u, (n, (k, (a, x))))))). record {
        default_path = d;
        current_path = c;
        port = p;
        use_tcp = u;
        pipe_name = n;
        color = k;
        autostart = a;
        docker_context_prev = x;
      })
      (λ c. (
        c.default_path,
        (
          c.current_path,
          (c.port, (c.use_tcp, (c.pipe_name, (c.color, (c.autostart, c.docker_context_prev))))),
        ),
      ))
      (λ c. refl)

abbrev pub meta_codec : Codec Meta
meta_codec =
    codec
      (wire_pair wire_str (wire_pair wire_str (wire_pair wire_str (wire_pair wire_str wire_str))))
      (λ (t, (a, (h, (s, d)))). record {
        tag = t;
        arch = a;
        sha256 = h;
        source = s;
        downloaded_at = d;
      })
      (λ m. (m.tag, (m.arch, (m.sha256, (m.source, m.downloaded_at))))) (λ m. refl)
