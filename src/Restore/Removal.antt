-- ===== src/Restore/Removal.antt =====
-- `RemovalList` of internal/restore/restore.go, and `EnginePackages` of internal/docker/docker.go.
-- A Go map used as a set is the list of its keys; `sort.Strings` is an insertion sort by bytes.
use dockup.Base.{
  ◌≡◌, ◌∙◌, ap, inl, inr, Bool-cases, refl, Bool, true, false, not, ◌&&◌, ◌||◌, List, [], ◌∷◌, Str,
  codes, arith, str_eq, str_eq_iff, mem_str, ltb, ◌==◌, if◌then◌else◌,
}

-- Byte order, as `<` on Go strings.
pub leb_str : Str → Str → Bool
leb_str [] t = true
leb_str (c ∷ s) [] = false
leb_str (c ∷ s) (d ∷ t) = ltb c d || ((c == d) && leb_str s t)

insert_str : Str → List Str → List Str
insert_str s [] = s ∷ []
insert_str s (t ∷ ts) = if leb_str s t then s ∷ t ∷ ts else t ∷ insert_str s ts

unfoldable pub sort_strings : List Str → List Str
unfolding insert_str leb_str
sort_strings [] = []
sort_strings (s ∷ ss) = insert_str s (sort_strings ss)

abbrev pub engine_packages : List Str
engine_packages =
    codes "docker-ce"
    ∷ codes "docker-ce-cli"
    ∷ codes "containerd.io"
    ∷ codes "docker-buildx-plugin"
    ∷ codes "docker-compose-plugin"
    ∷ codes "socat"
    ∷ []

removal_loop : List Str → List Str → List Str
removal_loop snapshot [] = []
removal_loop snapshot (p ∷ current) =
    let rest = removal_loop snapshot current in
    if mem_str p snapshot || mem_str p engine_packages then rest else p ∷ rest

unfoldable pub removal_list : List Str → List Str → List Str
unfolding removal_loop
removal_list current snapshot = sort_strings (removal_loop snapshot current)

mem-insert :
    (a s : Str) (ts : List Str) → mem_str a (insert_str s ts) ≡ (str_eq a s || mem_str a ts)
unfolding insert_str mem_str
mem-insert a s [] = refl
mem-insert a s (t ∷ ts) = ground (arith, mem-insert a s ts)

mem-sort : (a : Str) (ts : List Str) → mem_str a (sort_strings ts) ≡ mem_str a ts
unfolding sort_strings mem_str
mem-sort a [] = refl
mem-sort a (t ∷ ts) = ground (arith, mem-insert a t (sort_strings ts), mem-sort a ts)

mem_cons : (a p : Str) (ps : List Str) → mem_str a (p ∷ ps) ≡ (str_eq a p || mem_str a ps)
unfolding mem_str
mem_cons a p ps = refl

kept : Str → List Str → List Str → Bool
kept a snapshot current =
    mem_str a current && (not (mem_str a snapshot) && not (mem_str a engine_packages))

mem-removal_loop :
    (a : Str) (snapshot current : List Str)
    → mem_str a (removal_loop snapshot current) ≡ kept a snapshot current
unfolding removal_loop kept
mem-removal_loop a snapshot [] = unfold mem_str in refl
mem-removal_loop a snapshot (p ∷ current) = elim (Bool-cases (str_eq a p)) [
  | inl e ↦
      let q : a ≡ p = (str_eq_iff a p).0 e in
      ground (
        arith,
        mem_cons a p current,
        mem_cons a p (removal_loop snapshot current),
        mem-removal_loop a snapshot current,
        ap (λ x. mem_str x snapshot) q,
        ap (λ x. mem_str x engine_packages) q,
      )
  | inr e ↦ ground (
    arith,
    mem_cons a p current,
    mem_cons a p (removal_loop snapshot current),
    mem-removal_loop a snapshot current,
  )
]

-- A package is removed exactly when it is installed now, was not in the snapshot that setup took, and
-- is no package of the engine.
pub mem-removal_list :
    (a : Str) (current snapshot : List Str)
    → mem_str a (removal_list current snapshot)
      ≡ (mem_str a current && (not (mem_str a snapshot) && not (mem_str a engine_packages)))
unfolding removal_list kept
mem-removal_list a current snapshot =
    mem-sort a (removal_loop snapshot current) ∙ mem-removal_loop a snapshot current

abbrev pub IsSorted : List Str → Type 0
IsSorted [] = Unit
IsSorted (s ∷ []) = Unit
IsSorted (s ∷ t ∷ ts) = (leb_str s t ≡ true) × IsSorted (t ∷ ts)

leb_str_total : (s t : Str) → leb_str s t ≡ false → leb_str t s ≡ true
unfolding leb_str
leb_str_total [] t h = cc
leb_str_total (c ∷ s) [] h = refl
leb_str_total (c ∷ s) (d ∷ t) h = ground (arith, leb_str_total s t)

insert-IsSorted : (s : Str) (ts : List Str) → IsSorted ts → IsSorted (insert_str s ts)
unfolding insert_str
insert-IsSorted s [] h = tt
insert-IsSorted s (t ∷ []) h = ground (arith, leb_str_total s t)
insert-IsSorted s (t ∷ u ∷ ts) (tu, h) =
    ground (arith, leb_str_total s t, insert-IsSorted s (u ∷ ts) h)

sort-IsSorted : (ts : List Str) → IsSorted (sort_strings ts)
unfolding sort_strings
sort-IsSorted [] = tt
sort-IsSorted (t ∷ ts) = insert-IsSorted t (sort_strings ts) (sort-IsSorted ts)
