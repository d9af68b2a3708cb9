-- ===== src/Sysinfo/Csv.antt =====
-- `splitCSV` and `digitsOnly` of internal/sysinfo/sysinfo.go.
use dockup.Base.{
  ◌≡◌, ◌≢◌, Bool, true, false, not, ◌&&◌, List, [], ◌∷◌, ◌++◌, append_assoc, append-nil, map, Str,
  codes, All, is_digit, join_with, arith, ◌==◌, if◌then◌else◌,
}

-- One round, on bytes where the code takes runes, which in valid UTF-8 makes no difference, since the quote
-- and the comma are ASCII: a quote toggles, a comma outside quotes ends a field, all else is kept.
csv_loop : Str → Str → Bool → List Str
csv_loop [] cur quoted = cur ∷ []
csv_loop (r ∷ line) cur quoted =
    let toggled = csv_loop line cur (not quoted) in
    let ended = cur ∷ csv_loop line [] quoted in
    let kept = csv_loop line (cur ++ r ∷ []) quoted in
    if r == b'"' then toggled else if (r == b',') && not quoted then ended else kept

unfoldable pub split_csv : Str → List Str
unfolding csv_loop
split_csv line = csv_loop line [] false

unfoldable pub digits_only : Str → Str
digits_only [] = []
digits_only (r ∷ s) = if is_digit r then r ∷ digits_only s else digits_only s

-- A field as tasklist writes it.
abbrev pub quote : Str → Str
quote s = b'"' ∷ (s ++ b'"' ∷ [])

abbrev pub Unquoted : Str → Type 0
Unquoted = All (λ c. c ≢ b'"')

csv_inside :
    (s rest cur : Str) → Unquoted s → csv_loop (s ++ rest) cur true ≡ csv_loop rest (cur ++ s) true
unfolding csv_loop
csv_inside [] rest cur _ = ap_nil
  where
    ap_nil : csv_loop rest cur true ≡ csv_loop rest (cur ++ []) true
    ap_nil = ground (arith, append-nil cur)
csv_inside (c ∷ s) rest cur (hc, hs) =
    ground (arith, csv_inside s rest (cur ++ c ∷ []) hs, append_assoc cur (c ∷ []) s)

csv_quoted :
    (s rest : Str) → Unquoted s → csv_loop (quote s ++ rest) [] false ≡ csv_loop rest s false
unfolding csv_loop
csv_quoted s rest h =
    ground (arith, append_assoc s (b'"' ∷ []) rest, csv_inside s (b'"' ∷ rest) [] h)

csv_end : (s : Str) → Unquoted s → csv_loop (quote s) [] false ≡ s ∷ []
unfolding csv_loop
csv_end s h = cc (csv_quoted s [] h, append-nil (quote s))

csv_comma :
    (f : Str) (fs : List Str) (rest : Str)
    → csv_loop rest [] false ≡ fs
    → csv_loop (b',' ∷ rest) f false ≡ f ∷ fs
unfolding csv_loop
csv_comma f fs rest h = ground arith

pub split_csv-join :
    (f : Str) (fs : List Str)
    → Unquoted f
    → All Unquoted fs
    → split_csv (join_with (codes ",") (map quote (f ∷ fs))) ≡ f ∷ fs
unfolding split_csv join_with
split_csv-join f [] h _ = csv_end f h
split_csv-join f (g ∷ fs) h (hg, hs) =
    rw (csv_quoted f _ h) (
      csv_comma f (g ∷ fs) (join_with (codes ",") (map quote (g ∷ fs))) (split_csv-join g fs hg hs))

-- What is left are digits only.
pub digits_only-All : (s : Str) → All (λ c. is_digit c ≡ true) (digits_only s)
unfolding digits_only
digits_only-All [] = tt
digits_only-All (c ∷ s) = ground (arith, digits_only-All s)
