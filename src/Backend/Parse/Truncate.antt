-- ===== src/Backend/Parse/Truncate.antt =====
-- internal/backendclient/client.go: the bounds of truncate.
use Prim.Native.Nat.{compare, Ordering}
use Prim.Native.Char.{Char, len_utf8}
use Prim.Native.String.{len, slice, fits}
use Prim.Native.String.len
use Prim.Native.String.slice
use text.Mathlib.TextPositions.{len-append}
use text.Mathlib.TextLemmas.{append-eq-nil_iff}
use k8boss_operator.Prelude.{
  ℕ, ◌-◌, ◌≤◌, String, ◌≡◌, ◌≢◌, refl, arith, inl, inr, Bool-cases, ltb, ◌==◌, ne_of_test,
  trim_space,
}
use k8boss_operator.Backend.Parse.{cut, truncate}

len-fits :
    (o : Ordering) (c : Char) (r : String) (k : ℕ)
    → compare (len_utf8 c) k ≡ o
    → len r ≤ k - len_utf8 c
    → len (fits o c r) ≤ k
len-fits Ordering.lt c r k e h = rw len.cons (ground arith)
len-fits Ordering.eq c r k e h = rw len.cons (ground arith)
len-fits Ordering.gt c r k e h = rw len.nil (omega arith)

len-slice-le : (s : String) (k : ℕ) → len (slice s 0 k) ≤ k
len-slice-le String.[] k = rw slice.nil (rw len.nil (omega arith))
len-slice-le (String.◌∷◌ c s) k = rw slice.cons-zero (
    len-fits (compare (len_utf8 c) k) c (slice s 0 (k - len_utf8 c)) k refl
      (len-slice-le s (k - len_utf8 c)))

cut_bounds : (s : String) → (len (cut s) ≤ 515) × (cut s ≢ "")
unfolding cut
cut_bounds s = elim (Bool-cases (ltb 512 (len s))) [
  | inl long ↦ rw long (
    rw len-append (omega (arith, len-slice-le s 512)),
    λ e. ne_of_test "…" "" refl (append-eq-nil_iff.0 e).1,
  )
  | inr short ↦ elim (Bool-cases (s == "")) [
    | inl empty ↦ rw (short, empty) (omega arith, λ e. ne_of_test "(empty response body)" "" refl e)
    | inr full ↦ rw (short, full) (ground arith, ne_of_test s "" full)
  ]
]

-- A message made of a response body has 515 bytes at most, the three of the mark "…" among them,
-- and is never empty.
pub truncate_bounds : (body : String) → (len (truncate body) ≤ 515) × (truncate body ≢ "")
unfolding truncate
truncate_bounds body = cut_bounds (trim_space body)
