-- ===== src/Startup/RoundTrip.antt =====
-- cmd/main.go, parseClusterID, on the texts that %d writes.
use Prim.Native.Char.{Char, code}
use text.Mathlib.TextLemmas.{cons-ne-nil}
use k8boss_operator.Prelude.{
  ℕ, ◌+◌, ◌*◌, ◌<◌, String, ◌≡◌, arith, false, some, pos, show_ℤ, eq_iff, ◌==◌, read-show_ℤ,
  show_ℤ-IsDigitBefore,
}
use k8boss_operator.Backend.Errors.{ok}
use k8boss_operator.Startup.{digits, natural, atoi, is_positive, parse_cluster_id}

digits-digit :
    (acc k : ℕ) (c : Char) (s : String)
    → k < 10
    → code c ≡ 48 + k
    → digits acc (String.◌∷◌ c s) ≡ digits (acc * 10 + k) s
unfolding digits
digits-digit acc k c s h e = ground arith

digits-show_ℤ : (n : ℕ) → digits 0 (show_ℤ (pos n)) ≡ some n
unfolding digits
digits-show_ℤ n = read-show_ℤ digits digits-digit n

cons-is_nil : (c : Char) (s : String) → (String.◌∷◌ c s == "") ≡ false
cons-is_nil c s = ground (arith, eq_iff (String.◌∷◌ c s) "", cons-ne-nil c s)

natural_lem : (c : Char) (s : String) → natural (String.◌∷◌ c s) ≡ digits 0 (String.◌∷◌ c s)
unfolding natural
natural_lem c s = ground (arith, cons-is_nil c s)

atoi-digit :
    (c : Char) (k n : ℕ) (s : String)
    → k < 10
    → code c ≡ 48 + k
    → digits 0 (String.◌∷◌ c s) ≡ some n
    → n < 0x8000000000000000
    → atoi (String.◌∷◌ c s) ≡ some (pos n)
unfolding atoi
atoi-digit c k n s h e d b = ground (arith, natural_lem c s)

-- Every positive number within 64 bits is the cluster id that parseClusterID reads from its decimal
-- text.
pub parse_cluster_id-show_ℤ :
    (atoi_error : String → String) (n : ℕ)
    → 0 < n
    → n < 0x8000000000000000
    → parse_cluster_id atoi_error (show_ℤ (pos n)) ≡ ok (pos n)
unfolding parse_cluster_id is_positive
parse_cluster_id-show_ℤ atoi_error n positive bound =
    let (k, s, below, (c, front, is_k)) = show_ℤ-IsDigitBefore n in
    let d : digits 0 (String.◌∷◌ c s) ≡ some n = rw (← front) (digits-show_ℤ n) in
    rw front (ground (arith, atoi-digit c k n s below is_k d bound, cons-is_nil c s, positive))
