-- ===== src/Platform/Health/Verdicts.antt =====
-- internal/controller/platformconfig_controller.go: what splitProviderHealth makes of the providers.
use k8boss_operator.Prelude.{
  ℕ, suc, ◌+◌, String, ◌≡◌, ◌≢◌, ◌↔◌, refl, arith, append_nil, length-append, eq_iff, true, false,
  none, some, List, [], ◌∷◌, ◌++◌, length, if◌then◌else◌, items, append_ne, ne_of_test,
  Option-cases, inl, inr, ◌<>◌, join,
}
use mathlib.Core.List.{append_assoc}
use k8boss_operator.Api.{ProviderHealthStatus, Verdict, unknown, healthy, unhealthy}
use k8boss_operator.Backend.Wire.{ProviderHealth, determinate}
use k8boss_operator.Platform.Health.{
  why_undetermined, undetermined_entry, is_healthy, query_error, with_blockers, determined_entry,
  split_one, split_loop, split_provider_health,
}

-- What a report says of its provider's health: unknown unless it was checked and has a verdict.
abbrev pub verdict_of : ProviderHealth → Verdict
verdict_of p =
    if p.checked
    then elim p.healthy [ none ↦ unknown | some true ↦ healthy | some false ↦ unhealthy ]
    else unknown

-- The entry gives the report's own verdict on the report's own provider, with a reason exactly where
-- the verdict is unknown, with no error where it is unknown, and always with one where it is
-- unhealthy.
pub record IsEntryOf (now : ℕ) (p : ProviderHealth) (entry : ProviderHealthStatus) : Type 0 where
  pub same_name : entry.name ≡ p.name
  pub at_now : entry.observed_at ≡ now
  pub verdict : entry.health ≡ verdict_of p
  pub reason_iff : (entry.reason ≡ "") ↔ (verdict_of p ≢ unknown)
  pub no_error : verdict_of p ≡ unknown → entry.last_query_error ≡ ""
  pub some_error : verdict_of p ≡ unhealthy → entry.last_query_error ≢ ""

-- One entry for each provider, in order.
abbrev pub AreEntriesOf : ℕ → List ProviderHealth → List ProviderHealthStatus → Type 0
AreEntriesOf now [] [] = Unit
AreEntriesOf now (p ∷ ps) (entry ∷ entries) = IsEntryOf now p entry × AreEntriesOf now ps entries
AreEntriesOf now [] (entry ∷ entries) = ⊥
AreEntriesOf now (p ∷ ps) [] = ⊥

abbrev pub unknowns : List ProviderHealth → ℕ
unknowns [] = 0
unknowns (p ∷ ps) = elim (verdict_of p) [
  | unknown ↦ suc (unknowns ps)
  | healthy ↦ unknowns ps
  | unhealthy ↦ unknowns ps
]

why_undetermined-ne-nil : (p : ProviderHealth) → why_undetermined p ≢ ""
unfolding why_undetermined
why_undetermined-ne-nil p = ground (
  arith,
  eq_iff p.message "",
  ne_of_test "the control plane reported checked=false with no explanation" "" refl,
  ne_of_test "the control plane reported checked=true but returned no healthy verdict" "" refl,
)

query_error-ne-nil : (p : ProviderHealth) → query_error p false ≢ ""
unfolding query_error
query_error-ne-nil p = elim (Option-cases p.last_query_error) [
  | inl h ↦ ground (
    arith,
    eq_iff p.message "",
    ne_of_test "reported unhealthy; the control plane returned no query error and no message" ""
        refl,
  )
  | inr (e, h) ↦ ground (
    arith,
    eq_iff p.message "",
    eq_iff e "",
    ne_of_test "reported unhealthy; the control plane returned no query error and no message" ""
        refl,
  )
]

with_blockers-ne-nil : (p : ProviderHealth) (e : String) → e ≢ "" → with_blockers p e ≢ ""
unfolding with_blockers
with_blockers-ne-nil p e h = ground (
  arith,
  eq_iff e "",
  append_ne e (" (" <> (("blockers: " <> join (items p.blockers) ", ") <> ")")),
)

split_one-IsEntryOf : (now : ℕ) (p : ProviderHealth) → IsEntryOf now p (split_one now p).0
unfolding split_one undetermined_entry determined_entry is_healthy determinate
split_one-IsEntryOf now p = record {
  same_name = ground arith;
  at_now = ground arith;
  verdict = ground arith;
  reason_iff = ground (arith, why_undetermined-ne-nil p);
  no_error = ground arith;
  some_error = ground (arith, with_blockers-ne-nil p (query_error p false), query_error-ne-nil p);
}

split_one-unknown :
    (now : ℕ) (p : ProviderHealth) (n : ℕ)
    → n + length (split_one now p).1
      ≡ elim (verdict_of p) [ unknown ↦ suc n | healthy ↦ n | unhealthy ↦ n ]
unfolding split_one determinate
split_one-unknown now p n = ground arith

AreEntriesOf-append :
    (now : ℕ) (ps qs : List ProviderHealth) (entries more : List ProviderHealthStatus)
    → AreEntriesOf now ps entries
    → AreEntriesOf now qs more
    → AreEntriesOf now (ps ++ qs) (entries ++ more)
AreEntriesOf-append now [] qs [] more h k = k
AreEntriesOf-append now [] qs (entry ∷ entries) more h k = elim h [ ]
AreEntriesOf-append now (p ∷ ps) qs [] more h k = elim h [ ]
AreEntriesOf-append now (p ∷ ps) qs (entry ∷ entries) more (h, hs) k =
    (h, AreEntriesOf-append now ps qs entries more hs k)

split_loop_lem :
    (now : ℕ) (ps done : List ProviderHealth) (entries : List ProviderHealthStatus)
    (undetermined : List String)
    → AreEntriesOf now done entries
    → AreEntriesOf now (done ++ ps) (split_loop now ps entries undetermined).0
      × (length (split_loop now ps entries undetermined).1 ≡ length undetermined + unknowns ps)
unfolding split_loop
split_loop_lem now [] done entries undetermined h = (rw (append_nil done) h, ground arith)
split_loop_lem now (p ∷ ps) done entries undetermined h =
    let (rest, count) =
      split_loop_lem now ps (done ++ p ∷ []) (entries ++ (split_one now p).0 ∷ [])
        (undetermined ++ (split_one now p).1)
        (AreEntriesOf-append now done (p ∷ []) entries ((split_one now p).0 ∷ []) h
          (split_one-IsEntryOf now p, tt)) in
    (
      rw (← append_assoc done (p ∷ []) ps) rest,
      ground (
        arith,
        count,
        length-append undetermined (split_one now p).1,
        split_one-unknown now p (unknowns ps),
      ),
    )

-- The read gives one entry for each provider, in the order of the answer, with the provider's own
-- name, the time of the read and the report's own verdict: Healthy or Unhealthy only for a provider
-- that was checked and has a verdict, Unknown for every other. Reason is filled in exactly for the
-- unknown ones, so that it is empty for an unhealthy one; the error is always filled in for an
-- unhealthy one and never for an unknown one. The undetermined ones are as many as the unknown.
pub split_provider_health_lem :
    (now : ℕ) (ps : List ProviderHealth)
    → AreEntriesOf now ps (split_provider_health now ps).0
      × (length (split_provider_health now ps).1 ≡ unknowns ps)
unfolding split_provider_health
split_provider_health_lem now ps =
    let (entries, count) = split_loop_lem now ps [] [] [] tt in (entries, ground (arith, count))
