-- ===== src/Backend/Json/Injective.antt =====
-- encoding/json: when two slices or maps are encoded as one value.
use k8boss_operator.Prelude.{String, ◌≡◌, refl, arith, none, some, List, [], ◌∷◌, Nilable, ap}
use k8boss_operator.Backend.Json.{Json, encode_values, encode_slice, encode_entries, encode_map}

encode_values-injective :
    {A : Type 0} (encode : A → Json)
    → ((a b : A) → encode a ≡ encode b → a ≡ b)
    → (as_ bs : List A) → encode_values encode as_ ≡ encode_values encode bs
    → as_ ≡ bs
unfolding encode_values
encode_values-injective encode apart [] [] h = refl
encode_values-injective encode apart [] (b ∷ bs) h = cc
encode_values-injective encode apart (a ∷ as_) [] h = cc
encode_values-injective encode apart (a ∷ as_) (b ∷ bs) h =
    let first : encode a ≡ encode b = cc in
    let rest : encode_values encode as_ ≡ encode_values encode bs = cc in
    cc (apart a b first, encode_values-injective encode apart as_ bs rest)

pub encode_slice-injective :
    {A : Type 0} (encode : A → Json)
    → ((a b : A) → encode a ≡ encode b → a ≡ b)
    → (as_ bs : Nilable (List A)) → encode_slice encode as_ ≡ encode_slice encode bs
    → as_ ≡ bs
unfolding encode_slice
encode_slice-injective encode apart none none h = refl
encode_slice-injective encode apart none (some bs) h = cc
encode_slice-injective encode apart (some as_) none h = cc
encode_slice-injective encode apart (some as_) (some bs) h =
    let same : encode_values encode as_ ≡ encode_values encode bs = cc in
    ap some (encode_values-injective encode apart as_ bs same)

encode_entries-injective :
    (xs ys : List (String × String)) → encode_entries xs ≡ encode_entries ys → xs ≡ ys
unfolding encode_entries
encode_entries-injective [] [] h = refl
encode_entries-injective [] (y ∷ ys) h = cc
encode_entries-injective (x ∷ xs) [] h = cc
encode_entries-injective ((k, v) ∷ xs) ((j, w) ∷ ys) h =
    let rest : encode_entries xs ≡ encode_entries ys = cc in
    ground (arith, h, encode_entries-injective xs ys rest)

pub encode_map-injective :
    (xs ys : Nilable (List (String × String))) → encode_map xs ≡ encode_map ys → xs ≡ ys
unfolding encode_map
encode_map-injective none none h = refl
encode_map-injective none (some ys) h = cc
encode_map-injective (some xs) none h = cc
encode_map-injective (some xs) (some ys) h =
    let same : encode_entries xs ≡ encode_entries ys = cc in
    ap some (encode_entries-injective xs ys same)
