-- ===== src/Backend/Json/NullFree.antt =====
-- encoding/json: the values in which no null stands, which is what a nil slice or map would become.
use k8boss_operator.Prelude.{
  String, ◌≡◌, refl, arith, Bool, true, false, ◌&&◌, some, List, [], ◌∷◌, All,
}
use k8boss_operator.Backend.Json.{
  Json, null, bool, num, real, str, arr, obj, Values, no_values, value, Members, no_members, member,
  encode_values, encode_slice, encode_entries, encode_map,
}

unfoldable mutual
  pub null_free : Json → Bool
  null_free null = false
  null_free (bool b) = true
  null_free (num z) = true
  null_free (real s) = true
  null_free (str s) = true
  null_free (arr vs) = null_free_values vs
  null_free (obj ms) = null_free_members ms

  pub null_free_values : Values → Bool
  null_free_values no_values = true
  null_free_values (value j vs) = null_free j && null_free_values vs

  pub null_free_members : Members → Bool
  null_free_members no_members = true
  null_free_members (member k j ms) = null_free j && null_free_members ms

module _ {A : Type 0} (encode : A → Json) where
  null_free-encode_values :
      (as_ : List A)
      → All (λ a. null_free (encode a) ≡ true) as_
      → null_free_values (encode_values encode as_) ≡ true
  unfolding null_free_values encode_values
  null_free-encode_values [] h = refl
  null_free-encode_values (a ∷ as_) (h, hs) = ground (arith, h, null_free-encode_values as_ hs)

  pub null_free-encode_slice :
      (as_ : List A)
      → All (λ a. null_free (encode a) ≡ true) as_
      → null_free (encode_slice encode (some as_)) ≡ true
  unfolding null_free encode_slice
  null_free-encode_slice as_ h = null_free-encode_values as_ h

null_free-encode_entries :
    (kvs : List (String × String)) → null_free_members (encode_entries kvs) ≡ true
unfolding null_free_members null_free encode_entries
null_free-encode_entries [] = refl
null_free-encode_entries ((k, v) ∷ kvs) = null_free-encode_entries kvs

pub null_free-encode_map : (kvs : List (String × String)) → null_free (encode_map (some kvs)) ≡ true
unfolding null_free encode_map
null_free-encode_map kvs = null_free-encode_entries kvs
