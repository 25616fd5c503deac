-- ===== src/Backend/Json.antt =====
-- What encoding/json makes of a body once its text is read: a value, and the rules by which
-- json.Unmarshal fills a field from it. A null leaves a field as it was; a value of another type is
-- an error, after which the operator discards the whole result.
pub mod NullFree
pub mod Injective
use Prim.Native.Char.{code}
use k8boss_operator.Prelude.{
  ℕ, ◌-◌, String, Bool, true, false, ◌&&◌, Option, none, some, List, [], ◌∷◌, Nilable, ltb, leb,
  eqb, if◌then◌else◌, ℤ, pos, negsuc,
}

mutual
  -- `num` is a number written as an integer, `real` any other number.
  pub data Json : Type 0 where
    null : Json
    bool : Bool → Json
    num : ℤ → Json
    real : String → Json
    str : String → Json
    arr : Values → Json
    obj : Members → Json

  pub data Values : Type 0 where
    no_values : Values
    value : Json → Values → Values

  pub data Members : Type 0 where
    no_members : Members
    member : String → Json → Members → Members

infixl 5 ◌>>=◌
abbrev pub ◌>>=◌ {ℓ κ} : {A : Type ℓ} {B : Type κ} → Option A → (A → Option B) → Option B
none >>= f = none
some a >>= f = f a

-- The smallest rune of a letter's case orbit; of runes outside ASCII two fold onto ASCII letters.
fold_code : ℕ → ℕ
fold_code n =
    if leb b'a' n && leb n b'z'
    then n - 32
    else if eqb n 0x17f
    then b'S'
    else if eqb n 0x212a
    then b'K'
    else n

-- Whether a member's key names a field: json.Unmarshal compares without case.
unfoldable pub names_field : String → String → Bool
unfolding fold_code
names_field String.[] String.[] = true
names_field String.[] (String.◌∷◌ d t) = false
names_field (String.◌∷◌ c s) String.[] = false
names_field (String.◌∷◌ c s) (String.◌∷◌ d t) =
    eqb (fold_code (code c)) (fold_code (code d)) && names_field s t

unfoldable pub decode_string : String → Json → Option String
decode_string old null = some old
decode_string old (str s) = some s
decode_string old _ = none

unfoldable pub decode_bool : Bool → Json → Option Bool
decode_bool old null = some old
decode_bool old (bool b) = some b
decode_bool old _ = none

-- Whether a number fits Go's int, which has 64 bits.
fits_int : ℤ → Bool
fits_int (pos n) = ltb n 0x8000000000000000
fits_int (negsuc n) = ltb n 0x8000000000000000

unfoldable pub decode_int : ℤ → Json → Option ℤ
unfolding fits_int
decode_int old null = some old
decode_int old (num z) = if fits_int z then some z else none
decode_int old _ = none

-- A pointer: null makes it nil.
unfoldable pub decode_pointer : {A : Type 0} → (Json → Option A) → Json → Option (Option A)
decode_pointer decode null = some none
decode_pointer decode j = decode j >>= λ a. some (some a)

decode_values : {A : Type 0} → (Json → Option A) → Values → Option (List A)
decode_values decode no_values = some []
decode_values decode (value j js) =
    decode j >>= λ a. decode_values decode js >>= λ as_. some (a ∷ as_)

-- A slice: null makes it nil.
unfoldable pub decode_slice : {A : Type 0} → (Json → Option A) → Json → Option (Nilable (List A))
unfolding decode_values
decode_slice decode null = some none
decode_slice decode (arr js) = decode_values decode js >>= λ as_. some (some as_)
decode_slice decode _ = none

decode_members : {S : Type 0} → (S → String → Json → Option S) → S → Members → Option S
decode_members set s no_members = some s
decode_members set s (member k j ms) = set s k j >>= λ t. decode_members set t ms

-- A struct: `set` fills the field that a key names, and skips a key that names none.
unfoldable pub decode_struct : {S : Type 0} → (S → String → Json → Option S) → S → Json → Option S
unfolding decode_members
decode_struct set s null = some s
decode_struct set s (obj ms) = decode_members set s ms
decode_struct set s _ = none

-- json.Marshal of a slice; a nil slice becomes null.
encode_values : {A : Type 0} → (A → Json) → List A → Values
encode_values encode [] = no_values
encode_values encode (a ∷ as_) = value (encode a) (encode_values encode as_)

unfoldable pub encode_slice : {A : Type 0} → (A → Json) → Nilable (List A) → Json
unfolding encode_values
encode_slice encode none = null
encode_slice encode (some as_) = arr (encode_values encode as_)

encode_entries : List (String × String) → Members
encode_entries [] = no_members
encode_entries ((k, v) ∷ kvs) = member k (str v) (encode_entries kvs)

-- json.Marshal of a map[string]string; a nil map becomes null.
unfoldable pub encode_map : Nilable (List (String × String)) → Json
unfolding encode_entries
encode_map none = null
encode_map (some kvs) = obj (encode_entries kvs)
