-- ===== src/Protocol/Metadata/Limits.antt =====
-- Which metadata is within the limits (protocol/go/event.go).
use agent_action_visualizer.Protocol.Metadata.{
  valid_string, InvalidMetadata, max_metadata_depth, within_entries, max_metadata_entries, too_deep,
  too_many_entries, checked_key, validate_value, invalid_key, validate_items, validate_fields,
}
use agent_action_visualizer.Prelude.{
  ℕ, ◌+◌, ◌≤◌, max, ◌≡◌, refl, ap, ◌∙◌, ◌↔◌, ◌⊎◌, inl, inr, Bool, true, false, ◌&&◌, arith, ltb,
  leb, if◌then◌else◌, Bool-cases, Result, ok, err, ◌>>=◌, Text,
}
use agent_action_visualizer.Protocol.Value.{
  Value, Items, Fields, null, bool, int, float, text, texts, array, object, nil, cons, end, field,
}

-- How deep a value nests.
unfoldable mutual
  pub height : Value → ℕ
  height (array items) = height_items items
  height (object fields) = height_fields fields
  height _ = 0

  height_items : Items → ℕ
  height_items nil = 0
  height_items (cons v items) = max (height v + 1) (height_items items)

  height_fields : Fields → ℕ
  height_fields end = 0
  height_fields (field key v fields) = max (height v + 1) (height_fields fields)

-- How many elements and fields a value has at all levels.
unfoldable mutual
  pub size : Value → ℕ
  size (array items) = size_items items
  size (object fields) = size_fields fields
  size _ = 0

  size_items : Items → ℕ
  size_items nil = 0
  size_items (cons v items) = size v + 1 + size_items items

  size_fields : Fields → ℕ
  size_fields end = 0
  size_fields (field key v fields) = size v + 1 + size_fields fields

-- Whether the keys at all levels are valid.
unfoldable mutual
  pub valid_keys : Value → Bool
  valid_keys (array items) = valid_keys_items items
  valid_keys (object fields) = valid_keys_fields fields
  valid_keys _ = true

  valid_keys_items : Items → Bool
  valid_keys_items nil = true
  valid_keys_items (cons v items) = valid_keys v && valid_keys_items items

  valid_keys_fields : Fields → Bool
  valid_keys_fields end = true
  valid_keys_fields (field key v fields) =
      valid_string key 128 && (valid_keys v && valid_keys_fields fields)

abbrev pub fits : ℕ → ℕ → ℕ → ℕ → Bool → Bool
fits depth entries high big keys =
    leb (depth + high) max_metadata_depth && (leb (entries + big) max_metadata_entries && keys)

-- The verdict on a part: the entries counted after it, or an error, by whether it is within limits.
abbrev pub Verdict : ℕ → ℕ → ℕ → ℕ → Bool → Result InvalidMetadata ℕ → Type 0
Verdict depth entries high big keys result =
    ((fits depth entries high big keys ≡ true) × (result ≡ ok (entries + big)))
    ⊎ ((fits depth entries high big keys ≡ false) × ((e : InvalidMetadata) × (result ≡ err e)))

scalar-Verdict :
    (depth entries : ℕ)
    → entries ≤ 1024
    → Verdict depth entries 0 0 true
        (if ltb max_metadata_depth depth then err too_deep else ok entries)
scalar-Verdict depth entries h = elim (Bool-cases (ltb max_metadata_depth depth)) [
  | inl deep ↦ inr (ground arith, (too_deep, rw deep refl))
  | inr flat ↦ inl (ground arith, rw flat (ground arith))
]

-- A container that is not too deep is judged by its elements.
container-Verdict :
    (depth entries high big : ℕ) (keys : Bool) (rest : Result InvalidMetadata ℕ)
    → (depth ≤ 8 → Verdict depth entries high big keys rest)
    → Verdict depth entries high big keys
        (if ltb max_metadata_depth depth then err too_deep else rest)
container-Verdict depth entries high big keys rest h =
    elim (Bool-cases (ltb max_metadata_depth depth)) [
      | inl deep ↦ inr (ground arith, (too_deep, rw deep refl))
      | inr flat ↦ rw flat (h (ground arith))
    ]

-- An element is counted and judged, and then the elements behind it.
element-Verdict :
    (depth entries high_v high_vs big_v big_vs : ℕ) (keys_v keys_vs : Bool)
    (first : Result InvalidMetadata ℕ) (rest : ℕ → Result InvalidMetadata ℕ)
    → (entries + 1 ≤ 1024 → Verdict (depth + 1) (entries + 1) high_v big_v keys_v first)
    → (entries + 1 + big_v ≤ 1024
        → Verdict depth (entries + 1 + big_v) high_vs big_vs keys_vs (rest (entries + 1 + big_v)))
    → Verdict depth entries
        (max (high_v + 1) high_vs)
        (big_v + 1 + big_vs)
        (keys_v && keys_vs)
        (within_entries (entries + 1) (first >>= rest))
unfolding within_entries
element-Verdict depth entries high_v high_vs big_v big_vs keys_v keys_vs first rest one all =
    elim (Bool-cases (ltb max_metadata_entries (entries + 1))) [
      | inl many ↦ inr (ground arith, (too_many_entries, rw many refl))
      | inr few ↦ rw few (elim (one (ground arith)) [
        | inl (within, counted) ↦ rw counted (elim (all (ground (arith, within))) [
          | inl (behind, total) ↦ inl (ground (arith, within, behind), rw total (ground arith))
          | inr (outside, (e, refused)) ↦ inr (ground (arith, within, outside), (e, refused))
        ])
        | inr (outside, (e, refused)) ↦ inr (ground (arith, outside), (e, rw refused refl))
      ])
    ]

field-Verdict :
    (depth entries high_v high_vs big_v big_vs : ℕ) (key : Text) (keys_v keys_vs : Bool)
    (first : Result InvalidMetadata ℕ) (rest : ℕ → Result InvalidMetadata ℕ)
    → (entries + 1 ≤ 1024 → Verdict (depth + 1) (entries + 1) high_v big_v keys_v first)
    → (entries + 1 + big_v ≤ 1024
        → Verdict depth (entries + 1 + big_v) high_vs big_vs keys_vs (rest (entries + 1 + big_v)))
    → Verdict depth entries
        (max (high_v + 1) high_vs)
        (big_v + 1 + big_vs)
        (valid_string key 128 && (keys_v && keys_vs))
        (within_entries (entries + 1) (checked_key key (first >>= rest)))
unfolding checked_key
field-Verdict depth entries high_v high_vs big_v big_vs key keys_v keys_vs first rest one all =
    elim (Bool-cases (valid_string key 128)) [
      | inl named ↦ rw named (
          element-Verdict depth entries high_v high_vs big_v big_vs keys_v keys_vs first rest one
            all)
      | inr unnamed ↦ rw unnamed (
          unfold within_entries in
          elim (Bool-cases (ltb max_metadata_entries (entries + 1))) [
            | inl many ↦ inr (ground arith, (too_many_entries, rw many refl))
            | inr few ↦ inr (ground arith, (invalid_key, rw few refl))
          ])
    ]

mutual
  unfolding validate_value height size valid_keys

  value-Verdict :
      (depth entries : ℕ) (v : Value)
      → entries ≤ 1024
      → Verdict depth entries (height v) (size v) (valid_keys v) (validate_value depth entries v)
  value-Verdict depth entries null h = scalar-Verdict depth entries h
  value-Verdict depth entries (bool b) h = scalar-Verdict depth entries h
  value-Verdict depth entries (int n) h = scalar-Verdict depth entries h
  value-Verdict depth entries (float n s) h = scalar-Verdict depth entries h
  value-Verdict depth entries (text s) h = scalar-Verdict depth entries h
  value-Verdict depth entries (texts ss) h = scalar-Verdict depth entries h
  value-Verdict depth entries (array items) h =
      container-Verdict depth entries (height_items items) (size_items items)
        (valid_keys_items items) (validate_items depth entries items)
        (λ flat. items-Verdict depth entries items flat h)
  value-Verdict depth entries (object fields) h =
      container-Verdict depth entries (height_fields fields) (size_fields fields)
        (valid_keys_fields fields) (validate_fields depth entries fields)
        (λ flat. fields-Verdict depth entries fields flat h)

  items-Verdict :
      (depth entries : ℕ) (items : Items)
      → depth ≤ 8
      → entries ≤ 1024
      → Verdict depth entries
          (height_items items)
          (size_items items)
          (valid_keys_items items)
          (validate_items depth entries items)
  items-Verdict depth entries nil flat h = inl (ground arith, ground arith)
  items-Verdict depth entries (cons v items) flat h =
      element-Verdict depth entries (height v) (height_items items) (size v) (size_items items)
        (valid_keys v) (valid_keys_items items) (validate_value (depth + 1) (entries + 1) v)
        (λ n. validate_items depth n items) (λ few. value-Verdict (depth + 1) (entries + 1) v few)
        (λ few. items-Verdict depth (entries + 1 + size v) items flat few)

  fields-Verdict :
      (depth entries : ℕ) (fields : Fields)
      → depth ≤ 8
      → entries ≤ 1024
      → Verdict depth entries
          (height_fields fields)
          (size_fields fields)
          (valid_keys_fields fields)
          (validate_fields depth entries fields)
  fields-Verdict depth entries end flat h = inl (ground arith, ground arith)
  fields-Verdict depth entries (field key v fields) flat h =
      field-Verdict depth entries (height v) (height_fields fields) (size v) (size_fields fields)
        key (valid_keys v) (valid_keys_fields fields) (validate_value (depth + 1) (entries + 1) v)
        (λ n. validate_fields depth n fields) (λ few. value-Verdict (depth + 1) (entries + 1) v few)
        (λ few. fields-Verdict depth (entries + 1 + size v) fields flat few)

-- The walk over decoded metadata succeeds exactly when the value nests at most 8 deep, has at most
-- 1024 elements and fields at all levels together, and every key at any level is valid; it has then
-- counted all the elements and fields.
pub validate_value-ok_iff :
    (v : Value) (n : ℕ)
    → (validate_value 0 0 v ≡ ok n)
      ↔ ((height v ≤ 8) × (size v ≤ 1024) × (valid_keys v ≡ true) × (n ≡ size v))
validate_value-ok_iff v n = elim (value-Verdict 0 0 v (omega arith)) [
  | inl (within, counted) ↦
      (λ e. ground (arith, within, counted, e), λ h. counted ∙ ap ok (ground (arith, h)))
  | inr (outside, (e, refused)) ↦ (
    λ accepted. absurd (ground (arith, refused, accepted)),
    λ h. absurd (ground (arith, outside, h)),
  )
]
