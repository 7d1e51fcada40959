-- ===== src/Config/Load/Profile.antt =====
-- Which profiles `validateSourceProfile` of internal/config/config.go accepts.
use mcp_server_for_mysql.Base.{
  ℕ, ◌+◌, ◌≤◌, true, false, not, List, [], ◌∷◌, ◌≢◌, ◌↔◌, ◌≡◌, refl, arith, All, length, Bytes,
  equal_iff, contains, ok, >>=-eq-ok,
}
use mcp_server_for_mysql.Sqlguard.Splitter.{is_nil}
use mcp_server_for_mysql.Config.Utf8.{valid_string, rune_count}
use mcp_server_for_mysql.Config.Model.{
  SourceConfig, ProfileField, max_display_name_runes, max_description_runes, max_profile_item_runes,
  max_aliases, max_keywords,
}
use mcp_server_for_mysql.Config.Load.{
  items_of, validate_required_profile_field, validate_items, validate_profile_items,
  validate_profile,
}

-- A text in UTF-8 of 1 to `max_runes` runes.
abbrev pub IsText : ℕ → Bytes → Type 0
IsText max_runes value = (value ≢ []) × (valid_string value ≡ true) × (rune_count value ≤ max_runes)

-- No item stands in the list twice.
abbrev pub IsDistinct : List Bytes → Type 0
IsDistinct [] = Unit
IsDistinct (x ∷ xs) = All (λ y. y ≢ x) xs × IsDistinct xs

abbrev pub IsItems : ℕ → List Bytes → Type 0
IsItems max_items items =
    (length items ≤ max_items) × All (IsText max_profile_item_runes) items × IsDistinct items

abbrev pub IsProfile : SourceConfig → Type 0
IsProfile s =
    IsText max_display_name_runes s.display_name
    × IsText max_description_runes s.description
    × IsItems max_aliases (items_of s.aliases)
    × IsItems max_keywords (items_of s.keywords)

pub not_nil_iff : (s : Bytes) → (not (is_nil s) ≡ true) ↔ (s ≢ [])
not_nil_iff [] = (λ h. cc, λ h. absurd (h refl))
not_nil_iff (c ∷ s) = (λ h. ground arith, λ h. refl)

-- Items that are neither `x` nor among those seen.
pub unseen_iff :
    (x : Bytes) (seen items : List Bytes)
    → All (λ y. contains y (x ∷ seen) ≡ false) items
      ↔ (All (λ y. y ≢ x) items × All (λ y. contains y seen ≡ false) items)
unseen_iff x seen [] = (λ h. (tt, tt), λ h. tt)
unseen_iff x seen (y ∷ items) =
    let ih = unseen_iff x seen items in
    let same = equal_iff y x in
    (
      λ h. ((apart (h.0), (ih.0 (h.1)).0), (before (h.0), (ih.0 (h.1)).1)),
      λ h. (joined (h.0.0) (h.1.0), ih.1 (h.0.1, h.1.1)),
    )
  where
    apart : contains y (x ∷ seen) ≡ false → y ≢ x
    apart h e = ground (arith, equal_iff y x)

    before : contains y (x ∷ seen) ≡ false → contains y seen ≡ false
    before h = ground arith

    joined : y ≢ x → contains y seen ≡ false → contains y (x ∷ seen) ≡ false
    joined ne h = ground (arith, equal_iff y x)

unseen-nil : (items : List Bytes) → All (λ y. contains y [] ≡ false) items
unseen-nil [] = tt
unseen-nil (y ∷ items) = (refl, unseen-nil items)

validate_required_profile_field_iff :
    (source_name : Bytes) (field : ProfileField) (value : Bytes) (max_runes : ℕ)
    → (validate_required_profile_field source_name field value max_runes ≡ ok tt)
      ↔ IsText max_runes value
unfolding validate_required_profile_field
validate_required_profile_field_iff source_name field value max_runes =
    (λ h. ground (arith, not_nil_iff value), λ h. ground (arith, not_nil_iff value))

validate_items_iff :
    (source_name : Bytes) (field : ProfileField) (i : ℕ) (seen items : List Bytes)
    → (validate_items source_name field i seen items ≡ ok tt) ↔ (
        All (IsText max_profile_item_runes) items
        × All (λ y. contains y seen ≡ false) items
        × IsDistinct items)
unfolding validate_items
validate_items_iff source_name field i seen [] = (λ h. (tt, tt, tt), λ h. refl)
validate_items_iff source_name field i seen (x ∷ items) =
    let ih = validate_items_iff source_name field (i + 1) (x ∷ seen) items in
    let new = unseen_iff x seen items in
    (
      λ h.
          let (text, free, rest) = passed h in
          let (texts, unseen, distinct) = ih.0 rest in
          let (others, before) = new.0 unseen in
          ((text, texts), (free, before), (others, distinct)),
      λ h. passes h.0.0 h.1.0 (ih.1 (h.0.1, new.1 (h.2.0, h.1.1), h.2.1)),
    )
  where
    passed :
        validate_items source_name field i seen (x ∷ items) ≡ ok tt
        → IsText max_profile_item_runes x
          × (contains x seen ≡ false)
          × (validate_items source_name field (i + 1) (x ∷ seen) items ≡ ok tt)
    passed h = (ground (arith, not_nil_iff x), ground arith, ground arith)

    passes :
        IsText max_profile_item_runes x
        → contains x seen ≡ false
        → validate_items source_name field (i + 1) (x ∷ seen) items ≡ ok tt
        → validate_items source_name field i seen (x ∷ items) ≡ ok tt
    passes text free rest = ground (arith, not_nil_iff x)

validate_profile_items_iff :
    (source_name : Bytes) (field : ProfileField) (items : List Bytes) (max_items : ℕ)
    → (validate_profile_items source_name field items max_items ≡ ok tt) ↔ IsItems max_items items
unfolding validate_profile_items
validate_profile_items_iff source_name field items max_items =
    let loop = validate_items_iff source_name field 0 [] items in
    (
      λ h.
          let (small, rest) = passed h in
          let (texts, _, distinct) = loop.0 rest in (small, texts, distinct),
      λ h. passes h.0 (loop.1 (h.1, unseen-nil items, h.2)),
    )
  where
    passed :
        validate_profile_items source_name field items max_items ≡ ok tt
        → (length items ≤ max_items) × (validate_items source_name field 0 [] items ≡ ok tt)
    passed h = ground arith

    passes :
        length items ≤ max_items
        → validate_items source_name field 0 [] items ≡ ok tt
        → validate_profile_items source_name field items max_items ≡ ok tt
    passes small rest = ground arith

-- A profile is accepted exactly when its name, its description and its items are within bounds
-- and in UTF-8, and no alias and no keyword stands twice.
pub validate_profile_iff : (s : SourceConfig) → (validate_profile s ≡ ok tt) ↔ IsProfile s
unfolding validate_profile
validate_profile_iff s =
    let n =
      validate_required_profile_field_iff s.name ProfileField.display_name s.display_name
        max_display_name_runes in
    let d =
      validate_required_profile_field_iff s.name ProfileField.description s.description
        max_description_runes in
    let a =
      validate_profile_items_iff s.name ProfileField.aliases (items_of s.aliases) max_aliases in
    let k =
      validate_profile_items_iff s.name ProfileField.keywords (items_of s.keywords) max_keywords in
    (
      λ h.
          let (_, p, h₁) =
            >>=-eq-ok
              (validate_required_profile_field s.name ProfileField.display_name s.display_name
                max_display_name_runes)
              _ h in
          let (_, q, h₂) =
            >>=-eq-ok
              (validate_required_profile_field s.name ProfileField.description s.description
                max_description_runes)
              _ h₁ in
          let (_, r, h₃) =
            >>=-eq-ok
              (validate_profile_items s.name ProfileField.aliases (items_of s.aliases) max_aliases)
              _ h₂ in
          (n.0 p, d.0 q, a.0 r, k.0 h₃),
      λ h. rw (n.1 h.0, d.1 h.1, a.1 h.2) (k.1 h.3),
    )
