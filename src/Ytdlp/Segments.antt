-- ===== src/Ytdlp/Segments.antt =====
-- The segments of a rendered template (ytdlp.rs).
use hofvarpnir.Base.{
  ℕ, ◌≤◌, ◌≡◌, ◌≢◌, ap, sym, ◌∙◌, subst, Bool, true, false, List, [], ◌∷◌, map, length, filter_if,
  All, Bool-cases, inl, inr, arith,
}
use hofvarpnir.Text.{Text, codes, equal_text, split}
use hofvarpnir.Ytdlp.Template.{
  replace, trim_start, trim_end, trim, sanitized, sanitize_filename_component, is_name, is_full,
  segments_of,
}
use hofvarpnir.Ytdlp.Trim.{
  Starts, trim_start-Starts, trim_end-Starts, trim_start-of_Starts, trim_end-idempotent,
  trim_start-All, trim_end-All, map-Starts, trim_end-map,
}

abbrev pub NoSlash : Text → Type 0
NoSlash = All (λ c. c ≢ b'/')

-- A component that names something in its directory.
abbrev pub IsSafe : Text → Type 0
IsSafe s = (s ≢ []) × (s ≢ codes ".") × (s ≢ codes "..") × NoSlash s

-- Three characters are neither a dot nor two.
pub IsSafe-of_length : (s : Text) → 3 ≤ length s → NoSlash s → IsSafe s
IsSafe-of_length s long clean = (
  (λ is. absurd (omega (arith, ap length is, long))),
  (λ is. absurd (omega (arith, ap length is, long))),
  (λ is. absurd (omega (arith, ap length is, long))),
  clean,
)

module _ (is_whitespace is_control : ℕ → Bool) where
  IsSafe-of_name : (s : Text) → is_name s ≡ true → NoSlash s → IsSafe s
  unfolding equal_text
  IsSafe-of_name s name clean = (
    (λ is. absurd (cc (subst (λ t. is_name t ≡ true) is name))),
    (λ is. absurd (cc (subst (λ t. is_name t ≡ true) is name))),
    (λ is. absurd (cc (subst (λ t. is_name t ≡ true) is name))),
    clean,
  )

  sanitized-NoSlash : (s : Text) → NoSlash (map (sanitized is_whitespace is_control) s)
  sanitized-NoSlash [] = tt
  sanitized-NoSlash (c ∷ s) = (ground arith, sanitized-NoSlash s)

  pub sanitize_filename_component-NoSlash :
      (s : Text) → NoSlash (sanitize_filename_component is_whitespace is_control s)
  unfolding sanitize_filename_component
  sanitize_filename_component-NoSlash s =
      trim_end-All is_whitespace (λ c. c ≢ b'/')
        (trim_start is_whitespace (map (sanitized is_whitespace is_control) s))
        (trim_start-All is_whitespace (λ c. c ≢ b'/') (map (sanitized is_whitespace is_control) s)
          (sanitized-NoSlash s))

  -- The name is not made of dots by the replacement of its characters.
  is_name-map :
      (s : Text) → is_name s ≡ true → is_name (map (sanitized is_whitespace is_control) s) ≡ true
  unfolding equal_text
  is_name-map [] name = name
  is_name-map (a ∷ []) name = ground arith
  is_name-map (a ∷ b ∷ []) name = ground arith
  is_name-map (a ∷ b ∷ c ∷ s) name = ground arith

  module _
      (plain : (is_whitespace b'.' ≡ false)
        × (is_whitespace b'-' ≡ false)
        × (is_whitespace b'_' ≡ false)) where
    stays :
        (c : ℕ)
        → is_whitespace c ≡ false
        → is_whitespace (sanitized is_whitespace is_control c) ≡ false
    stays c in_ = ground (arith, plain, in_)

    -- A segment that is trimmed and a name stays one.
    sanitize-IsSafe :
        (raw : Text)
        → is_name (trim is_whitespace is_control raw) ≡ true
        → IsSafe (
            sanitize_filename_component is_whitespace is_control
              (trim is_whitespace is_control raw))
    unfolding sanitize_filename_component
    sanitize-IsSafe raw name =
        let t : Text = trim is_whitespace is_control raw in
        let starts : Starts is_whitespace t =
          trim_end-Starts is_whitespace (trim_start is_whitespace raw)
            (trim_start-Starts is_whitespace raw) in
        let ends : trim_end is_whitespace t ≡ t =
          trim_end-idempotent is_whitespace (trim_start is_whitespace raw) in
        let f : ℕ → ℕ = sanitized is_whitespace is_control in
        let whole : sanitize_filename_component is_whitespace is_control t ≡ map f t =
          ap (trim_end is_whitespace) (
            trim_start-of_Starts is_whitespace (map f t)
              (map-Starts is_whitespace f stays t starts))
          ∙ trim_end-map is_whitespace f stays t ends in
        subst IsSafe (sym whole)
          (IsSafe-of_name (map f t) (is_name-map t name) (sanitized-NoSlash t))

    names_of-AllSafe :
        (raws : List Text)
        → All IsSafe (
            map
              (sanitize_filename_component is_whitespace is_control)
              (filter_if is_name (map (trim is_whitespace is_control) raws)))
    names_of-AllSafe [] = tt
    names_of-AllSafe (raw ∷ raws) =
        elim (Bool-cases (is_name (trim is_whitespace is_control raw))) [
          | inl name ↦ rw (name) (sanitize-IsSafe raw name, names_of-AllSafe raws)
          | inr other ↦ rw (other) (names_of-AllSafe raws)
        ]

    filter-AllSafe :
        (p : Text → Bool) (names : List Text) → All IsSafe names → All IsSafe (filter_if p names)
    filter-AllSafe p [] all = tt
    filter-AllSafe p (s ∷ names) (safe, all) = elim (Bool-cases (p s)) [
      | inl in_ ↦ rw (in_) (safe, filter-AllSafe p names all)
      | inr out ↦ rw (out) (filter-AllSafe p names all)
    ]

    pub segments_of-AllSafe :
        (rendered : Text) → All IsSafe (segments_of is_whitespace is_control rendered)
    unfolding segments_of
    segments_of-AllSafe rendered =
        filter-AllSafe is_full _
          (names_of-AllSafe (split (codes "/") (replace (codes "\\") (codes "/") rendered)))
