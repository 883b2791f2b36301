-- ===== src/Ytdlp/Rendered.antt =====
-- The components of a rendered output path (ytdlp.rs).
use hofvarpnir.Base.{
  ℕ, ◌≤◌, ◌≡◌, ◌≢◌, refl, subst, Bool, true, false, List, [], ◌∷◌, ◌++◌, length, length-append, All,
  ◌⊎◌, inl, inr, ◌==◌, if◌then◌else◌, arith,
}
use hofvarpnir.Text.{Text}
use hofvarpnir.Text.Affix.{All-append}
use hofvarpnir.Gate.{Quality}
use hofvarpnir.Ytdlp.{OutputPreset, auto, browser, tv, policy_from}
use hofvarpnir.Ytdlp.Template.{
  trim, trim_end, ends_with, to_ascii_lowercase, OutputTemplateData, sanitize_filename_component,
  replace_placeholders, fallback_name, is_full, segments_of, with_extension, or_fallback, finish,
  finish_last, render_output_relative_path,
}
use hofvarpnir.Ytdlp.Trim.{trim_end-idempotent, trim_end-All}
use hofvarpnir.Ytdlp.Segments.{
  NoSlash, IsSafe, IsSafe-of_length, sanitize_filename_component-NoSlash, segments_of-AllSafe,
}
use hofvarpnir.Ytdlp.Extension.{
  with_extension-IsLong, drop_duplicates-IsLong, drop_duplicates-single,
}

abbrev pub last_name : List Text → Text
last_name [] = []
last_name (s ∷ []) = s
last_name (s ∷ t ∷ rest) = last_name (t ∷ rest)

last_name_cons :
    (s : Text) (names : List Text) → names ≢ [] → last_name (s ∷ names) ≡ last_name names
last_name_cons s [] some_ = absurd (some_ refl)
last_name_cons s (t ∷ rest) some_ = refl

-- There is a component, and each is safe; the forced extension does not stand twice at the end.
abbrev pub IsRendered : (ext : Text) → Bool → List Text → Type 0
IsRendered ext force path =
    (path ≢ [])
    × All IsSafe path
    × ((force ≡ false)
        ⊎ (ends_with (to_ascii_lowercase (b'.' ∷ ext ++ b'.' ∷ ext))
              (to_ascii_lowercase (last_name path))
            ≡ false))

module _ (safe_title safe_id ext : Text) (clean : NoSlash safe_title × NoSlash safe_id)
    (good_ext : (2 ≤ length ext) × NoSlash ext) where
  dashed-NoSlash : NoSlash (safe_title ++ b'-' ∷ safe_id)
  dashed-NoSlash =
      All-append (λ c. c ≢ b'/') safe_title (b'-' ∷ safe_id) clean.0 (ground arith, clean.1)

  fallback-NoSlash : (force : Bool) → NoSlash (fallback_name safe_title safe_id ext force)
  fallback-NoSlash true =
      All-append (λ c. c ≢ b'/') (safe_title ++ b'-' ∷ safe_id) (b'.' ∷ ext) dashed-NoSlash
        (ground arith, good_ext.1)
  fallback-NoSlash false = dashed-NoSlash

  dash-IsSafe : (s t : Text) → NoSlash (s ++ b'-' ∷ t) → IsSafe (s ++ b'-' ∷ t)
  dash-IsSafe [] t all = (
    (λ is. absurd (ground (arith, is))),
    (λ is. absurd (ground (arith, is))),
    (λ is. absurd (ground (arith, is))),
    all,
  )
  dash-IsSafe (c ∷ []) t all = (
    (λ is. absurd (ground (arith, is))),
    (λ is. absurd (ground (arith, is))),
    (λ is. absurd (ground (arith, is))),
    all,
  )
  dash-IsSafe (c ∷ d ∷ s) t all =
      IsSafe-of_length (c ∷ d ∷ s ++ b'-' ∷ t)
        (let e = length-append s (b'-' ∷ t) in omega (arith, e)) all

  -- Without its dots at the end, a name is no dot.
  undotted-IsSafe :
      (s : Text)
      → trim_end (λ c. c == b'.') s ≡ s
      → NoSlash s
      → IsSafe (or_fallback (fallback_name safe_title safe_id ext false) s)
  undotted-IsSafe [] is all = dash-IsSafe safe_title safe_id dashed-NoSlash
  undotted-IsSafe (c ∷ s) is all = (
    (λ e. absurd (cc)),
    (λ e. absurd (cc (subst (λ t. trim_end (λ c. c == b'.') t ≡ t) e is))),
    (λ e. absurd (cc (subst (λ t. trim_end (λ c. c == b'.') t ≡ t) e is))),
    all,
  )

  finish-IsSafe :
      (force : Bool) (s : Text) → NoSlash s → IsSafe (finish safe_title safe_id ext force s)
  unfolding finish
  finish-IsSafe true s all =
      let (long, still) =
        drop_duplicates-IsLong ext good_ext.1 (length (with_extension ext s)) (with_extension ext s)
          (with_extension-IsLong ext good_ext.1 s all) in
      IsSafe-of_length (finish safe_title safe_id ext true s) (omega (arith, long, good_ext)) still
  finish-IsSafe false s all =
      undotted-IsSafe (trim_end (λ c. c == b'.') s) (trim_end-idempotent (λ c. c == b'.') s)
        (trim_end-All (λ c. c == b'.') (λ c. c ≢ b'/') s all)

  finish-single :
      (force : Bool) (s : Text)
      → (force ≡ false)
        ⊎ (ends_with
              (to_ascii_lowercase (b'.' ∷ ext ++ b'.' ∷ ext))
              (to_ascii_lowercase (finish safe_title safe_id ext force s))
            ≡ false)
  unfolding finish
  finish-single true s = inr (
      drop_duplicates-single ext good_ext.1 (length (with_extension ext s)) (with_extension ext s)
        (omega arith))
  finish-single false s = inl refl

  finish_last-IsRendered :
      (force : Bool) (names : List Text)
      → All IsSafe names
      → IsRendered ext force (finish_last safe_title safe_id ext force names)
  finish_last-IsRendered force [] all = (
    (λ is. absurd (cc)),
    (finish-IsSafe force (fallback_name safe_title safe_id ext force) (fallback-NoSlash force), tt),
    finish-single force (fallback_name safe_title safe_id ext force),
  )
  finish_last-IsRendered force (s ∷ []) ((a, b, d, slash), all) =
      ((λ is. absurd (cc)), (finish-IsSafe force s slash, tt), finish-single force s)
  finish_last-IsRendered force (s ∷ t ∷ rest) (safe, all) =
      let (some_, safes, single) = finish_last-IsRendered force (t ∷ rest) all in
      (
        (λ is. absurd (cc)),
        (safe, safes),
        rw (last_name_cons s (finish_last safe_title safe_id ext force (t ∷ rest)) some_) single,
      )

container_ext-good :
    (quality : Quality) (preset : OutputPreset)
    → (2 ≤ length (policy_from quality preset).container_ext)
      × NoSlash (policy_from quality preset).container_ext
unfolding policy_from
container_ext-good quality auto = (omega arith, (ground arith, (ground arith, (ground arith, tt))))
container_ext-good quality browser =
    (omega arith, (ground arith, (ground arith, (ground arith, tt))))
container_ext-good quality tv = (omega arith, (ground arith, (ground arith, (ground arith, tt))))

-- Whatever the template and the texts of the video, if a dot, a dash and an underscore are no white
-- space, then the rendered path has a component, none of them is empty, a dot, two dots or has a
-- slash, and a forced extension of the policy does not stand twice at the end.
pub render_output_relative_path-IsRendered :
    (is_whitespace is_control : ℕ → Bool)
    (plain : (is_whitespace b'.' ≡ false)
      × (is_whitespace b'-' ≡ false)
      × (is_whitespace b'_' ≡ false))
    (template title platform_video_id : Text) (t : OutputTemplateData) (quality : Quality)
    (preset : OutputPreset) (force : Bool)
    → IsRendered (policy_from quality preset).container_ext force (
        render_output_relative_path is_whitespace is_control template title platform_video_id t
          (policy_from quality preset).container_ext
          force)
unfolding render_output_relative_path
render_output_relative_path-IsRendered is_whitespace is_control plain template title
      platform_video_id t quality preset force =
    let safe_title = sanitize_filename_component is_whitespace is_control title in
    let safe_id = sanitize_filename_component is_whitespace is_control platform_video_id in
    let ext = (policy_from quality preset).container_ext in
    let rendered =
      replace_placeholders is_whitespace is_control safe_title safe_id (if force then ext else []) t
        template in
    let named =
      if is_full (trim is_whitespace is_control rendered)
      then rendered
      else fallback_name safe_title safe_id ext force in
    finish_last-IsRendered safe_title safe_id ext
      (
        sanitize_filename_component-NoSlash is_whitespace is_control title,
        sanitize_filename_component-NoSlash is_whitespace is_control platform_video_id,
      )
      (container_ext-good quality preset) force (segments_of is_whitespace is_control named)
      (segments_of-AllSafe is_whitespace is_control plain named)
