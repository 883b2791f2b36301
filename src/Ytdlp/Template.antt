-- ===== src/Ytdlp/Template.antt =====
-- The output paths of crates/hof-core/src/ytdlp.rs, rendered from a profile's naming template.
use hofvarpnir.Base.{
  ℕ, zero, suc, ◌+◌, ◌-◌, Bool, true, false, not, ◌&&◌, ◌||◌, Option, none, some, List, [], ◌∷◌,
  ◌++◌, map, length, take, filter_if, is_some, is_some_and, ltb, leb, ◌==◌, if◌then◌else◌,
}
use hofvarpnir.Text.{Text, codes, equal_text, strip_prefix, split, format}

-- `str::replace`, for a pattern that is not empty; `skip` characters of one that was found are left.
unfoldable pub replace_after : (pattern with_text : Text) (skip : ℕ) → Text → Text
unfolding strip_prefix
replace_after pattern with_text skip [] = []
replace_after pattern with_text (suc skip) (c ∷ s) = replace_after pattern with_text skip s
replace_after pattern with_text zero (c ∷ s) = elim (is_some (strip_prefix pattern (c ∷ s))) [
  | true ↦ with_text ++ replace_after pattern with_text (length pattern - 1) s
  | false ↦ c ∷ replace_after pattern with_text 0 s
]

unfoldable pub replace : (pattern with_text : Text) → Text → Text
unfolding replace_after
replace pattern with_text s = replace_after pattern with_text 0 s

-- `trim_start_matches` and `trim_end_matches` of the characters that a test holds for.
abbrev pub trim_start : (ℕ → Bool) → Text → Text
trim_start p [] = []
trim_start p (c ∷ s) = let rest = trim_start p s in if p c then rest else c ∷ s

abbrev pub ended_by : (ℕ → Bool) → ℕ → Text → Text
ended_by p c [] = if p c then [] else c ∷ []
ended_by p c (d ∷ rest) = c ∷ d ∷ rest

abbrev pub trim_end : (ℕ → Bool) → Text → Text
trim_end p [] = []
trim_end p (c ∷ s) = ended_by p c (trim_end p s)

abbrev pub ends_with : Text → Text → Bool
ends_with pattern [] = equal_text [] pattern
ends_with pattern (c ∷ s) = let later = ends_with pattern s in equal_text (c ∷ s) pattern || later

abbrev pub ascii_lowercase : ℕ → ℕ
ascii_lowercase c = if leb b'A' c && leb c b'Z' then c + 32 else c

abbrev pub to_ascii_lowercase : Text → Text
to_ascii_lowercase s = map ascii_lowercase s

-- What stands after the last dot, if there is one.
abbrev pub after_last_dot : Text → Option Text
after_last_dot [] = none
after_last_dot (c ∷ s) = elim (after_last_dot s) [
  | some e ↦ some e
  | none ↦ if c == b'.' then some s else none
]

-- `Path::extension` of a file name: a first character that is a dot does not begin an extension.
unfoldable pub extension : Text → Option Text
extension [] = none
extension (c ∷ s) = if equal_text (c ∷ s) (codes "..") then none else after_last_dot s

-- What the template's data show; chrono prints the dates.
pub record OutputTemplateData : Type 0 where
  pub source_name : Text
  pub season_year : Text
  pub episode_year : Text
  pub episode_date : Text
  pub episode_index : ℕ
  pub fallback_title : Text

-- `{:03}`.
abbrev pub padded : Text → Text
padded s = if ltb (length s) 2 then b'0' ∷ b'0' ∷ s else if ltb (length s) 3 then b'0' ∷ s else s

abbrev pub season_episode : OutputTemplateData → Text
season_episode t =
    codes "S"
    ++ (t.season_year
        ++ (codes "E" ++ (t.episode_date ++ (codes "-" ++ padded (format t.episode_index)))))

-- The separators and the other characters that a file name may not have.
abbrev pub is_reserved : ℕ → Bool
is_reserved c =
    c == b'/'
    || c == b'\\'
    || c == b':'
    || c == b'*'
    || c == b'?'
    || c == b'"'
    || c == b'<'
    || c == b'>'
    || c == b'|'

abbrev pub fallback_name : (safe_title safe_id ext : Text) → Bool → Text
fallback_name safe_title safe_id ext true = (safe_title ++ b'-' ∷ safe_id) ++ b'.' ∷ ext
fallback_name safe_title safe_id ext false = safe_title ++ b'-' ∷ safe_id

-- A segment that names something below its directory.
abbrev pub is_name : Text → Bool
is_name [] = false
is_name (c ∷ s) = not (equal_text (c ∷ s) (codes ".")) && not (equal_text (c ∷ s) (codes ".."))

abbrev pub is_full : Text → Bool
is_full [] = false
is_full (c ∷ s) = true

-- Each round takes one of two extensions away.
unfoldable pub drop_duplicates : (fuel : ℕ) (ext : Text) → Text → Text
drop_duplicates zero ext s = s
drop_duplicates (suc fuel) ext s =
    elim (ends_with (to_ascii_lowercase (b'.' ∷ ext ++ b'.' ∷ ext)) (to_ascii_lowercase s)) [
      | true ↦ drop_duplicates fuel ext (take (length s - (length ext + 1)) s)
      | false ↦ s
    ]

unfoldable pub with_extension : (ext : Text) → Text → Text
unfolding extension
with_extension ext s =
    if is_some_and (extension s) (λ e. equal_text (to_ascii_lowercase e) (to_ascii_lowercase ext))
    then s
    else s ++ b'.' ∷ ext

abbrev pub or_fallback : Text → Text → Text
or_fallback fallback [] = fallback
or_fallback fallback (c ∷ s) = c ∷ s

-- What becomes of the last segment.
unfoldable pub finish : (safe_title safe_id ext : Text) → Bool → Text → Text
unfolding drop_duplicates with_extension
finish safe_title safe_id ext true s =
    let s' = with_extension ext s in drop_duplicates (length s') ext s'
finish safe_title safe_id ext false s =
    or_fallback (fallback_name safe_title safe_id ext false) (trim_end (λ c. c == b'.') s)

abbrev pub finish_last : (safe_title safe_id ext : Text) → Bool → List Text → List Text
finish_last safe_title safe_id ext force [] =
    finish safe_title safe_id ext force (fallback_name safe_title safe_id ext force) ∷ []
finish_last safe_title safe_id ext force (s ∷ []) = finish safe_title safe_id ext force s ∷ []
finish_last safe_title safe_id ext force (s ∷ t ∷ rest) =
    s ∷ finish_last safe_title safe_id ext force (t ∷ rest)

module _ (is_whitespace is_control : ℕ → Bool) where
  abbrev pub trim : Text → Text
  trim s = trim_end is_whitespace (trim_start is_whitespace s)

  abbrev pub sanitized : ℕ → ℕ
  sanitized c = if is_reserved c || is_control c then b'_' else c

  unfoldable pub sanitize_filename_component : Text → Text
  sanitize_filename_component value = trim (map sanitized value)

  -- The placeholders in the order of their replacement.
  unfoldable pub replace_placeholders :
      (safe_title safe_id ext : Text) → OutputTemplateData → Text → Text
  unfolding replace sanitize_filename_component
  replace_placeholders safe_title safe_id ext t template =
      let safe_source = sanitize_filename_component t.source_name in
      let s1 = replace (codes "{{ext}}") ext (replace (codes "{{ ext }}") ext template) in
      let s2 =
        replace (codes "{{title}}") safe_title (replace (codes "{{ title }}") safe_title s1) in
      let s3 = replace (codes "{{id}}") safe_id (replace (codes "{{ id }}") safe_id s2) in
      let s4 =
        replace (codes "{{year}}") t.episode_year
          (replace (codes "{{ year }}") t.episode_year s3) in
      let s5 =
        replace (codes "{{source_custom_name/or default}}") safe_source
          (replace (codes "{{ source_custom_name/or default }}") safe_source s4) in
      let s6 =
        replace (codes "{{source_custom_name_or_default}}") safe_source
          (replace (codes "{{ source_custom_name_or_default }}") safe_source s5) in
      let s7 =
        replace (codes "{{season_by_year__episode_by_date_and_index}}") (season_episode t) (
          replace (codes "{{ season_by_year__episode_by_date_and_index }}") (season_episode t)
            s6) in
      let s8 = replace (codes "{id}") safe_id (replace (codes "{title}") safe_title s7) in
      replace (codes "%(ext)s") ext
        (replace (codes "{ext}") ext (replace (codes "{year}") t.episode_year s8))

  unfoldable pub segments_of : Text → List Text
  unfolding replace split sanitize_filename_component
  segments_of rendered = filter_if is_full (
      map sanitize_filename_component (
        filter_if is_name
          (map trim (split (codes "/") (replace (codes "\\") (codes "/") rendered)))))

  -- The path by its components.
  unfoldable pub render_output_relative_path :
      (template title platform_video_id : Text)
      → OutputTemplateData
      → (ext : Text) → Bool
      → List Text
  unfolding sanitize_filename_component replace_placeholders segments_of finish
  render_output_relative_path template title platform_video_id t ext force =
      let safe_title = sanitize_filename_component title in
      let safe_id = sanitize_filename_component platform_video_id in
      let rendered =
        replace_placeholders safe_title safe_id (if force then ext else []) t template in
      finish_last safe_title safe_id ext force (
        segments_of (
          if is_full (trim rendered) then rendered else fallback_name safe_title safe_id ext force))
