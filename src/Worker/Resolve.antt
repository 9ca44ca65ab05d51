-- ===== src/Worker/Resolve.antt =====
-- internal/job/job.go: reresolveProfile, by which a job takes the profile of the mappings of today.
use recodarr.Prelude.Paths.{is_empty}
use recodarr.Store.Rows.{JobRow, TagMappingRow}
use recodarr.Worker.Situation.{Situation}
use recodarr.Prelude.{
  ℕ, Bool, true, false, ◌||◌, Text, codes, text_eq, List, [], ◌∷◌, Option, none, some, ◌==◌,
  if◌then◌else◌,
}

-- `idx[m.TagLabel] = m.ProfileID`, where the last mapping of a label counts, read at a label.
unfoldable pub profile_of_label : List TagMappingRow → Text → Option ℕ
profile_of_label [] t = none
profile_of_label (m ∷ ms) t = elim (profile_of_label ms t) [
  | some p ↦ some p
  | none ↦ if text_eq m.tag_label t then some m.profile_id else none
]

-- The first tag that has a profile.
unfoldable pub resolve_tags : List TagMappingRow → List Text → Option ℕ
unfolding profile_of_label
resolve_tags ms [] = none
resolve_tags ms (t ∷ ts) = elim (profile_of_label ms t) [
  | some p ↦ some p
  | none ↦ resolve_tags ms ts
]

abbrev same_profile : Option ℕ → Option ℕ → Bool
same_profile none none = true
same_profile (some a) (some b) = a == b
same_profile _ _ = false

abbrev changed_profile : Option ℕ → Option ℕ → Option ℕ × Bool
changed_profile old new = if same_profile new old then (old, false) else (new, true)

-- The profile that the mappings of today give the job, and whether it is another one.
unfoldable pub reresolve_profile : Situation → JobRow → Option ℕ × Bool
unfolding resolve_tags
reresolve_profile env j =
    if is_empty j.tags || text_eq j.tags (codes "[]")
    then (j.profile_id, false)
    else elim env.tags_json [
      | none ↦ (j.profile_id, false)
      | some tags ↦ if is_empty tags then (j.profile_id, false) else elim env.mappings [
        | none ↦ (j.profile_id, false)
        | some ms ↦ changed_profile j.profile_id (resolve_tags ms tags)
      ]
    ]
