-- ===== src/Engagement/Kinds/Catalog.antt =====
-- The catalog, its two lists of kinds, and the scores.
use flock_os.Engagement.Kinds.{
  EngagementError, unknown_kind, engagement_type_for, validate_kind, EngagementKind, get_kind,
}
use flock_os.Base.{
  ◌≡◌, String, string_eq, Option, none, some, is_some, Result, ok, err, if◌then◌else◌, arith,
}

abbrev pub family_of : String → Option EngagementKind → Result EngagementError String
family_of kind none = err (unknown_kind kind)
family_of kind (some k) = ok k.family

-- The family of a kind is the one that its catalog entry names; a kind without an entry has none,
-- and is exactly one that `validate_kind` refuses.
pub engagement_type_for-get_kind :
    (kind : String)
    → (engagement_type_for kind ≡ family_of kind (get_kind kind))
      × (validate_kind kind ≡ (if is_some (get_kind kind) then ok tt else err (unknown_kind kind)))
unfolding engagement_type_for validate_kind get_kind
engagement_type_for-get_kind kind = (ground arith, ground arith)
