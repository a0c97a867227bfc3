-- ===== src/Engagement/Kinds.antt =====
-- The catalog of engagement kinds, and the scores by kind. A score is an integer number of
-- thousandths.
pub mod Catalog
use flock_os.Base.Int.{ℤ, pos, negsuc, pos_part}
use flock_os.Base.{
  ℕ, ◌≤◌, min, ◌≡◌, ◌≢◌, refl, String, string_eq, ◌==◌, Bool, true, false, ◌||◌, List, [], ◌∷◌,
  ◌++◌, map, Option, none, some, Result, ok, err, arith, contains, if◌then◌else◌,
}

abbrev pub game_kinds : List String
game_kinds = "quiz_race" ∷ "tap_burst" ∷ "reaction" ∷ "bingo" ∷ "team_challenge" ∷ []

abbrev pub questionnaire_kinds : List String
questionnaire_kinds = "poll" ∷ "word_cloud" ∷ "qa" ∷ "pulse" ∷ []

abbrev pub all_kinds : List String
all_kinds = game_kinds ++ questionnaire_kinds

-- The exceptions of the module, by the check that raises.
pub data EngagementError : Type 0 where
  unknown_kind : String → EngagementError
  unknown_session : String → EngagementError
  illegal_transition : Option String → String → EngagementError
  not_live : String → EngagementError
  session_id_required identity_required secret_required : EngagementError
  bulk_failed : EngagementError

unfoldable pub engagement_type_for : String → Result EngagementError String
engagement_type_for kind =
    if contains game_kinds kind
    then ok "game"
    else if contains questionnaire_kinds kind
    then ok "questionnaire"
    else err (unknown_kind kind)

unfoldable pub validate_kind : String → Result EngagementError (Unit {0})
validate_kind kind = if contains all_kinds kind then ok tt else err (unknown_kind kind)

-- 100.0, in thousandths
abbrev pub full_score : ℕ
full_score = 100000

-- The result is in the range of the clamp, so it is no negative number.
unfoldable pub normalize_score : String → Option ℤ → Option ℕ
normalize_score kind none = none
normalize_score kind (some raw) =
    if contains questionnaire_kinds kind then none else some (min full_score (pos_part raw))

pub record EngagementKind : Type 0 where
  pub kind : String
  pub family : String
  pub component : String
  pub scored : Bool
  pub timed : Bool
  pub calm_checkin : Bool
  pub i18n_key : String

-- In the catalog exactly the timed kinds offer the calm check-in.
abbrev starter : String → String → String → Bool → Bool → String → EngagementKind
starter kind family component scored timed i18n_key = record {
  kind = kind;
  family = family;
  component = component;
  scored = scored;
  timed = timed;
  calm_checkin = timed;
  i18n_key = i18n_key;
}

abbrev pub engagement_catalog : List EngagementKind
engagement_catalog =
    starter "tap_burst" "game" "TapBurst" true true "Tap to Check In"
    ∷ starter "quiz_race" "game" "QuizRace" true true "Live Quiz Race"
    ∷ starter "reaction" "game" "ReactionTap" true true "Reaction Tap"
    ∷ starter "bingo" "game" "BingoCard" true false "Team Bingo"
    ∷ starter "team_challenge" "game" "TeamChallenge" true false "Team Challenge"
    ∷ starter "poll" "questionnaire" "LivePoll" false false "Live Poll"
    ∷ starter "word_cloud" "questionnaire" "WordCloud" false false "Word Cloud"
    ∷ starter "qa" "questionnaire" "LiveQA" false false "Live Q&A"
    ∷ starter "pulse" "questionnaire" "PulseSurvey" false false "Pulse Survey"
    ∷ []

abbrev find_kind : List EngagementKind → String → Option EngagementKind
find_kind [] kind = none
find_kind (k ∷ rest) kind = if k.kind == kind then some k else find_kind rest kind

unfoldable pub get_kind : String → Option EngagementKind
get_kind = find_kind engagement_catalog

unfoldable pub valid_kinds : List String
valid_kinds = map (λ k. k.kind) engagement_catalog
