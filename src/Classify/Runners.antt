-- ===== src/Classify/Runners.antt =====
-- internal/classify/runners.go and pr_commit.go, with internal/cmdnorm/cmdnorm.go: which commands
-- are verification runs, pull requests and commits.
use agentpulse_bridge.Base.{
  ℕ, zero, suc, Bool, true, false, Option, none, some, String, List, [], ◌∷◌, ◌==◌, if◌then◌else◌,
  length, drop,
}
use agentpulse_bridge.Base.Text.{Text, trim_space}
use agentpulse_bridge.Classify.Event.{
  Kind, test, Runner, pytest, jest, vitest, mocha, npm, go, cargo, swift, xcodebuild,
}
use agentpulse_bridge.Classify.Event
use agentpulse_bridge.Classify.Env.{Regexp}

abbrev pub env_assignment_pattern : String
env_assignment_pattern = "^[A-Za-z_][A-Za-z0-9_]*=\\S*\\s+"

abbrev pub cd_prefix_pattern : String
cd_prefix_pattern = "^cd\\s+\\S+\\s*(&&|;)\\s*"

abbrev pub gh_pr_create_pattern : String
gh_pr_create_pattern = "^gh\\s+pr\\s+create\\b"

abbrev pub git_commit_pattern : String
git_commit_pattern = "^git\\s+commit\\b"

abbrev pub pull_url_pattern : String
pull_url_pattern = "pull/(\\d+)"

abbrev pub go_verbose_flag_pattern : String
go_verbose_flag_pattern = "(^|\\s)-v(\\s|$)"

pub record RunnerDef : Type 0 where
  pub id : Runner
  pub kind : Kind
  pub patterns : List String

abbrev pub runner_table : List RunnerDef
runner_table =
    (record {
      id = pytest;
      kind = test;
      patterns =
          "^(python3?|py) -m pytest\\b" ∷ "^pytest\\b" ∷ "^uv run pytest\\b"
          ∷ "^poetry run pytest\\b" ∷ [];
    })
    ∷ (record {
      id = jest;
      kind = test;
      patterns = "^jest\\b" ∷ "^npx jest\\b" ∷ "^pnpm jest\\b" ∷ "^yarn jest\\b" ∷ [];
    })
    ∷ (record {
      id = vitest;
      kind = test;
      patterns = "^vitest\\b" ∷ "^npx vitest\\b" ∷ "^pnpm vitest\\b" ∷ "^yarn vitest\\b" ∷ [];
    })
    ∷ (record { id = mocha; kind = test; patterns = "^mocha\\b" ∷ "^npx mocha\\b" ∷ [] })
    ∷ (record { id = npm; kind = test; patterns = "^(npm|pnpm|yarn|bun) (run )?test\\b" ∷ [] })
    ∷ (record { id = go; kind = test; patterns = "^go test\\b" ∷ [] })
    ∷ (record { id = cargo; kind = test; patterns = "^cargo (test|nextest run)\\b" ∷ [] })
    ∷ (record { id = swift; kind = test; patterns = "^swift test\\b" ∷ [] })
    ∷ (record { id = xcodebuild; kind = test; patterns = "^xcodebuild\\b.*\\btest\\b" ∷ [] })
    ∷ (record {
      id = Event.Runner.build;
      kind = Event.Kind.build;
      patterns =
          "^(npm|pnpm|yarn|bun) run build\\b" ∷ "^go build\\b" ∷ "^cargo build\\b"
          ∷ "^swift build\\b" ∷ "^xcodebuild\\b" ∷ "^make( |$)" ∷ [];
    })
    ∷ []

pub record Detected : Type 0 where
  pub id : Runner
  pub kind : Kind
  pub go_verbose : Bool

module _ (re : Regexp) where
  -- The text of a match, empty if there is none.
  abbrev whole : Option (List Text) → Text
  whole none = []
  whole (some []) = []
  whole (some (m ∷ groups)) = m

  -- What one round of the loop takes off the front; empty when the loop stops.
  abbrev prefix_of : Text → Text → Text
  prefix_of [] cd = cd
  prefix_of (c ∷ assignment) cd = c ∷ assignment

  abbrev leading : Text → Text
  leading s =
      prefix_of (whole (re.find env_assignment_pattern s)) (whole (re.find cd_prefix_pattern s))

  abbrev strip_or_stop : (Text → Text) → Text → Text → Text
  strip_or_stop again s [] = s
  strip_or_stop again s (c ∷ m) = again (trim_space (drop (suc (length m)) s))

  -- Every round but the last takes a character at least, so the text's length is fuel enough.
  unfoldable pub strip_loop : ℕ → Text → Text
  unfolding trim_space
  strip_loop zero s = s
  strip_loop (suc fuel) s = strip_or_stop (λ t. strip_loop fuel t) s (leading s)

  unfoldable pub strip_leading_env_and_cd : Text → Text
  unfolding strip_loop
  strip_leading_env_and_cd cmd = strip_loop (suc (length cmd)) (trim_space cmd)

  abbrev before_bar : Text → Text
  before_bar [] = []
  before_bar (c ∷ s) = let rest = before_bar s in if c == b'|' then [] else c ∷ rest

  unfoldable pub first_pipeline_segment : Text → Text
  unfolding trim_space
  first_pipeline_segment cmd = trim_space (before_bar cmd)

  unfoldable pub normalize : Text → Text
  unfolding first_pipeline_segment strip_leading_env_and_cd
  normalize cmd = first_pipeline_segment (strip_leading_env_and_cd cmd)

  abbrev pub any_match : List String → Text → Bool
  any_match [] seg = false
  any_match (p ∷ ps) seg = if re.is_match p seg then true else any_match ps seg

  unfoldable pub detect_in : List RunnerDef → Text → Option Detected
  detect_in [] seg = none
  detect_in (r ∷ rs) seg =
      if any_match r.patterns seg
      then some (record {
        id = r.id;
        kind = r.kind;
        go_verbose = re.is_match go_verbose_flag_pattern seg;
      })
      else detect_in rs seg

  unfoldable pub detect_runner : Text → Option Detected
  unfolding normalize detect_in
  detect_runner command = detect_in runner_table (normalize command)
