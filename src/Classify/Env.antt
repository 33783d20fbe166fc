-- ===== src/Classify/Env.antt =====
-- internal/classify: what the handlers take from outside: the regular expression engine, hashing,
-- the clock's text form, JSON decoding, the file system walk for a project's root, and random ids.
use agentpulse_bridge.Base.{ℕ, Bool, Option, String, List, Bytes}
use agentpulse_bridge.Base.Text.{Text}
use agentpulse_bridge.Classify.Event.{Os}
use agentpulse_bridge.Classify.Input.{ToolInputFields}

-- Go's regexp, by the pattern's text. A match is the list of its groups, the whole match first; a
-- group that took no part is empty.
pub record Regexp : Type 0 where
  pub is_match : String → Text → Bool
  pub find : String → Text → Option (List Text)
  pub find_all : String → Text → List (List Text)

pub record Env : Type 0 where
  pub regexp : Regexp
  pub sha256_hex : Text → String
  pub hash_path : String → String
  pub subagent_id : String → String
  pub project_key : Text → Text
  pub new_ulid : ℕ → String
  pub format_ts : ℕ → String
  pub decode_tool_input : Bytes → ToolInputFields
  pub extract_response_text : Bytes → Text
  pub os : Os
  pub wall_clock : ℕ
