-- ===== src/Navigation.antt =====
-- Navigation policies: packages/navigation-policy/src/index.ts, with the policy's type from
-- packages/contracts/src/session-creation.ts. `URL`, `URLPattern` and `JSON.parse` belong to the
-- platform and are a parameter, and so is the answer of the script interpreter.
pub mod Compiled
pub mod Decisions
pub mod Session
mod Examples
use browshare.Host.{Url, Json, null, str, object, Fields, Platform, key_names, find_field}
use mathlib.Core.Option
use text.Mathlib.Text.{◌==◌ as str_eq}
use browshare.Prelude.{
  Bool, true, false, Option, none, some, List, [], ◌∷◌, map, String, if◌then◌else◌, ◌&&◌, ◌||◌, not,
  Outcome, ok, throw, ◌>>=◌, ◌>>◌, throw_if,
}
use browshare.Script.{
  ScriptFailure, ScriptResult, value, failure, script_error, script_timeout, script_busy,
  script_invalid,
}

pub data Action : Type 0 where
  allow_remote deny redirect_remote prompt_remote open_local_prompt defer_to_script : Action

pub record Rule : Type 0 where
  pub id : String
  pub enabled : Bool
  pub pattern : String
  pub action : Action
  pub redirect_url : Option String

pub record NavigationPolicyContent : Type 0 where
  pub default_action : Action
  pub rules : List Rule
  pub policy_script : Option String

pub data Reason : Type 0 where
  rule default unsafe_url script : Reason
  script_failed : ScriptFailure → Reason

pub record NavigationEvaluation : Type 0 where
  pub action : Action
  pub matched_rule_id : Option String
  pub normalized_url : Option String
  pub redirect_url : Option String
  pub reason : Reason

pub data NavigationPolicyError : Type 0 where
  invalid_default_action : NavigationPolicyError
  duplicate_rule_id : String → NavigationPolicyError
  invalid_pattern : String → NavigationPolicyError
  invalid_redirect : String → NavigationPolicyError

-- A rule with its compiled pattern and its normalized redirect.
pub record CompiledRule : Type 0 where
  pub id : String
  pub enabled : Bool
  pub action : Action
  pub test : String → Bool
  pub redirect_url : Option String

pub record CompiledPolicy : Type 0 where
  pub default_action : Action
  pub rules : List CompiledRule
  pub policy_script : Option String

pub data Source : Type 0 where
  initial viewer document local_open : Source

pub record ScriptUser : Type 0 where
  pub id : String
  pub display_name : String

pub record ScriptSession : Type 0 where
  pub id : String
  pub profile_id : String

pub record NavigationScriptContext : Type 0 where
  pub source : Source
  pub current_url : Option String
  pub user : Option ScriptUser
  pub session : Option ScriptSession

-- The input of the policy script.
pub record ScriptInput : Type 0 where
  pub url : String
  pub source : Source
  pub current_url : Option String
  pub user : Option ScriptUser
  pub session : Option ScriptSession
  pub rule : Option (String × Action)

abbrev pub is_redirect : Action → Bool
is_redirect redirect_remote = true
is_redirect _ = false

abbrev pub is_defer : Action → Bool
is_defer defer_to_script = true
is_defer _ = false

abbrev pub is_default_action : Action → Bool
is_default_action allow_remote = true
is_default_action deny = true
is_default_action _ = false

-- `seen.has(id)`
abbrev pub has : List String → String → Bool
has [] id = false
has (x ∷ xs) id = str_eq x id || has xs id

-- The actions that a script's answer may name.
pub script_action : String → Option Action
script_action name =
    if str_eq name "ALLOW_REMOTE"
    then some allow_remote
    else if str_eq name "DENY"
    then some deny
    else if str_eq name "REDIRECT_REMOTE"
    then some redirect_remote
    else if str_eq name "PROMPT_REMOTE"
    then some prompt_remote
    else if str_eq name "OPEN_LOCAL_PROMPT"
    then some open_local_prompt
    else none

abbrev pub known_key : String → Bool
known_key key = str_eq key "action" || str_eq key "redirectUrl"

abbrev pub all_known : List String → Bool
all_known [] = true
all_known (k ∷ ks) = known_key k && all_known ks

-- The checks of `normalizeNavigationUrl` on a parsed address.
abbrev pub normalize_url : Option Url → Option String
normalize_url none = none
normalize_url (some url) =
    if (str_eq url.protocol "http:" || str_eq url.protocol "https:")
      && (str_eq url.username "" && str_eq url.password "")
    then some url.href
    else none

module _ (p : Platform) where
  -- `normalizeNavigationUrl` of a text.
  pub normalize : String → Option String
  normalize input = normalize_url (p.parse_url input)

  abbrev pub normalize_opt : Option String → Option String
  normalize_opt none = none
  normalize_opt (some input) = normalize input

  -- One round of the `map` in `compileNavigationPolicy`, `seen` holding the earlier identifiers.
  pub compile_rule : List String → Rule → Outcome NavigationPolicyError CompiledRule
  compile_rule seen r =
      if has seen r.id then throw (duplicate_rule_id r.id) else elim (p.compile_pattern r.pattern) [
        | none ↦ throw (invalid_pattern r.id)
        | some test ↦ elim (normalize_opt r.redirect_url) [
          | none ↦
              if is_redirect r.action
              then throw (invalid_redirect r.id)
              else ok (record {
                id = r.id;
                enabled = r.enabled;
                action = r.action;
                test = test;
                redirect_url = none;
              })
          | some url ↦ ok (record {
            id = r.id;
            enabled = r.enabled;
            action = r.action;
            test = test;
            redirect_url = some url;
          })
        ]
      ]

  pub compile_rules : List String → List Rule → Outcome NavigationPolicyError (List CompiledRule)
  compile_rules seen [] = ok []
  compile_rules seen (r ∷ rs) = do
    c ← compile_rule seen r
    cs ← compile_rules (r.id ∷ seen) rs
    ok (c ∷ cs)

  pub compile : NavigationPolicyContent → Outcome NavigationPolicyError CompiledPolicy
  compile policy = do
    throw_if (not (is_default_action policy.default_action)) invalid_default_action
    rules ← compile_rules [] policy.rules
    ok (record {
      default_action = policy.default_action;
      rules = rules;
      policy_script = policy.policy_script;
    })

-- `rules.find((candidate) => candidate.enabled && candidate.pattern.test(url))`
pub find_rule : String → List CompiledRule → Option CompiledRule
find_rule url [] = none
find_rule url (r ∷ rs) = if r.enabled && r.test url then some r else find_rule url rs

abbrev pub denied : NavigationEvaluation → Reason → NavigationEvaluation
denied base reason = record base { action = deny; redirect_url = none; reason = reason }

-- The evaluation before any script.
pub base_of : CompiledPolicy → String → Option CompiledRule → NavigationEvaluation
base_of policy url none = record {
  action = policy.default_action;
  matched_rule_id = none;
  normalized_url = some url;
  redirect_url = none;
  reason = default;
}
base_of policy url (some r) = record {
  action = if is_defer r.action then policy.default_action else r.action;
  matched_rule_id = some r.id;
  normalized_url = some url;
  redirect_url = if is_redirect r.action then r.redirect_url else none;
  reason = rule;
}

abbrev pub context_source : Option NavigationScriptContext → Source
context_source none = initial
context_source (some c) = c.source

abbrev pub context_url : Option NavigationScriptContext → Option String
context_url none = none
context_url (some c) = c.current_url

abbrev pub context_user : Option NavigationScriptContext → Option ScriptUser
context_user none = none
context_user (some c) = c.user

abbrev pub context_session : Option NavigationScriptContext → Option ScriptSession
context_session none = none
context_session (some c) = c.session

-- A field that is there and holds a text.
abbrev pub text_field : Option Json → Option String
text_field (some (str s)) = some s
text_field _ = none

abbrev pub is_some_json : Option Json → Bool
is_some_json none = false
is_some_json (some j) = true

abbrev pub action_of : Option Json → Option Action
action_of (some (str name)) = script_action name
action_of _ = none

-- A matching rule that does not defer is final.
abbrev pub is_structured : Option CompiledRule → Bool
is_structured none = false
is_structured (some r) = not (is_defer r.action)

module _ (p : Platform) where
  pub script_input : String → Option CompiledRule → Option NavigationScriptContext → ScriptInput
  script_input url matched context = record {
    url = url;
    source = context_source context;
    current_url = normalize_opt p (context_url context);
    user = context_user context;
    session = context_session context;
    rule = Option.map (λ r. (r.id, r.action)) matched;
  }

  -- An answer of a known shape: the redirect must be there for a redirect, and only then.
  pub accept_action : NavigationEvaluation → Action → Option Json → NavigationEvaluation
  accept_action base action target = elim (normalize_opt p (text_field target)) [
    | none ↦
        if is_redirect action || is_some_json target
        then denied base (script_failed script_invalid)
        else record base { action = action; redirect_url = none; reason = script }
    | some url ↦
        if is_redirect action
        then record base { action = action; redirect_url = some url; reason = script }
        else denied base (script_failed script_invalid)
  ]

  pub accept_fields : NavigationEvaluation → Fields → NavigationEvaluation
  accept_fields base fs = elim (action_of (find_field "action" fs)) [
    | none ↦ denied base (script_failed script_invalid)
    | some action ↦
        if all_known (key_names fs)
        then accept_action base action (find_field "redirectUrl" fs)
        else denied base (script_failed script_invalid)
  ]

  -- The parsed answer of the script.
  pub accept_json : NavigationEvaluation → Json → NavigationEvaluation
  accept_json base null = record base { reason = default }
  accept_json base (object fs) = accept_fields base fs
  accept_json base _ = denied base (script_failed script_invalid)

  pub accept : NavigationEvaluation → ScriptResult → NavigationEvaluation
  accept base (failure reason) = denied base (script_failed reason)
  accept base (value text) = elim (p.parse_json text) [
    | none ↦ denied base (script_failed script_invalid)
    | some j ↦ accept_json base j
  ]

  -- No structured rule decided: the script is asked, if there is one.
  pub ask :
      (String → ScriptInput → ScriptResult)
      → CompiledPolicy
      → String
      → Option NavigationScriptContext
      → Option CompiledRule
      → NavigationEvaluation
  ask run_script policy url context matched =
      let base = base_of policy url matched in
      elim policy.policy_script [
        | none ↦ record base { reason = default }
        | some source ↦ accept base (run_script source (script_input url matched context))
      ]

  pub decide :
      (String → ScriptInput → ScriptResult)
      → CompiledPolicy
      → String
      → Option NavigationScriptContext
      → Option CompiledRule
      → NavigationEvaluation
  decide run_script policy url context matched =
      if is_structured matched
      then base_of policy url matched
      else ask run_script policy url context matched

  -- The evaluator that `compileNavigationPolicy` returns; `run_script` is the interpreter's answer.
  pub evaluate :
      (String → ScriptInput → ScriptResult)
      → CompiledPolicy
      → String
      → Option NavigationScriptContext
      → NavigationEvaluation
  evaluate run_script policy input context = elim (normalize p input) [
    | none ↦ record {
      action = deny;
      matched_rule_id = none;
      normalized_url = none;
      redirect_url = none;
      reason = unsafe_url;
    }
    | some url ↦ decide run_script policy url context (find_rule url policy.rules)
  ]
