-- ===== src/Navigation/Examples.antt =====
-- A policy over a small platform, and the theorems at it.
use text.Mathlib.Text.{◌==◌ as str_eq}
use browshare.Host.{Url, str, object, end, field, Platform}
use browshare.Prelude.{
  ◌≡◌, refl, ◌↔◌, ◌≢◌, ◌⊎◌, true, Option, none, some, List, [], ◌∷◌, ◌++◌, String, ok, All,
  if◌then◌else◌,
}
use browshare.Script.{ScriptResult, value}
use browshare.Navigation.{
  allow_remote, deny, redirect_remote, Rule, NavigationPolicyContent, CompiledRule, CompiledPolicy,
  ScriptInput, rule, viewer, normalize, compile_rule, compile_rules, compile, find_rule, base_of,
  script_action, script_input, accept_action, accept_fields, accept_json, accept, ask, decide,
  evaluate,
}
use browshare.Navigation.Compiled.{IsNormal, IsSound, AreFresh, compile-IsSound}
use browshare.Navigation.Decisions.{
  Applies, IsSafe, find_rule-IsFirst, evaluate-IsSafe, evaluate-first_rule,
}
use browshare.Navigation.Session.{
  SessionNavigationRequest, go, is_history, request_context, Admits, conclude, respond, authorize,
  authorize-IsNormal, authorize-Admits,
}

machine : Unit {0}
unfolding normalize compile_rule compile_rules compile find_rule base_of script_action script_input
    accept_action accept_fields accept_json accept ask decide evaluate conclude respond authorize
machine = tt

abbrev web : String → Url
web href = record {
  protocol = "https:";
  username = "";
  password = "";
  href = href;
  search = "";
  hash = "";
}

abbrev parse : String → Option Url
parse text =
    if str_eq text "https://a/"
    then some (web "https://a/")
    else if str_eq text "https://b/"
    then some (web "https://b/")
    else none

abbrev host : Platform
host = record {
  parse_url = parse;
  compile_pattern = λ pattern. some (λ url. str_eq pattern url);
  parse_json = λ text. some (
      object (field "action" (str "REDIRECT_REMOTE") (field "redirectUrl" (str "https://b/") end)));
}

abbrev redirected : Rule
redirected = record {
  id = "r1";
  enabled = true;
  pattern = "https://a/";
  action = redirect_remote;
  redirect_url = some "https://b/";
}

abbrev content : NavigationPolicyContent
content = record { default_action = deny; rules = redirected ∷ []; policy_script = some "s" }

abbrev compiled_rule : CompiledRule
compiled_rule = record {
  id = "r1";
  enabled = true;
  action = redirect_remote;
  test = λ url. str_eq "https://a/" url;
  redirect_url = some "https://b/";
}

abbrev compiled : CompiledPolicy
compiled = record { default_action = deny; rules = compiled_rule ∷ []; policy_script = some "s" }

compile_runs : compile host content ≡ ok compiled
unfolding machine
compile_runs = refl

abbrev script : String → ScriptInput → ScriptResult
script source input = value "answer"

-- The rule sends one address on, and the script the other.
evaluate_runs :
    ((evaluate host script compiled "https://a/" none).redirect_url ≡ some "https://b/")
    × ((evaluate host script compiled "https://a/" none).reason ≡ rule)
    × ((evaluate host script compiled "https://b/" none).redirect_url ≡ some "https://b/")
    × ((evaluate host script compiled "ftp://a/" none).action ≡ deny)
unfolding machine
evaluate_runs = (refl, refl, refl, refl)

compile-IsSound_example :
    ((deny ≡ allow_remote) ⊎ (deny ≡ deny))
    × All (IsSound host) (compiled_rule ∷ [])
    × AreFresh host [] (compiled_rule ∷ [])
compile-IsSound_example = compile-IsSound host content compiled compile_runs

find_rule-IsFirst_example :
    ((find_rule "https://a/" (compiled_rule ∷ []) ≡ none)
      × All (λ r. ¬ Applies "https://a/" r) (compiled_rule ∷ []))
    ⊎ ((before : List CompiledRule) × (r : CompiledRule) × (after : List CompiledRule) × (find_rule
            "https://a/"
            (compiled_rule ∷ [])
          ≡ some r)
        × (compiled_rule ∷ [] ≡ before ++ r ∷ after)
        × All (λ q. ¬ Applies "https://a/" q) before
        × Applies "https://a/" r)
find_rule-IsFirst_example = find_rule-IsFirst "https://a/" (compiled_rule ∷ [])

evaluate-IsSafe_example : IsSafe host "https://b/" (evaluate host script compiled "https://b/" none)
evaluate-IsSafe_example =
    evaluate-IsSafe host script content compiled "https://b/" none compile_runs

evaluate-first_rule_example :
    let e = evaluate host script compiled "https://a/" none in
    (e.action ≡ redirect_remote)
    × (e.matched_rule_id ≡ some "r1")
    × (e.normalized_url ≡ some "https://a/")
    × (e.redirect_url ≡ compiled_rule.redirect_url)
    × (e.reason ≡ rule)
unfolding machine
evaluate-first_rule_example =
    evaluate-first_rule host script compiled "https://a/" "https://a/" none [] [] compiled_rule refl
      refl tt (refl, refl) (λ e. cc)

abbrev request : SessionNavigationRequest
request = record { action = go; url = some "https://a/"; source = some viewer; current_url = none }

authorize-IsNormal_example :
    ((request.url ≡ none) × (is_history go ≡ true))
    ⊎ ((url : String) × ((authorize host script compiled none none request).url ≡ some url)
        × IsNormal host url)
unfolding machine
authorize-IsNormal_example =
    authorize-IsNormal host script content compiled none none request compile_runs refl

authorize-Admits_example : ((authorize host script compiled none none request).allowed ≡ true) ↔ (
    (normalize host "https://a/" ≢ none)
    × Admits go
        (evaluate host script compiled "https://a/"
          (some (request_context none none request))).action)
authorize-Admits_example =
    authorize-Admits host script content compiled none none request "https://a/" compile_runs refl
