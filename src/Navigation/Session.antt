-- ===== src/Navigation/Session.antt =====
-- The navigation authorizer of a Session: apps/worker/src/session-navigation.ts. A confirmation is
-- given by its body; its title and label are constant texts.
use mathlib.Core.Path.{subst}
use browshare.Host.{Platform}
use browshare.Prelude.{
  ℕ, zero, suc, ◌≡◌, sym, ap, ◌∙◌, ◌↔◌, ◌⊎◌, inl, inr, ◌≢◌, Bool, true, false, Option, none, some,
  String, ok, arith, ltb, if◌then◌else◌, Option-cases, or_else,
}
use browshare.Script.{ScriptResult}
use browshare.Navigation.{
  Action, allow_remote, deny, redirect_remote, prompt_remote, open_local_prompt, defer_to_script,
  Source, initial, local_open, ScriptUser, ScriptSession, NavigationPolicyContent,
  NavigationScriptContext, CompiledPolicy, NavigationEvaluation, ScriptInput, compile, evaluate,
  normalize,
}
use browshare.Navigation.Compiled.{IsNormal, normalize-IsNormal}
use browshare.Navigation.Decisions.{IsSafe, evaluate-IsSafe}

pub data RequestAction : Type 0 where
  go back forward reload local : RequestAction

pub record SessionNavigationRequest : Type 0 where
  pub action : RequestAction
  pub url : Option String
  pub source : Option Source  -- 'viewer' or 'document'
  pub current_url : Option String

pub record SessionNavigationDecision : Type 0 where
  pub allowed : Bool
  pub url : Option String
  pub reason : Option String
  pub confirmation : Option String

abbrev pub is_local : RequestAction → Bool
is_local local = true
is_local _ = false

abbrev pub is_history : RequestAction → Bool
is_history back = true
is_history forward = true
is_history reload = true
is_history _ = false

-- Lengths and prefixes of an address, whose characters are single code units.
abbrev pub str_length : String → ℕ
str_length String.[] = 0
str_length (String.◌∷◌ c s) = suc (str_length s)

abbrev pub str_take : ℕ → String → String
str_take zero s = ""
str_take (suc n) String.[] = ""
str_take (suc n) (String.◌∷◌ c s) = String.◌∷◌ c (str_take n s)

abbrev pub str_append : String → String → String
str_append String.[] t = t
str_append (String.◌∷◌ c s) t = String.◌∷◌ c (str_append s t)

pub confirmation_body : String → String
confirmation_body url =
    if ltb 2048 (str_length url) then str_append (str_take 2047 url) "…" else url

abbrev pub refused : String → SessionNavigationDecision
refused reason = record { allowed = false; url = none; reason = some reason; confirmation = none }

abbrev pub admitted : Option String → SessionNavigationDecision
admitted url = record { allowed = true; url = url; reason = none; confirmation = none }

-- What an evaluation means for the request that it answers.
unfoldable pub conclude : RequestAction → NavigationEvaluation → String → SessionNavigationDecision
unfolding confirmation_body
conclude action e url = elim e.action [
  | deny ↦ refused "Navigation is denied by the Session policy"
  | open_local_prompt ↦ record {
    allowed = is_local action;
    url = some url;
    reason = some "This address requires local-open confirmation";
    confirmation = none;
  }
  | prompt_remote ↦
      if is_local action
      then refused "This address is only allowed remotely"
      else record (admitted (some url)) { confirmation = some (confirmation_body url) }
  | redirect_remote ↦
      if is_local action
      then refused "This address is only allowed remotely"
      else admitted e.redirect_url
  | _ ↦
      if is_local action
      then refused "This address is only allowed remotely"
      else admitted (some url)
]

unfoldable pub respond : RequestAction → NavigationEvaluation → SessionNavigationDecision
respond action e = elim e.normalized_url [
  | none ↦ refused "Only HTTP and HTTPS navigation is allowed"
  | some url ↦ conclude action e url
]

abbrev pub request_source : SessionNavigationRequest → Source
request_source r = if is_local r.action then local_open else or_else r.source initial

-- The context of an evaluation.
abbrev pub request_context :
    Option ScriptUser → Option ScriptSession → SessionNavigationRequest → NavigationScriptContext
request_context user session r = record {
  source = request_source r;
  current_url = r.current_url;
  user = user;
  session = session;
}

-- Which evaluations let a request of this kind through.
abbrev pub Admits : RequestAction → Action → Type 0
Admits action decision =
    ((is_local action ≡ true) × (decision ≡ open_local_prompt))
    ⊎ ((is_local action ≡ false)
        × ((decision ≡ allow_remote) ⊎ (decision ≡ redirect_remote) ⊎ (decision ≡ prompt_remote)))

conclude-Admits :
    (a : RequestAction) (e : NavigationEvaluation) (url : String)
    → e.action ≢ defer_to_script
    → ((conclude a e url).allowed ≡ true) ↔ Admits a e.action
unfolding conclude
conclude-Admits a e url d = ground arith

conclude_url :
    (a : RequestAction) (e : NavigationEvaluation) (url : String)
    → (conclude a e url).allowed ≡ true
    → ((e.action ≡ redirect_remote) × ((conclude a e url).url ≡ e.redirect_url))
      ⊎ ((conclude a e url).url ≡ some url)
unfolding conclude
conclude_url a e url h = ground arith

module _ (p : Platform) where
  respond-IsNormal :
      (a : RequestAction) (input : String) (e : NavigationEvaluation)
      → IsSafe p input e
      → (respond a e).allowed ≡ true
      → (url : String) × ((respond a e).url ≡ some url) × IsNormal p url
  unfolding respond
  respond-IsNormal a input e v h = elim (Option-cases e.normalized_url) [
    | inl n ↦ absurd (ground arith)
    | inr (url, n) ↦
        let allowed : (conclude a e url).allowed ≡ true = rw (n, respond) at h in
        rw (n, respond)
          (elim (conclude_url a e url allowed) [
            | inl (red, same) ↦ let (to, at, normal) = v.redirects red in (to, same ∙ at, normal)
            | inr same ↦ (url, same, normalize-IsNormal p input url (sym v.address ∙ n))
          ])
  ]

  respond-Admits :
      (a : RequestAction) (input : String) (e : NavigationEvaluation)
      → IsSafe p input e
      → ((respond a e).allowed ≡ true) ↔ ((normalize p input ≢ none) × Admits a e.action)
  unfolding respond
  respond-Admits a input e v = elim (Option-cases e.normalized_url) [
    | inl n ↦ (λ h. absurd (ground arith), λ h. absurd (h.0 (sym v.address ∙ n)))
    | inr (url, n) ↦
        let safe : normalize p input ≢ none = λ z. ground arith in
        rw (n, respond)
          (
            λ h. (safe, (conclude-Admits a e url v.decided).0 h),
            λ h. (conclude-Admits a e url v.decided).1 h.1,
          )
  ]

  module _ (run_script : String → ScriptInput → ScriptResult) where
    -- The function that `createSessionNavigationAuthorizer` returns.
    unfoldable pub authorize :
        CompiledPolicy
        → Option ScriptUser
        → Option ScriptSession
        → SessionNavigationRequest
        → SessionNavigationDecision
    authorize policy user session r = elim r.url [
      | none ↦ record {
        allowed = is_history r.action;
        url = none;
        reason = none;
        confirmation = none;
      }
      | some input ↦
          respond r.action
            (evaluate p run_script policy input (some (request_context user session r)))
    ]

    authorize_history :
        (policy : CompiledPolicy) (user : Option ScriptUser) (session : Option ScriptSession)
        (r : SessionNavigationRequest)
        → r.url ≡ none
        → (authorize policy user session r).allowed ≡ is_history r.action
    unfolding authorize
    authorize_history policy user session r e = ground arith

    authorize_address :
        (policy : CompiledPolicy) (user : Option ScriptUser) (session : Option ScriptSession)
        (r : SessionNavigationRequest) (input : String)
        → r.url ≡ some input
        → authorize policy user session r
          ≡ respond r.action
              (evaluate p run_script policy input (some (request_context user session r)))
    unfolding authorize
    authorize_address policy user session r input e = ground arith

    -- Whatever the script answers, under a policy that compiles: a request is allowed to reach only
    -- an HTTP or HTTPS address without credentials, and one without an address only as a history
    -- command.
    pub authorize-IsNormal :
        (content : NavigationPolicyContent) (policy : CompiledPolicy) (user : Option ScriptUser)
        (session : Option ScriptSession) (r : SessionNavigationRequest)
        → compile p content ≡ ok policy
        → (authorize policy user session r).allowed ≡ true
        → ((r.url ≡ none) × (is_history r.action ≡ true))
          ⊎ ((url : String) × ((authorize policy user session r).url ≡ some url) × IsNormal p url)
    authorize-IsNormal content policy user session r c h = elim (Option-cases r.url) [
      | inl n ↦ inl (n, sym (authorize_history policy user session r n) ∙ h)
      | inr (input, u) ↦
          let e = evaluate p run_script policy input (some (request_context user session r)) in
          let same = authorize_address policy user session r input u in
          let safe = evaluate-IsSafe p run_script content policy input _ c in
          inr
            (rw same (respond-IsNormal r.action input e safe (sym (ap (λ d. d.allowed) same) ∙ h)))
    ]

    -- An address is reached exactly if it is safe and the evaluation admits a request of this kind:
    -- a local open needs the local prompt, and every other request a remote decision.
    pub authorize-Admits :
        (content : NavigationPolicyContent) (policy : CompiledPolicy) (user : Option ScriptUser)
        (session : Option ScriptSession) (r : SessionNavigationRequest) (input : String)
        → compile p content ≡ ok policy
        → r.url ≡ some input
        → ((authorize policy user session r).allowed ≡ true) ↔ (
            (normalize p input ≢ none)
            × Admits r.action
                (evaluate p run_script policy input (some (request_context user session r))).action)
    authorize-Admits content policy user session r input c u =
        let e = evaluate p run_script policy input (some (request_context user session r)) in
        let safe = evaluate-IsSafe p run_script content policy input _ c in
        subst (λ d. (d.allowed ≡ true) ↔ ((normalize p input ≢ none) × Admits r.action e.action))
          (sym (authorize_address policy user session r input u))
          (respond-Admits r.action input e safe)
