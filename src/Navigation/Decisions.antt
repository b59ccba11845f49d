-- ===== src/Navigation/Decisions.antt =====
-- What an evaluation may decide.
use mathlib.Core.Path.{subst}
use browshare.Host.{Json, object, null, Platform, find_field, key_names, Fields}
use browshare.Prelude.{
  ◌≡◌, refl, sym, ap, ◌≢◌, ◌⊎◌, inl, inr, true, false, Option, none, some, List, [], ◌∷◌, ◌++◌,
  String, ok, arith, All, Bool-cases, Option-cases, ◌&&◌, if◌then◌else◌,
}
use browshare.Script.{ScriptResult, ScriptFailure, script_invalid, value, failure}
use browshare.Navigation.{
  Action, allow_remote, deny, redirect_remote, defer_to_script, NavigationPolicyContent, Reason,
  rule, default, unsafe_url, script, script_failed, NavigationEvaluation, CompiledRule,
  CompiledPolicy, NavigationScriptContext, ScriptInput, is_redirect, is_defer, normalize,
  normalize_opt, compile, find_rule, base_of, is_structured, action_of, denied, all_known,
  text_field, script_input, accept_action, accept_fields, accept_json, accept, evaluate, ask,
  decide, script_action,
}
use browshare.Navigation.Compiled.{IsNormal, IsSound, normalize_opt-IsNormal, compile-IsSound}

-- A rule applies to an address.
abbrev pub Applies : String → CompiledRule → Type 0
Applies url r = (r.enabled ≡ true) × (r.test url ≡ true)

-- The first rule that applies decides: those before it do not apply, and without one none does.
pub find_rule-IsFirst :
    (url : String) (rs : List CompiledRule)
    → ((find_rule url rs ≡ none) × All (λ r. ¬ Applies url r) rs)
      ⊎ ((before : List CompiledRule) × (r : CompiledRule) × (after : List CompiledRule)
          × (find_rule url rs ≡ some r)
          × (rs ≡ before ++ r ∷ after)
          × All (λ q. ¬ Applies url q) before
          × Applies url r)
unfolding find_rule
find_rule-IsFirst url [] = inl (refl, tt)
find_rule-IsFirst url (r ∷ rs) = elim (Bool-cases (r.enabled && r.test url)) [
  | inl yes_ ↦ inr ([], r, rs, rw yes_, refl, tt, ground arith)
  | inr no_ ↦ elim (find_rule-IsFirst url rs) [
    | inl (e, h) ↦ inl (rw no_ e, (ground arith, h))
    | inr (before, q, after, e, split, h, a) ↦
        inr (r ∷ before, q, after, rw no_ e, ap (λ xs. r ∷ xs) split, (ground arith, h), a)
  ]
]

module _ (p : Platform) where
  -- What every evaluation satisfies.
  pub record IsSafe (input : String) (e : NavigationEvaluation) : Type 0 where
    pub address : e.normalized_url ≡ normalize p input
    pub decided : e.action ≢ defer_to_script
    pub redirects :
        e.action ≡ redirect_remote → (url : String) × (e.redirect_url ≡ some url) × IsNormal p url
    pub plain : e.action ≢ redirect_remote → e.redirect_url ≡ none
    pub unsafe_denied : normalize p input ≡ none → e.action ≡ deny
    pub failed_denied : (f : ScriptFailure) → e.reason ≡ script_failed f → e.action ≡ deny

  -- What holds before a script is asked.
  abbrev IsBase : String → NavigationEvaluation → Type 0
  IsBase url base =
      (base.normalized_url ≡ some url)
      × (base.action ≢ defer_to_script)
      × (base.action ≢ redirect_remote)
      × (base.redirect_url ≡ none)
      × (base.reason ≢ unsafe_url)
      × ((f : ScriptFailure) → base.reason ≢ script_failed f)

  denied-IsSafe :
      (input url : String) (base : NavigationEvaluation) (r : Reason)
      → normalize p input ≡ some url
      → IsBase url base
      → IsSafe input (denied base r)
  denied-IsSafe input url base r n h = record {
    address = ground arith;
    decided = ground arith;
    redirects = λ e. cc;
    plain = λ _. refl;
    unsafe_denied = λ _. refl;
    failed_denied = λ _ _. refl;
  }

  -- The three ways in which an answer of a known shape ends.
  accept_action_cases :
      (base : NavigationEvaluation) (a : Action) (target : Option Json) (o : Option String)
      → normalize_opt p (text_field target) ≡ o
      → (accept_action p base a target ≡ denied base (script_failed script_invalid))
        ⊎ ((is_redirect a ≡ false)
            × (accept_action p base a target
                ≡ record base { action = a; redirect_url = none; reason = script }))
        ⊎ ((to : String) × (is_redirect a ≡ true)
            × (o ≡ some to)
            × (accept_action p base a target
                ≡ record base { action = a; redirect_url = some to; reason = script }))
  unfolding accept_action
  accept_action_cases base a target none e = ground arith
  accept_action_cases base a target (some to) e = ground arith

  accept_action-IsSafe :
      (input url : String) (base : NavigationEvaluation) (a : Action) (target : Option Json)
      → normalize p input ≡ some url
      → IsBase url base
      → a ≢ defer_to_script
      → IsSafe input (accept_action p base a target)
  accept_action-IsSafe input url base a target n h d =
      let o = normalize_opt p (text_field target) in
      elim (accept_action_cases base a target o refl) [
        | inl bad ↦
            subst (IsSafe input) (sym bad)
              (denied-IsSafe input url base (script_failed script_invalid) n h)
        | inr (inl (other, e)) ↦ subst (IsSafe input) (sym e) (record {
          address = ground arith;
          decided = d;
          redirects = λ r. absurd (ground arith);
          plain = λ _. refl;
          unsafe_denied = λ z. absurd (ground arith);
          failed_denied = λ f z. cc;
        })
        | inr (inr (to, red, found, e)) ↦ subst (IsSafe input) (sym e) (record {
          address = ground arith;
          decided = d;
          redirects = λ _. (to, refl, normalize_opt-IsNormal p _ to found);
          plain = λ r. absurd (ground arith);
          unsafe_denied = λ z. absurd (ground arith);
          failed_denied = λ f z. cc;
        })
      ]

  accept_fields-IsSafe :
      (input url : String) (base : NavigationEvaluation) (fs : Fields) (o : Option Action)
      → action_of (find_field "action" fs) ≡ o
      → normalize p input ≡ some url
      → IsBase url base
      → o ≢ some defer_to_script
      → IsSafe input (accept_fields p base fs)
  unfolding accept_fields
  accept_fields-IsSafe input url base fs none e n h d =
      rw (e, accept_fields) (denied-IsSafe input url base (script_failed script_invalid) n h)
  accept_fields-IsSafe input url base fs (some a) e n h d =
      rw (e, accept_fields)
        (elim (Bool-cases (all_known (key_names fs))) [
          | inl known ↦ rw known (
              accept_action-IsSafe input url base a (find_field "redirectUrl" fs) n h
                (λ q. d (ap some q)))
          | inr other ↦ rw other (denied-IsSafe input url base (script_failed script_invalid) n h)
        ])

  script_action-ne-defer : (o : Option Json) → action_of o ≢ some defer_to_script
  unfolding script_action
  script_action-ne-defer o = ground arith

  base-IsSafe :
      (input url : String) (base : NavigationEvaluation)
      → normalize p input ≡ some url
      → IsBase url base
      → IsSafe input (record base { reason = default })
  base-IsSafe input url base n h = record {
    address = ground arith;
    decided = h.1;
    redirects = λ r. absurd (h.2 r);
    plain = λ _. h.3;
    unsafe_denied = λ z. absurd (ground arith);
    failed_denied = λ f z. cc;
  }

  accept_json-IsSafe :
      (input url : String) (base : NavigationEvaluation) (j : Json)
      → normalize p input ≡ some url
      → IsBase url base
      → IsSafe input (accept_json p base j)
  unfolding accept_json
  accept_json-IsSafe input url base null n h = base-IsSafe input url base n h
  accept_json-IsSafe input url base (object fs) n h =
      accept_fields-IsSafe input url base fs (action_of (find_field "action" fs)) refl n h
        (script_action-ne-defer (find_field "action" fs))
  accept_json-IsSafe input url base _ n h =
      denied-IsSafe input url base (script_failed script_invalid) n h

  accept-IsSafe :
      (input url : String) (base : NavigationEvaluation) (r : ScriptResult)
      → normalize p input ≡ some url
      → IsBase url base
      → IsSafe input (accept p base r)
  unfolding accept
  accept-IsSafe input url base (failure f) n h = denied-IsSafe input url base (script_failed f) n h
  accept-IsSafe input url base (value text) n h = elim (Option-cases (p.parse_json text)) [
    | inl e ↦ rw (e, accept) (denied-IsSafe input url base (script_failed script_invalid) n h)
    | inr (j, e) ↦ rw (e, accept) (accept_json-IsSafe input url base j n h)
  ]

  base_of-IsBase :
      (policy : CompiledPolicy) (url : String) (matched : Option CompiledRule)
      → (policy.default_action ≡ allow_remote) ⊎ (policy.default_action ≡ deny)
      → is_structured matched ≡ false
      → IsBase url (base_of policy url matched)
  unfolding base_of
  base_of-IsBase policy url none h s = (refl, ground arith, ground arith, refl, cc, λ f. cc)
  base_of-IsBase policy url (some r) h s =
      (refl, ground arith, ground arith, ground arith, cc, λ f. cc)

  structured-IsSafe :
      (policy : CompiledPolicy) (input url : String) (r : CompiledRule)
      → normalize p input ≡ some url
      → IsSound p r
      → is_defer r.action ≡ false
      → IsSafe input (base_of policy url (some r))
  unfolding base_of
  structured-IsSafe policy input url r n sound h = record {
    address = ground arith;
    decided = ground arith;
    redirects = λ e.
        let red : is_redirect r.action ≡ true = ground arith in
        let (to, at, normal) = sound red in (to, ground arith, normal);
    plain = ground arith;
    unsafe_denied = λ z. absurd (ground arith);
    failed_denied = λ f z. cc;
  }

  asked-IsSafe :
      (run_script : String → ScriptInput → ScriptResult) (policy : CompiledPolicy)
      (input url : String) (context : Option NavigationScriptContext)
      (matched : Option CompiledRule)
      → normalize p input ≡ some url
      → IsBase url (base_of policy url matched)
      → IsSafe input (ask p run_script policy url context matched)
  unfolding ask
  asked-IsSafe run_script policy input url context matched n h =
      elim (Option-cases policy.policy_script) [
        | inl e ↦ rw (e, ask) (base-IsSafe input url (base_of policy url matched) n h)
        | inr (source, e) ↦
            rw (e, ask)
              (accept-IsSafe input url (base_of policy url matched)
                (run_script source (script_input p url matched context)) n h)
      ]

  find_rule-IsSound :
      (url : String) (rs : List CompiledRule) (r : CompiledRule)
      → All (IsSound p) rs
      → find_rule url rs ≡ some r
      → IsSound p r
  unfolding find_rule
  find_rule-IsSound url [] r h e = cc
  find_rule-IsSound url (q ∷ rs) r h e = elim (Bool-cases (q.enabled && q.test url)) [
    | inl hit ↦ let same : q ≡ r = ground arith in subst (IsSound p) same h.0
    | inr miss ↦ find_rule-IsSound url rs r h.1 (rw miss at e)
  ]

  -- The part of `evaluate` behind the normal form, for any matched rule.
  matched-IsSafe :
      (run_script : String → ScriptInput → ScriptResult) (policy : CompiledPolicy)
      (input url : String) (context : Option NavigationScriptContext)
      (matched : Option CompiledRule)
      → normalize p input ≡ some url
      → (policy.default_action ≡ allow_remote) ⊎ (policy.default_action ≡ deny)
      → ((r : CompiledRule) → matched ≡ some r → IsSound p r)
      → IsSafe input (decide p run_script policy url context matched)
  unfolding decide
  matched-IsSafe run_script policy input url context none n plain sound =
      asked-IsSafe run_script policy input url context none n
        (base_of-IsBase policy url none plain refl)
  matched-IsSafe run_script policy input url context (some r) n plain sound =
      elim (Bool-cases (is_defer r.action)) [
        | inl defers ↦ simp defers (
            asked-IsSafe run_script policy input url context (some r) n
              (base_of-IsBase policy url (some r) plain (ground arith)))
        | inr final ↦ simp final (structured-IsSafe policy input url r n (sound r refl) final)
      ]

  -- Every evaluation under a compiled policy, whatever the script answers: it is about the normal
  -- form of the address; it decides, and never defers; a redirect, and nothing else, has a target,
  -- which is an HTTP or HTTPS address without credentials; an unsafe address and a failed script
  -- are denied.
  pub evaluate-IsSafe :
      (run_script : String → ScriptInput → ScriptResult) (content : NavigationPolicyContent)
      (policy : CompiledPolicy) (input : String) (context : Option NavigationScriptContext)
      → compile p content ≡ ok policy
      → IsSafe input (evaluate p run_script policy input context)
  unfolding evaluate
  evaluate-IsSafe run_script content policy input context ok_ =
      let (plain, sounds, _) = compile-IsSound p content policy ok_ in
      elim (Option-cases (normalize p input)) [
        | inl e ↦
            rw (e, evaluate)
              (record {
                address = sym e;
                decided = λ z. cc;
                redirects = λ z. cc;
                plain = λ _. refl;
                unsafe_denied = λ _. refl;
                failed_denied = λ f z. cc;
              })
        | inr (url, e) ↦
            rw (e, evaluate)
              (matched-IsSafe run_script policy input url context (find_rule url policy.rules) e
                plain (λ r found. find_rule-IsSound url policy.rules r sounds found))
      ]

find_rule-of_first :
    (url : String) (before after : List CompiledRule) (r : CompiledRule)
    → All (λ q. ¬ Applies url q) before
    → Applies url r
    → find_rule url (before ++ r ∷ after) ≡ some r
unfolding find_rule
find_rule-of_first url [] after r h a = ground arith
find_rule-of_first url (q ∷ before) after r h a =
    ground (arith, find_rule-of_first url before after r h.1 a, h.0)

-- The first rule that applies to a safe address is final unless it defers: whatever the later rules
-- are and the script would answer, the decision has its action, its identifier, the address and, for a
-- redirect and nothing else, its target.
pub evaluate-first_rule :
    (p : Platform) (run_script : String → ScriptInput → ScriptResult) (policy : CompiledPolicy)
    (input url : String) (context : Option NavigationScriptContext)
    (before after : List CompiledRule) (r : CompiledRule)
    → normalize p input ≡ some url
    → policy.rules ≡ before ++ r ∷ after
    → All (λ q. ¬ Applies url q) before
    → Applies url r
    → r.action ≢ defer_to_script
    → let e = evaluate p run_script policy input context in
      (e.action ≡ r.action)
      × (e.matched_rule_id ≡ some r.id)
      × (e.normalized_url ≡ some url)
      × (e.redirect_url ≡ (if is_redirect r.action then r.redirect_url else none))
      × (e.reason ≡ rule)
unfolding evaluate decide base_of
evaluate-first_rule p run_script policy input url context before after r n split h a final =
    let found : find_rule url policy.rules ≡ some r =
      rw split (find_rule-of_first url before after r h a) in
    ground arith
