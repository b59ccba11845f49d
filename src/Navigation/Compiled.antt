-- ===== src/Navigation/Compiled.antt =====
-- What `compileNavigationPolicy` and `normalizeNavigationUrl` let pass.
use mathlib.Core.Path.{subst}
use text.Mathlib.Text.{◌==◌ as str_eq}
use text.Mathlib.TextEquality.{eq_iff}
use browshare.Host.{Url, Platform}
use browshare.Prelude.{
  ◌≡◌, refl, sym, ap, ◌∙◌, ◌≢◌, ◌⊎◌, inl, inr, Bool, true, false, if◌then◌else◌, ◌||◌, Option, none,
  some, List, [], ◌∷◌, String, ok, arith, All, Option-cases, ◌&&◌, bind_inversion, ok-injective,
  throw_if, not,
}
use browshare.Navigation.{
  Action, allow_remote, deny, Rule, NavigationPolicyContent, CompiledRule, CompiledPolicy,
  invalid_default_action, is_redirect, is_default_action, has, normalize_url, normalize,
  normalize_opt, compile_rule, compile_rules, compile,
}

pub plain_action :
    (a : Action)
    → throw_if (not (is_default_action a)) invalid_default_action ≡ ok tt
    → (a ≡ allow_remote) ⊎ (a ≡ deny)
plain_action a h = ground arith

when_some : (b : Bool) (x y : String) → (if b then some x else none) ≡ some y → (b ≡ true) × (x ≡ y)
when_some true x y h = (refl, cc)
when_some false x y h = cc

four_checks :
    (a b c d : Bool)
    → ((a || b) && (c && d)) ≡ true
    → ((a ≡ true) ⊎ (b ≡ true)) × (c ≡ true) × (d ≡ true)
four_checks true b true true h = (inl refl, refl, refl)
four_checks false true true true h = (inr refl, refl, refl)
four_checks true b true false h = cc
four_checks true b false d h = cc
four_checks false true true false h = cc
four_checks false true false d h = cc
four_checks false false c d h = cc

-- The tests of `normalizeNavigationUrl`, read as equations.
address_checks :
    (url : Url) (address : String)
    → normalize_url (some url) ≡ some address
    → (url.href ≡ address)
      × ((url.protocol ≡ "http:") ⊎ (url.protocol ≡ "https:"))
      × (url.username ≡ "")
      × (url.password ≡ "")
address_checks url address h =
    let (tests, same) = when_some _ url.href address h in
    let (scheme, user, secret) =
      four_checks (str_eq url.protocol "http:") (str_eq url.protocol "https:")
        (str_eq url.username "") (str_eq url.password "") tests in
    (
      same,
      elim scheme [
        | inl e ↦ inl ((eq_iff url.protocol "http:").0 e)
        | inr e ↦ inr ((eq_iff url.protocol "https:").0 e)
      ],
      (eq_iff url.username "").0 user,
      (eq_iff url.password "").0 secret,
    )

module _ (p : Platform) where
  -- The serialization of an HTTP or HTTPS address without credentials.
  abbrev pub IsNormal : String → Type 0
  IsNormal address =
      (input : String) × (url : Url) × (p.parse_url input ≡ some url)
      × (url.href ≡ address)
      × ((url.protocol ≡ "http:") ⊎ (url.protocol ≡ "https:"))
      × (url.username ≡ "")
      × (url.password ≡ "")

  -- What `normalizeNavigationUrl` returns is such a serialization.
  pub normalize-IsNormal :
      (input address : String) → normalize p input ≡ some address → IsNormal address
  unfolding normalize
  normalize-IsNormal input address h = elim (Option-cases (p.parse_url input)) [
    | inl e ↦ ground arith
    | inr (url, e) ↦
        let checked = address_checks url address (sym (ap (λ o. normalize_url o) e) ∙ h) in
        (input, url, e, checked.0, checked.1, checked.2, checked.3)
  ]

  -- A redirect rule has a target, and every target is normal.
  abbrev pub IsSound : CompiledRule → Type 0
  IsSound r =
      (is_redirect r.action ≡ true → (url : String) × (r.redirect_url ≡ some url) × IsNormal url)

  pub normalize_opt-IsNormal :
      (o : Option String) (url : String) → normalize_opt p o ≡ some url → IsNormal url
  normalize_opt-IsNormal none url h = cc
  normalize_opt-IsNormal (some input) url h = normalize-IsNormal input url h

  -- What a compiled rule keeps of its source.
  compile_rule_redirect :
      (seen : List String) (r : Rule) (c : CompiledRule) (o : Option String)
      → normalize_opt p r.redirect_url ≡ o
      → compile_rule p seen r ≡ ok c
      → (is_redirect c.action ≡ true → o ≢ none)
        × (c.redirect_url ≡ o)
        × (c.id ≡ r.id)
        × (has seen r.id ≡ false)
  unfolding compile_rule
  compile_rule_redirect seen r c o e h = ground arith

  compile_rule-IsSound :
      (seen : List String) (r : Rule) (c : CompiledRule)
      → compile_rule p seen r ≡ ok c
      → IsSound c × (c.id ≡ r.id) × (has seen r.id ≡ false)
  compile_rule-IsSound seen r c h =
      let (needs, kept, same, fresh) = compile_rule_redirect seen r c _ refl h in
      (
        λ red. elim (Option-cases (normalize_opt p r.redirect_url)) [
          | inl e ↦ absurd (needs red e)
          | inr (url, e) ↦ (url, kept ∙ e, normalize_opt-IsNormal r.redirect_url url e)
        ],
        same,
        fresh,
      )

  -- The identifiers of the rules differ from one another and from those seen before.
  abbrev pub AreFresh : List String → List CompiledRule → Type 0
  AreFresh seen [] = Unit {0}
  AreFresh seen (c ∷ cs) = (has seen c.id ≡ false) × AreFresh (c.id ∷ seen) cs

  compile_rules-IsSound :
      (seen : List String) (rs : List Rule) (cs : List CompiledRule)
      → compile_rules p seen rs ≡ ok cs
      → All IsSound cs × AreFresh seen cs
  unfolding compile_rules
  compile_rules-IsSound seen [] cs h = rw (← ok-injective h) (tt, tt)
  compile_rules-IsSound seen (r ∷ rs) cs h =
      let (c, first, rest) = bind_inversion (compile_rule p seen r) _ h in
      let (ds, later, whole) = bind_inversion (compile_rules p (r.id ∷ seen) rs) _ rest in
      let (sound, same, fresh) = compile_rule-IsSound seen r c first in
      let (sounds, freshes) = compile_rules-IsSound (r.id ∷ seen) rs ds later in
      subst (λ xs. All IsSound xs × AreFresh seen xs) (ok-injective whole)
        ((sound, sounds), (rw same fresh, rw same freshes))

  -- A policy that compiles has a plain default action, distinct rule identifiers, and a safe target
  -- for every redirect.
  pub compile-IsSound :
      (policy : NavigationPolicyContent) (c : CompiledPolicy)
      → compile p policy ≡ ok c
      → ((c.default_action ≡ allow_remote) ⊎ (c.default_action ≡ deny))
        × All IsSound c.rules
        × AreFresh [] c.rules
  unfolding compile
  compile-IsSound policy c h =
      let (_, plain, rest) =
        bind_inversion
          (throw_if (not (is_default_action policy.default_action)) invalid_default_action) _ h in
      let (cs, rules, whole) = bind_inversion (compile_rules p [] policy.rules) _ rest in
      let (sounds, fresh) = compile_rules-IsSound [] policy.rules cs rules in
      subst
        (λ x.
          ((x.default_action ≡ allow_remote) ⊎ (x.default_action ≡ deny))
          × All IsSound x.rules
          × AreFresh [] x.rules)
        (ok-injective whole) (plain_action policy.default_action plain, sounds, fresh)
