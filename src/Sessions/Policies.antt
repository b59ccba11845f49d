-- ===== src/Sessions/Policies.antt =====
-- Which recycling policy a Session gets: `resolveSessionPolicy` of
-- apps/backend/src/services/session-policy-rules.ts. The tables are lists; an identity is a number.
pub mod Highest
use mathlib.Core.Path.{subst}
use browshare.Prelude.{
  ℕ, ◌≤◌, ◌<◌, ◌≡◌, refl, sym, ap, ◌∙◌, ◌⊎◌, inl, inr, Bool, true, false, Option, none, some, List,
  [], ◌∷◌, arith, ltb, leb, ◌==◌, ◌&&◌, ◌||◌, not, if◌then◌else◌, includes, In, Bool-cases,
}
use browshare.Prelude.Int.{ℤ, lt_ℤ, same_ℤ, same_ℤ-true, lt_ℤ-cases, lt_ℤ-trans}
use browshare.Recycling.{SessionPolicyValues, default_session_policy}

pub data PolicyScope : Type 0 where
  global user_profile user_profile_group : PolicyScope

-- A row of `session_policies`.
pub record SessionPolicy : Type 0 where
  pub id : ℕ
  pub scope : PolicyScope
  pub user_id : Option ℕ
  pub profile_id : Option ℕ
  pub profile_group_id : Option ℕ
  pub values : SessionPolicyValues

-- A Profile group with its members.
pub record ProfileGroup : Type 0 where
  pub id : ℕ
  pub priority : ℤ
  pub enabled : Bool
  pub deleted : Bool
  pub members : List ℕ

pub record ResolvedSessionPolicy : Type 0 where
  pub scope : PolicyScope
  pub policy_id : Option ℕ
  pub profile_group_id : Option ℕ
  pub priority : Option ℤ
  pub values : SessionPolicyValues

-- A column that is null equals nothing.
abbrev pub is_value : ℕ → Option ℕ → Bool
is_value n none = false
is_value n (some m) = m == n

abbrev pub has_scope : PolicyScope → PolicyScope → Bool
has_scope global global = true
has_scope user_profile user_profile = true
has_scope user_profile_group user_profile_group = true
has_scope _ _ = false

abbrev pub find_policy : (SessionPolicy → Bool) → List SessionPolicy → Option SessionPolicy
find_policy test [] = none
find_policy test (p ∷ ps) = if test p then some p else find_policy test ps

abbrev pub is_direct : ℕ → ℕ → SessionPolicy → Bool
is_direct user profile p =
    has_scope user_profile p.scope && (is_value user p.user_id && is_value profile p.profile_id)

-- The rows of the join of policies, groups and members.
abbrev pub is_candidate : ℕ → ℕ → SessionPolicy → ProfileGroup → Bool
is_candidate user profile p g =
    has_scope user_profile_group p.scope
    && (is_value user p.user_id
        && (is_value g.id p.profile_group_id
            && (includes g.members profile && (g.enabled && not g.deleted))))

-- `orderBy(desc(priority), id)`: whether the first row goes before the second.
abbrev pub goes_before : ProfileGroup → ProfileGroup → Bool
goes_before g h = lt_ℤ h.priority g.priority || (same_ℤ g.priority h.priority && leb g.id h.id)

-- `limit(1)` of the ordered rows.
abbrev pub better :
    SessionPolicy × ProfileGroup
    → Option (SessionPolicy × ProfileGroup)
    → Option (SessionPolicy × ProfileGroup)
better row none = some row
better (p, g) (some (q, h)) = if goes_before g h then some (p, g) else some (q, h)

pub top_of_groups :
    ℕ
    → ℕ
    → SessionPolicy
    → List ProfileGroup
    → Option (SessionPolicy × ProfileGroup)
    → Option (SessionPolicy × ProfileGroup)
top_of_groups user profile p [] top = top
top_of_groups user profile p (g ∷ gs) top =
    let rest = top_of_groups user profile p gs top in
    if is_candidate user profile p g then better (p, g) rest else rest

pub top_group :
    ℕ → ℕ → List SessionPolicy → List ProfileGroup → Option (SessionPolicy × ProfileGroup)
unfolding top_of_groups
top_group user profile [] gs = none
top_group user profile (p ∷ ps) gs = top_of_groups user profile p gs (top_group user profile ps gs)

abbrev pub is_global : SessionPolicy → Bool
is_global p = has_scope global p.scope

abbrev pub global_policy : Option SessionPolicy → ResolvedSessionPolicy
global_policy none = record {
  scope = global;
  policy_id = none;
  profile_group_id = none;
  priority = none;
  values = default_session_policy;
}
global_policy (some p) = record {
  scope = global;
  policy_id = some p.id;
  profile_group_id = none;
  priority = none;
  values = p.values;
}

abbrev pub group_policy :
    Option (SessionPolicy × ProfileGroup) → List SessionPolicy → ResolvedSessionPolicy
group_policy none ps = global_policy (find_policy is_global ps)
group_policy (some (p, g)) ps = record {
  scope = p.scope;
  policy_id = some p.id;
  profile_group_id = p.profile_group_id;
  priority = some g.priority;
  values = p.values;
}

abbrev pub direct_policy : Option SessionPolicy → ResolvedSessionPolicy → ResolvedSessionPolicy
direct_policy none rest = rest
direct_policy (some p) rest = record {
  scope = p.scope;
  policy_id = some p.id;
  profile_group_id = none;
  priority = none;
  values = p.values;
}

unfoldable pub resolve_session_policy :
    List SessionPolicy → List ProfileGroup → (user profile : ℕ) → ResolvedSessionPolicy
unfolding top_group
resolve_session_policy ps gs user profile =
    direct_policy (find_policy (is_direct user profile) ps)
      (group_policy (top_group user profile ps gs) ps)
