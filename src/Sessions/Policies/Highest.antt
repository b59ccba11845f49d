-- ===== src/Sessions/Policies/Highest.antt =====
-- Which group's policy `resolve_session_policy` takes.
use mathlib.Core.Path.{subst}
use browshare.Prelude.{
  ℕ, ◌≤◌, ◌≡◌, refl, sym, ap, ◌∙◌, ◌⊎◌, inl, inr, Bool, true, false, Option, none, some, List, [],
  ◌∷◌, arith, if◌then◌else◌, In, Bool-cases,
}
use browshare.Prelude.Int.{lt_ℤ, same_ℤ-true, lt_ℤ-cases, lt_ℤ-trans}
use browshare.Sessions.Policies.{
  ProfileGroup, SessionPolicy, better, direct_policy, find_policy, goes_before, group_policy,
  is_candidate, is_direct, resolve_session_policy, top_group, top_of_groups,
}

-- A group of lower priority, or of the same priority and no smaller identity.
abbrev pub NotBefore : ProfileGroup → ProfileGroup → Type 0
NotBefore g h = (lt_ℤ g.priority h.priority ≡ true) ⊎ ((g.priority ≡ h.priority) × (h.id ≤ g.id))

-- No candidate row goes before the one that is taken.
abbrev pub IsAtMost : Option (SessionPolicy × ProfileGroup) → ProfileGroup → Type 0
IsAtMost none g = ⊥
IsAtMost (some (q, h)) g = NotBefore g h

either :
    (x : ProfileGroup) (b : Bool) (o r : Option (SessionPolicy × ProfileGroup))
    → IsAtMost o x
    → IsAtMost r x
    → IsAtMost (if b then o else r) x
either x true o r h k = h
either x false o r h k = k

not_before : (g h : ProfileGroup) → goes_before g h ≡ false → NotBefore g h
not_before g h e = elim (lt_ℤ-cases h.priority g.priority (ground arith)) [
  | inl less ↦ inl less
  | inr (same, tie) ↦ inr (same, ground arith)
]

before_trans : (g h x : ProfileGroup) → goes_before g h ≡ true → NotBefore x h → NotBefore x g
before_trans g h x e at_most = elim (Bool-cases (lt_ℤ h.priority g.priority)) [
  | inl less ↦ inl (elim at_most [
    | inl below ↦ lt_ℤ-trans x.priority h.priority g.priority below less
    | inr (same, _) ↦ subst (λ z. lt_ℤ z g.priority ≡ true) (sym same) less
  ])
  | inr high ↦
      let level : g.priority ≡ h.priority = same_ℤ-true g.priority h.priority (ground arith) in
      let first : g.id ≤ h.id = ground arith in
      elim at_most [
        | inl below ↦ inl (subst (λ z. lt_ℤ x.priority z ≡ true) (sym level) below)
        | inr (same, after) ↦ inr (same ∙ sym level, omega (arith, first, after))
      ]
]

better-here :
    (p : SessionPolicy) (g : ProfileGroup) (o : Option (SessionPolicy × ProfileGroup))
    → IsAtMost (better (p, g) o) g
better-here p g none = inr (refl, omega arith)
better-here p g (some (q, h)) = elim (Bool-cases (goes_before g h)) [
  | inl e ↦ simp (e) (inr (refl, omega arith))
  | inr e ↦ simp (e) (not_before g h e)
]

taken :
    (b : Bool)
    → b ≡ true
    → (x : ProfileGroup) (o r : Option (SessionPolicy × ProfileGroup)) → IsAtMost o x
    → IsAtMost (if b then o else r) x
taken true e x o r h = h
taken false e x o r h = cc

better-there :
    (p : SessionPolicy) (g x : ProfileGroup) (o : Option (SessionPolicy × ProfileGroup))
    → IsAtMost o x
    → IsAtMost (better (p, g) o) x
better-there p g x none at_most = absurd at_most
better-there p g x (some (q, h)) at_most = elim (Bool-cases (goes_before g h)) [
  | inl e ↦ simp (e) (before_trans g h x e at_most)
  | inr e ↦ simp (e) at_most
]

taken_group :
    (o : Option (SessionPolicy × ProfileGroup)) (g : ProfileGroup)
    → IsAtMost o g
    → (q : SessionPolicy) × (h : ProfileGroup) × (o ≡ some (q, h)) × NotBefore g h
taken_group none g at_most = absurd at_most
taken_group (some (q, h)) g at_most = (q, h, refl, at_most)

module _ (user profile : ℕ) where
  top_of_groups-there :
      (p : SessionPolicy) (gs : List ProfileGroup) (x : ProfileGroup)
      (top : Option (SessionPolicy × ProfileGroup))
      → IsAtMost top x
      → IsAtMost (top_of_groups user profile p gs top) x
  unfolding top_of_groups
  top_of_groups-there p [] x top at_most = at_most
  top_of_groups-there p (g ∷ gs) x top at_most =
      let rest = top_of_groups-there p gs x top at_most in
      either x (is_candidate user profile p g) _ _ (better-there p g x _ rest) rest

  top_of_groups-here :
      (p : SessionPolicy) (gs : List ProfileGroup) (x : ProfileGroup)
      (top : Option (SessionPolicy × ProfileGroup))
      → In x gs
      → is_candidate user profile p x ≡ true
      → IsAtMost (top_of_groups user profile p gs top) x
  unfolding top_of_groups
  top_of_groups-here p [] x top i fits = absurd i
  top_of_groups-here p (g ∷ gs) x top (inl e) fits =
      subst (λ z. IsAtMost (top_of_groups user profile p (g ∷ gs) top) z) (sym e)
        (taken (is_candidate user profile p g)
          (subst (λ z. is_candidate user profile p z ≡ true) e fits) g _ _
          (better-here p g (top_of_groups user profile p gs top)))
  top_of_groups-here p (g ∷ gs) x top (inr i) fits =
      let rest = top_of_groups-here p gs x top i fits in
      either x (is_candidate user profile p g) _ _ (better-there p g x _ rest) rest

  top_group-IsAtMost :
      (ps : List SessionPolicy) (gs : List ProfileGroup) (p : SessionPolicy) (g : ProfileGroup)
      → In p ps
      → In g gs
      → is_candidate user profile p g ≡ true
      → IsAtMost (top_group user profile ps gs) g
  unfolding top_group
  top_group-IsAtMost [] gs p g i j fits = absurd i
  top_group-IsAtMost (q ∷ ps) gs p g (inl e) j fits =
      subst (λ z. IsAtMost (top_of_groups user profile z gs (top_group user profile ps gs)) g) e
        (top_of_groups-here p gs g (top_group user profile ps gs) j fits)
  top_group-IsAtMost (q ∷ ps) gs p g (inr i) j fits =
      top_of_groups-there q gs g (top_group user profile ps gs)
        (top_group-IsAtMost ps gs p g i j fits)

  -- A candidate row of the tables.
  abbrev IsRow :
      List SessionPolicy → List ProfileGroup → Option (SessionPolicy × ProfileGroup) → Type 0
  IsRow ps gs none = Unit {0}
  IsRow ps gs (some (q, h)) = In q ps × In h gs × (is_candidate user profile q h ≡ true)

  IsRow-if :
      (ps : List SessionPolicy) (gs : List ProfileGroup) (b : Bool)
      (o r : Option (SessionPolicy × ProfileGroup))
      → (b ≡ true → IsRow ps gs o)
      → IsRow ps gs r
      → IsRow ps gs (if b then o else r)
  IsRow-if ps gs true o r h k = h refl
  IsRow-if ps gs false o r h k = k

  better-IsRow :
      (ps : List SessionPolicy) (gs : List ProfileGroup) (p : SessionPolicy) (g : ProfileGroup)
      (o : Option (SessionPolicy × ProfileGroup))
      → IsRow ps gs (some (p, g))
      → IsRow ps gs o
      → IsRow ps gs (better (p, g) o)
  better-IsRow ps gs p g none row rest = row
  better-IsRow ps gs p g (some (q, h)) row rest =
      IsRow-if ps gs (goes_before g h) _ _ (λ _. row) rest

  top_of_groups-IsRow :
      (ps : List SessionPolicy) (all gs : List ProfileGroup) (p : SessionPolicy)
      (top : Option (SessionPolicy × ProfileGroup))
      → In p ps
      → ((x : ProfileGroup) → In x gs → In x all)
      → IsRow ps all top
      → IsRow ps all (top_of_groups user profile p gs top)
  unfolding top_of_groups
  top_of_groups-IsRow ps all [] p top i inside row = row
  top_of_groups-IsRow ps all (g ∷ gs) p top i inside row =
      let rest = top_of_groups-IsRow ps all gs p top i (λ x j. inside x (inr j)) row in
      IsRow-if ps all (is_candidate user profile p g) _ _
        (λ fits. better-IsRow ps all p g _ (i, inside g (inl refl), fits) rest) rest

  top_group-IsRow :
      (all ps : List SessionPolicy) (gs : List ProfileGroup)
      → ((x : SessionPolicy) → In x ps → In x all)
      → IsRow all gs (top_group user profile ps gs)
  unfolding top_group
  top_group-IsRow all [] gs inside = tt
  top_group-IsRow all (p ∷ ps) gs inside =
      top_of_groups-IsRow all gs gs p _ (inside p (inl refl)) (λ x j. j)
        (top_group-IsRow all ps gs (λ x j. inside x (inr j)))

  -- If a user has no policy of their own for a Profile, and some enabled group of the Profile has
  -- one for the user, the Session gets the policy of such a group that no other goes before: none
  -- has a higher priority, and none of the same priority a smaller identity.
  pub resolve_session_policy-NotBefore :
      (ps : List SessionPolicy) (gs : List ProfileGroup) (p : SessionPolicy) (g : ProfileGroup)
      → find_policy (is_direct user profile) ps ≡ none
      → In p ps
      → In g gs
      → is_candidate user profile p g ≡ true
      → (q : SessionPolicy) × (h : ProfileGroup) × In q ps
        × In h gs
        × (is_candidate user profile q h ≡ true)
        × NotBefore g h
        × ((resolve_session_policy ps gs user profile).values ≡ q.values)
        × ((resolve_session_policy ps gs user profile).policy_id ≡ some q.id)
        × ((resolve_session_policy ps gs user profile).priority ≡ some h.priority)
  unfolding resolve_session_policy
  resolve_session_policy-NotBefore ps gs p g no_direct i j fits =
      let rest =
        taken_group (top_group user profile ps gs) g (top_group-IsAtMost ps gs p g i j fits) in
      let (q, h, same, order) = rest in
      let (inside, among, candidate) =
        subst (λ o. IsRow ps gs o) same (top_group-IsRow ps ps gs (λ x k. k)) in
      let policy =
        ap (λ o. direct_policy o (group_policy (top_group user profile ps gs) ps)) no_direct
        ∙ ap (λ o. group_policy o ps) same in
      (
        q,
        h,
        inside,
        among,
        candidate,
        order,
        ap (λ r. r.values) policy,
        ap (λ r. r.policy_id) policy,
        ap (λ r. r.priority) policy,
      )
