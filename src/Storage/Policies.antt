-- ===== src/Storage/Policies.antt =====
-- Storage policies: `applyPolicy` and `forgetProfile` of apps/worker/src/storage-protection.ts, which
-- run one at a time on a queue. The policy file is a part of the state, and whether writing it
-- succeeds is an argument.
pub mod Newest
use mathlib.Core.Option
use mathlib.Core.Path.{subst}
use browshare.Prelude.{
  ℕ, ◌≤◌, ◌≡◌, refl, sym, ap, ◌∙◌, ◌≢◌, ◌⊎◌, inl, inr, Bool, true, false, Option, none, some, List,
  [], ◌∷◌, arith, leb, ◌==◌, ◌&&◌, not, if◌then◌else◌, same_opt, or_else, same_opt_iff, Outcome, ok,
  throw, ◌>>=◌, ◌>>◌, throw_if, Bool-cases, ==_iff, Option-cases, bind_inversion, ok-injective,
  is_some,
}
use browshare.Quota.{StoragePolicy, policy_stale}
use browshare.Storage.{max_safe_integer, get, put, delete}
use browshare.Storage.Operations.{StorageError, blocked, invalid, unavailable}
use browshare.Storage.Usage.{get-put}

pub record Policies : Type 0 where
  pub worker : Option StoragePolicy
  pub profiles : List (ℕ × StoragePolicy)

pub record PolicyStore : Type 0 where
  pub closed : Bool
  pub memory : Policies
  pub file : Policies  -- what `storage-policy.json` holds

-- The same version with another quota.
abbrev pub is_conflict : Option StoragePolicy → StoragePolicy → Bool
is_conflict none next = false
is_conflict (some current) next =
    (current.version == next.version) && not (same_opt current.quota_bytes next.quota_bytes)

-- `choose`: the newer policy, with whether the current one stays.
unfoldable pub choose :
    Option StoragePolicy → StoragePolicy → Outcome StorageError (StoragePolicy × Bool)
choose current next = do
  throw_if (is_conflict current next) (blocked policy_stale)
  ok (elim current [
    | none ↦ (next, false)
    | some c ↦ if leb next.version c.version then (c, true) else (next, false)
  ])

-- The chosen policies of a Worker and, if one is given, of a Profile, and whether nothing changes.
unfoldable pub choose_all :
    Policies → StoragePolicy → Option (ℕ × StoragePolicy) → Outcome StorageError (Policies × Bool)
unfolding choose
choose_all now worker none = do
  (w, kept) ← choose now.worker worker
  ok (record { worker = some w; profiles = now.profiles }, kept)
choose_all now worker (some (id, profile)) = do
  (w, kept) ← choose now.worker worker
  (p, kept_too) ← choose (get id now.profiles) profile
  ok (record { worker = some w; profiles = put id p now.profiles }, kept && kept_too)

-- `#persistPolicies` replaces the file as a whole, or fails and leaves it.
abbrev pub persist : Bool → Policies → PolicyStore → Outcome StorageError PolicyStore
persist true next s = ok (record s { file = next })
persist false next s = throw unavailable

-- The write and the assignment that follows it; nothing is done if nothing changes.
unfoldable pub commit : Bool → Bool → Policies → PolicyStore → Outcome StorageError PolicyStore
commit true writes next s = ok s
commit false writes next s = do
  written ← persist writes next s
  ok (record written { memory = next })

-- `Value.Check(StoragePolicySchema, policy)`
abbrev pub is_valid : StoragePolicy → Bool
is_valid p =
    leb 1 p.version && or_else (Option.map (λ q. leb q max_safe_integer) p.quota_bytes) true

abbrev pub are_valid : StoragePolicy → Option (ℕ × StoragePolicy) → Bool
are_valid worker none = is_valid worker
are_valid worker (some (id, profile)) = is_valid worker && is_valid profile

unfoldable pub apply_policy :
    Bool
    → StoragePolicy
    → Option (ℕ × StoragePolicy)
    → PolicyStore
    → Outcome StorageError PolicyStore
apply_policy writes worker profile s = do
  throw_if s.closed unavailable
  throw_if (not (are_valid worker profile)) invalid
  (next, kept) ← choose_all s.memory worker profile
  commit kept writes next s

-- `profiles.delete(profileId)`, written only if the Profile had a policy.
unfoldable pub forget_profile : Bool → ℕ → PolicyStore → Outcome StorageError PolicyStore
unfolding commit
forget_profile writes id s = do
  throw_if s.closed unavailable
  let next : Policies = record { worker = s.memory.worker; profiles = delete id s.memory.profiles }
  commit (not (is_some (get id s.memory.profiles))) writes next s
