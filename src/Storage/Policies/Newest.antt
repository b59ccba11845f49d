-- ===== src/Storage/Policies/Newest.antt =====
-- What a policy update leaves in force: the newest policy, in memory as in the file.
use mathlib.Core.Path.{subst}
use browshare.Prelude.{
  ℕ, ◌≤◌, ◌≡◌, refl, sym, ap, ◌∙◌, ◌≢◌, ◌⊎◌, inl, inr, Bool, true, false, Option, none, some, List,
  arith, ◌==◌, ◌&&◌, not, same_opt_iff, ok, throw_if, Bool-cases, ==_iff, bind_inversion,
  ok-injective,
}
use browshare.Quota.{StoragePolicy}
use browshare.Storage.{get, put}
use browshare.Storage.Operations.{invalid, unavailable}
use browshare.Storage.Usage.{get-put}
use browshare.Storage.Policies.{
  Policies, PolicyStore, choose, choose_all, commit, are_valid, apply_policy,
}

-- The chosen policy is the current one or the next, and no older than either.
abbrev pub IsNewest : Option StoragePolicy → StoragePolicy → StoragePolicy → Type 0
IsNewest current next chosen =
    ((current ≡ some chosen) ⊎ (chosen ≡ next))
    × (next.version ≤ chosen.version)
    × ((c : StoragePolicy) → current ≡ some c → c.version ≤ chosen.version)

-- If the versions agree, so do the quotas.
abbrev IsAgreed : StoragePolicy → StoragePolicy → Type 0
IsAgreed next chosen = chosen.version ≡ next.version → chosen.quota_bytes ≡ next.quota_bytes

choose-IsNewest :
    (current : Option StoragePolicy) (next chosen : StoragePolicy) (kept : Bool)
    → choose current next ≡ ok (chosen, kept)
    → IsNewest current next chosen × IsAgreed next chosen × (kept ≡ true → current ≡ some chosen)
unfolding choose
choose-IsNewest none next chosen kept h = ground arith
choose-IsNewest (some c) next chosen kept h =
    ground (arith, same_opt_iff c.quota_bytes next.quota_bytes)

-- The newest policy, once chosen, is chosen again and stays.
choose-again :
    (current : Option StoragePolicy) (next chosen : StoragePolicy) (kept : Bool)
    → choose current next ≡ ok (chosen, kept)
    → choose (some chosen) next ≡ ok (chosen, true)
unfolding choose
choose-again none next chosen kept h =
    ground (arith, same_opt_iff next.quota_bytes next.quota_bytes)
choose-again (some c) next chosen kept h = ground (
  arith,
  same_opt_iff c.quota_bytes next.quota_bytes,
  same_opt_iff next.quota_bytes next.quota_bytes,
)

-- What a policy update leaves of a Profile's entry.
abbrev pub ProfileResult : Policies → Option (ℕ × StoragePolicy) → Policies → Type 0
ProfileResult now none next = (other : ℕ) → get other next.profiles ≡ get other now.profiles
ProfileResult now (some (id, asked)) next =
    (chosen : StoragePolicy) × (get id next.profiles ≡ some chosen)
    × IsNewest (get id now.profiles) asked chosen
    × ((other : ℕ) → other ≢ id → get other next.profiles ≡ get other now.profiles)

abbrev pub WorkerResult : Policies → StoragePolicy → Policies → Type 0
WorkerResult now asked next =
    (chosen : StoragePolicy) × (next.worker ≡ some chosen) × IsNewest now.worker asked chosen

choose_all_sound :
    (now next : Policies) (worker : StoragePolicy) (profile : Option (ℕ × StoragePolicy))
    (kept : Bool)
    → choose_all now worker profile ≡ ok (next, kept)
    → WorkerResult now worker next × ProfileResult now profile next
unfolding choose_all
choose_all_sound now next worker none kept h =
    let (a, first, rest) = bind_inversion (choose now.worker worker) _ h in
    let same = ok-injective rest in
    (
      (a.0, sym (ap (λ x. x.0.worker) same), (choose-IsNewest now.worker worker a.0 a.1 first).0),
      λ other. ap (λ x. get other x.0.profiles) (sym same),
    )
choose_all_sound now next worker (some (id, asked)) kept h =
    let (a, first, rest) = bind_inversion (choose now.worker worker) _ h in
    let (b, second, whole) = bind_inversion (choose (get id now.profiles) asked) _ rest in
    let same = ok-injective whole in
    let profiles : put id b.0 now.profiles ≡ next.profiles = ap (λ x. x.0.profiles) same in
    (
      (a.0, sym (ap (λ x. x.0.worker) same), (choose-IsNewest now.worker worker a.0 a.1 first).0),
      (
        b.0,
        rw (← profiles) (ground (arith, get-put id id b.0 now.profiles)),
        (choose-IsNewest (get id now.profiles) asked b.0 b.1 second).0,
        λ other ne. rw (← profiles) (ground (arith, get-put id other b.0 now.profiles)),
      ),
    )

commit_cases :
    (kept writes : Bool) (next : Policies) (s t : PolicyStore)
    → commit kept writes next s ≡ ok t
    → ((kept ≡ true) × (t ≡ s)) ⊎ ((kept ≡ false) × (t ≡ record s { file = next; memory = next }))
unfolding commit
commit_cases true writes next s t h = inl (refl, sym (ok-injective h))
commit_cases false true next s t h = inr (refl, sym (ok-injective h))
commit_cases false false next s t h = cc

get-put_same :
    (k j : ℕ) (v : StoragePolicy) (m : List (ℕ × StoragePolicy))
    → get k m ≡ some v
    → get j (put k v m) ≡ get j m
get-put_same k j v m h = elim (Bool-cases (k == j)) [
  | inl same ↦
      let e : k ≡ j = (==_iff k j).0 same in get-put k j v m ∙ rw same (sym h ∙ ap (λ i. get i m) e)
  | inr other ↦ get-put k j v m ∙ rw other
]

-- If nothing changes, the chosen policies are those in memory, entry for entry.
choose_all_kept :
    (now next : Policies) (worker : StoragePolicy) (profile : Option (ℕ × StoragePolicy))
    → choose_all now worker profile ≡ ok (next, true)
    → (next.worker ≡ now.worker) × ((id : ℕ) → get id next.profiles ≡ get id now.profiles)
unfolding choose_all
choose_all_kept now next worker none h =
    let (a, first, rest) = bind_inversion (choose now.worker worker) _ h in
    let same = ok-injective rest in
    let same_worker : some a.0 ≡ next.worker = ap (λ x. x.0.worker) same in
    let kept : a.1 ≡ true = ap (λ x. x.1) same in
    (
      sym same_worker ∙ sym ((choose-IsNewest now.worker worker a.0 a.1 first).2 kept),
      λ other. ap (λ x. get other x.0.profiles) (sym same),
    )
choose_all_kept now next worker (some (id, asked)) h =
    let (a, first, rest) = bind_inversion (choose now.worker worker) _ h in
    let (b, second, whole) = bind_inversion (choose (get id now.profiles) asked) _ rest in
    let same = ok-injective whole in
    let same_worker : some a.0 ≡ next.worker = ap (λ x. x.0.worker) same in
    let profiles : put id b.0 now.profiles ≡ next.profiles = ap (λ x. x.0.profiles) same in
    let both : (a.1 && b.1) ≡ true = ap (λ x. x.1) same in
    let stays = (choose-IsNewest (get id now.profiles) asked b.0 b.1 second).2 (ground arith) in
    (
      sym same_worker ∙ sym ((choose-IsNewest now.worker worker a.0 a.1 first).2 (ground arith)),
      λ other. rw (← profiles) (get-put_same id other b.0 now.profiles stays),
    )

ProfileResult-of_same :
    (now : Policies) (profile : Option (ℕ × StoragePolicy)) (next : Policies)
    → ((id : ℕ) → get id next.profiles ≡ get id now.profiles)
    → ProfileResult now profile next
    → ProfileResult now profile now
ProfileResult-of_same now none next same r = λ other. refl
ProfileResult-of_same now (some (id, asked)) next same r =
    (r.0, sym (same id) ∙ r.1, r.2, λ other ne. refl)

-- An update that succeeds leaves for the Worker, and for the Profile that it names, the newest of
-- the policy in force and the one that it brings, whole; versions never fall, and other Profiles'
-- policies stay. Memory and file agree after it if they did before.
pub apply_policy-IsNewest :
    (writes : Bool) (worker : StoragePolicy) (profile : Option (ℕ × StoragePolicy))
    (s t : PolicyStore)
    → apply_policy writes worker profile s ≡ ok t
    → WorkerResult s.memory worker t.memory
      × ProfileResult s.memory profile t.memory
      × (s.file ≡ s.memory → t.file ≡ t.memory)
unfolding apply_policy
apply_policy-IsNewest writes worker profile s t h =
    let (_, _, h1) = bind_inversion (throw_if s.closed unavailable) _ h in
    let (_, _, h2) = bind_inversion (throw_if (not (are_valid worker profile)) invalid) _ h1 in
    let (a, chosen, h3) = bind_inversion (choose_all s.memory worker profile) _ h2 in
    let (for_worker, for_profile) = choose_all_sound s.memory a.0 worker profile a.1 chosen in
    elim (commit_cases a.1 writes a.0 s t h3) [
      | inl (kept, same) ↦
          let stays : choose_all s.memory worker profile ≡ ok (a.0, true) =
            chosen ∙ ap (λ b. ok (a.0, b)) kept in
          let (same_worker, same_profiles) = choose_all_kept s.memory a.0 worker profile stays in
          subst
            (λ x.
              WorkerResult s.memory worker x.memory
              × ProfileResult s.memory profile x.memory
              × (s.file ≡ s.memory → x.file ≡ x.memory))
            (sym same)
            (
              (for_worker.0, sym same_worker ∙ for_worker.1, for_worker.2),
              ProfileResult-of_same s.memory profile a.0 same_profiles for_profile,
              λ z. z,
            )
      | inr (changed, same) ↦
          subst
            (λ x.
              WorkerResult s.memory worker x.memory
              × ProfileResult s.memory profile x.memory
              × (s.file ≡ s.memory → x.file ≡ x.memory))
            (sym same) (for_worker, for_profile, λ z. refl)
    ]

choose_all-again :
    (now next m : Policies) (worker : StoragePolicy) (profile : Option (ℕ × StoragePolicy))
    (kept : Bool)
    → choose_all now worker profile ≡ ok (next, kept)
    → m.worker ≡ next.worker
    → ((id : ℕ) → get id m.profiles ≡ get id next.profiles)
    → (x : Policies) × (choose_all m worker profile ≡ ok (x, true))
unfolding choose_all
choose_all-again now next m worker none kept h e f =
    let (a, first, rest) = bind_inversion (choose now.worker worker) _ h in
    let again = choose-again now.worker worker a.0 a.1 first in
    let at : m.worker ≡ some a.0 = e ∙ sym (ap (λ x. x.0.worker) (ok-injective rest)) in
    (record { worker = some a.0; profiles = m.profiles }, rw (at, again))
choose_all-again now next m worker (some (id, asked)) kept h e f =
    let (a, first, rest) = bind_inversion (choose now.worker worker) _ h in
    let (b, second, whole) = bind_inversion (choose (get id now.profiles) asked) _ rest in
    let again = choose-again now.worker worker a.0 a.1 first in
    let again_too = choose-again (get id now.profiles) asked b.0 b.1 second in
    let same = ok-injective whole in
    let at : m.worker ≡ some a.0 = e ∙ sym (ap (λ x. x.0.worker) same) in
    let entry : get id m.profiles ≡ some b.0 =
      f id
      ∙ ap (λ x. get id x.0.profiles) (sym same)
      ∙ ground (arith, get-put id id b.0 now.profiles) in
    (
      record { worker = some a.0; profiles = put id b.0 m.profiles },
      rw (at, again, entry, again_too),
    )

apply_policy_stays :
    (writes : Bool) (worker : StoragePolicy) (profile : Option (ℕ × StoragePolicy))
    (t : PolicyStore) (x : Policies)
    → throw_if t.closed unavailable ≡ ok tt
    → throw_if (not (are_valid worker profile)) invalid ≡ ok tt
    → choose_all t.memory worker profile ≡ ok (x, true)
    → apply_policy writes worker profile t ≡ ok t
unfolding apply_policy commit
apply_policy_stays writes worker profile t x live valid again = rw (live, valid, again)

-- Delivering a policy again, after it was applied, succeeds and changes nothing, even where the
-- file cannot be written.
pub apply_policy-again :
    (writes writes' : Bool) (worker : StoragePolicy) (profile : Option (ℕ × StoragePolicy))
    (s t : PolicyStore)
    → apply_policy writes worker profile s ≡ ok t
    → apply_policy writes' worker profile t ≡ ok t
unfolding apply_policy
apply_policy-again writes writes' worker profile s t h =
    let (_, open_, h1) = bind_inversion (throw_if s.closed unavailable) _ h in
    let (_, valid, h2) = bind_inversion (throw_if (not (are_valid worker profile)) invalid) _ h1 in
    let (a, chosen, h3) = bind_inversion (choose_all s.memory worker profile) _ h2 in
    elim (commit_cases a.1 writes a.0 s t h3) [
      | inl (kept, same) ↦
          let stays = chosen ∙ ap (λ b. ok (a.0, b)) kept in
          apply_policy_stays writes' worker profile t a.0
            (ap (λ z. throw_if z.closed unavailable) same ∙ open_) valid
            (ap (λ z. choose_all z.memory worker profile) same ∙ stays)
      | inr (changed, same) ↦
          let memory : t.memory ≡ a.0 = ap (λ z. z.memory) same in
          let (x, again) =
            choose_all-again s.memory a.0 t.memory worker profile a.1 chosen
              (ap (λ z. z.worker) memory) (λ id. ap (λ z. get id z.profiles) memory) in
          apply_policy_stays writes' worker profile t x
            (ap (λ z. throw_if z.closed unavailable) same ∙ open_) valid again
    ]
