-- ===== src/Cdp/Tables.antt =====
-- The tables of CdpPipeBridge as lists, and their updates.
use browshare.Prelude.{
  ℕ, ◌≤◌, ◌<◌, ◌≡◌, ◌≢◌, refl, sym, ◌∙◌, inl, inr, Bool, true, false, ◌||◌, List, [], ◌∷◌, ◌++◌,
  ◌==◌, is_some, arith, All, Bool-cases, length,
}
use browshare.Prelude.Maps.{All-delete}
use browshare.Cdp.{Caller, Client, delete, find_client, update_client, remove_client}
use browshare.Cdp.Operations.{is_command_of, without_commands, without_owner}

pub All-append :
    {A : Type 0} (P : A → Type 0) (xs ys : List A) → All P xs → All P ys → All P (xs ++ ys)
All-append P [] ys h k = k
All-append P (x ∷ xs) ys (first, h) k = (first, All-append P xs ys h k)

pub All-map :
    {A : Type 0} (P Q : A → Type 0) (xs : List A) → ((x : A) → P x → Q x) → All P xs → All Q xs
All-map P Q [] f h = tt
All-map P Q (x ∷ xs) f (first, h) = (f x first, All-map P Q xs f h)

-- Whether a client is connected.
abbrev pub present : List Client → ℕ → Bool
present xs c = is_some (find_client c xs)

present-cons :
    (x : Client) (xs : List Client) (c : ℕ) → present (x ∷ xs) c ≡ ((x.id == c) || present xs c)
present-cons x xs c = elim (Bool-cases (x.id == c)) [ inl e ↦ rw e refl | inr e ↦ rw e refl ]

pub present-append :
    (xs : List Client) (y : Client) (c : ℕ) → present xs c ≡ true → present (xs ++ y ∷ []) c ≡ true
present-append [] y c h = cc
present-append (x ∷ xs) y c h = elim (Bool-cases (x.id == c)) [
  | inl e ↦ present-cons x (xs ++ y ∷ []) c ∙ rw e refl
  | inr e ↦
      let rest : present xs c ≡ true = sym (present-cons x xs c ∙ rw e refl) ∙ h in
      present-cons x (xs ++ y ∷ []) c ∙ rw e (present-append xs y c rest)
]

pub present-update :
    (xs : List Client) (d : ℕ) (f : Client → Client)
    → ((x : Client) → (f x).id ≡ x.id)
    → (c : ℕ) → present (update_client d f xs) c ≡ present xs c
present-update [] d f same c = refl
present-update (x ∷ xs) d f same c = elim (Bool-cases (x.id == d)) [
  | inl e ↦ rw e (present-cons (f x) xs c ∙ rw (same x) (sym (present-cons x xs c)))
  | inr e ↦ rw e (
      present-cons x (update_client d f xs) c
      ∙ rw (present-update xs d f same c) (sym (present-cons x xs c)))
]

pub present-remove :
    (xs : List Client) (d c : ℕ)
    → (c == d) ≡ false
    → present xs c ≡ true
    → present (remove_client d xs) c ≡ true
present-remove [] d c ne h = h
present-remove (x ∷ xs) d c ne h = elim (Bool-cases (x.id == d)) [
  | inl e ↦
      let other : (x.id == c) ≡ false = ground arith in
      rw e (sym (present-cons x xs c ∙ rw other refl) ∙ h)
  | inr e ↦ rw e (elim (Bool-cases (x.id == c)) [
    | inl here ↦ present-cons x (remove_client d xs) c ∙ rw here refl
    | inr there ↦
        let rest : present xs c ≡ true = sym (present-cons x xs c ∙ rw there refl) ∙ h in
        present-cons x (remove_client d xs) c ∙ rw there (present-remove xs d c ne rest)
  ])
]

pub All-without_owner :
    (c : ℕ) (P Q : ℕ × ℕ → Type 0) (os : List (ℕ × ℕ))
    → ((t d : ℕ) → (d == c) ≡ false → P (t, d) → Q (t, d))
    → All P os
    → All Q (without_owner c os)
All-without_owner c P Q [] f h = tt
All-without_owner c P Q ((t, d) ∷ os) f (first, h) = elim (Bool-cases (d == c)) [
  | inl e ↦ rw e (All-without_owner c P Q os f h)
  | inr e ↦ rw e ((f t d e first, All-without_owner c P Q os f h))
]

pub All-without_commands :
    (c : ℕ) (P Q : ℕ × Caller → Type 0) (ps : List (ℕ × Caller))
    → ((k : ℕ) (caller : Caller) → is_command_of c caller ≡ false → P (k, caller) → Q (k, caller))
    → All P ps
    → All Q (without_commands c ps)
All-without_commands c P Q [] f h = tt
All-without_commands c P Q ((k, caller) ∷ ps) f (first, h) =
    elim (Bool-cases (is_command_of c caller)) [
      | inl e ↦ rw e (All-without_commands c P Q ps f h)
      | inr e ↦ rw e ((f k caller e first, All-without_commands c P Q ps f h))
    ]

-- No two entries have one key.
abbrev pub Distinct : List (ℕ × Caller) → Type 0
Distinct [] = Unit
Distinct (p ∷ ps) = All (λ q. q.0 ≢ p.0) ps × Distinct ps

pub Distinct-append :
    (ps : List (ℕ × Caller)) (k : ℕ) (caller : Caller)
    → All (λ p. p.0 < k) ps
    → Distinct ps
    → Distinct (ps ++ (k, caller) ∷ [])
Distinct-append [] k caller h d = (tt, tt)
Distinct-append ((l, x) ∷ ps) k caller (less, h) (first, d) = (
  All-append (λ q. q.0 ≢ l) ps ((k, caller) ∷ []) first (ground arith, tt),
  Distinct-append ps k caller h d,
)

pub Distinct-delete : (k : ℕ) (ps : List (ℕ × Caller)) → Distinct ps → Distinct (delete k ps)
Distinct-delete k [] d = tt
Distinct-delete k ((l, x) ∷ ps) (first, d) = elim (Bool-cases (l == k)) [
  | inl e ↦ rw e d
  | inr e ↦ rw e ((All-delete (λ q. q.0 ≢ l) k ps first, Distinct-delete k ps d))
]

pub Distinct-without_commands :
    (c : ℕ) (ps : List (ℕ × Caller)) → Distinct ps → Distinct (without_commands c ps)
Distinct-without_commands c [] d = tt
Distinct-without_commands c ((l, x) ∷ ps) (first, d) = elim (Bool-cases (is_command_of c x)) [
  | inl e ↦ rw e (Distinct-without_commands c ps d)
  | inr e ↦ rw e (
      (
        All-without_commands c (λ q. q.0 ≢ l) (λ q. q.0 ≢ l) ps (λ k y u v. v) first,
        Distinct-without_commands c ps d,
      ))
]

pub without_commands-length :
    (c : ℕ) (ps : List (ℕ × Caller)) → length (without_commands c ps) ≤ length ps
without_commands-length c [] = omega arith
without_commands-length c ((l, x) ∷ ps) = elim (Bool-cases (is_command_of c x)) [
  | inl e ↦ rw e (omega (arith, without_commands-length c ps))
  | inr e ↦ rw e (omega (arith, without_commands-length c ps))
]
