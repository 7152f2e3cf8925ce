-- ===== src/Base/Steps.antt =====
-- Chains of steps of a relation, and invariants of what they reach.

pub data Chain {ℓ κ} {A : Type ℓ} (R : A → A → Type κ) (s : A) : A → Type (ℓ ⊔ κ) where
  here : Chain R s s
  next : {t u : A} → Chain R s t → R t u → Chain R s u

pub Chain-invariant {ℓ κ μ} :
    {A : Type ℓ} {R : A → A → Type κ} (P : A → Type μ)
    → ((t u : A) → R t u → P t → P u)
    → {s t : A} → Chain R s t
    → P s
    → P t
Chain-invariant P keep here p = p
Chain-invariant P keep (next {t} {u} c r) p = keep t u r (Chain-invariant P keep c p)
