-- ===== src/CharDrivers/Blocks.antt =====
-- Blocks of kernel memory that a driver allocates and frees by pointer while files are open.
use linux_foundation_embedde.Base.{
  ℕ, ◌≤◌, ◌<◌, suc, Option, none, some, List, [], ◌∷◌, ◌≡◌, refl, arith, ◌==◌, if◌then◌else◌,
}

-- Frees a block; `none` is the free of a block that is not live.
unfoldable pub free : ℕ → List ℕ → Option (List ℕ)
free p [] = none
free p (q ∷ live) =
    let rest = free p live in
    if p == q then some live else elim rest [ none ↦ none | some l ↦ some (q ∷ l) ]

-- Every number of a list lies below a bound.
abbrev pub AllBelow : ℕ → List ℕ → Type 0
AllBelow n [] = Unit
AllBelow n (x ∷ xs) = (x < n) × AllBelow n xs

pub free-fresh : (n : ℕ) (live : List ℕ) → AllBelow n live → free n live ≡ none
unfolding free
free-fresh n [] b = refl
free-fresh n (q ∷ live) b = ground (arith, free-fresh n live b.1)

pub AllBelow-suc : (n : ℕ) (live : List ℕ) → AllBelow n live → AllBelow (suc n) live
AllBelow-suc n [] b = tt
AllBelow-suc n (q ∷ live) b = (omega arith, AllBelow-suc n live b.1)

-- A list that falls from a bound: its numbers are below it, and no two are equal.
abbrev pub Falls : ℕ → List ℕ → Type 0
Falls n [] = Unit
Falls n (x ∷ xs) = (x < n) × Falls x xs

pub Falls-AllBelow : (m n : ℕ) (xs : List ℕ) → m ≤ n → Falls m xs → AllBelow n xs
Falls-AllBelow m n [] h f = tt
Falls-AllBelow m n (x ∷ xs) h f = (omega arith, Falls-AllBelow x n xs (omega arith) f.1)

pub Falls-mono : (m n : ℕ) (xs : List ℕ) → m ≤ n → Falls m xs → Falls n xs
Falls-mono m n [] h f = tt
Falls-mono m n (x ∷ xs) h f = (omega arith, f.1)

-- A block that is freed further down is not the one at the head.
pub free-tail :
    (n p q : ℕ) (live rest : List ℕ)
    → Falls q live
    → free p live ≡ some rest
    → free p (q ∷ live) ≡ some (q ∷ rest)
unfolding free
free-tail n p q live rest f e =
    ground (arith, free-fresh q live (Falls-AllBelow q q live (omega arith) f))

-- The block of a pointer that may be NULL, in front of others.
abbrev pub push : Option ℕ → List ℕ → List ℕ
push none l = l
push (some p) l = p ∷ l

pub Falls-push : (n : ℕ) (p : Option ℕ) (l : List ℕ) → Falls n (push p l) → Falls n l
Falls-push n none l h = h
Falls-push n (some p) l h = Falls-mono p n l (omega arith) h.1

pub Falls-push_map :
    (n : ℕ) (p : Option ℕ) (l l' : List ℕ)
    → ((m : ℕ) → Falls m l → Falls m l')
    → Falls n (push p l)
    → Falls n (push p l')
Falls-push_map n none l l' f h = f n h
Falls-push_map n (some p) l l' f h = (h.0, f p h.1)

-- kfree lets NULL pass.
unfoldable pub kfree : Option ℕ → List ℕ → Option (List ℕ)
kfree none live = some live
kfree (some p) live = free p live

pub kfree-push : (p : Option ℕ) (l : List ℕ) → kfree p (push p l) ≡ some l
unfolding kfree free
kfree-push none l = refl
kfree-push (some p) l = ground arith

pub kfree-push_other :
    (n : ℕ) (p q : Option ℕ) (l rest : List ℕ)
    → Falls n (push q l)
    → kfree p l ≡ some rest
    → kfree p (push q l) ≡ some (push q rest)
unfolding kfree
kfree-push_other n p none l rest f e = e
kfree-push_other n none (some q) l rest f e = cc
kfree-push_other n (some p) (some q) l rest f e = free-tail n p q l rest f.1 e
