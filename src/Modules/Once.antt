-- ===== src/Modules/Once.antt =====
-- The second module of dynamic_module_loading is initialised once for each time that it is loaded.
use mathlib.Core.Option.{some-injective}
use mathlib.Core.Bool.{true≢false}
use linux_foundation_embedde.Base.{
  ℕ, suc, ◌+◌, ◌≡◌, inl, inr, Bool, true, false, some, Bool-cases, arith, refl, sym, subst, ap, ◌∙◌,
  Chain, Chain-invariant,
}
use linux_foundation_embedde.Kernel.Ledger.{Status, success}
use linux_foundation_embedde.CharDevice.{mycdrv_generic_open}
use linux_foundation_embedde.Modules.{
  State, my_init, my_exit, load, Loader, mycdrv_open, Step, insmod1, insmod2, open_node, close_node,
  rmmod1, rmmod2,
}

abbrev pub one : Bool → ℕ
one true = 1
one false = 0

abbrev pub nothing : State
nothing = record {
  module1 = false;
  module2 = false;
  open_files = 0;
  counter = 0;
  hellos = 0;
  voilas = 0;
  goodbyes = 0;
}

record Inv (s : State) : Type 0 where
  once : s.hellos ≡ s.goodbyes + one s.module2
  called : s.voilas ≡ s.hellos
  needed : s.module2 ≡ true → s.module1 ≡ true

initialised : State → State
initialised s = record s { module2 = true; hellos = suc s.hellos; voilas = suc s.voilas }

load_lem : (s : State) → s.module1 ≡ true → load s ≡ some (initialised s)
unfolding initialised my_init
load_lem s e = rw e refl

load-Inv : (s : State) → s.module1 ≡ true → s.module2 ≡ false → Inv s → Inv (initialised s)
unfolding initialised
load-Inv s e f v = record {
  once = ground (arith, v.once);
  called = omega (arith, v.called);
  needed = λ _. e;
}

opened_state : State → State
opened_state s = record s {
  counter = (mycdrv_generic_open s.counter).1;
  open_files = s.open_files + 1;
}

opened-Inv : (s : State) → Inv s → Inv (opened_state s)
unfolding opened_state
opened-Inv s v = record { once = v.once; called = v.called; needed = v.needed }

module _ (l : Loader) where
  -- What the open makes of a state in which the first module is loaded.
  requested :
      (s : State)
      → s.module1 ≡ true
      → Inv s
      → (t : State) × ((l.request_module s).1 ≡ some t) × Inv t
  requested s e v = elim (Bool-cases s.module2) [
    | inl there ↦ (s, l.loaded_stays s there, v)
    | inr gone ↦ elim (l.loads_or_not s gone) [
      | inl loads ↦ (initialised s, loads ∙ load_lem s e, load-Inv s e gone v)
      | inr fails ↦ (s, fails, v)
    ]
  ]

  open_ok :
      (s : State)
      → s.module1 ≡ true
      → Inv s
      → (t : State) × (mycdrv_open l s ≡ some (success, t)) × Inv t
  unfolding mycdrv_open opened_state mycdrv_generic_open
  open_ok s e v =
      let (t, run, inv) = requested s e v in (opened_state t, rw run refl, opened-Inv t inv)

  Step-Inv : (s t : State) → Step l s t → Inv s → Inv t
  unfolding my_exit
  Step-Inv s t (insmod1 _ e) v = record { once = v.once; called = v.called; needed = λ _. refl }
  Step-Inv s t (insmod2 _ e f run) v =
      subst Inv (some-injective _ _ (sym (load_lem s e) ∙ run)) (load-Inv s e f v)
  Step-Inv s t (open_node _ e run) v =
      let (u, ok, inv) = open_ok s e v in
      subst Inv (ap (λ (p : Status × State). p.1) (some-injective _ _ (sym ok ∙ run))) inv
  Step-Inv s t (close_node _ _) v = record { once = v.once; called = v.called; needed = v.needed }
  Step-Inv s t (rmmod1 _ _ f) v = record {
    once = v.once;
    called = v.called;
    needed = λ e. absurd (true≢false (sym e ∙ f));
  }
  Step-Inv s t (rmmod2 _ e) v = record {
    once = ground (arith, v.once);
    called = v.called;
    needed = λ bad. absurd (true≢false (sym bad));
  }

  -- The answer to the question of the exercise, what happens when loading is requested more than once: whatever modules
  -- are loaded and removed and however often the node is opened, whether or not the requests succeed, the second module
  -- was initialised once for each time that it was removed, and once more if it is loaded; each time it called mod_fun.
  -- While the first module is loaded an open succeeds, and never calls a function that is not in memory.
  opens_load_once :
      {s : State}
      → Chain (Step l) nothing s
      → s.module1 ≡ true
      → (s.hellos ≡ s.goodbyes + one s.module2)
        × (s.voilas ≡ s.hellos)
        × ((t : State) × (mycdrv_open l s ≡ some (success, t))
            × (t.hellos ≡ t.goodbyes + one t.module2))
  opens_load_once {s} c e =
      let v =
        Chain-invariant Inv Step-Inv c
          (record { once = refl; called = refl; needed = λ bad. absurd (true≢false (sym bad)) }) in
      let (t, ok, inv) = open_ok s e v in (v.once, v.called, (t, ok, inv.once))
