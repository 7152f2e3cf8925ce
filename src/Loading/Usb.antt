-- ===== src/Loading/Usb.antt =====
-- chapter_32_usb_drivers/lab_usb.c: the driver keeps a counted block for each interface that is
-- plugged in, until it is unplugged. Its loading is one call of the USB core.
use mathlib.Core.Option.{some-injective}
use linux_foundation_embedde.Base.{
  ℕ, ◌+◌, ◌<◌, ◌^◌, ◌≡◌, ◌≢◌, Bool, true, false, Option, none, some, ◌==◌, if◌then◌else◌, to_int,
  arith, refl, subst, Chain, Chain-invariant,
}

-- The static `my_counter`; the value that a probe under way has read from it, for each interface; and the
-- `connect_count` of the block behind usb_get_intfdata, for each interface that has one.
pub record State : Type 0 where
  pub my_counter : ℕ
  pub seen : ℕ → Option ℕ
  pub intfdata : ℕ → Option ℕ

abbrev pub update : (ℕ → Option ℕ) → ℕ → Option ℕ → ℕ → Option ℕ
update f i v j = if j == i then v else f j

-- The two accesses of `my_counter++`, which nothing makes one. The answer of kmalloc is not looked at: the driver
-- writes through a NULL pointer, which is `none`.
probe_at : Option ℕ → (intf : ℕ) (allocated : Bool) → State → Option State
probe_at o intf false s = none
probe_at none intf true s = some (record s { seen = update s.seen intf (some s.my_counter) })
probe_at (some v) intf true s = some (record {
  my_counter = to_int (v + 1);
  seen = update s.seen intf none;
  intfdata = update s.intfdata intf (some v);
})

-- The next access of the probe of an interface.
unfoldable pub my_usb_probe : (intf : ℕ) (allocated : Bool) → State → Option State
unfolding probe_at
my_usb_probe intf allocated s = probe_at (s.seen intf) intf allocated s

-- kfree, after which the core forgets the pointer.
unfoldable pub my_usb_disconnect : (intf : ℕ) → State → State
my_usb_disconnect intf s = record s { intfdata = update s.intfdata intf none }

abbrev pub initial : State
initial = record { my_counter = 0; seen = λ i. none; intfdata = λ i. none }

-- The core probes one interface at a time, in whatever order, and disconnects any; fewer than 2 ^ 31 are ever plugged in.
pub data Step : State → State → Type 0 where
  probe :
      (intf : ℕ) (s : State) {t : State}
      → ((i : ℕ) → i ≢ intf → s.seen i ≡ none)
      → s.my_counter + 1 < 2 ^ 31
      → my_usb_probe intf true s ≡ some t
      → Step s t
  disconnect : (intf : ℕ) (s : State) → Step s (my_usb_disconnect intf s)

record Inv (s : State) : Type 0 where
  below : (i a : ℕ) → s.intfdata i ≡ some a → a < s.my_counter
  apart : (i j a : ℕ) → i ≢ j → s.intfdata i ≡ some a → s.intfdata j ≢ some a
  current : (i a : ℕ) → s.seen i ≡ some a → a ≡ s.my_counter

probe-Inv :
    (o : Option ℕ) (intf : ℕ) (s t : State)
    → s.seen intf ≡ o
    → ((i : ℕ) → i ≢ intf → s.seen i ≡ none)
    → s.my_counter + 1 < 2 ^ 31
    → probe_at o intf true s ≡ some t
    → Inv s
    → Inv t
unfolding probe_at
probe-Inv none intf s t o alone h e v =
    subst Inv (some-injective _ _ e) (record {
      below = v.below;
      apart = v.apart;
      current = λ i a p. ground (arith, v.current i a);
    })
probe-Inv (some x) intf s t o alone h e v =
    let now : x ≡ s.my_counter = v.current intf x o in
    subst Inv (some-injective _ _ e) (record {
      below = λ i a p. ground (arith, v.below i a, now);
      apart = λ i j a d p q. ground (arith, v.below i a, v.below j a, v.apart i j a d, now);
      current = λ i a p. ground (arith, alone i);
    })

Step-Inv : (s t : State) → Step s t → Inv s → Inv t
unfolding my_usb_probe my_usb_disconnect
Step-Inv s t (probe intf _ alone h e) v = probe-Inv (s.seen intf) intf s t refl alone h e v
Step-Inv s t (disconnect intf _) v = record {
  below = λ i a p. ground (arith, v.below i a);
  apart = λ i j a d p q. ground (arith, v.apart i j a d);
  current = v.current;
}

-- As long as the core probes one interface at a time and fewer than 2 ^ 31 are ever plugged in: whatever is plugged in
-- and out, and in whatever order, no two interfaces have the same `connect_count` at a time.
pub usb_counts_apart :
    {s : State}
    → Chain Step initial s
    → (i j : ℕ) {a : ℕ} → i ≢ j
    → s.intfdata i ≡ some a
    → s.intfdata j ≢ some a
usb_counts_apart c i j d p =
    (Chain-invariant Inv Step-Inv c
        (record { below = λ i a p. cc; apart = λ i j a d p q. cc; current = λ i a p. cc })).apart
      i j _ d p
