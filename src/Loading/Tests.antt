-- ===== src/Loading/Tests.antt =====
-- The theorems on loading and plugging at concrete answers.
use linux_foundation_embedde.Base.{
  ℕ, ◌≡◌, ◌≢◌, true, Option, some, none, arith, refl, here, next, Chain,
}
use linux_foundation_embedde.Loading.Usb

-- The interfaces 5 and 6 are plugged in.
abbrev plugged : Usb.State
plugged = record {
  my_counter = 2;
  seen =
      Usb.update
        (Usb.update (Usb.update (Usb.update Usb.initial.seen 5 (some 0)) 5 none) 6 (some 1)) 6 none;
  intfdata = Usb.update (Usb.update Usb.initial.intfdata 5 (some 0)) 6 (some 1);
}

one_at_a_time :
    (i : ℕ) → i ≢ 6 → Usb.update (Usb.update Usb.initial.seen 5 (some 0)) 5 none i ≡ none
one_at_a_time i ne = ground arith

one_at_a_time' :
    (i : ℕ)
    → i ≢ 6
    → Usb.update (Usb.update (Usb.update Usb.initial.seen 5 (some 0)) 5 none) 6 (some 1) i ≡ none
one_at_a_time' i ne = ground arith

plugging : Chain Usb.Step Usb.initial plugged
unfolding Usb.my_usb_probe
plugging =
    next
      (next
        (next (next here (Usb.Step.probe 5 Usb.initial (λ i ne. refl) (omega arith) refl))
          (Usb.Step.probe 5 _ (λ i ne. ground arith) (omega arith) refl))
        (Usb.Step.probe 6 _ one_at_a_time (omega arith) refl))
      (Usb.Step.probe 6 _ one_at_a_time' (omega arith) refl)

usb_counts_apart_example : plugged.intfdata 6 ≢ some 0
usb_counts_apart_example = Usb.usb_counts_apart plugging 5 6 (omega arith) refl

-- Two probes that read the counter before either has written it, as the probes of two hubs may, give their interfaces
-- the same count.
abbrev seen_by_both : ℕ → Option ℕ
seen_by_both = Usb.update (Usb.update Usb.initial.seen 5 (some 0)) 6 (some 0)

abbrev raced : Usb.State
raced = record {
  my_counter = 1;
  seen = Usb.update (Usb.update seen_by_both 5 none) 6 none;
  intfdata = Usb.update (Usb.update Usb.initial.intfdata 5 (some 0)) 6 (some 0);
}

probes_race :
    (t : Usb.State) × (u : Usb.State) × (w : Usb.State) × (Usb.my_usb_probe 5 true Usb.initial
      ≡ some t)
    × (Usb.my_usb_probe 6 true t ≡ some u)
    × (Usb.my_usb_probe 5 true u ≡ some w)
    × (Usb.my_usb_probe 6 true w ≡ some raced)
    × (raced.intfdata 5 ≡ raced.intfdata 6)
unfolding Usb.my_usb_probe
probes_race = (_, _, _, refl, refl, refl, refl, refl)
