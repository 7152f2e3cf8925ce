-- ===== src/Ioctl/Programs/BasicApp.antt =====
-- chapter_19_ioctls/basic_ioctls/basic_ioctl_app.c, once the node is open.
use linux_foundation_embedde.Base.{
  ℕ, suc, ◌<◌, ◌≡◌, ◌≢◌, Bool, true, List, [], ◌∷◌, ltb, ◌&&◌, ◌==◌, if◌then◌else◌, arith, refl, ap,
  ◌∙◌,
}
use linux_foundation_embedde.Kernel.UserAccess.{Memory, UserAccess}
use linux_foundation_embedde.Kernel.FullAccess.{IsFull}
use linux_foundation_embedde.Ioctl.{returns, is_error}
use linux_foundation_embedde.Kernel.Words.{put, load32}
use linux_foundation_embedde.Ioctl.Basic
use linux_foundation_embedde.Ioctl.Basic.{ctrl_vampire, complement, config_answers, other_commands}

-- The text "I vant your blood" with its end.
abbrev message : List ℕ
message =
    b'I' ∷ b' ' ∷ b'v' ∷ b'a' ∷ b'n' ∷ b't' ∷ b' ' ∷ b'y' ∷ b'o' ∷ b'u' ∷ b'r' ∷ b' ' ∷ b'b' ∷ b'l'
    ∷ b'o' ∷ b'o' ∷ b'd' ∷ 0 ∷ []

-- `my_data`, zero at first, of the program of basic_ioctl: the register is MY_CTRL_VAMPIRE, and the
-- message is the text.
abbrev config_data : Memory
config_data = put (put (λ _. 0) 0 (0x28 ∷ 0x48 ∷ 0x39 ∷ 0 ∷ [])) 4 message

-- How the program ends: at the first call that fails with exit(1), or with the status that it shows.
pub data Verdict : Type 0 where
  config_failed : Verdict
  start_failed : Verdict
  stop_failed : Verdict
  success : (status : ℕ) → Verdict

-- The three calls on the struct `my_data`. The status that the program shows is the struct's register
-- after CONFIG.
unfoldable configured :
    UserAccess → Basic.Commands → (stack stack' stack'' my_data : Memory) → Verdict
configured u k stack stack' stack'' my_data =
    let config = Basic.my_ioctl u k k.config stack my_data in
    let start = Basic.my_ioctl u k k.start stack' config.1 in
    let stop = Basic.my_ioctl u k k.stop stack'' start.1 in
    if is_error config.0
    then config_failed
    else if is_error start.0
    then start_failed
    else if is_error stop.0
    then stop_failed
    else success (load32 config.1)

-- The program, from its struct on.
unfoldable pub basic_app : UserAccess → Basic.Commands → (stack stack' stack'' : Memory) → Verdict
unfolding configured
basic_app u k stack stack' stack'' = configured u k stack stack' stack'' config_data

are_bytes : List ℕ → Bool
are_bytes [] = true
are_bytes (b ∷ bs) = ltb b 256 && are_bytes bs

-- Storing bytes keeps a memory made of bytes.
put-lt :
    (m : Memory) (offset : ℕ) (bs : List ℕ)
    → ((i : ℕ) → m i < 256)
    → are_bytes bs ≡ true
    → (i : ℕ) → put m offset bs i < 256
unfolding are_bytes
put-lt m offset [] h b i = h i
put-lt m offset (x ∷ bs) h b i =
    put-lt (λ i. if i == offset then x else m i) (suc offset) bs (λ j. ground (arith, h j, b))
      (ground (arith, b)) i

configured-eq :
    (u : UserAccess) (k : Basic.Commands)
    → k.start ≢ k.config
    → k.stop ≢ k.config
    → (stack stack' stack'' my_data m : Memory)
    → Basic.my_ioctl u k k.config stack my_data ≡ (returns 0, m)
    → configured u k stack stack' stack'' my_data ≡ success (load32 m)
unfolding configured
configured-eq u k start stop stack stack' stack'' my_data m h =
    rw (h, other_commands u k k.start stack' m start, other_commands u k k.stop stack'' m stop)
      (ground arith)

config_data-lt : (i : ℕ) → config_data i < 256
unfolding are_bytes
config_data-lt =
    put-lt _ 4 message (put-lt (λ _. 0) 0 (0x28 ∷ 0x48 ∷ 0x39 ∷ 0 ∷ []) (λ i. omega arith) refl)
      refl

mode_set : load32 config_data ≡ ctrl_vampire
unfolding load32
mode_set = refl

-- The program of basic_ioctl, with full access to its memory and different numbers of the commands:
-- all three calls succeed, and the status shown is the complement of the mode it configured.
basic_app_succeeds :
    (u : UserAccess)
    → IsFull u
    → (k : Basic.Commands) → k.start ≢ k.config
    → k.stop ≢ k.config
    → (stack stack' stack'' : Memory)
    → basic_app u k stack stack' stack'' ≡ success (complement ctrl_vampire)
unfolding basic_app load32
basic_app_succeeds u full k start stop stack stack' stack'' =
    let (m, call, status, _, _) = config_answers u k full stack config_data config_data-lt refl in
    configured-eq u k start stop stack stack' stack'' config_data m call
    ∙ ap success (omega (arith, status, mode_set))
