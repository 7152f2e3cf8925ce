-- ===== src/Modules/Pair.antt =====
-- lab_module1.c and lab_module2.c of chapter_9_modules/duplicate_modules: the second calls mod1fun of the first, as
-- lab_char_module2.c calls mod_fun.
use linux_foundation_embedde.Base.{Option}
use linux_foundation_embedde.Modules.{State}
use linux_foundation_embedde.Modules

abbrev pub mod1fun : State → Option State
mod1fun = Modules.mod_fun

abbrev pub my_init : State → Option State
my_init = Modules.my_init

abbrev pub my_exit : State → State
my_exit = Modules.my_exit
