-- ===== src/Iss/Plugin/Install.antt =====
-- src/iss/qemu/InstrumentPlugin.cpp: the entry point of the plugin, which reads its arguments. The
-- registration of the callbacks and of the signal handler is left out. The members that are not set
-- by an argument keep the zero that static storage has.
pub mod Numbers
pub mod RoundTrip
pub mod Examples
mod Tests
use arch_xplore.Base.{
  ℕ, ◌+◌, ◌-◌, ◌*◌, ◌^◌, ◌%◌, List, [], ◌∷◌, Bool, true, false, ◌&&◌, ◌||◌, Text, codes, length,
  ltb, leb, ◌==◌, to_u16, if◌then◌else◌, Outcome, done, throws, thrown, usage_exit, check, ◌>>=◌,
  ◌>>◌, ◌≡◌, refl,
}
use arch_xplore.Iss.Plugin.{InstrumentPlugin, start_publish_service}

-- `operator==` of std::string.
unfoldable pub same_text : Text → Text → Bool
same_text [] [] = true
same_text (a ∷ xs) (b ∷ ys) = let rest = same_text xs ys in a == b && rest
same_text _ _ = false

-- `arg.substr(0, arg.find("="))`: the whole argument if there is no "=".
unfoldable pub key_of : Text → Text
key_of [] = []
key_of (c ∷ cs) = let rest = key_of cs in if c == b'=' then [] else c ∷ rest

unfoldable pub after_equals : Text → Text → Text
after_equals whole [] = whole
after_equals whole (c ∷ cs) = let rest = after_equals whole cs in if c == b'=' then cs else rest

-- `arg.substr(arg.find("=") + 1)`: without a "=" the position wraps to 0.
unfoldable pub value_of : Text → Text
unfolding after_equals
value_of arg = after_equals arg arg

-- std::stoi: white space, a sign, and the longest run of digits. What it returns is converted to an
-- unsigned number of 64 bits.
unfoldable pub skip_space : Text → Text
skip_space [] = []
skip_space (c ∷ cs) =
    let rest = skip_space cs in if c == 32 || leb 9 c && leb c 13 then rest else c ∷ cs

unfoldable pub read_digits : Text → ℕ → ℕ
read_digits [] n = n
read_digits (c ∷ cs) n =
    let rest = read_digits cs (10 * n + (c - b'0')) in if leb b'0' c && leb c b'9' then rest else n

abbrev pub starts_with_digit : Text → Bool
starts_with_digit [] = false
starts_with_digit (c ∷ cs) = leb b'0' c && leb c b'9'

unfoldable pub read_unsigned : ℕ → Text → Outcome ℕ
read_unsigned limit cs = do
  check (starts_with_digit cs) thrown
  let n = read_digits cs 0
  check (leb n limit) thrown
  done n

unfoldable pub read_signed : Text → Outcome ℕ
read_signed [] = throws thrown
read_signed (c ∷ cs) =
    if c == b'-'
    then (do n ← read_unsigned (2 ^ 31) cs; done ((2 ^ 64 - n) % 2 ^ 64))
    else if c == b'+'
    then read_unsigned (2 ^ 31 - 1) cs
    else read_unsigned (2 ^ 31 - 1) (c ∷ cs)

unfoldable pub stoi : Text → Outcome ℕ
stoi value = read_signed (skip_space value)

abbrev pub print_usage : {A : Type 0} → Outcome A
print_usage = throws usage_exit

module _ {P : Type 0} where
  -- An argument, by its key.
  unfoldable pub set_argument : Text → InstrumentPlugin P → Outcome (InstrumentPlugin P)
  set_argument arg p =
      let key = key_of arg in
      let value = value_of arg in
      if same_text key (codes "AppName")
      then done (record p { app_name = value })
      else if same_text key (codes "Runtime")
      then done (record p { runtime = value })
      else if same_text key (codes "ProcessID")
      then (do n ← stoi value; done (record p { pid = n }))
      else if same_text key (codes "BootHart")
      then (do n ← stoi value; done (record p { boot_hart = to_u16 n }))
      else if same_text key (codes "MaxHarts")
      then (do n ← stoi value; done (record p { max_harts = to_u16 n }))
      else print_usage

  unfoldable pub set_arguments : List Text → InstrumentPlugin P → Outcome (InstrumentPlugin P)
  set_arguments [] p = done p
  set_arguments (arg ∷ args) p = do p' ← set_argument arg p; set_arguments args p'

  abbrev pub zero_plugin : InstrumentPlugin P
  zero_plugin = record {
    app_name = [];
    runtime = [];
    pid = 0;
    boot_hart = 0;
    max_harts = 0;
    vcpus = [];
    inst_cache = [];
  }

  unfoldable pub qemu_plugin_install : List Text → Outcome (InstrumentPlugin P)
  qemu_plugin_install argv =
      if ltb (length argv) 4
      then print_usage
      else (do p ← set_arguments argv zero_plugin; done (start_publish_service p))

stoi_runs : stoi (codes " 1024k") ≡ done 1024
unfolding stoi skip_space read_signed read_unsigned read_digits
stoi_runs = refl

keys_run :
    (key_of (codes "MaxHarts=4") ≡ codes "MaxHarts") × (value_of (codes "MaxHarts=4") ≡ codes "4")
unfolding key_of value_of
keys_run = (refl, refl)
