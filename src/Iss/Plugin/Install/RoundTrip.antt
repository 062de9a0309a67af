-- ===== src/Iss/Plugin/Install/RoundTrip.antt =====
-- The plugin reads what the system writes.
use arch_xplore.Base.{
  ℕ, ◌^◌, ◌<◌, List, [], ◌∷◌, ◌++◌, Bool, true, ◌&&◌, not, ◌==◌, none, Text, codes, to_string, All,
  replicate, concat, map, done, ◌≡◌, ◌≢◌, refl, ap, ◌∙◌, arith, append_assoc, All-append,
  append-nil,
}
use arch_xplore.Cpu.Insts.{zero_inst}
use arch_xplore.Iss.Plugin.{InstrumentPlugin, start_publish_service}
use arch_xplore.Iss.Plugin.Install.{
  same_text, key_of, value_of, after_equals, set_argument, set_arguments, zero_plugin,
  qemu_plugin_install,
}
use arch_xplore.Iss.Plugin.Install.Numbers.{stoi-to_string, to_string-without}
use arch_xplore.Sys.Processes.{Process}
use arch_xplore.Sys.Boot.{QemuSystem, get_qemu_runtime_name, plugin_options}

-- The option of `-plugin` as the emulator documents it: a file and its arguments, separated by commas.
abbrev pub join_option : Text → List Text → Text
join_option file args = file ++ concat (map (λ a. b',' ∷ a) args)

abbrev pub HasNoComma : Text → Type 0
HasNoComma = All (λ c. c ≢ b',')

module _ {E Q H : Type 0} where
  -- The arguments that `newQemuProcess` passes to the plugin.
  abbrev pub arguments_of : Process → QemuSystem E Q H → List Text
  arguments_of p s =
      (codes "AppName=" ++ s.app_name)
      ∷ (codes "Runtime=" ++ get_qemu_runtime_name p s)
      ∷ (codes "ProcessID=" ++ to_string p.pid)
      ∷ (codes "BootHart=" ++ to_string p.boot_hart)
      ∷ (codes "MaxHarts=" ++ to_string p.max_harts)
      ∷ []

  plugin_options-join :
      (file : Text) (p : Process) (s : QemuSystem E Q H)
      → file ++ plugin_options p s ≡ join_option file (arguments_of p s)
  unfolding plugin_options
  plugin_options-join file p s = simp (append_assoc, append-nil)

module _ {P : Type 0} where
  set_argument-app_name :
      (t : Text) (q : InstrumentPlugin P)
      → set_argument (codes "AppName=" ++ t) q ≡ done (record q { app_name = t })
  unfolding set_argument key_of value_of after_equals same_text
  set_argument-app_name t q = refl

  set_argument-runtime :
      (t : Text) (q : InstrumentPlugin P)
      → set_argument (codes "Runtime=" ++ t) q ≡ done (record q { runtime = t })
  unfolding set_argument key_of value_of after_equals same_text
  set_argument-runtime t q = refl

  set_argument-pid :
      (n : ℕ) (q : InstrumentPlugin P)
      → n < 2 ^ 31
      → set_argument (codes "ProcessID=" ++ to_string n) q ≡ done (record q { pid = n })
  unfolding set_argument key_of value_of after_equals same_text
  set_argument-pid n q lt = rw (stoi-to_string n lt)

  set_argument-boot_hart :
      (n : ℕ) (q : InstrumentPlugin P)
      → n < 2 ^ 16
      → set_argument (codes "BootHart=" ++ to_string n) q ≡ done (record q { boot_hart = n })
  unfolding set_argument key_of value_of after_equals same_text
  set_argument-boot_hart n q lt =
      rw (stoi-to_string n (omega arith))
        (ap (λ m. done (record q { boot_hart = m })) (omega arith))

  set_argument-max_harts :
      (n : ℕ) (q : InstrumentPlugin P)
      → n < 2 ^ 16
      → set_argument (codes "MaxHarts=" ++ to_string n) q ≡ done (record q { max_harts = n })
  unfolding set_argument key_of value_of after_equals same_text
  set_argument-max_harts n q lt =
      rw (stoi-to_string n (omega arith))
        (ap (λ m. done (record q { max_harts = m })) (omega arith))

  -- The plugin of a process, before anything has run.
  abbrev pub installed : Text → Text → ℕ → ℕ → ℕ → InstrumentPlugin P
  installed app runtime pid boot harts = record {
    app_name = app;
    runtime = runtime;
    pid = pid;
    boot_hart = boot;
    max_harts = harts;
    vcpus =
        replicate harts
          (record { inst_counter = 0; event_counter = 0; last_inst = zero_inst; publisher = none });
    inst_cache = [];
  }

  install_lem :
      (app runtime : Text) (pid boot harts : ℕ)
      → pid < 2 ^ 31
      → boot < 2 ^ 16
      → harts < 2 ^ 16
      → qemu_plugin_install (
          (codes "AppName=" ++ app)
          ∷ (codes "Runtime=" ++ runtime)
          ∷ (codes "ProcessID=" ++ to_string pid)
          ∷ (codes "BootHart=" ++ to_string boot)
          ∷ (codes "MaxHarts=" ++ to_string harts)
          ∷ [])
        ≡ done (installed app runtime pid boot harts)
  unfolding qemu_plugin_install set_arguments start_publish_service
  install_lem app runtime pid boot harts p b h = rw (
    set_argument-app_name app zero_plugin,
    set_argument-runtime runtime (record zero_plugin { app_name = app }),
    set_argument-pid pid (record zero_plugin { app_name = app; runtime = runtime }) p,
    set_argument-boot_hart boot
        (record zero_plugin { app_name = app; runtime = runtime; pid = pid }) b,
    set_argument-max_harts harts
        (record zero_plugin { app_name = app; runtime = runtime; pid = pid; boot_hart = boot }) h,
  )

-- A text is without commas if looking at each byte finds none.
unfoldable pub is_clean : Text → Bool
is_clean [] = true
is_clean (c ∷ cs) = let rest = is_clean cs in not (c == b',') && rest

pub clean-HasNoComma : (t : Text) → is_clean t ≡ true → HasNoComma t
unfolding is_clean
clean-HasNoComma [] h = tt
clean-HasNoComma (c ∷ cs) h = (ground arith, clean-HasNoComma cs (ground arith))

module _ {E Q H : Type 0} (p : Process) (s : QemuSystem E Q H) (app : HasNoComma s.app_name) where
  runtime-HasNoComma : HasNoComma (get_qemu_runtime_name p s)
  unfolding get_qemu_runtime_name is_clean
  runtime-HasNoComma = All-append _ s.app_name _ app (
      All-append _ (codes "_QEMU_Process_") _ (clean-HasNoComma (codes "_QEMU_Process_") refl)
        (to_string-without b',' p.pid (omega arith)))

  arguments-HaveNoComma : All HasNoComma (arguments_of p s)
  unfolding is_clean
  arguments-HaveNoComma =
      let numeral : (key : Text) (n : ℕ) → is_clean key ≡ true → HasNoComma (key ++ to_string n) =
        λ key n h.
          All-append _ key _ (clean-HasNoComma key h) (to_string-without b',' n (omega arith)) in
      (
        All-append _ (codes "AppName=") _ (clean-HasNoComma (codes "AppName=") refl) app,
        (
          All-append _ (codes "Runtime=") _ (clean-HasNoComma (codes "Runtime=") refl)
              runtime-HasNoComma,
          (
            numeral (codes "ProcessID=") p.pid refl,
            (
              numeral (codes "BootHart=") p.boot_hart refl,
              (numeral (codes "MaxHarts=") p.max_harts refl, tt),
            ),
          ),
        ),
      )

-- If the emulator splits the option at its commas and calls the plugin with the arguments, then
-- installing the plugin returns, with the names and numbers of the process that `newQemuProcess` was
-- called for, and a virtual processor for each of its harts. The process number must be below 2 ^ 31,
-- the other two numbers below 2 ^ 16, and file and application name without a comma.
pub install-plugin_options :
    {E Q H P : Type 0} (split : Text → List Text)
    → ((file : Text) (args : List Text)
        → HasNoComma file
        → All HasNoComma args
        → split (join_option file args) ≡ args)
    → (file : Text) (p : Process) (s : QemuSystem E Q H) → HasNoComma file
    → HasNoComma s.app_name
    → p.pid < 2 ^ 31
    → p.boot_hart < 2 ^ 16
    → p.max_harts < 2 ^ 16
    → qemu_plugin_install {P = P} (split (file ++ plugin_options p s))
      ≡ done (installed s.app_name (get_qemu_runtime_name p s) p.pid p.boot_hart p.max_harts)
install-plugin_options split splits file p s clean app pid boot harts =
    ap qemu_plugin_install (
      ap split (plugin_options-join file p s)
      ∙ splits file (arguments_of p s) clean (arguments-HaveNoComma p s app))
    ∙ install_lem s.app_name (get_qemu_runtime_name p s) p.pid p.boot_hart p.max_harts pid boot
        harts
