-- ===== src/Iss/Plugin/Install/Tests.antt =====
-- The round trip at a concrete process.
use arch_xplore.Base.{[], ◌++◌, codes, done, ◌≡◌, arith}
use arch_xplore.Iss.Examples.{Outbox}
use arch_xplore.Sys.Processes.{Process, new_process}
use arch_xplore.Sys.Boot.{QemuSystem, get_qemu_runtime_name, plugin_options}
use arch_xplore.Iss.Plugin.Install.{qemu_plugin_install}
use arch_xplore.Iss.Plugin.Install.Examples.{split, split_lem}
use arch_xplore.Iss.Plugin.Install.RoundTrip.{installed, install-plugin_options}

abbrev guest : Process
guest = record (new_process 3 (codes "ls") (codes "ls") [] 2) { max_harts = 4 }

abbrev host : QemuSystem Unit Unit Unit
host = record {
  app_name = codes "A1";
  executable_path = codes "bin";
  processes = [];
  cpus = [];
  subprocesses = [];
}

install-plugin_options_example :
    qemu_plugin_install {P = Outbox} (split (codes "x.so" ++ plugin_options guest host))
    ≡ done (installed (codes "A1") (get_qemu_runtime_name guest host) 3 2 4)
install-plugin_options_example =
    install-plugin_options split split_lem (codes "x.so") guest host
      (λ e. ground arith, (λ e. ground arith, (λ e. ground arith, (λ e. ground arith, tt))))
      (λ e. ground arith, (λ e. ground arith, tt)) (omega arith) (omega arith) (omega arith)
